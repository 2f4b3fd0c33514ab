-- ===== src/Engine/ReachSteps.antt =====
-- A round of pass 1 keeps its invariant.
use dbrew.Prelude.{ℕ, zero, suc, ◌<◌, ◌≡◌, refl, ap, inl, inr, some, List, ◌∷◌, arith, length}
use dbrew.Prelude.{get_elem?}
use mathlib.Core.Path.{subst}
use dbrew.Capture.Types.{Cbb}
use dbrew.Engine.Pass1Ends.{popped}
use dbrew.Engine.Emit.{GenState}
use dbrew.Engine.Reach.{IsKnown, Successors-map, IsReached}

-- A block that is known stays so when the top of the stack is.
IsKnown-pop :
    (bbs : List Cbb) (stack rest : List ℕ) (top i : ℕ)
    → stack ≡ top ∷ rest
    → IsKnown bbs rest top
    → IsKnown bbs stack i
    → IsKnown bbs rest i
IsKnown-pop bbs stack rest top i e h (inr x) = inr x
IsKnown-pop bbs stack rest top i e h (inl (zero, x)) =
    let y : get_elem? (top ∷ rest) 0 ≡ some i = rw e at x in
    let z : top ≡ i = ground (arith, y) in subst (λ n. IsKnown bbs rest n) z h
IsKnown-pop bbs stack rest top i e h (inl (suc k, x)) = inl (k, rw e at x)

module _ (g0 : GenState) (b : ℕ) (g : GenState) (top : ℕ) (rest : List ℕ)
    (e : g.context.cap_stack ≡ top ∷ rest) (h : IsReached g0 b g) where
  stacked-rest : (k i : ℕ) → get_elem? rest k ≡ some i → i < length g.context.cap_bb
  stacked-rest k i x = h.stacked (suc k) i (rw e x)

  pub top_bound : top < length g.context.cap_bb
  top_bound = h.stacked 0 top (rw e refl)

  -- The block on top was generated before.
  pub IsReached-skip :
      (c : Cbb) (n : ℕ)
      → get_elem? g.context.cap_bb top ≡ some c
      → c.size ≡ some n
      → IsReached g0 b (popped g rest)
  IsReached-skip c n ec es = record {
    ok = h.ok;
    junk = h.junk;
    instrs = h.instrs;
    buf = h.buf;
    fullsize = h.fullsize;
    laid = h.laid;
    ordered = h.ordered;
    closed = λ i k d ed sd.
        Successors-map (IsKnown g.context.cap_bb g.context.cap_stack)
          (IsKnown g.context.cap_bb rest) d
          (λ j. IsKnown-pop g.context.cap_bb g.context.cap_stack rest top j e (inr (c, n, ec, es)))
          (h.closed i k d ed sd);
    ready = h.ready;
    room = h.room;
    count = h.count;
    depth = omega (arith, h.depth, ap length e);
    stacked = stacked-rest;
    same = h.same;
    number = h.number;
    start = elim (h.start) [
      | inl x ↦ inl x
      | inr (x, y) ↦ let (k, ek) = h.ordered top n c ec es in absurd (ground (arith, x, ek))
    ];
    below = h.below;
  }
