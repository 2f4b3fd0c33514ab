-- ===== src/Engine/Pass1Laws.antt =====
-- Pass 1 generates all blocks that are reached, when there is room for them.
use dbrew.Prelude.{ℕ, zero, suc, ◌<◌, ◌≡◌, ap, ◌∙◌, inl, inr, some, List, [], ◌∷◌, arith}
use dbrew.Prelude.{Option-cases, length, List-cases, get_elem?-there}
use dbrew.Engine.Pass1Ends.{pending-le-one, work, visit-work, popped, pass1-goes, pass1-empty}
use dbrew.Engine.ReachGenerates.{visit_goes, IsReached-generates}
use dbrew.Engine.Emit.{GenState}
use dbrew.Engine.ReachSteps.{top_bound, IsReached-skip}
use dbrew.Engine.Visit.{visited}
use dbrew.Engine.Push.{has_pushed}
use dbrew.Engine.Pass1.{visit, finished, pass1}
use dbrew.Engine.Reach.{IsReached}

-- One round.
record Round (g0 : GenState) (b : ℕ) (g : GenState) (top : ℕ) (rest : List ℕ) : Type 0 where
  after : GenState
  runs : visit (popped g rest) top ≡ some after
  reached : IsReached g0 b after

round :
    (g0 : GenState) (b : ℕ) (g : GenState) (top : ℕ) (rest : List ℕ)
    → g.context.cap_stack ≡ top ∷ rest
    → IsReached g0 b g
    → Round g0 b g top rest
unfolding visit
round g0 b g top rest e h =
    let (c, ec) = get_elem?-there g.context.cap_bb top (top_bound g0 b g top rest e h) in
    elim (Option-cases c.size) [
      | inr (n, s) ↦ record {
        after = popped g rest;
        runs = ground (arith, ec, s);
        reached = IsReached-skip g0 b g top rest e h c n ec s;
      }
      | inl s ↦
          let depth = pending-le-one g.context.cap_bb top c ec s in
          let (stack, p) =
            has_pushed c rest (length g.context.cap_bb) (omega (arith, h.depth, ap length e, depth))
              (h.ready top c ec s).successors in
          record {
            after = visited (popped g rest) top c (h.ready top c ec s).bytes stack;
            runs = visit_goes g0 b g top rest e h c ec s stack p;
            reached = IsReached-generates g0 b g top rest e h c ec s stack p;
          }
    ]

-- The loop.
pub record AllReached (g0 : GenState) (b : ℕ) (g : GenState) (n : ℕ) : Type 0 where
  pub after : GenState
  pub runs : pass1 n g ≡ finished (some after)
  pub reached : IsReached g0 b after
  pub empty : after.context.cap_stack ≡ []

pub all_reached :
    (g0 : GenState) (b n : ℕ) (g : GenState) → work g < n → IsReached g0 b g → AllReached g0 b g n
all_reached g0 b zero g l h = absurd (omega arith)
all_reached g0 b (suc n) g l h = elim (List-cases g.context.cap_stack) [
  | inl e ↦ record { after = g; runs = pass1-empty n g e; reached = h; empty = e }
  | inr (top, rest, e) ↦
      let r = round g0 b g top rest e h in
      let w = visit-work (popped g rest) r.after top r.runs r.reached.ok in
      let a = all_reached g0 b n r.after (omega (arith, w, ap length e, l)) r.reached in
      record {
        after = a.after;
        runs = pass1-goes n g top rest e r.after r.runs r.reached.ok ∙ a.runs;
        reached = a.reached;
        empty = a.empty;
      }
]
