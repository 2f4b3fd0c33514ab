-- ===== src/Engine/View.antt =====
-- What pass 1 left is what passes 2 and 3 need.
use dbrew.Prelude.{ℕ, zero, suc, ◌+◌, ◌^◌, ◌≤◌, ◌<◌, ◌≡◌, refl, ap, ◌∙◌, ◌⊎◌, inl, inr, some}
use dbrew.Prelude.{List, [], ◌∷◌, arith, ◌==◌, ==_iff, Bool-cases, ◌>>=◌, Option-cases, length}
use dbrew.Prelude.{get_elem?}
use mathlib.Core.Path.{subst}
use native.Mathlib.Decide.{ℕ_discrete}
use dbrew.Memory.{Memory}
use dbrew.Instr.Copy.{instr_is_jcc}
use dbrew.Instr.Types.{Operand, Instr}
use dbrew.Capture.InstrLaws.{instrs_in}
use dbrew.Capture.Types.{Cbb}
use dbrew.Capture.Segments.{take, segment}
use dbrew.Generate.Block.{code, generate}
use dbrew.Engine.PlaceLaws.{HasTargets, AllHaveTargets}
use dbrew.Engine.Binary.{position, gen_cbb, gen_cbbs}
use dbrew.Engine.Emit.{GenState}
use dbrew.Engine.Blocks.{GenCbb}
use dbrew.Engine.Spacing.{Spaced, spaced_end}
use dbrew.Engine.Emitted.{joined}
use dbrew.Engine.Reach.{IsKnown, IsReached}
use dbrew.Engine.Laid.{HasCode, Laid}
use dbrew.Engine.LayoutLaws.{IsGenerated}

pub position-there :
    (order : List ℕ) (k i : ℕ)
    → get_elem? order k ≡ some i
    → (j : ℕ) × (position order i ≡ some j) × (get_elem? order j ≡ some i)
unfolding position
position-there [] k i e = absurd (ground arith)
position-there (x ∷ order) zero i e =
    let y : x ≡ i = ground arith in
    let z = (==_iff x i).1 y in (0, rw (position, z) refl, ap some y)
position-there (x ∷ order) (suc k) i e = elim (Bool-cases (x == i)) [
  | inl z ↦ (0, rw (position, z) refl, ap some ((==_iff x i).0 z))
  | inr z ↦
      let (j, p, t) = position-there order k i e in
      let y : suc j ≡ j + 1 = omega arith in
      (j + 1, rw (position, z, p) refl, subst (λ n. get_elem? (x ∷ order) n ≡ some i) y t)
]

-- A block and its view.
pub record Viewed (order : List ℕ) (bbs : List Cbb) (i : ℕ) (p : GenCbb) : Type 0 where
  pub block : Cbb
  pub there : get_elem? bbs i ≡ some block
  pub view : gen_cbb order block ≡ some p

-- The views of blocks.
pub record Views (order : List ℕ) (bbs : List Cbb) (ids : List ℕ) (a end : ℕ) : Type 0 where
  pub cbbs : List GenCbb
  pub runs : gen_cbbs order bbs ids ≡ some cbbs
  pub spaced : Spaced cbbs a
  pub end_eq : spaced_end cbbs a ≡ end
  pub to :
      (k i : ℕ)
      → get_elem? ids k ≡ some i
      → (p : GenCbb) × (get_elem? cbbs k ≡ some p) × Viewed order bbs i p
  pub from :
      (k : ℕ) (p : GenCbb)
      → get_elem? cbbs k ≡ some p
      → (i : ℕ) × (get_elem? ids k ≡ some i) × Viewed order bbs i p

to_cons :
    (P : ℕ → GenCbb → Type 0) (i : ℕ) (p : GenCbb) (ids : List ℕ) (ps : List GenCbb)
    → P i p
    → ((k j : ℕ) → get_elem? ids k ≡ some j → (q : GenCbb) × (get_elem? ps k ≡ some q) × P j q)
    → (k j : ℕ) → get_elem? (i ∷ ids) k ≡ some j
    → (q : GenCbb) × (get_elem? (p ∷ ps) k ≡ some q) × P j q
to_cons P i p ids ps w h zero j e =
    let z : i ≡ j = ground arith in (p, refl, subst (λ n. P n p) z w)
to_cons P i p ids ps w h (suc k) j e = h k j e

from_cons :
    (P : ℕ → GenCbb → Type 0) (i : ℕ) (p : GenCbb) (ids : List ℕ) (ps : List GenCbb)
    → P i p
    → ((k : ℕ) (q : GenCbb)
        → get_elem? ps k ≡ some q
        → (j : ℕ) × (get_elem? ids k ≡ some j) × P j q)
    → (k : ℕ) (q : GenCbb) → get_elem? (p ∷ ps) k ≡ some q
    → (j : ℕ) × (get_elem? (i ∷ ids) k ≡ some j) × P j q
from_cons P i p ids ps w h zero q e =
    let z : p ≡ q = ground arith in (i, refl, subst (λ x. P i x) z w)
from_cons P i p ids ps w h (suc k) q e = h k q e

segment-none : (s : ℕ) (instrs : List Instr) → segment s 0 instrs ≡ []
unfolding segment take
segment-none zero instrs = refl
segment-none (suc s) [] = refl
segment-none (suc s) (x ∷ xs) = segment-none s xs

-- A block with code has instructions.
code_count :
    (junk : Operand) (instrs : List Instr) (c : Cbb) (bs : List ℕ)
    → HasCode junk instrs c bs
    → (length bs ≡ 0) ⊎ (0 < c.count)
unfolding instrs_in generate joined
code_count junk instrs c bs (codes, h, e) = elim (ℕ_discrete c.count 0) [
  | no n ↦ inr (ground arith)
  | yes z ↦
      let none_in : instrs_in instrs c ≡ [] = elim (Option-cases c.instr) [
        | inl x ↦ rw x refl
        | inr (s, x) ↦ rw (x, z) (segment-none s instrs)
      ] in
      let x : generate junk [] ≡ some (code codes) = rw none_in at h in
      let y : [] ≡ codes = ground (arith, x) in inl (rw (e, ← y) refl)
]

module _ (junk : Operand) (instrs : List Instr) (order : List ℕ) (m : Memory) (bbs : List Cbb) where
  view_of : Cbb → ℕ → GenCbb
  view_of c n = record {
    count = c.count;
    end_type = c.end_type;
    next_branch = c.next_branch >>= position order;
    next_fall_through = c.next_fall_through >>= position order;
    size = n;
    addr1 = c.addr1;
    addr2 = c.addr2;
    gen_jcc8 = c.gen_jcc8;
    gen_jump = c.gen_jump;
  }

  gen_cbb-view : (c : Cbb) (n : ℕ) → c.size ≡ some n → gen_cbb order c ≡ some (view_of c n)
  unfolding gen_cbb view_of
  gen_cbb-view c n e = simp (gen_cbb, e)

  pub views :
      (ids : List ℕ) (a end : ℕ) → Laid junk instrs m bbs ids a end → Views order bbs ids a end
  unfolding gen_cbbs view_of
  views [] a end h = record {
    cbbs = [];
    runs = refl;
    spaced = tt;
    end_eq = h;
    to = λ k i e. absurd (ground arith);
    from = λ k p e. absurd (ground arith);
  }
  views (i ∷ ids) a end (c, bs, e, x, t) =
      let v = views ids (a + length bs + 26) end t in
      let g = gen_cbb-view c (length bs) x.sized in
      let w : Viewed order bbs i (view_of c (length bs)) = record {
        block = c;
        there = e;
        view = g;
      } in
      record {
        cbbs = view_of c (length bs) ∷ v.cbbs;
        runs = rw (e, g, v.runs) refl;
        spaced = (x.start, code_count junk instrs c bs x.has_code, x.no_jcc8, x.no_jump, v.spaced);
        end_eq = v.end_eq;
        to = to_cons (λ j p. Viewed order bbs j p) i (view_of c (length bs)) ids v.cbbs w v.to;
        from =
            from_cons (λ j p. Viewed order bbs j p) i (view_of c (length bs)) ids v.cbbs w v.from;
      }

-- What the view of a block shows.
pub record ViewOf (order : List ℕ) (c : Cbb) (p : GenCbb) : Type 0 where
  pub sized : c.size ≡ some p.size
  pub start : p.addr1 ≡ c.addr1
  pub end_type : p.end_type ≡ c.end_type
  pub branch : p.next_branch ≡ (c.next_branch >>= position order)
  pub fall_through : p.next_fall_through ≡ (c.next_fall_through >>= position order)

pub gen_cbb-ViewOf :
    (order : List ℕ) (c : Cbb) (p : GenCbb) → gen_cbb order c ≡ some p → ViewOf order c p
unfolding gen_cbb
gen_cbb-ViewOf order c p h = elim (Option-cases c.size) [
  | inl x ↦ absurd (ground (arith, x, h))
  | inr (n, x) ↦
      let q : GenCbb = record {
        count = c.count;
        end_type = c.end_type;
        next_branch = c.next_branch >>= position order;
        next_fall_through = c.next_fall_through >>= position order;
        size = n;
        addr1 = c.addr1;
        addr2 = c.addr2;
        gen_jcc8 = c.gen_jcc8;
        gen_jump = c.gen_jump;
      } in
      let z : q ≡ p = ground (arith, x, h) in
      subst (λ y. ViewOf order c y) z
        (record { sized = x; start = refl; end_type = refl; branch = refl; fall_through = refl })
]

all_have :
    (all cs : List GenCbb)
    → ((k : ℕ) (p : GenCbb) → get_elem? cs k ≡ some p → HasTargets all p)
    → AllHaveTargets all cs
all_have all [] h = tt
all_have all (c ∷ cs) h = (h 0 c refl, all_have all cs (λ k p e. h (suc k) p e))

-- The state when the stack is empty.
module _ (g0 : GenState) (b : ℕ) (g : GenState) (h : IsReached g0 b g)
    (done : g.context.cap_stack ≡ []) where
  pub view_result : Views g.gen_order g.context.cap_bb g.gen_order b (g.cs.buf + g.cs.used)
  view_result =
      views g0.context.junk.dst g0.context.cap_instr g.gen_order g.memory g.context.cap_bb
        g.gen_order b (g.cs.buf + g.cs.used) h.laid

  -- A known block stands in the order.
  pub known_position :
      (i : ℕ)
      → IsKnown g.context.cap_bb g.context.cap_stack i
      → (j : ℕ) × (position g.gen_order i ≡ some j) × (get_elem? g.gen_order j ≡ some i)
  known_position i (inl (k, x)) = absurd (ground (arith, done, x))
  known_position i (inr (c, n, ec, es)) =
      let (k, ek) = h.ordered i n c ec es in position-there g.gen_order k i ek

  targets :
      (k : ℕ) (p : GenCbb) → get_elem? view_result.cbbs k ≡ some p → HasTargets view_result.cbbs p
  targets k p e =
      let (i, ei, v) = view_result.from k p e in
      let o = gen_cbb-ViewOf g.gen_order v.block p v.view in
      elim (h.closed i p.size v.block v.there o.sized) [
        | inl x ↦ inl (ap instr_is_jcc o.end_type ∙ x)
        | inr (s, f, j, es, ef, ks, kf) ↦
            let (js, ps, ts) = known_position s ks in
            let (jf, pf, tf) = known_position f kf in
            let (q, eq, _) = view_result.to js s ts in
            let (r, er, _) = view_result.to jf f tf in
            inr (
              js,
              q,
              jf,
              r,
              o.branch ∙ ap (λ x. x >>= position g.gen_order) es ∙ ps,
              eq,
              o.fall_through ∙ ap (λ x. x >>= position g.gen_order) ef ∙ pf,
              er,
            )
      ]

  pub is_generated :
      g.cs.buf + g.cs.used ≤ b + 2 ^ 31 → b + 2 ^ 31 ≤ 2 ^ 64 → IsGenerated view_result.cbbs b
  is_generated l r = record {
    spaced = view_result.spaced;
    targets = all_have view_result.cbbs view_result.cbbs targets;
    fits = omega (arith, l, view_result.end_eq);
    in_range = r;
  }
