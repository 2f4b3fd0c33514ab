-- ===== src/Capture/InstrLaws.antt =====
-- Captured instructions: the array of all of them holds one list of instructions for each block.
-- The instructions of a block.
use dbrew.Prelude.{ℕ, ◌+◌, ◌≤◌, ◌<◌, ◌≡◌, refl, sym, ◌∙◌, ◌≢◌, inl, inr, Option, none, some}
use dbrew.Prelude.{List, [], ◌∷◌, ◌++◌, arith, lt→leb_false, ◌>>=◌, Option-cases, length}
use dbrew.Prelude.{get_elem?, set, length-append, get_elem?-set_self, get_elem?-set_ne}
use dbrew.Prelude.{get_elem?-bound}
use native.Mathlib.Decide.{ℕ_discrete}
use dbrew.Instr.Copy.{copy_instr}
use dbrew.Instr.Types.{Instr}
use dbrew.Capture.Blocks.{new_cap_instr, add_captured, capture}
use dbrew.Capture.Types.{Cbb, RContext}
use dbrew.Capture.Segments.{segment, segment-append, segment-append_one, set-append_self}
use dbrew.Capture.Segments.{get_elem?-append_self, segment-start}

unfoldable pub instrs_in : List Instr → Cbb → List Instr
instrs_in instrs bb = elim (bb.instr) [ none ↦ [] | some s ↦ segment s bb.count instrs ]

unfoldable pub instrs_at : List Instr → Option Cbb → List Instr
unfolding instrs_in
instrs_at instrs none = []
instrs_at instrs (some bb) = instrs_in instrs bb

unfoldable pub instrs_of : RContext → ℕ → List Instr
unfolding instrs_at
instrs_of r k = instrs_at r.cap_instr (get_elem? r.cap_bb k)

-- The instructions as they are captured.
unfoldable pub copy_all : Instr → List Instr → Option (List Instr)
copy_all junk [] = some []
copy_all junk (i ∷ rest) = do c ← copy_instr junk i; cs ← copy_all junk rest; some (c ∷ cs)

-- The instructions of a block lie in the array.
pub data IsWithin (n : ℕ) (bb : Cbb) : Type 0 where
  empty : bb.instr ≡ none → bb.count ≡ 0 → IsWithin n bb
  filled : (s : ℕ) → bb.instr ≡ some s → s + bb.count ≤ n → IsWithin n bb

-- The block has no instruction, or its last one is the last of the array.
pub data IsLast (n : ℕ) (bb : Cbb) : Type 0 where
  empty : bb.instr ≡ none → bb.count ≡ 0 → IsLast n bb
  filled : (s : ℕ) → bb.instr ≡ some s → s + bb.count ≡ n → IsLast n bb

-- Instructions can be captured into block `cur` without touching those of other blocks.
pub record IsOpen (r : RContext) (cur : ℕ) : Type 0 where
  pub ok : r.e ≡ none
  pub current : r.current_cap_bb ≡ some cur
  pub bb : Cbb
  pub there : get_elem? r.cap_bb cur ≡ some bb
  pub last : IsLast (length r.cap_instr) bb
  pub within : (k : ℕ) (b : Cbb) → get_elem? r.cap_bb k ≡ some b → IsWithin (length r.cap_instr) b

-- The block with one instruction more, when the array had `n` of them.
unfoldable pub grown : ℕ → Cbb → Cbb
grown n bb = record bb {
  instr = some (elim (bb.instr) [ some s ↦ s | none ↦ n ]);
  count = bb.count + 1;
}

instrs_in-grown :
    (os : List Instr) (bb : Cbb) (new : Instr)
    → IsLast (length os) bb
    → instrs_in (os ++ new ∷ []) (grown (length os) bb) ≡ instrs_in os bb ++ new ∷ []
unfolding instrs_in grown
instrs_in-grown os bb new (empty e c) = rw (e, c) (segment-start os new)
instrs_in-grown os bb new (filled s e c) = rw e (segment-append_one s bb.count os new c)

instrs_in-append :
    (os js : List Instr) (bb : Cbb)
    → IsWithin (length os) bb
    → instrs_in (os ++ js) bb ≡ instrs_in os bb
unfolding instrs_in
instrs_in-append os js bb (empty e c) = rw e refl
instrs_in-append os js bb (filled s e c) = rw e (segment-append s bb.count os js c)

-- One step: the context behind `capture` when there is room.
unfoldable pub captured : RContext → ℕ → Cbb → Instr → RContext
captured r cur bb new = record r {
  cap_instr = r.cap_instr ++ new ∷ [];
  cap_bb = set r.cap_bb cur (grown (length r.cap_instr) bb);
}

pub capture-room :
    (r : RContext) (cur : ℕ) (instr new : Instr)
    → (h : IsOpen r cur) → length r.cap_instr < r.cap_instr_capacity
    → copy_instr r.junk instr ≡ some new
    → capture r instr ≡ some (captured r cur h.bb new)
unfolding capture captured new_cap_instr add_captured grown
capture-room r cur instr new h l e =
    let z = lt→leb_false r.cap_instr_capacity (length r.cap_instr) l in
    let g = get_elem?-append_self r.cap_instr r.junk in
    let t = set-append_self r.cap_instr r.junk new in
    elim h.last [
      | empty i c ↦ ground (arith, h.current, z, h.ok, h.there, i, c, g, e, t)
      | filled s i c ↦ ground (arith, h.current, z, h.ok, h.there, i, g, e, t)
    ]

IsWithin-mono : (n m : ℕ) (bb : Cbb) → n ≤ m → IsWithin n bb → IsWithin m bb
IsWithin-mono n m bb l (empty e c) = empty e c
IsWithin-mono n m bb l (filled s e c) = filled s e (omega arith)

grown-IsLast :
    (n : ℕ) (bb : Cbb)
    → IsLast n bb
    → (s : ℕ) × ((grown n bb).instr ≡ some s) × (s + (grown n bb).count ≡ n + 1)
unfolding grown
grown-IsLast n bb (empty e c) = (n, rw e refl, omega (arith, c))
grown-IsLast n bb (filled s e c) = (s, rw e refl, omega (arith, c))

pub captured-IsOpen :
    (r : RContext) (cur : ℕ) (h : IsOpen r cur) (new : Instr) → IsOpen (captured r cur h.bb new) cur
unfolding captured
captured-IsOpen r cur h new =
    let n = length r.cap_instr in
    let g = grown n h.bb in
    let (s, e, c) = grown-IsLast n h.bb h.last in
    let len = length-append r.cap_instr (new ∷ []) in
    record {
      ok = h.ok;
      current = h.current;
      bb = g;
      there = get_elem?-set_self r.cap_bb cur g (get_elem?-bound r.cap_bb cur h.bb h.there);
      last = filled s e (c ∙ sym len);
      within = λ k b eq. elim (ℕ_discrete cur k) [
        | yes z ↦
            let y = get_elem?-set_self r.cap_bb cur g (get_elem?-bound r.cap_bb cur h.bb h.there) in
            let x : g ≡ b = ground (arith, z, y, eq) in rw⁻¹ x (filled s e (omega (arith, c, len)))
        | no ne ↦
            let w = h.within k b (rw (get_elem?-set_ne r.cap_bb cur k g ne) at eq) in
            IsWithin-mono n _ b (omega (arith, len)) w
      ];
    }

pub instrs_of-captured_self :
    (r : RContext) (cur : ℕ) (h : IsOpen r cur) (new : Instr)
    → instrs_of (captured r cur h.bb new) cur ≡ instrs_of r cur ++ new ∷ []
unfolding instrs_of instrs_at captured
instrs_of-captured_self r cur h new =
    let g = grown (length r.cap_instr) h.bb in
    let y = get_elem?-set_self r.cap_bb cur g (get_elem?-bound r.cap_bb cur h.bb h.there) in
    simp (y, h.there) (instrs_in-grown r.cap_instr h.bb new h.last)

pub instrs_of-captured_ne :
    (r : RContext) (cur : ℕ) (h : IsOpen r cur) (new : Instr) (k : ℕ)
    → cur ≢ k
    → instrs_of (captured r cur h.bb new) k ≡ instrs_of r k
unfolding instrs_of instrs_at captured
instrs_of-captured_ne r cur h new k ne =
    let x = get_elem?-set_ne r.cap_bb cur k (grown (length r.cap_instr) h.bb) ne in
    elim (Option-cases (get_elem? r.cap_bb k)) [
      | inl e ↦ simp (x, e) refl
      | inr (b, e) ↦ simp (x, e) (instrs_in-append r.cap_instr (new ∷ []) b (h.within k b e))
    ]
