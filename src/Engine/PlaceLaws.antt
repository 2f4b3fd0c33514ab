-- ===== src/Engine/PlaceLaws.antt =====
-- Pass 2 succeeds, moves every block to its place, and decides on the jumps.
use dbrew.Prelude.{ℕ, ◌+◌, ◌≤◌, ◌<◌, ◌≡◌, refl, sym, ap, ◌∙◌, ◌⊎◌, inl, inr, false, some, List}
use dbrew.Prelude.{[], ◌∷◌, arith, ◌!=◌, Bool-cases, lt→ltb, le→leb, get_elem?}
use mathlib.Core.Path.{subst}
use native.Mathlib.Decide.{ℕ_discrete}
use dbrew.Memory.{Memory, copy, copy-outside, copy_lem}
use dbrew.Decode.Context.{next}
use dbrew.Instr.Copy.{instr_is_jcc}
use dbrew.Engine.Blocks.{GenCbb, diff32, between}
use dbrew.Engine.Place.{move_block, choose_jumps, jump_bytes, place}
use dbrew.Engine.Spacing.{Spaced, spaced_end, Placed}

-- A block that ends with a conditional jump has both successors.
abbrev pub HasTargets : List GenCbb → GenCbb → Type 0
HasTargets all c =
    (instr_is_jcc c.end_type ≡ false)
    ⊎ ((b : ℕ) × (q : GenCbb) × (f : ℕ) × (r : GenCbb) × (c.next_branch ≡ some b)
        × (get_elem? all b ≡ some q)
        × (c.next_fall_through ≡ some f)
        × (get_elem? all f ≡ some r))

abbrev pub AllHaveTargets : List GenCbb → List GenCbb → Type 0
AllHaveTargets all [] = Unit
AllHaveTargets all (c ∷ cs) = HasTargets all c × AllHaveTargets all cs

-- The members that pass 2 leaves alone.
abbrev pub SameCode : GenCbb → GenCbb → Type 0
SameCode c p =
    (p.addr1 ≡ c.addr1)
    × (p.size ≡ c.size)
    × (p.end_type ≡ c.end_type)
    × (p.next_branch ≡ c.next_branch)
    × (p.next_fall_through ≡ c.next_fall_through)

-- The outcome of `choose_jumps`, with the block that follows in `genOrder` at `next`.
abbrev pub Chosen : List GenCbb → ℕ → GenCbb → GenCbb → Type 0
Chosen all next c p =
    SameCode c p
    × (jump_bytes p ≤ 11)
    × ((instr_is_jcc c.end_type ≡ false)
        ⊎ ((b : ℕ) × (q : GenCbb) × (f : ℕ) × (r : GenCbb) × (c.next_branch ≡ some b)
            × (get_elem? all b ≡ some q)
            × (c.next_fall_through ≡ some f)
            × (get_elem? all f ≡ some r)
            × (p.gen_jcc8 ≡ between 120 120 (diff32 q.addr1 (c.addr1 + c.size)))
            × (p.gen_jump ≡ (f != next))))

jump_bytes-le : (p : GenCbb) → jump_bytes p ≤ 11
unfolding jump_bytes
jump_bytes-le p = ground arith

choose_jumps_lem :
    (all : List GenCbb) (next b2 : ℕ) (c : GenCbb)
    → c.gen_jcc8 ≡ false
    → c.gen_jump ≡ false
    → HasTargets all c
    → (p : GenCbb) × (choose_jumps all next (record c { addr2 = b2 }) ≡ some p)
      × (p.addr2 ≡ b2)
      × Chosen all next c p
unfolding choose_jumps
choose_jumps_lem all next b2 c h1 h2 (inl e) =
    let p : GenCbb = record c { addr2 = b2 } in
    (p, rw e refl, refl, ((refl, refl, refl, refl, refl), jump_bytes-le p, inl e))
choose_jumps_lem all next b2 c h1 h2 (inr (b, q, f, r, eb, eq, ef, er)) =
    let short = between 120 120 (diff32 q.addr1 (c.addr1 + c.size)) in
    elim (Bool-cases (instr_is_jcc c.end_type)) [
      | inr e ↦
          let p : GenCbb = record c { addr2 = b2 } in
          (p, rw e refl, refl, ((refl, refl, refl, refl, refl), jump_bytes-le p, inl e))
      | inl e ↦
          let p : GenCbb = record c { addr2 = b2; gen_jcc8 = short; gen_jump = f != next } in
          (
            p,
            ground (arith, e, eb, eq, ef),
            refl,
            (
              (refl, refl, refl, refl, refl),
              jump_bytes-le p,
              inr (b, q, f, r, eb, eq, ef, er, refl, refl),
            ),
          )
    ]

move_block_lem :
    (c : GenCbb) (b2 : ℕ) (m : Memory)
    → (c.size ≡ 0) ⊎ (0 < c.count)
    → b2 ≤ c.addr1
    → move_block c b2 m ≡ some (copy c.size b2 c.addr1 m)
unfolding move_block copy
move_block_lem c b2 m (inl z) l = rw z refl
move_block_lem c b2 m (inr h) l = elim (ℕ_discrete c.size 0) [
  | yes z ↦ rw z refl
  | no n ↦ rw (lt→ltb 0 c.size (omega arith), lt→ltb 0 c.count h, le→leb b2 c.addr1 l) refl
]

-- Each block was chosen for its place.
abbrev pub AllChosen : List GenCbb → List GenCbb → List GenCbb → ℕ → Type 0
AllChosen all [] [] i = Unit
AllChosen all (c ∷ cs) (p ∷ ps) i = Chosen all (i + 1) c p × AllChosen all cs ps (i + 1)
AllChosen all _ _ i = ⊥

-- The bytes of each block are at its new address.
abbrev pub AllMoved : List GenCbb → Memory → Memory → Type 0
AllMoved [] m m' = Unit
AllMoved (p ∷ ps) m m' =
    ((j : ℕ) → j < p.size → m' (p.addr2 + j) ≡ m (p.addr1 + j)) × AllMoved ps m m'

-- Only the memory from the first block on counts as a source.
AllMoved-source :
    (ps : List GenCbb) (b1 b2 : ℕ) (m m' m2 : Memory)
    → Placed ps b1 b2
    → ((x : ℕ) → b1 ≤ x → m x ≡ m' x)
    → AllMoved ps m m2
    → AllMoved ps m' m2
AllMoved-source [] b1 b2 m m' m2 h e a = tt
AllMoved-source (p ∷ ps) b1 b2 m m' m2 h e a = (
  λ j l. a.0 j l ∙ e (p.addr1 + j) (omega (arith, h.0)),
  AllMoved-source ps (b1 + p.size + 26) (b2 + p.size + jump_bytes p) m m' m2 h.3
      (λ x l. e x (omega arith)) a.1,
)

-- What pass 2 makes of the blocks from position `i` on.
pub record PlaceResult (all cs : List GenCbb) (i b1 b2 : ℕ) (m : Memory) : Type 0 where
  pub placed : List GenCbb
  pub end : ℕ
  pub after : Memory
  pub runs : place all cs i b2 m ≡ some (placed, end, after)
  pub chosen : AllChosen all cs placed i
  pub laid : Placed placed b1 b2
  pub moved : AllMoved placed m after
  pub below : (x : ℕ) → x < b2 → after x ≡ m x
  pub end_le : end ≤ spaced_end cs b1
  pub end_eq : (end + b1 ≤ spaced_end cs b1 + b2) × (b2 ≤ end)
  pub first_le : (p : GenCbb) → get_elem? placed 0 ≡ some p → b2 + p.size ≤ end

pub place_lem :
    (all cs : List GenCbb) (i b1 b2 : ℕ) (m : Memory)
    → Spaced cs b1
    → AllHaveTargets all cs
    → b2 ≤ b1
    → PlaceResult all cs i b1 b2 m
unfolding place
place_lem all [] i b1 b2 m s t l = record {
  placed = [];
  end = b2;
  after = m;
  runs = refl;
  chosen = tt;
  laid = tt;
  moved = tt;
  below = λ x h. refl;
  end_le = l;
  end_eq = omega arith;
  first_le = λ p e. absurd (ground arith);
}
place_lem all (c ∷ cs) i b1 b2 m s t l =
    let (p, e, a, ch) = choose_jumps_lem all (i + 1) b2 c s.2 s.3 t.0 in
    let m1 = copy c.size b2 c.addr1 m in
    let n = b2 + c.size + jump_bytes p in
    let r = place_lem all cs (i + 1) (b1 + c.size + 26) n m1 s.4 t.1 (omega (arith, ch.1)) in
    let sz : p.size ≡ c.size = ch.0.1 in
    let laid' : Placed r.placed (b1 + p.size + 26) (b2 + p.size + jump_bytes p) = rw sz r.laid in
    record {
      placed = p ∷ r.placed;
      end = r.end;
      after = r.after;
      runs = rw (move_block_lem c b2 m s.1 (omega (arith, s.0)), e, r.runs) refl;
      chosen = (ch, r.chosen);
      laid = (ch.0.0 ∙ s.0, a, ch.1, laid');
      moved = (
        λ j h.
            r.below (p.addr2 + j) (omega (arith, a, sz))
            ∙ ap (λ (x : ℕ). m1 (x + j)) a
            ∙ copy_lem c.size b2 c.addr1 m j (omega (arith, s.0)) (omega (arith, sz))
            ∙ ap (λ (x : ℕ). m (x + j)) (sym ch.0.0),
        AllMoved-source r.placed (b1 + c.size + 26) n m1 m r.after r.laid
            (λ x h. copy-outside c.size b2 c.addr1 m x (inr (omega arith))) r.moved,
      );
      below = λ x h. r.below x (omega arith) ∙ copy-outside c.size b2 c.addr1 m x (inl h);
      end_le = r.end_le;
      end_eq = omega (arith, r.end_eq, ch.1);
      first_le = λ q e.
          let z : p ≡ q = ground arith in
          subst (λ (x : GenCbb). b2 + x.size ≤ r.end) z (omega (arith, r.end_eq, sz));
    }
