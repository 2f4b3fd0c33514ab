-- ===== src/Engine/Push.antt =====
-- What pass 1 pushes behind a block that it has generated.
use dbrew.Prelude.{ℕ, zero, suc, ◌+◌, ◌≤◌, ◌<◌, ◌≡◌, refl, inl, inr, true, some, List, ◌∷◌}
use dbrew.Prelude.{arith, length, get_elem?}
use dbrew.Instr.Copy.{instr_is_jcc}
use dbrew.Instr.Types.{Operand, Instr}
use dbrew.Capture.Types.{Cbb, capturestack_len}
use dbrew.Engine.Visit.{Pushed}
use dbrew.Engine.Reach.{Successors, block_room}
use dbrew.Engine.Laid.{HasCode}

-- Entries stay on a stack that grows.
abbrev pub Within : List ℕ → List ℕ → Type 0
Within old new = (k i : ℕ) → get_elem? old k ≡ some i → (j : ℕ) × (get_elem? new j ≡ some i)

-- The stack behind the successors of a block, with what is used of it.
pub record HasPushed (c : Cbb) (old new : List ℕ) : Type 0 where
  pub pushed : Pushed c old new
  pub grows : length new ≤ length old + 1 + 1
  pub within : Within old new
  pub bounded :
      (n : ℕ)
      → ((k i : ℕ) → get_elem? old k ≡ some i → i < n)
      → Successors (λ i. i < n) c
      → (k i : ℕ) → get_elem? new k ≡ some i
      → i < n
  pub targets : Successors (λ i. (k : ℕ) × (get_elem? new k ≡ some i)) c

push_bound :
    (f b n : ℕ) (old : List ℕ)
    → f < n
    → b < n
    → ((k i : ℕ) → get_elem? old k ≡ some i → i < n)
    → (k i : ℕ) → get_elem? (f ∷ b ∷ old) k ≡ some i
    → i < n
push_bound f b n old hf hb h zero i e = let z : f ≡ i = ground arith in rw (← z) hf
push_bound f b n old hf hb h (suc zero) i e =
    let y : some b ≡ some i = e in let z : b ≡ i = ground arith in rw (← z) hb
push_bound f b n old hf hb h (suc (suc k)) i e = h k i e

two_bounds :
    (c : Cbb) (n b f : ℕ)
    → instr_is_jcc c.end_type ≡ true
    → c.next_branch ≡ some b
    → c.next_fall_through ≡ some f
    → Successors (λ i. i < n) c
    → (f < n) × (b < n)
two_bounds c n b f j eb ef (inl x) = absurd (ground (arith, x, j))
two_bounds c n b f j eb ef (inr (b', f', j', eb', ef', x, y)) =
    let zb : b ≡ b' = ground (arith, eb, eb') in
    let zf : f ≡ f' = ground (arith, ef, ef') in omega (arith, zb, zf, x, y)

pub has_pushed :
    (c : Cbb) (old : List ℕ) (n : ℕ)
    → length old + 2 ≤ capturestack_len
    → Successors (λ i. i < n) c
    → (new : List ℕ) × HasPushed c old new
has_pushed c old n l (inl x) = (
  old,
  record {
    pushed = inl (x, refl);
    grows = omega arith;
    within = λ k i e. (k, e);
    bounded = λ m h s. h;
    targets = inl x;
  },
)
has_pushed c old n l (inr (b, f, j, eb, ef, lb, lf)) = (
  f ∷ b ∷ old,
  record {
    pushed = inr (b, f, j, eb, ef, l, refl);
    grows = omega arith;
    within = λ k i e. (suc (suc k), e);
    bounded = λ m h s. let t = two_bounds c m b f j eb ef s in push_bound f b m old t.0 t.1 h;
    targets = inr (b, f, j, eb, ef, (1, refl), (0, refl));
  },
)

pub block_room_lem :
    (junk : Operand) (instrs : List Instr) (c : Cbb) (bs : List ℕ)
    → HasCode junk instrs c bs
    → block_room junk instrs c ≡ length bs + 26
unfolding block_room
block_room_lem junk instrs c bs (codes, h, e) = rw (block_room, h, e) refl
