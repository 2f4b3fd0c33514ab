-- ===== src/Emulate/StackLaws.antt =====
-- What is stored on the emulated stack is loaded again.
use dbrew.Prelude.{ℕ, zero, suc, ◌+◌, ◌*◌, ◌/◌, ◌%◌, ◌^◌, ◌≤◌, ◌<◌, ◌≡◌, refl, ◌∙◌, ◌⊎◌, inl}
use dbrew.Prelude.{Option, some, List, [], ◌∷◌, arith, ◌>>=◌, length, get_elem?, set}
use dbrew.Prelude.{length-set, get_elem?-set_self, get_elem?-set_ne}
use native.Mathlib.Decide.{ℕ_discrete}
use dbrew.Emulate.Meta.{MetaState}
use dbrew.Emulate.Stack.{read_cells, write_cells, set_states}
use dbrew.Emulate.State.{Cell}

-- All bytes of a range lie on the stack.
get_exists {ℓ} :
    {A : Type ℓ} (xs : List A) (i : ℕ) → i < length xs → (x : A) × (get_elem? xs i ≡ some x)
get_exists [] i h = absurd (omega arith)
get_exists (x ∷ xs) zero h = (x, refl)
get_exists (x ∷ xs) (suc i) h = get_exists xs i (omega arith)

-- The value of a cell without its state, and the other way round.
abbrev pub val_at : List Cell → ℕ → Option ℕ
val_at st i = do c ← get_elem? st i; some c.val

abbrev pub state_at : List Cell → ℕ → Option MetaState
state_at st i = do c ← get_elem? st i; some c.state

-- The number that the low `n` bytes stand for.
abbrev pub low_bytes : ℕ → ℕ → ℕ
low_bytes zero v = 0
low_bytes (suc n) v = v % 2 ^ 8 + low_bytes n (v / 2 ^ 8) * 2 ^ 8

-- A store keeps the states and the size, and replaces `n` values.
pub record Stored (st : List Cell) (off n v : ℕ) (st' : List Cell) : Type 0 where
  pub size : length st' ≡ length st
  pub states : (i : ℕ) → state_at st' i ≡ state_at st i
  pub outside : (i : ℕ) → (i < off) ⊎ (off + n ≤ i) → get_elem? st' i ≡ get_elem? st i
  pub loads : read_cells st' off n ≡ some (low_bytes n v)

state_at-set :
    (st : List Cell) (off v i : ℕ) (c : Cell)
    → get_elem? st off ≡ some c
    → state_at (set st off (record c { val = v })) i ≡ state_at st i
state_at-set [] off v i c e = refl
state_at-set (x ∷ st) zero v zero c e = ground arith
state_at-set (x ∷ st) zero v (suc i) c e = refl
state_at-set (x ∷ st) (suc off) v zero c e = refl
state_at-set (x ∷ st) (suc off) v (suc i) c e = state_at-set st off v i c e

pub write_cells_lem :
    (st : List Cell) (off n v : ℕ)
    → off + n ≤ length st
    → (st' : List Cell) × (write_cells st off n v ≡ some st') × Stored st off n v st'
unfolding write_cells read_cells
write_cells_lem st off zero v h =
    (st, refl, record { size = refl; states = λ i. refl; outside = λ i k. refl; loads = refl })
write_cells_lem st off (suc n) v h =
    let (c, e) = get_exists st off (omega arith) in
    let c' : Cell = record c { val = v % 2 ^ 8 } in
    let len : length (set st off c') ≡ length st = length-set st off c' in
    let (st', r, s) = write_cells_lem (set st off c') (off + 1) n (v / 2 ^ 8) (omega arith) in
    let first : get_elem? st' off ≡ some c' =
      s.outside off (inl (omega arith)) ∙ get_elem?-set_self st off c' (omega arith) in
    (
      st',
      rw e r,
      record {
        size = s.size ∙ len;
        states = λ i. s.states i ∙ state_at-set st off (v % 2 ^ 8) i c e;
        outside =
            λ i k. s.outside i (omega arith) ∙ get_elem?-set_ne st off i c' (λ z. omega arith);
        loads = rw (first, s.loads) refl;
      },
    )

-- A store of states keeps the values and the size, and replaces `n` states.
pub record Marked (st : List Cell) (off n : ℕ) (ms : MetaState) (st' : List Cell) : Type 0 where
  pub size : length st' ≡ length st
  pub values : (i : ℕ) → val_at st' i ≡ val_at st i
  pub inside : (i : ℕ) → off ≤ i → i < off + n → state_at st' i ≡ some ms
  pub outside : (i : ℕ) → (i < off) ⊎ (off + n ≤ i) → get_elem? st' i ≡ get_elem? st i

val_at-set :
    (st : List Cell) (off i : ℕ) (ms : MetaState) (c : Cell)
    → get_elem? st off ≡ some c
    → val_at (set st off (record c { state = ms })) i ≡ val_at st i
val_at-set [] off i ms c e = refl
val_at-set (x ∷ st) zero zero ms c e = ground arith
val_at-set (x ∷ st) zero (suc i) ms c e = refl
val_at-set (x ∷ st) (suc off) zero ms c e = refl
val_at-set (x ∷ st) (suc off) (suc i) ms c e = val_at-set st off i ms c e

pub set_states_lem :
    (st : List Cell) (off n : ℕ) (ms : MetaState)
    → off + n ≤ length st
    → (st' : List Cell) × (set_states st off n ms ≡ some st') × Marked st off n ms st'
unfolding set_states
set_states_lem st off zero ms h = (
  st,
  refl,
  record {
    size = refl;
    values = λ i. refl;
    inside = λ i a b. absurd (omega arith);
    outside = λ i k. refl;
  },
)
set_states_lem st off (suc n) ms h =
    let (c, e) = get_exists st off (omega arith) in
    let c' : Cell = record c { state = ms } in
    let len : length (set st off c') ≡ length st = length-set st off c' in
    let (st', r, s) = set_states_lem (set st off c') (off + 1) n ms (omega arith) in
    let first : get_elem? st' off ≡ some c' =
      s.outside off (inl (omega arith)) ∙ get_elem?-set_self st off c' (omega arith) in
    (
      st',
      rw e r,
      record {
        size = s.size ∙ len;
        values = λ i. s.values i ∙ val_at-set st off i ms c e;
        inside = λ i a b. elim (ℕ_discrete i off) [
          | yes z ↦ rw (z, first) refl
          | no k ↦ s.inside i (omega arith) (omega arith)
        ];
        outside =
            λ i k. s.outside i (omega arith) ∙ get_elem?-set_ne st off i c' (λ z. omega arith);
      },
    )
