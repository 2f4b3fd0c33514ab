-- ===== src/Engine/Emitted.antt =====
-- The bytes of one block: `generate` with its effects stores what the generators make, one
-- instruction behind the other.
use dbrew.Prelude.{ℕ, zero, suc, ◌+◌, ◌≤◌, ◌<◌, ◌≡◌, refl, ap, ◌∙◌, inl, inr, some, List, []}
use dbrew.Prelude.{◌∷◌, ◌++◌, arith, ltb, Bool-cases, Option-cases, length, get_elem?}
use dbrew.Prelude.{length-append}
use mathlib.Core.Path.{ap₂}
use native.Mathlib.Nat.{add_assoc}
use dbrew.Memory.{Memory, write, write-outside, write-same}
use dbrew.Engine.Emit.{emitted, write_bytes, Emission, emit_from}
use dbrew.Instr.Types.{Operand, Instr}
use dbrew.Generate.Single.{not_supported, generated}
use dbrew.Generate.Block.{one, unsupported_instr, gen_one, code, bad_operands, bad_instr}
use dbrew.Generate.Block.{gen_from}
use dbrew.Engine.Storage.{CodeStorage, reserve_code_storage, use_code_storage}

-- All bytes of a list of codes.
unfoldable pub joined : List (List ℕ) → List ℕ
joined [] = []
joined (bs ∷ bss) = bs ++ joined bss

-- Bytes from an address on.
abbrev pub BytesAt : Memory → ℕ → List ℕ → Type 0
BytesAt m a [] = Unit
BytesAt m a (b ∷ bs) = (m a ≡ b) × BytesAt m (a + 1) bs

pub BytesAt-ext :
    (m m' : Memory) (a : ℕ) (bs : List ℕ)
    → ((x : ℕ) → x < a + length bs → m' x ≡ m x)
    → BytesAt m a bs
    → BytesAt m' a bs
BytesAt-ext m m' a [] h t = tt
BytesAt-ext m m' a (b ∷ bs) h t =
    (h a (omega arith) ∙ t.0, BytesAt-ext m m' (a + 1) bs (λ x l. h x (omega arith)) t.1)

pub BytesAt-get :
    (m : Memory) (a : ℕ) (bs : List ℕ) (j : ℕ) (b : ℕ)
    → BytesAt m a bs
    → get_elem? bs j ≡ some b
    → m (a + j) ≡ b
BytesAt-get m a [] j b h e = absurd (ground arith)
BytesAt-get m a (c ∷ bs) zero b h e = let z : c ≡ b = ground arith in ap m (omega arith) ∙ h.0 ∙ z
BytesAt-get m a (c ∷ bs) (suc j) b h e = ap m (omega arith) ∙ BytesAt-get m (a + 1) bs j b h.1 e

pub write_bytes-below :
    (m : Memory) (a : ℕ) (bs : List ℕ) (x : ℕ) → x < a → write_bytes m a bs x ≡ m x
unfolding write_bytes
write_bytes-below m a [] x h = refl
write_bytes-below m a (b ∷ bs) x h =
    write_bytes-below (write m a b) (a + 1) bs x (omega arith)
    ∙ write-outside m a b x (ground arith)

pub write_bytes-BytesAt : (m : Memory) (a : ℕ) (bs : List ℕ) → BytesAt (write_bytes m a bs) a bs
unfolding write_bytes
write_bytes-BytesAt m a [] = tt
write_bytes-BytesAt m a (b ∷ bs) = (
  write_bytes-below (write m a b) (a + 1) bs a (omega arith) ∙ write-same m a b,
  write_bytes-BytesAt (write m a b) (a + 1) bs,
)

write_bytes-append :
    (m : Memory) (a : ℕ) (bs cs : List ℕ)
    → write_bytes m a (bs ++ cs) ≡ write_bytes (write_bytes m a bs) (a + length bs) cs
unfolding write_bytes
write_bytes-append m a [] cs = ap (λ n. write_bytes m n cs) (omega arith)
write_bytes-append m a (b ∷ bs) cs =
    write_bytes-append (write m a b) (a + 1) bs cs
    ∙ ap (λ n. write_bytes (write_bytes (write m a b) (a + 1) bs) n cs) (omega arith)

pub reserve-room :
    (cs : CodeStorage) (n : ℕ)
    → cs.used + n ≤ cs.fullsize
    → reserve_code_storage cs n ≡ some (cs.buf + cs.used)
unfolding reserve_code_storage
reserve-room cs n h = ground arith

-- The storage with `n` more bytes in use.
abbrev pub grown_by : CodeStorage → ℕ → CodeStorage
grown_by cs n = record cs { used = cs.used + n }

pub use-room :
    (cs : CodeStorage) (n : ℕ)
    → cs.used + n ≤ cs.fullsize
    → use_code_storage cs n ≡ some (cs.buf + cs.used, grown_by cs n)
unfolding use_code_storage
use-room cs n h = ground arith

-- The outcome when `bs` has been stored.
abbrev stored : CodeStorage → Memory → ℕ → List ℕ → Emission
stored cs m u bs =
    emitted (grown_by cs (length bs)) (write_bytes m (cs.buf + cs.used) bs) (u + length bs)

stored-append :
    (cs : CodeStorage) (m : Memory) (u : ℕ) (bs ds : List ℕ)
    → stored (grown_by cs (length bs)) (write_bytes m (cs.buf + cs.used) bs) (u + length bs) ds
      ≡ stored cs m u (bs ++ ds)
stored-append cs m u bs ds =
    rw
      (
        length-append bs ds,
        write_bytes-append m (cs.buf + cs.used) bs ds,
        add_assoc cs.used (length bs) (length ds),
        add_assoc u (length bs) (length ds),
        add_assoc cs.buf cs.used (length bs),
      )
      refl

-- The code of the instructions of a block is stored from the free part on, as far as there is room
-- for it and for the bytes that are reserved for one more instruction.
pub emit_from_lem :
    (junk : Operand) (instrs : List Instr) (n : ℕ) (codes : List (List ℕ)) (cs : CodeStorage)
    → (m : Memory) (u : ℕ) → gen_from junk instrs n ≡ some (code codes)
    → cs.used + length (joined codes) + 15 ≤ cs.fullsize
    → emit_from junk instrs cs m u ≡ some (stored cs m u (joined codes))
unfolding gen_from emit_from joined write_bytes
emit_from_lem junk [] n codes cs m u h l =
    let z : [] ≡ codes = ground (arith, h) in
    rw (← z) (ap₂ (λ a b. some (emitted (record cs { used = a }) m b)) (omega arith) (omega arith))
emit_from_lem junk (i ∷ rest) n codes cs m u h l = elim (Option-cases (gen_one junk i)) [
  | inl x ↦ absurd (ground (arith, x, h))
  | inr (unsupported_instr, x) ↦ absurd (ground (arith, x, h))
  | inr (one not_supported, x) ↦ absurd (ground (arith, x, h))
  | inr (one (generated bs), x) ↦ elim (Bool-cases (ltb (length bs) 15)) [
    | inr y ↦ absurd (ground (arith, x, y, h))
    | inl y ↦ elim (Option-cases (gen_from junk rest (n + 1))) [
      | inl z ↦ absurd (ground (arith, x, y, z, h))
      | inr (bad_operands k, z) ↦ absurd (ground (arith, x, y, z, h))
      | inr (bad_instr k, z) ↦ absurd (ground (arith, x, y, z, h))
      | inr (code tail, z) ↦
          let e : bs ∷ tail ≡ codes = ground (arith, x, y, z, h) in
          let le : length (bs ++ joined tail) + cs.used + 15 ≤ cs.fullsize =
            omega (arith, l, ap (λ c. length (joined c)) e) in
          let r =
            emit_from_lem junk rest (n + 1) tail (grown_by cs (length bs))
              (write_bytes m (cs.buf + cs.used) bs) (u + length bs) z
              (omega (arith, le, length-append bs (joined tail))) in
          let a = reserve-room cs 15 (omega (arith, le)) in
          let b = use-room cs (length bs) (omega (arith, le, length-append bs (joined tail))) in
          rw (← e, x, y, a, b, r) (ap some (stored-append cs m u bs (joined tail)))
    ]
  ]
]

-- Bytes that are copied.
pub BytesAt-moved :
    (m m' : Memory) (a a' : ℕ) (bs : List ℕ)
    → ((j : ℕ) → j < length bs → m' (a' + j) ≡ m (a + j))
    → BytesAt m a bs
    → BytesAt m' a' bs
BytesAt-moved m m' a a' [] h t = tt
BytesAt-moved m m' a a' (b ∷ bs) h t = (
  ap m' (omega arith) ∙ h 0 (omega arith) ∙ ap m (omega arith) ∙ t.0,
  BytesAt-moved m m' (a + 1) (a' + 1) bs
      (λ j l. ap m' (omega arith) ∙ h (suc j) (omega arith) ∙ ap m (omega arith)) t.1,
)
