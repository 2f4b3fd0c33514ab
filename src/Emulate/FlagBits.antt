-- ===== src/Emulate/FlagBits.antt =====
-- The bits of the borrow chain that the flags are taken from.
use dbrew.Prelude.{ℕ, ◌+◌, ◌-◌, ◌/◌, ◌%◌, ◌^◌, ◌<◌, bit_and, bit_or, ◌≡◌, ◌∙◌, Bool, ◌&&◌}
use dbrew.Prelude.{arith, ltb, ◌!=◌, lt→ltb, ltb-false}
use Prim.Native.Nat.{min, max}
use native.Mathlib.Decide.{dec_lt}
use dbrew.Emulate.Flags.{bit, xor2, bit_not, borrow_chain}
use dbrew.Prelude.Bits.{nth_bit_lem, nth_bit-bit_and, nth_bit-bit_or, bit_and_one, bit_xor_low}

-- Bit `k` of the chain, from bit `k` of the operands and the result.
abbrev pub chain_digit : ℕ → ℕ → ℕ → ℕ
chain_digit d s r = max (min r (max (1 - d) s)) (min (1 - d) s)

pub chain_bit :
    (k d s r : ℕ)
    → bit_not d / 2 ^ k % 2 ≡ 1 - d / 2 ^ k % 2
    → borrow_chain d s r / 2 ^ k % 2 ≡ chain_digit (d / 2 ^ k % 2) (s / 2 ^ k % 2) (r / 2 ^ k % 2)
chain_bit k d s r h = omega (
  arith,
  nth_bit_lem k (borrow_chain d s r),
  nth_bit-bit_or k (bit_and r (bit_or (bit_not d) s)) (bit_and (bit_not d) s),
  nth_bit-bit_and k r (bit_or (bit_not d) s),
  nth_bit-bit_or k (bit_not d) s,
  nth_bit-bit_and k (bit_not d) s,
  nth_bit_lem k (bit_not d),
  nth_bit_lem k d,
  nth_bit_lem k s,
  nth_bit_lem k r,
)

-- The flags of a subtraction of `w`-bit numbers, by their meaning: a borrow, equality, the sign of
-- the wrapped difference, and a difference that does not fit `w` bits with a sign.
abbrev pub diff : ℕ → ℕ → ℕ → ℕ
diff w d s = (d + 2 ^ w - s) % 2 ^ w

-- The sign bit of a `w`-bit number.
abbrev pub sign_of : ℕ → ℕ → ℕ
sign_of w x = x / 2 ^ (w - 1)

abbrev pub sub_overflows : ℕ → ℕ → ℕ → Bool
sub_overflows w d s = sign_of w d != sign_of w s && sign_of w (diff w d s) != sign_of w d

abbrev pub wide : ℕ → ℕ → ℕ
wide d s = (d + 2 ^ 64 - s) % 2 ^ 64

module _ (d s : ℕ) (hd : d < 2 ^ 8) (hs : s < 2 ^ 8) where
  borrow_8 : chain_digit (d / 2 ^ 7 % 2) (s / 2 ^ 7 % 2) (wide d s / 2 ^ 7 % 2) ≡ bit (ltb d s)
  borrow_8 = elim (dec_lt d s) [
    | yes h ↦ rw (lt→ltb d s h) (omega arith)
    | no h ↦ rw (ltb-false d s h) (omega arith)
  ]

  borrow_below_8 :
      chain_digit (d / 2 ^ 6 % 2) (s / 2 ^ 6 % 2) (wide d s / 2 ^ 6 % 2)
      ≡ bit (ltb (d % 2 ^ 7) (s % 2 ^ 7))
  borrow_below_8 = elim (dec_lt (d % 2 ^ 7) (s % 2 ^ 7)) [
    | yes h ↦ rw (lt→ltb (d % 2 ^ 7) (s % 2 ^ 7) h) (omega arith)
    | no h ↦ rw (ltb-false (d % 2 ^ 7) (s % 2 ^ 7) h) (omega arith)
  ]

  overflow_8 : (bit (ltb (d % 2 ^ 7) (s % 2 ^ 7)) + bit (ltb d s)) % 2 ≡ bit (sub_overflows 8 d s)
  overflow_8 = ground arith

  pub sub_bits_8 :
      let bc = borrow_chain d s (wide d s) in
      (bit_and (bc / 2 ^ 7) 1 ≡ bit (ltb d s))
      × (bit_and (wide d s / 2 ^ 7) 1 ≡ sign_of 8 (diff 8 d s))
      × (xor2 (bc / 2 ^ 6) ≡ bit (sub_overflows 8 d s))
  sub_bits_8 =
      let bc = borrow_chain d s (wide d s) in
      (
        bit_and_one (bc / 2 ^ 7) ∙ chain_bit 7 d s (wide d s) (omega arith) ∙ borrow_8,
        bit_and_one (wide d s / 2 ^ 7) ∙ omega arith,
        bit_xor_low (bc / 2 ^ 6)
            ∙ omega (
              arith,
              chain_bit 7 d s (wide d s) (omega arith),
              chain_bit 6 d s (wide d s) (omega arith),
              borrow_8,
              borrow_below_8,
              overflow_8,
            ),
      )

module _ (d s : ℕ) (hd : d < 2 ^ 32) (hs : s < 2 ^ 32) where
  borrow_32 : chain_digit (d / 2 ^ 31 % 2) (s / 2 ^ 31 % 2) (wide d s / 2 ^ 31 % 2) ≡ bit (ltb d s)
  borrow_32 = elim (dec_lt d s) [
    | yes h ↦ rw (lt→ltb d s h) (omega arith)
    | no h ↦ rw (ltb-false d s h) (omega arith)
  ]

  borrow_below_32 :
      chain_digit (d / 2 ^ 30 % 2) (s / 2 ^ 30 % 2) (wide d s / 2 ^ 30 % 2)
      ≡ bit (ltb (d % 2 ^ 31) (s % 2 ^ 31))
  borrow_below_32 = elim (dec_lt (d % 2 ^ 31) (s % 2 ^ 31)) [
    | yes h ↦ rw (lt→ltb (d % 2 ^ 31) (s % 2 ^ 31) h) (omega arith)
    | no h ↦ rw (ltb-false (d % 2 ^ 31) (s % 2 ^ 31) h) (omega arith)
  ]

  overflow_32 :
      (bit (ltb (d % 2 ^ 31) (s % 2 ^ 31)) + bit (ltb d s)) % 2 ≡ bit (sub_overflows 32 d s)
  overflow_32 = ground arith

  pub sub_bits_32 :
      let bc = borrow_chain d s (wide d s) in
      (bit_and (bc / 2 ^ 31) 1 ≡ bit (ltb d s))
      × (bit_and (wide d s / 2 ^ 31) 1 ≡ sign_of 32 (diff 32 d s))
      × (xor2 (bc / 2 ^ 30) ≡ bit (sub_overflows 32 d s))
  sub_bits_32 =
      let bc = borrow_chain d s (wide d s) in
      (
        bit_and_one (bc / 2 ^ 31) ∙ chain_bit 31 d s (wide d s) (omega arith) ∙ borrow_32,
        bit_and_one (wide d s / 2 ^ 31) ∙ omega arith,
        bit_xor_low (bc / 2 ^ 30)
            ∙ omega (
              arith,
              chain_bit 31 d s (wide d s) (omega arith),
              chain_bit 30 d s (wide d s) (omega arith),
              borrow_32,
              borrow_below_32,
              overflow_32,
            ),
      )

module _ (d s : ℕ) (hd : d < 2 ^ 64) (hs : s < 2 ^ 64) where
  borrow_64 : chain_digit (d / 2 ^ 63 % 2) (s / 2 ^ 63 % 2) (wide d s / 2 ^ 63 % 2) ≡ bit (ltb d s)
  borrow_64 = elim (dec_lt d s) [
    | yes h ↦ rw (lt→ltb d s h) (omega arith)
    | no h ↦ rw (ltb-false d s h) (omega arith)
  ]

  borrow_below_64 :
      chain_digit (d / 2 ^ 62 % 2) (s / 2 ^ 62 % 2) (wide d s / 2 ^ 62 % 2)
      ≡ bit (ltb (d % 2 ^ 63) (s % 2 ^ 63))
  borrow_below_64 = elim (dec_lt (d % 2 ^ 63) (s % 2 ^ 63)) [
    | yes h ↦ rw (lt→ltb (d % 2 ^ 63) (s % 2 ^ 63) h) (omega arith)
    | no h ↦ rw (ltb-false (d % 2 ^ 63) (s % 2 ^ 63) h) (omega arith)
  ]

  overflow_64 :
      (bit (ltb (d % 2 ^ 63) (s % 2 ^ 63)) + bit (ltb d s)) % 2 ≡ bit (sub_overflows 64 d s)
  overflow_64 = ground arith

  pub sub_bits_64 :
      let bc = borrow_chain d s (wide d s) in
      (bit_and (bc / 2 ^ 63) 1 ≡ bit (ltb d s))
      × (bit_and (wide d s / 2 ^ 63) 1 ≡ sign_of 64 (diff 64 d s))
      × (xor2 (bc / 2 ^ 62) ≡ bit (sub_overflows 64 d s))
  sub_bits_64 =
      let bc = borrow_chain d s (wide d s) in
      (
        bit_and_one (bc / 2 ^ 63) ∙ chain_bit 63 d s (wide d s) (omega arith) ∙ borrow_64,
        bit_and_one (wide d s / 2 ^ 63) ∙ omega arith,
        bit_xor_low (bc / 2 ^ 62)
            ∙ omega (
              arith,
              chain_bit 63 d s (wide d s) (omega arith),
              chain_bit 62 d s (wide d s) (omega arith),
              borrow_64,
              borrow_below_64,
              overflow_64,
            ),
      )
