-- ===== src/Prelude/Bits.antt =====
-- The bit operations, bit by bit, at every position.
use dbrew.Prelude.{ℕ, zero, suc, ◌+◌, ◌-◌, ◌*◌, ◌/◌, ◌%◌, ◌^◌, ◌≤◌, ◌<◌, bit_and, bit_or}
use dbrew.Prelude.{bit_xor, ◌≡◌, refl, sym, ap, ◌∙◌, arith}
use Prim.Native.Nat.{min, max, differ, digits, bit_and-bitwise, bit_or-bitwise, bit_xor-bitwise}
use native.Mathlib.Nat.{pow-suc, div-div-eq-div-mul, mul_comm}

-- Bit `i` of a number.
pub nth_bit : ℕ → ℕ → ℕ
nth_bit zero x = x % 2
nth_bit (suc i) x = nth_bit i (x / 2)

nth_bit_zero : (i : ℕ) → nth_bit i 0 ≡ 0
unfolding nth_bit
nth_bit_zero zero = refl
nth_bit_zero (suc i) = nth_bit_zero i

pub nth_bit-lt : (i x : ℕ) → nth_bit i x < 2
unfolding nth_bit
nth_bit-lt zero x = omega arith
nth_bit-lt (suc i) x = nth_bit-lt i (x / 2)

pub nth_bit_lem : (i x : ℕ) → nth_bit i x ≡ x / 2 ^ i % 2
unfolding nth_bit
nth_bit_lem zero x = omega arith
nth_bit_lem (suc i) x =
    nth_bit_lem i (x / 2)
    ∙ ap (λ (t : ℕ). t % 2)
        (div-div-eq-div-mul x 2 (2 ^ i)
          ∙ ap (λ (t : ℕ). x / t) (mul_comm 2 (2 ^ i) ∙ sym (pow-suc 2 i)))

module _ (z : ℕ → ℕ) (f : ℕ → ℕ → ℕ) (at_end : (i b : ℕ) → nth_bit i (z b) ≡ f 0 (nth_bit i b))
    (small : (x y : ℕ) → x < 2 → y < 2 → f x y < 2) where
  nth_bit-digits :
      (i n a b : ℕ) → a ≤ n → nth_bit i (digits z f n a b) ≡ f (nth_bit i a) (nth_bit i b)
  unfolding nth_bit
  nth_bit-digits i zero zero b h = rw nth_bit_zero (at_end i b)
  nth_bit-digits i zero (suc a) b h = absurd (omega arith)
  nth_bit-digits i (suc n) zero b h = rw nth_bit_zero (at_end i b)
  nth_bit-digits zero (suc n) (suc a) b h =
      omega (arith, small (suc a % 2) (b % 2) (omega arith) (omega arith))
  nth_bit-digits (suc i) (suc n) (suc a) b h =
      let low = small (suc a % 2) (b % 2) (omega arith) (omega arith) in
      ap (nth_bit i) (omega (arith, low)) ∙ nth_bit-digits i n (suc a / 2) (b / 2) (omega arith)

zero_end : (i b : ℕ) → nth_bit i 0 ≡ min 0 (nth_bit i b)
zero_end i b = omega (arith, nth_bit_zero i)

pub nth_bit-bit_and : (i a b : ℕ) → nth_bit i (bit_and a b) ≡ min (nth_bit i a) (nth_bit i b)
nth_bit-bit_and i a b =
    ap (nth_bit i) (bit_and-bitwise a b)
    ∙ nth_bit-digits (λ b. 0) min zero_end (λ x y p q. omega arith) i a a b (omega arith)

pub nth_bit-bit_or : (i a b : ℕ) → nth_bit i (bit_or a b) ≡ max (nth_bit i a) (nth_bit i b)
nth_bit-bit_or i a b =
    ap (nth_bit i) (bit_or-bitwise a b)
    ∙ nth_bit-digits (λ b. b) max (λ i b. omega arith) (λ x y p q. omega arith) i a a b
        (omega arith)

bits_ext : (n x y : ℕ) → x ≤ n → y ≤ n → ((i : ℕ) → nth_bit i x ≡ nth_bit i y) → x ≡ y
unfolding nth_bit
bits_ext zero x y hx hy h = omega arith
bits_ext (suc n) x y hx hy h =
    let low : x % 2 ≡ y % 2 = h 0 in
    omega (arith, low, bits_ext n (x / 2) (y / 2) (omega arith) (omega arith) (λ i. h (suc i)))

-- Numbers with the same bits are equal.
pub nth_bit_injective : (x y : ℕ) → ((i : ℕ) → nth_bit i x ≡ nth_bit i y) → x ≡ y
nth_bit_injective x y h = bits_ext (x + y) x y (omega arith) (omega arith) h

bit_and_halves : (a b : ℕ) → bit_and a b ≡ bit_and (a / 2) (b / 2) * 2 + min (a % 2) (b % 2)
unfolding nth_bit
bit_and_halves a b = nth_bit_injective _ _ elim [
  | zero ↦ nth_bit-bit_and 0 a b ∙ omega arith
  | suc i ↦
      nth_bit-bit_and (suc i) a b
      ∙ sym (nth_bit-bit_and i (a / 2) (b / 2))
      ∙ ap (nth_bit i) (omega arith)
]

bit_and_zero : (a : ℕ) → bit_and a 0 ≡ 0
bit_and_zero a = nth_bit_injective _ _ λ i. nth_bit-bit_and i a 0 ∙ omega (arith, nth_bit_zero i)

bit_and_mask4 : (a : ℕ) → bit_and a 15 ≡ a % 16
bit_and_mask4 a = omega (
  arith,
  bit_and_halves a 15,
  bit_and_halves (a / 2) 7,
  bit_and_halves (a / 2 / 2) 3,
  bit_and_halves (a / 2 / 2 / 2) 1,
  bit_and_zero (a / 2 / 2 / 2 / 2),
)

-- The low byte.
pub bit_and_255 : (a : ℕ) → bit_and a 255 ≡ a % 256
bit_and_255 a = omega (
  arith,
  bit_and_halves a 255,
  bit_and_halves (a / 2) 127,
  bit_and_halves (a / 2 / 2) 63,
  bit_and_halves (a / 2 / 2 / 2) 31,
  bit_and_mask4 (a / 2 / 2 / 2 / 2),
)

-- The lowest bit.
pub bit_and_one : (a : ℕ) → bit_and a 1 ≡ a % 2
bit_and_one a = omega (arith, bit_and_halves a 1, bit_and_zero (a / 2))

-- A number of `n` bits keeps them under a mask of as many.
pub bit_and_mask : (n x : ℕ) → x < 2 ^ n → bit_and x (2 ^ n - 1) ≡ x
bit_and_mask zero x h = let z : x ≡ 0 = omega arith in rw z refl
bit_and_mask (suc n) x h =
    let p = pow-suc 2 n in
    let m = bit_and_mask n (x / 2) (omega (arith, p)) in
    let pos : 1 ≤ 2 ^ n = omega (arith, p) in
    let d : (2 ^ suc n - 1) / 2 ≡ 2 ^ n - 1 = omega (arith, p, pos) in
    let l : (2 ^ suc n - 1) % 2 ≡ 1 = omega (arith, p, pos) in
    bit_and_halves x (2 ^ suc n - 1) ∙ rw (d, l, m) (omega arith)

pub bit_or_zero : (x : ℕ) → bit_or x 0 ≡ x
bit_or_zero x = nth_bit_injective _ _ λ i. nth_bit-bit_or i x 0 ∙ omega (arith, nth_bit_zero i)

differ_bits : (x y : ℕ) → x < 2 → y < 2 → differ x y ≡ (x + y) % 2
differ_bits zero y hx hy = omega arith
differ_bits (suc zero) zero hx hy = refl
differ_bits (suc zero) (suc zero) hx hy = refl
differ_bits (suc zero) (suc (suc y)) hx hy = absurd (omega arith)
differ_bits (suc (suc x)) y hx hy = absurd (omega arith)

pub nth_bit-bit_xor : (i a b : ℕ) → nth_bit i (bit_xor a b) ≡ (nth_bit i a + nth_bit i b) % 2
nth_bit-bit_xor i a b =
    ap (nth_bit i) (bit_xor-bitwise a b)
    ∙ nth_bit-digits (λ b. b) differ (λ i b. refl) (λ x y p q. omega (arith, differ_bits x y p q)) i
        a a b (omega arith)
    ∙ differ_bits (nth_bit i a) (nth_bit i b) (nth_bit-lt i a) (nth_bit-lt i b)

-- XOR2 of C: the two lowest bits differ.
pub bit_xor_low : (x : ℕ) → bit_and (bit_xor x (x / 2)) 1 ≡ (x % 2 + x / 2 % 2) % 2
unfolding nth_bit
bit_xor_low x = bit_and_one (bit_xor x (x / 2)) ∙ nth_bit-bit_xor 0 x (x / 2)
