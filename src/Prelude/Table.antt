-- ===== src/Prelude/Table.antt =====
-- Facts on small ranges by evaluation, and the bit operations of C as arithmetic.
use dbrew.Prelude.{ℕ, zero, suc, ◌+◌, ◌*◌, ◌/◌, ◌%◌, ◌<◌, bit_and, bit_or, ◌≡◌, refl, Bool}
use dbrew.Prelude.{true, ◌&&◌, arith, ◌==◌, ==_iff}

unfoldable pub holds_below : ℕ → (ℕ → Bool) → Bool
holds_below zero test = true
holds_below (suc k) test = holds_below k test && test k

pub holds_below_at :
    (k : ℕ) (test : ℕ → Bool) (i : ℕ) → holds_below k test ≡ true → i < k → test i ≡ true
unfolding holds_below
holds_below_at zero test i all below = absurd (omega arith)
holds_below_at (suc k) test i all below = ground (arith, holds_below_at k test i)

module _ (n m : ℕ) (f g : ℕ → ℕ → ℕ) where
  -- Two functions that agree on a finite rectangle.
  abbrev pub agree_below : Bool
  agree_below = holds_below n (λ x. holds_below m (λ y. f x y == g x y))

  pub agree_below_sound : agree_below ≡ true → (x y : ℕ) → x < n → y < m → f x y ≡ g x y
  agree_below_sound h x y hx hy =
      (==_iff _ _).0 (holds_below_at m _ y (holds_below_at n _ x h hx) hy)

-- `(hi << 3) | lo` with a three-bit `lo`.
pub bit_or_low3 : (x r : ℕ) → x < 32 → r < 8 → bit_or (x * 8) r ≡ x * 8 + r
unfolding holds_below
bit_or_low3 = agree_below_sound 32 8 (λ x r. bit_or (x * 8) r) (λ x r. x * 8 + r) refl

-- `(s << 6) | (i << 3)`.
pub bit_or_top2 : (s i : ℕ) → s < 4 → i < 8 → bit_or (s * 64) (i * 8) ≡ s * 64 + i * 8
unfolding holds_below
bit_or_top2 = agree_below_sound 4 8 (λ s i. bit_or (s * 64) (i * 8)) (λ s i. s * 64 + i * 8) refl

-- `(d << 3) | (s << 6)`.
pub bit_or_mid3 : (d s : ℕ) → d < 8 → s < 4 → bit_or (d * 8) (s * 64) ≡ s * 64 + d * 8
unfolding holds_below
bit_or_mid3 = agree_below_sound 8 4 (λ d s. bit_or (d * 8) (s * 64)) (λ d s. s * 64 + d * 8) refl

pub bit_and_192 : (m : ℕ) → m < 256 → bit_and m 192 ≡ m / 64 * 64
unfolding holds_below
bit_and_192 m h = (==_iff _ _).0 (holds_below_at 256 (λ m. bit_and m 192 == m / 64 * 64) m refl h)

pub bit_and_56 : (m : ℕ) → m < 256 → bit_and m 56 ≡ m / 8 % 8 * 8
unfolding holds_below
bit_and_56 m h = (==_iff _ _).0 (holds_below_at 256 (λ m. bit_and m 56 == m / 8 % 8 * 8) m refl h)

pub bit_and_63 : (m : ℕ) → m < 256 → bit_and m 63 ≡ m % 64
unfolding holds_below
bit_and_63 m h = (==_iff _ _).0 (holds_below_at 256 (λ m. bit_and m 63 == m % 64) m refl h)

pub bit_and_7 : (m : ℕ) → m < 256 → bit_and m 7 ≡ m % 8
unfolding holds_below
bit_and_7 m h = (==_iff _ _).0 (holds_below_at 256 (λ m. bit_and m 7 == m % 8) m refl h)

pub bit_and_8 : (m : ℕ) → m < 256 → bit_and m 8 ≡ m / 8 % 2 * 8
unfolding holds_below
bit_and_8 m h = (==_iff _ _).0 (holds_below_at 256 (λ m. bit_and m 8 == m / 8 % 2 * 8) m refl h)

pub bit_and_15 : (m : ℕ) → m < 256 → bit_and m 15 ≡ m % 16
unfolding holds_below
bit_and_15 m h = (==_iff _ _).0 (holds_below_at 256 (λ m. bit_and m 15 == m % 16) m refl h)

-- A REX prefix byte: `0x40 | rex`, where only the low four bits of `rex` and 0x40 may be set.
pub bit_or_rex : (r : ℕ) → r < 16 → (bit_or 0x40 r ≡ 64 + r) × (bit_or 0x40 (64 + r) ≡ 64 + r)
unfolding holds_below
bit_or_rex r h = (
  (==_iff _ _).0 (holds_below_at 16 (λ r. bit_or 0x40 r == 64 + r) r refl h),
  (==_iff _ _).0 (holds_below_at 16 (λ r. bit_or 0x40 (64 + r) == 64 + r) r refl h),
)
