-- ===== src/Engine/Displacement.antt =====
-- The displacements of jumps: what the processor adds up leads to the target.
use dbrew.Prelude.{ℕ, ◌+◌, ◌%◌, ◌^◌, ◌≤◌, ◌<◌, ◌≡◌, ◌⊎◌, inl, inr, true, arith}
use dbrew.Decode.Context.{sign_extend8, sign_extend32}
use dbrew.Engine.Blocks.{diff32, between}

-- Two addresses less than 2^31 apart.
abbrev pub Near : ℕ → ℕ → Type 0
Near a b = (a < 2 ^ 64) × (b < 2 ^ 64) × (a < b + 2 ^ 31) × (b < a + 2 ^ 31)

pub Near-target : (a b : ℕ) → Near a b → (b + sign_extend32 (diff32 a b)) % 2 ^ 64 ≡ a
unfolding diff32
Near-target a b h = ground arith

pub diff32-lt : (a b : ℕ) → diff32 a b < 2 ^ 32
unfolding diff32
diff32-lt a b = omega arith

pub short_target :
    (a b : ℕ)
    → Near a b
    → between 128 127 (diff32 a b) ≡ true
    → (b + sign_extend8 (diff32 a b % 256)) % 2 ^ 64 ≡ a
unfolding diff32 between
short_target a b h s = ground arith

-- A jump that is short by the addresses of pass 1 is short by those of pass 2. The block lies at
-- `p1` and `p2` and has `s` bytes, the target lies at `q1` and `q2`.
pub short_stays_short :
    (p1 p2 s q1 q2 : ℕ)
    → Near q1 (p1 + s)
    → Near q2 (p2 + s + 2)
    → between 120 120 (diff32 q1 (p1 + s)) ≡ true
    → ((p2 + s + 2 ≤ q2) × (q2 + p1 + 15 ≤ q1 + p2) × (p1 + s ≤ q1))
      ⊎ ((q2 ≤ p2) × (p2 + q1 ≤ p1 + q2))
    → between 128 127 (diff32 q2 (p2 + s + 2)) ≡ true
unfolding diff32 between
short_stays_short p1 p2 s q1 q2 n1 n2 h (inl d) = ground arith
short_stays_short p1 p2 s q1 q2 n1 n2 h (inr d) = ground arith
