-- ===== src/Capture/Neutral.antt =====
-- Which operations on 64 bits may be left out.
use dbrew.Prelude.{ℕ, ◌+◌, ◌-◌, ◌*◌, ◌/◌, ◌%◌, ◌^◌, ◌<◌, bit_and, bit_or, bit_xor, ◌≡◌, refl}
use dbrew.Prelude.{ap, Bool, true, false, ◌&&◌, Option, none, some, arith, ltb, if◌then◌else◌}
use dbrew.Prelude.{◌is◌}
use dbrew.Emulate.Meta.{cs_dead, cs_enum, ms_is_static, EmuValue}
use dbrew.Emulate.Operand.{get_op_value, op_state_is_tracked}
use dbrew.Instr.Mnemonics.{InstrType, it_add, it_sub, it_imul, it_xor, it_and, it_or, it_shl}
use dbrew.Instr.Mnemonics.{it_shr, it_sar}
use dbrew.Instr.Types.{Instr}
use dbrew.Capture.Captured.{is_neutral, capture_binary_src, capture_binary_op}
use dbrew.Capture.Types.{RContext}
use dbrew.Prelude.Bits.{bit_and_mask, bit_or_zero}

-- What x86 leaves in a 64-bit destination `x` for a source `v`, for the instructions that this is
-- said of here. A shift takes the low 6 bits of its count.
pub binary_result : InstrType → ℕ → ℕ → Option ℕ
binary_result it_add x v = some ((x + v) % 2 ^ 64)
binary_result it_sub x v = some ((x + 2 ^ 64 - v) % 2 ^ 64)
binary_result it_xor x v = some (bit_xor x v)
binary_result it_or x v = some (bit_or x v)
binary_result it_and x v = some (bit_and x v)
binary_result it_imul x v = some (x * v % 2 ^ 64)
binary_result it_shl x v = some (x * 2 ^ (v % 64) % 2 ^ 64)
binary_result it_shr x v = some (x / 2 ^ (v % 64))
binary_result it_sar x v =
    some (if ltb x (2 ^ 63) then x / 2 ^ (v % 64) else 2 ^ 64 - 1 - (2 ^ 64 - 1 - x) / 2 ^ (v % 64))
binary_result _ x v = none

neutral :
    (it : InstrType) (x v : ℕ) → is_neutral it v ≡ true → x < 2 ^ 64 → binary_result it x v ≡ some x
unfolding is_neutral binary_result
neutral it_add x v h l = let z : v ≡ 0 = ground arith in rw z (ap some (omega (arith, l)))
neutral it_or x v h l = let z : v ≡ 0 = ground arith in rw z (ap some (bit_or_zero x))
neutral it_and x v h l =
    let z : v ≡ 2 ^ 64 - 1 = ground arith in rw z (ap some (bit_and_mask 64 x l))
neutral it_imul x v h l = let z : v ≡ 1 = ground arith in rw z (ap some (omega (arith, l)))
neutral it_shl x v h l = let z : v ≡ 0 = ground arith in rw z (ap some (omega (arith, l)))
neutral it_shr x v h l = let z : v ≡ 0 = ground arith in rw z (ap some (omega arith))
neutral it_sar x v h l = let z : v ≡ 0 = ground arith in rw z (ap some (ground (arith, l)))
neutral _ x v h l = absurd (ground arith)

-- `captureBinaryOp` with a result that is not known, on a destination that is not both tracked by
-- the emulator and known: if the source has a known value for which the operation is taken as one
-- that changes nothing, then nothing is captured, the result is returned, and x86 leaves each
-- 64-bit value in the destination as it is.
pub capture_binary_op-neutral :
    (r : RContext) (orig : Instr) (res d v : EmuValue) (tracked : Bool) (x : ℕ)
    → (res.state.c_state is cs_dead) ≡ false
    → ms_is_static res.state ≡ false
    → get_op_value r.world orig.dst ≡ some d
    → op_state_is_tracked r.world.es orig.dst ≡ some tracked
    → tracked && ms_is_static d.state ≡ false
    → get_op_value r.world orig.src ≡ some v
    → ms_is_static v.state ≡ true
    → is_neutral orig.type v.val ≡ true
    → x < 2 ^ 64
    → (capture_binary_op r orig res ≡ some (r, res)) × (binary_result orig.type x v.val ≡ some x)
unfolding capture_binary_op capture_binary_src
capture_binary_op-neutral r orig res d v tracked x a b e t k f s n l =
    (rw (a, b, e, t, k, f, s, n) refl, neutral orig.type x v.val n l)
