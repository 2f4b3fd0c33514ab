-- ===== src/Emulate/Flags.antt =====
-- src/emulate.c: the flag setting helpers.
use dbrew.Prelude.{ℕ, ◌+◌, ◌-◌, ◌/◌, ◌%◌, ◌^◌, bit_and, bit_or, bit_xor, Bool, true, false}
use dbrew.Prelude.{◌&&◌, ◌||◌, Option, none, some, List, [], ◌∷◌, ◌==◌, ◌!=◌, if◌then◌else◌}
use dbrew.Prelude.{◌>>=◌, ◌>>◌, assert, get_elem?, ◌is◌}
use dbrew.Emulate.Meta.{CaptureState, cs_static, init_meta_state, ms_is_static}
use dbrew.Emulate.Meta.{EmuValue, combine_state4_flags}
use dbrew.Emulate.State.{Cell, EmuState}
use dbrew.Instr.Kinds.{ValType, vt_8, vt_32, vt_64, vt_enum}
use dbrew.Instr.Mnemonics.{InstrType, it_xor, it_and, it_or, ◌it_is◌}

-- FS_Carry to FS_Parity, and the sets of them.
abbrev pub fs_carry : ℕ
fs_carry = 1

abbrev pub fs_zero : ℕ
fs_zero = 2

abbrev pub fs_sign : ℕ
fs_sign = 4

abbrev pub fs_overflow : ℕ
fs_overflow = 8

abbrev pub fs_parity : ℕ
fs_parity = 16

abbrev pub fs_czsop : ℕ
fs_czsop = 31

abbrev pub fs_co : ℕ
fs_co = 9

abbrev pub fs_zsp : ℕ
fs_zsp = 22

-- `parity_tab`, a bit for each byte, and PARITY.
abbrev pub parity_tab : List ℕ
parity_tab =
    0x96696996 ∷ 0x69969669 ∷ 0x69969669 ∷ 0x96696996 ∷ 0x69969669 ∷ 0x96696996 ∷ 0x96696996
    ∷ 0x69969669 ∷ []

abbrev pub bit : Bool → ℕ
bit true = 1
bit false = 0

unfoldable pub parity_flag : ℕ → Option ℕ
parity_flag x = do
  word ← get_elem? parity_tab (x / 32)
  some (bit (bit_and (word / 2 ^ (x % 32)) 1 == 0))

-- XOR2.
abbrev pub xor2 : ℕ → ℕ
xor2 x = bit_and (bit_xor x (x / 2)) 1

-- `~d` on a `uint64_t`.
abbrev pub bit_not : ℕ → ℕ
bit_not d = 2 ^ 64 - 1 - d

abbrev set_state : ℕ → ℕ → CaptureState → Cell → Cell
set_state flag_set flag cs c =
    if bit_and flag_set flag != 0 then record c { state = init_meta_state cs } else c

unfoldable pub set_flags_state : EmuState → ℕ → CaptureState → EmuState
set_flags_state es flag_set cs = record es {
  flags = record {
    carry = set_state flag_set fs_carry cs es.flags.carry;
    zero_ = set_state flag_set fs_zero cs es.flags.zero_;
    sign = set_state flag_set fs_sign cs es.flags.sign;
    overflow = set_state flag_set fs_overflow cs es.flags.overflow;
    parity = set_state flag_set fs_parity cs es.flags.parity;
  };
}

-- The position of the sign bit of the types that the flags are set for.
unfoldable pub sign_bit : ValType → Option ℕ
sign_bit vt_8 = some 7
sign_bit vt_32 = some 31
sign_bit vt_64 = some 63
sign_bit _ = none

-- The values of the flags; the capture states stay.
unfoldable pub put_flags : EmuState → ℕ → ℕ → ℕ → ℕ → ℕ → EmuState
put_flags es c z s o p = record es {
  flags = record {
    carry = record (es.flags.carry) { val = c };
    zero_ = record (es.flags.zero_) { val = z };
    sign = record (es.flags.sign) { val = s };
    overflow = record (es.flags.overflow) { val = o };
    parity = record (es.flags.parity) { val = p };
  };
}

-- The borrow chain of `setFlagsSub`, and what `setFlagsAdd` uses for the carry chain.
abbrev pub borrow_chain : ℕ → ℕ → ℕ → ℕ
borrow_chain d s r = bit_or (bit_and r (bit_or (bit_not d) s)) (bit_and (bit_not d) s)

unfoldable pub set_flags_sub : EmuState → EmuValue → EmuValue → Option (CaptureState × EmuState)
unfolding set_flags_state put_flags
set_flags_sub es v1 v2 = do
  let st = combine_state4_flags v1.state.c_state v2.state.c_state
  let es' = set_flags_state es fs_czsop st
  assert (v1.type is v2.type)
  let d = v1.val
  let s = v2.val
  let r = (d + 2 ^ 64 - s) % 2 ^ 64
  let bc = borrow_chain d s r
  p ← parity_flag (bit_and r 0xff)
  k ← sign_bit v1.type
  some (
    st,
    put_flags es' (bit_and (bc / 2 ^ k) 1) (bit (d == s)) (bit_and (r / 2 ^ k) 1)
        (xor2 (bc / 2 ^ (k - 1))) p,
  )

unfoldable pub set_flags_add : EmuState → EmuValue → EmuValue → Option EmuState
unfolding set_flags_state put_flags
set_flags_add es v1 v2 = do
  let st = combine_state4_flags v1.state.c_state v2.state.c_state
  let es' = set_flags_state es fs_czsop st
  assert (v1.type is v2.type)
  let d = v1.val
  let s = v2.val
  let r = (d + s) % 2 ^ 64
  let cc = borrow_chain d s r
  p ← parity_flag (bit_and r 0xff)
  k ← sign_bit v1.type
  some (
      put_flags es' (bit_and (cc / 2 ^ k) 1) (bit (r % 2 ^ (k + 1) == 0)) (bit_and (r / 2 ^ k) 1)
        (xor2 (cc / 2 ^ (k - 1))) p)

-- The result of the three bitwise operations.
unfoldable pub bitwise_result : InstrType → ℕ → ℕ → Option ℕ
bitwise_result it_and a b = some (bit_and a b)
bitwise_result it_xor a b = some (bit_xor a b)
bitwise_result it_or a b = some (bit_or a b)
bitwise_result _ a b = none

-- The capture state of the flags of a bitwise operation: an operand may fix the result.
unfoldable pub bit_flags_state : InstrType → EmuValue → EmuValue → Bool → CaptureState
unfolding ms_is_static
bit_flags_state it v1 v2 same_operands =
    let s = combine_state4_flags v1.state.c_state v2.state.c_state in
    let s1 = if it it_is it_xor && same_operands then cs_static else s in
    if it it_is it_and
      && (ms_is_static v1.state && v1.val == 0 || ms_is_static v2.state && v2.val == 0)
    then cs_static
    else s1

unfoldable pub set_flags_bit :
    EmuState → InstrType → EmuValue → EmuValue → Bool → Option (CaptureState × EmuState)
unfolding set_flags_state put_flags bitwise_result
set_flags_bit es it v1 v2 same_operands = do
  assert (v1.type is v2.type)
  let s = bit_flags_state it v1 v2 same_operands
  let es' = set_flags_state (set_flags_state es fs_co cs_static) fs_zsp s
  res ← bitwise_result it v1.val v2.val
  p ← parity_flag (bit_and res 0xff)
  k ← sign_bit v1.type
  some (s, put_flags es' 0 (bit (res % 2 ^ (k + 1) == 0)) (bit (bit_and res (2 ^ k) != 0)) 0 p)
