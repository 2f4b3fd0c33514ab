-- ===== src/Codec/Immediate.antt =====
-- An instruction with a memory operand and an immediate, read by the decoder.
use dbrew.Prelude.{ℕ, ◌+◌, ◌%◌, ◌^◌, ◌≡◌}
use dbrew.Prelude.{Bool, false, Option, some, List, ◌++◌}
use dbrew.Prelude.{if◌then◌else◌, length, ◌is◌}
use dbrew.Codec.Immediates.{written_type, read_value}
use dbrew.Codec.Address.{SameAddress}
use dbrew.Decode.Handlers.{prefix_type, group_digit, parse_mi, parse_mi_8se}
use dbrew.Decode.Context.{DContext, next, sign_extend8}
use dbrew.Decode.Prefix.{decode_prefixes}
use dbrew.Instr.Kinds.{rt_enum, ValType, vt_8, vt_32, vt_64, vt_enum}
use dbrew.Instr.Types.{Operand}

-- The width of the immediate in the code, and what it means: one of 8 bits is sign-extended to the
-- operand type `vt`, one of 32 bits to 64.
abbrev pub mi_type : Bool → ValType → ValType
mi_type short vt = if short then vt_8 else written_type false vt

abbrev pub mi_value : Bool → ValType → ℕ → ℕ
mi_value short vt n =
    let v = sign_extend8 (n % 2 ^ 8) in
    if short
    then (if vt is vt_64 then v else if vt is vt_32 then v % 2 ^ 32 else v % 2 ^ 16)
    else read_value false vt n

-- The handler for a short or a full immediate.
abbrev pub handle_mi :
    Bool → DContext → ValType → Operand → Operand → Option (Operand × Operand × DContext)
handle_mi short c vt o1 o2 = if short then parse_mi_8se c vt o1 o2 else parse_mi c vt o1 o2

-- What the decoder makes of the bytes of an instruction with one opcode byte, a memory operand, a
-- digit and an immediate. The handler of the operands works with the operand type that the prefixes
-- give.
pub record ImmReadsBack (short : Bool) (o1 old1 old2 imm : Operand) (opc ps d : ℕ) (bytes : List ℕ)
    (x : DContext) (tail : List ℕ) : Type 0 where
  pub at : DContext
  pub prefixes : decode_prefixes (record x { rest = bytes ++ tail }) ≡ some at
  pub ps_eq : at.ps ≡ ps
  pub behind : DContext
  pub opcode : next at ≡ some (opc, behind)
  pub digit : group_digit behind ≡ some d
  pub memory : Operand
  pub end : DContext
  pub operands : handle_mi short behind (prefix_type behind) old1 old2 ≡ some (memory, imm, end)
  pub same : SameAddress o1 memory
  pub rest_eq : end.rest ≡ tail
  pub off_eq : end.off ≡ x.off + length bytes
