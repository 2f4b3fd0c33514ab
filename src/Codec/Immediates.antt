-- ===== src/Codec/Immediates.antt =====
-- Immediates: `parseImm` undoes `appendI`, and the shortened forms keep the value.
use dbrew.Prelude.{ℕ, ◌+◌, ◌/◌, ◌%◌, ◌^◌, ◌<◌, ◌≡◌, ◌⊎◌, Bool, true, false, not, ◌&&◌, some}
use dbrew.Prelude.{List, [], ◌∷◌, ◌++◌, arith, if◌then◌else◌, length, ◌is◌}
use dbrew.Decode.Context.{DContext, sign_extend8, sign_extend32}
use dbrew.Decode.Prefix.{parse_imm}
use dbrew.Instr.Kinds.{ValType, vt_8, vt_16, vt_32, vt_64, vt_enum, OpType, ot_imm8}
use dbrew.Instr.Kinds.{ot_imm32, ot_imm64}
use dbrew.Instr.Copy.{imm_fits}
use dbrew.Instr.Types.{Operand}
use dbrew.Instr.Operands.{get_imm_op_type}
use dbrew.Generate.Modrm.{bytes32}
use dbrew.Generate.Reduce.{reduce_imm64_to32, reduce_imm16_to8, reduce_imm32_to8}
use dbrew.Generate.Prefix.{append_i}

-- An immediate operand whose value has the width of its type.
abbrev pub IsImm : ValType → Operand → Type 0
IsImm vt o = (get_imm_op_type vt ≡ some o.type) × (imm_fits o.type o.val ≡ true) × (o.val < 2 ^ 64)

-- The type in which the decoder reads an immediate of a 64-bit operand, if it is not a real one, and
-- the value that it makes of it.
abbrev pub written_type : Bool → ValType → ValType
written_type real vt = if vt is vt_64 && not real then vt_32 else vt

abbrev pub read_value : Bool → ValType → ℕ → ℕ
read_value real vt n = if vt is vt_64 && not real then sign_extend32 n else n

-- An immediate of the operand type `vt` that has the width that `copyOperand` asserts is written in
-- as many bytes, and `parseImm` reads it back with this type and stops behind them. A 64-bit
-- immediate must be real for that; if it is not, then a 32-bit immediate is written, and `parseImm`
-- gives its sign extension as one of 64 bits.
pub parse_imm-append_i :
    (real : Bool) (vt : ValType) (t : OpType) (o old : Operand) (x : DContext) (tail : List ℕ)
    → IsImm (written_type real vt) o
    → get_imm_op_type vt ≡ some t
    → (bytes : List ℕ) × (append_i o ≡ some bytes)
      × (parse_imm (record x { rest = bytes ++ tail }) vt old real
          ≡ some (
            record old { type = t; val = read_value real vt o.val },
            record x { rest = tail; off = x.off + length bytes },
          ))
unfolding parse_imm append_i get_imm_op_type imm_fits
parse_imm-append_i real vt_8 t o old x tail h e = (o.val % 256 ∷ [], ground arith, ground arith)
parse_imm-append_i real vt_16 t o old x tail h e =
    (o.val % 256 ∷ o.val / 2 ^ 8 % 256 ∷ [], ground arith, ground arith)
parse_imm-append_i real vt_32 t o old x tail h e = (bytes32 o.val, ground arith, ground arith)
parse_imm-append_i true vt_64 t o old x tail h e =
    (bytes32 o.val ++ bytes32 (o.val / 2 ^ 32), ground arith, ground arith)
parse_imm-append_i false vt_64 t o old x tail h e = (bytes32 o.val, ground arith, ground arith)
parse_imm-append_i real _ t o old x tail h e = absurd (ground arith)

-- A 64-bit immediate that `reduceImm64to32` shortens is the sign extension of the shortened one,
-- and that has the width of its type; any other operand is returned as it is.
pub reduce_imm64_to32_value :
    (old o : Operand)
    → o.val < 2 ^ 64
    → let r = reduce_imm64_to32 old o in
      (r ≡ o)
      ⊎ ((o.type ≡ ot_imm64)
          × (r.type ≡ ot_imm32)
          × (r.val < 2 ^ 32)
          × (sign_extend32 r.val ≡ o.val))
unfolding reduce_imm64_to32
reduce_imm64_to32_value old o h = ground arith

-- The shorter encodings of 16- and 32-bit immediates keep the signed value, modulo the width of
-- the original.
pub reduce_imm_to8_value :
    (old o : Operand)
    → o.val < 2 ^ 32
    → (let r = reduce_imm16_to8 old o in
        (r ≡ o) ⊎ ((r.type ≡ ot_imm8) × (sign_extend8 r.val % 2 ^ 16 ≡ o.val % 2 ^ 16)))
      × (let r = reduce_imm32_to8 old o in
          (r ≡ o) ⊎ ((r.type ≡ ot_imm8) × (sign_extend8 r.val % 2 ^ 32 ≡ o.val)))
unfolding reduce_imm16_to8 reduce_imm32_to8
reduce_imm_to8_value old o h = ground arith
