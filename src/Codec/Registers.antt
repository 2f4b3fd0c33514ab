-- ===== src/Codec/Registers.antt =====
-- A register as first operand: mod 3, in the generator and in the decoder.
use dbrew.Prelude.{ℕ, ◌+◌, ◌*◌, ◌%◌, ◌<◌, bit_and, ◌≡◌, Option, some, List, [], ◌∷◌, arith, leb}
use dbrew.Prelude.{◌!=◌}
use dbrew.Codec.Parse.{split_fields, rex_extend_back}
use dbrew.Codec.Base.{fields, rex_if_high}
use dbrew.Codec.TwoOperands.{IsGpOperand, parse_reg_type_gp, gp_is_reg, gp_facts}
use dbrew.Decode.Modrm.{parse_o2, parse_modrm}
use dbrew.Decode.Context.{DContext}
use dbrew.Instr.Kinds.{ValType}
use dbrew.Instr.Types.{Operand}
use dbrew.Instr.Operands.{op_is_gp_reg}
use dbrew.Instr.Registers.{get_gp_reg_type}
use dbrew.Generate.Modrm.{calc_reg}
use dbrew.Generate.Context.{GContext, gp_reg_encoding}
use dbrew.Prelude.Table.{bit_or_low3, bit_or_mid3, bit_and_7}

pub calc_reg-gp :
    (c : GContext) (vt : ValType) (rex d : ℕ) (o : Operand)
    → d < 8
    → IsGpOperand vt o
    → calc_reg c rex (d * 8) o
      ≡ some (record c { rex = rex_if_high o.reg.ri 1 rex; b = fields 3 d (o.reg.ri % 8) ∷ [] })
unfolding calc_reg op_is_gp_reg gp_reg_encoding
calc_reg-gp c vt rex d o hd h = ground (
  arith,
  gp_facts vt o,
  gp_is_reg vt o,
  bit_and_7 o.reg.ri,
  bit_or_mid3 d 3,
  bit_or_low3 (24 + d) (o.reg.ri % 8),
)

pub parse_modrm-gp :
    (x : DContext) (vt : ValType) (o1 old1 : Operand) (d : ℕ) (tail : List ℕ)
    (o2 o2' : Option Operand)
    → d < 8
    → IsGpOperand vt o1
    → ((bit_and x.rex 1 != 0) ≡ leb 8 o1.reg.ri)
    → x.rest ≡ fields 3 d (o1.reg.ri % 8) ∷ tail
    → parse_o2 (record x { rest = tail; off = x.off + 1 }) vt 0 o1.type d o2 ≡ some o2'
    → parse_modrm x vt 0 old1 o2
      ≡ some (record {
        cxt = record x { rest = tail; off = x.off + 1 };
        o1 = record old1 { type = o1.type; reg = o1.reg };
        o2 = o2';
        digit = d;
      })
unfolding parse_modrm get_gp_reg_type
parse_modrm-gp x vt o1 old1 d tail o2 o2' hd h hx e h2 = ground (
  arith,
  split_fields 3 d (o1.reg.ri % 8),
  parse_reg_type_gp vt o1,
  rex_extend_back x.rex 1 o1.reg.ri,
)
