-- ===== src/Codec/Tests.antt =====
-- Concrete operands, prefixes and immediates for the round trips.
use dbrew.Prelude.{ℕ, ◌+◌, ◌-◌, ◌%◌, ◌^◌, ◌<◌, bit_and, ◌≡◌, refl, ◌⊎◌, inl, inr, true, false}
use dbrew.Prelude.{none, some, List, [], ◌∷◌, ◌++◌, arith, ◌!=◌, length}
use dbrew.Codec.Immediates.{parse_imm-append_i, reduce_imm64_to32_value, reduce_imm_to8_value}
use dbrew.Codec.Address.{feed}
use dbrew.Codec.PrefixRoundTrip.{decode_prefixes-gen_prefix, decode_prefixes-gen_prefix_vex}
use dbrew.Codec.RoundTrip.{parse_modrm-calc_modrm_registers}
use dbrew.Codec.TwoOperands.{IsGpOperand}
use dbrew.Decode.Modrm.{parse_modrm}
use dbrew.Decode.Context.{DContext, sign_extend8, sign_extend32}
use dbrew.Decode.Prefix.{start_instr, decode_prefixes, parse_imm}
use dbrew.Instr.Kinds.{rt_none, rt_gp64, vt_none, vt_64, ot_none, ot_imm8, ot_imm32, ot_imm64}
use dbrew.Instr.Kinds.{ot_reg64, ot_ind64, oso_none, oso_usefs, oso_usegs, of_0, vex_no}
use dbrew.Instr.Kinds.{vex_256, oe_none, sc_none}
use dbrew.Instr.Copy.{imm_fits}
use dbrew.Instr.Mnemonics.{it_none}
use dbrew.Instr.Types.{Operand, Instr}
use dbrew.Instr.Operands.{get_imm_op_type}
use dbrew.Instr.Operands.{get_gp_reg_op_type}
use dbrew.Instr.Registers.{get_gp_reg_type}
use dbrew.Generate.Modrm.{calc_modrm}
use dbrew.Generate.Context.{GContext, init_gcontext}
use dbrew.Generate.Reduce.{reduce_imm64_to32, reduce_imm16_to8, reduce_imm32_to8}
use dbrew.Generate.Prefix.{take_rexw, gen_prefix, append_i}

abbrev nothing : Operand
nothing = record {
  val = 0;
  type = ot_none;
  reg = record { rt = rt_none; ri = 0 };
  ireg = record { rt = rt_none; ri = 0 };
  scale = 0;
  seg = oso_none;
}

-- `fs:[r13 + 4 * r9 - 8]`, 64 bits.
abbrev indexed : Operand
indexed = record {
  val = 2 ^ 64 - 8;
  type = ot_ind64;
  reg = record { rt = rt_gp64; ri = 13 };
  ireg = record { rt = rt_gp64; ri = 9 };
  scale = 4;
  seg = oso_usefs;
}

abbrev r10 : Operand
r10 = record nothing { type = ot_reg64; reg = record { rt = rt_gp64; ri = 10 } }

abbrev rdx : Operand
rdx = record nothing { type = ot_reg64; reg = record { rt = rt_gp64; ri = 2 } }

abbrev imm : Operand
imm = record nothing { type = ot_imm64; val = 2 ^ 64 - 5 }

abbrev context : DContext
context = record {
  rest = [];
  off = 3;
  vex = vex_no;
  vex_vvvv = none;
  has_rex = false;
  rex = 0;
  ps = 0;
  seg_ov = oso_none;
  opc1 = none;
  opc2 = none;
}

r10-IsGpOperand : IsGpOperand vt_64 r10
unfolding get_gp_reg_op_type get_gp_reg_type
r10-IsGpOperand = record {
  width = inr (inr refl);
  type_ok = refl;
  rt_ok = refl;
  ri_ok = omega arith;
}

rdx-IsGpOperand : IsGpOperand vt_64 rdx
unfolding get_gp_reg_op_type get_gp_reg_type
rdx-IsGpOperand = record {
  width = inr (inr refl);
  type_ok = refl;
  rt_ok = refl;
  ri_ok = omega arith;
}

parse_modrm-calc_modrm_registers_example :
    (c' : GContext) × (calc_modrm init_gcontext rdx r10 ≡ some c')
    × (bit_and c'.rex 8 ≡ 8)
    × (parse_modrm (feed context c' []) vt_64 0 nothing (some nothing)
        ≡ some (record {
          cxt = record (feed context c' []) { rest = []; off = 4 };
          o1 = rdx;
          o2 = some r10;
          digit = 2;
        }))
parse_modrm-calc_modrm_registers_example =
    parse_modrm-calc_modrm_registers init_gcontext rdx r10 nothing nothing vt_64 context [] refl
      rdx-IsGpOperand r10-IsGpOperand

-- `rep`, 66 and REX.W before the opcode 8B.
abbrev legacy : GContext
legacy = record init_gcontext { ps = 42; rex = 1; so = oso_usegs }

decode_prefixes-gen_prefix_example :
    (bytes : List ℕ) × (gen_prefix legacy ≡ some (take_rexw legacy, bytes))
    × (decode_prefixes (record context { rest = bytes ++ 0x8B ∷ [] })
        ≡ some (record (start_instr context) {
          rest = 0x8B ∷ [];
          off = 3 + length bytes;
          seg_ov = oso_usegs;
          ps = 10;
          rex = (take_rexw legacy).rex % 16;
          has_rex = (take_rexw legacy).rex != 0;
        }))
decode_prefixes-gen_prefix_example =
    decode_prefixes-gen_prefix legacy context 0x8B [] refl (inl (omega arith))
      (omega arith, refl, refl) (ground arith)

-- The opcode 0F 58 with a VEX prefix for 256 bits.
abbrev vector : GContext
vector = record init_gcontext { vp = vex_256; vvvv = 5; ps = 2; rex = 12; opc = some 0x0F58 }

decode_prefixes-gen_prefix_vex_example :
    (bytes : List ℕ) × (gen_prefix vector ≡ some (record vector { opc = some 0x58 }, bytes))
    × (decode_prefixes (record context { rest = bytes ++ 0xC1 ∷ [] })
        ≡ some (record (start_instr context) {
          rest = 0xC1 ∷ [];
          off = 3 + length bytes;
          seg_ov = oso_none;
          vex = vex_256;
          vex_vvvv = some 5;
          ps = 2;
          rex = 12;
          has_rex = true;
          opc1 = some 0x0F;
        }))
decode_prefixes-gen_prefix_vex_example =
    decode_prefixes-gen_prefix_vex vector context 0x58 (0xC1 ∷ [])
      (record {
        vp_ok = inr refl;
        vvvv_ok = omega arith;
        ps_ok = ground arith;
        rex_ok = omega arith;
      })
      refl (omega arith)

parse_imm-append_i_example :
    (bytes : List ℕ) × (append_i imm ≡ some bytes)
    × (parse_imm (record context { rest = bytes ++ 7 ∷ [] }) vt_64 nothing true
        ≡ some (imm, record context { rest = 7 ∷ []; off = 3 + length bytes }))
unfolding get_imm_op_type imm_fits
parse_imm-append_i_example =
    parse_imm-append_i true vt_64 ot_imm64 imm nothing context (7 ∷ []) (refl, refl, omega arith)
      refl

reduce_imm64_to32_value_example :
    let r = reduce_imm64_to32 nothing imm in
    (r ≡ imm)
    ⊎ ((imm.type ≡ ot_imm64)
        × (r.type ≡ ot_imm32)
        × (r.val < 2 ^ 32)
        × (sign_extend32 r.val ≡ imm.val))
reduce_imm64_to32_value_example = reduce_imm64_to32_value nothing imm (omega arith)

abbrev imm_minus_2 : Operand
imm_minus_2 = record nothing { type = ot_imm32; val = 2 ^ 32 - 2 }

reduce_imm_to8_value_example :
    (let r = reduce_imm16_to8 nothing imm_minus_2 in
      (r ≡ imm_minus_2)
      ⊎ ((r.type ≡ ot_imm8) × (sign_extend8 r.val % 2 ^ 16 ≡ imm_minus_2.val % 2 ^ 16)))
    × (let r = reduce_imm32_to8 nothing imm_minus_2 in
        (r ≡ imm_minus_2) ⊎ ((r.type ≡ ot_imm8) × (sign_extend8 r.val % 2 ^ 32 ≡ imm_minus_2.val)))
reduce_imm_to8_value_example = reduce_imm_to8_value nothing imm_minus_2 (omega arith)

abbrev no_instr : Instr
no_instr = record {
  type = it_none;
  form = of_0;
  vtype = vt_none;
  dst = nothing;
  src = nothing;
  src2 = nothing;
  addr = 0;
  len = 0;
  pt_len = 0;
  pt_vex_p = vex_no;
  pt_pset = 0;
  pt_opc = [];
  pt_enc = oe_none;
  pt_schange = sc_none;
  info_mem_addr = none;
}

-- A store to memory and a load from it.
abbrev store_r10 : Instr
store_r10 = record no_instr { dst = indexed; src = r10 }

abbrev load_r10 : Instr
load_r10 = record no_instr { dst = r10; src = indexed }
