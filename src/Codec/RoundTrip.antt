-- ===== src/Codec/RoundTrip.antt =====
-- `parseModRM` undoes `calcModRMDigit` and `calcModRM`.
use dbrew.Prelude.{ℕ, ◌+◌, ◌*◌, ◌%◌, ◌<◌, bit_and, bit_or, ◌≡◌, refl, sym, ◌∙◌, ◌⊎◌, inl, true}
use dbrew.Prelude.{false, none, some, List, [], ◌∷◌, arith, ◌==◌, if◌then◌else◌, ◌is◌}
use mathlib.Core.Path.{subst}
use dbrew.Codec.Address.{IsAddress, feed, IsRexRw, rex_bits-base}
use dbrew.Codec.Base.{fields, rex_if_high}
use dbrew.Codec.Memory.{EncodesAndReadsBack, calc_ind-ReadsBack}
use dbrew.Codec.TwoOperands.{IsGpOperand, parse_reg_type_gp, parse_o2_gp, gp_is_reg, gp_facts}
use dbrew.Codec.TwoOperands.{ind_facts, calc_modrm-gp, gp_same_type}
use dbrew.Codec.Registers.{calc_reg-gp, parse_modrm-gp}
use dbrew.Decode.Modrm.{parse_reg_type, parse_ind_type, parse_o2, parse_modrm}
use dbrew.Decode.Context.{DContext}
use dbrew.Instr.Kinds.{ValType, vt_64, vt_enum, OpType}
use dbrew.Instr.Types.{Operand}
use dbrew.Instr.Operands.{op_val_type, op_is_reg, op_is_ind}
use dbrew.Generate.Modrm.{calc_ind, calc_reg, calc_modrm_digit, calc_modrm}
use dbrew.Generate.Context.{GContext}
use dbrew.Prelude.Table.{bit_and_7}

-- The REX prefix with which `calcModRMDigit` starts on an operand.
pub entry_rex : ℕ → Operand → ℕ → ℕ
unfolding op_val_type
entry_rex rex o flags = elim (op_val_type o) [
  | some vt ↦ if bit_and flags 2 == 0 then (if vt is vt_64 then bit_or rex 8 else rex) else rex
  | none ↦ rex
]

entry_rex_rw :
    (rex : ℕ) (o : Operand) (flags : ℕ)
    → (rex ≡ 0) ⊎ (rex ≡ 4)
    → IsRexRw (entry_rex rex o flags) × (bit_and (entry_rex rex o flags) 4 ≡ rex)
unfolding entry_rex
entry_rex_rw rex o flags h = ground arith

-- The W bit for an operand of type `vt`.
abbrev pub w_bit : ValType → ℕ
w_bit vt = if vt is vt_64 then 8 else 0

pub entry_rex_w :
    (rex : ℕ) (o : Operand) (flags : ℕ) (vt : ValType)
    → (rex ≡ 0) ⊎ (rex ≡ 4)
    → bit_and flags 2 ≡ 0
    → op_val_type o ≡ some vt
    → bit_and (entry_rex rex o flags) 8 ≡ w_bit vt
unfolding entry_rex
entry_rex_w rex o flags vt h f e = ground (arith, h, f, e)

ind_not_reg : (o : Operand) → op_is_ind o ≡ true → op_is_reg o ≡ false
unfolding op_is_ind op_is_reg
ind_not_reg o h = ground arith

calc_modrm_digit-ind :
    (c : GContext) (o : Operand) (d flags : ℕ)
    → d < 8
    → op_is_ind o ≡ true
    → calc_modrm_digit c o d flags ≡ calc_ind c (entry_rex c.rex o flags) (d * 8) o
unfolding calc_modrm_digit entry_rex op_is_ind op_is_reg
calc_modrm_digit-ind c o d flags hd hi = ground (arith, bit_and_7 d)

parse_o2_null :
    (y : DContext) (vt : ValType) (rts : ℕ) (rot : OpType) (d : ℕ)
    → parse_o2 y vt rts rot d none ≡ some none
unfolding parse_o2
parse_o2_null y vt rts rot d = refl

-- The bytes of a memory operand and a digit, with what stays in the context.
pub calc_modrm_digit-memory :
    (c : GContext) (o old : Operand) (d flags : ℕ) (vt : ValType) (rts : ℕ) (rot : OpType)
    (x : DContext) (tail : List ℕ)
    → d < 8
    → c.rex ≡ 0
    → op_is_ind o ≡ true
    → IsAddress o
    → parse_reg_type vt rts ≡ some rot
    → parse_ind_type vt rts ≡ some o.type
    → EncodesAndReadsBack c
        (calc_modrm_digit c o d flags)
        (entry_rex c.rex o flags)
        x
        vt
        rts
        old
        none
        none
        tail
        o
        d
calc_modrm_digit-memory c o old d flags vt rts rot x tail hd hc hi ha reg_ok ind_ok =
    let r =
      calc_ind-ReadsBack vt rts rot c (entry_rex c.rex o flags) d o old none none x tail reg_ok
        ind_ok hd (entry_rex_rw c.rex o flags (inl hc)).0 ha.disp
        (λ y e1 e2. parse_o2_null y vt rts rot d) ha.base ha.index in
    record {
      code = r.code;
      encodes = calc_modrm_digit-ind c o d flags hd hi ∙ r.encodes;
      keeps = r.keeps;
      w_eq = r.w_eq;
      back = r.back;
    }

pub w_bit-w : (vt : ValType) → bit_and (w_bit vt) 8 ≡ w_bit vt
w_bit-w vt = ground arith

-- The bytes of a memory operand and a register, with what stays in the context.
pub calc_modrm-memory :
    (c : GContext) (o1 o2 old1 old2 : Operand) (vt : ValType) (x : DContext) (tail : List ℕ)
    → c.rex ≡ 0
    → op_is_ind o1 ≡ true
    → IsAddress o1
    → parse_ind_type vt 0 ≡ some o1.type
    → IsGpOperand vt o2
    → EncodesAndReadsBack c
        (calc_modrm c o1 o2)
        (w_bit vt)
        x
        vt
        0
        old1
        (some old2)
        (some (record old2 { type = o2.type; reg = o2.reg }))
        tail
        o1
        (o2.reg.ri % 8)
calc_modrm-memory c o1 o2 old1 old2 vt x tail hc hi ha ind_ok h2 =
    let r2 = rex_if_high o2.reg.ri 4 0 in
    let c2 = record c { rex = r2 } in
    let d = o2.reg.ri % 8 in
    let rw' = entry_rex_rw r2 o1 0 (ground arith) in
    let o2' = record old2 { type = o2.type; reg = o2.reg } in
    let hd : d < 8 = omega arith in
    let r =
      calc_ind-ReadsBack vt 0 o2.type c2 (entry_rex r2 o1 0) d o1 old1 (some old2) (some o2') x tail
        (parse_reg_type_gp vt o2 h2) ind_ok hd rw'.0 ha.disp
        (λ y e1 e2. parse_o2_gp y vt o2 old2 h2 (e2 ∙ rw'.1)) ha.base ha.index in
    record {
      code = r.code;
      encodes =
          calc_modrm-gp c vt o1 o2 (ind_facts vt o1 hi ind_ok) (ground arith) h2 hc
          ∙ calc_modrm_digit-ind c2 o1 d 0 hd hi
          ∙ r.encodes;
      keeps = record {
        vp_eq = r.keeps.vp_eq;
        ps_eq = r.keeps.ps_eq;
        so_eq = r.keeps.so_eq;
        rex_lt = r.keeps.rex_lt;
      };
      w_eq =
          r.w_eq
          ∙ entry_rex_w r2 o1 0 vt (ground arith) refl (ind_facts vt o1 hi ind_ok)
          ∙ sym (w_bit-w vt);
      back = r.back;
    }

calc_modrm_digit-reg :
    (c : GContext) (vt : ValType) (o : Operand) (d flags : ℕ)
    → d < 8
    → IsGpOperand vt o
    → calc_modrm_digit c o d flags ≡ calc_reg c (entry_rex c.rex o flags) (d * 8) o
unfolding calc_modrm_digit entry_rex
calc_modrm_digit-reg c vt o d flags hd h =
    ground (arith, bit_and_7 d, gp_facts vt o, gp_is_reg vt o)

-- Two general purpose registers of one size, 16, 32 or 64 bits: `calcModRM` succeeds and asks for
-- REX.W exactly if the size is 64 bits. From its one byte and the REX bits that it asks for,
-- `parseModRM`, which is told the size, gives back both registers.
pub parse_modrm-calc_modrm_registers :
    (c : GContext) (o1 o2 old1 old2 : Operand) (vt : ValType) (x : DContext) (tail : List ℕ)
    → c.rex ≡ 0
    → IsGpOperand vt o1
    → IsGpOperand vt o2
    → (c' : GContext) × (calc_modrm c o1 o2 ≡ some c')
      × (bit_and c'.rex 8 ≡ w_bit vt)
      × (parse_modrm (feed x c' tail) vt 0 old1 (some old2)
          ≡ some (record {
            cxt = record (feed x c' tail) { rest = tail; off = x.off + 1 };
            o1 = record old1 { type = o1.type; reg = o1.reg };
            o2 = some (record old2 { type = o2.type; reg = o2.reg });
            digit = o2.reg.ri % 8;
          }))
parse_modrm-calc_modrm_registers c o1 o2 old1 old2 vt x tail hc h1 h2 =
    let r2 = rex_if_high o2.reg.ri 4 0 in
    let c2 = record c { rex = r2 } in
    let d = o2.reg.ri % 8 in
    let hd : d < 8 = omega arith in
    let rw' = entry_rex_rw r2 o1 0 (ground arith) in
    let rex' = rex_if_high o1.reg.ri 1 (entry_rex r2 o1 0) in
    let bits = rex_bits-base (entry_rex r2 o1 0) o1.reg.ri rw'.0 h1.ri_ok in
    let code = record c2 { rex = rex'; b = fields 3 d (o1.reg.ri % 8) ∷ [] } in
    let o2' = some (record old2 { type = o2.type; reg = o2.reg }) in
    let y = record (feed x code tail) { rest = tail; off = x.off + 1 } in
    (
      code,
      calc_modrm-gp c vt o1 o2 (gp_facts vt o1 h1).0 (ground (arith, gp_is_reg vt o1)) h2 hc
          ∙ calc_modrm_digit-reg c2 vt o1 d 0 hd h1
          ∙ calc_reg-gp c2 vt (entry_rex r2 o1 0) d o1 hd h1,
      bits.3 ∙ entry_rex_w r2 o1 0 vt (ground arith) refl (gp_facts vt o1 h1).0,
      parse_modrm-gp (feed x code tail) vt o1 old1 d tail (some old2) o2' hd h1 bits.0 refl (
          subst (λ ot. parse_o2 y vt 0 ot d (some old2) ≡ some o2') (gp_same_type vt o2 o1 h2 h1)
            (parse_o2_gp y vt o2 old2 h2 (bits.2 ∙ rw'.1))),
    )
