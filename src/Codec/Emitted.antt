-- ===== src/Codec/Emitted.antt =====
-- The prefixes and the opcode of an instruction, read by the decoder.
use dbrew.Prelude.{ℕ, ◌+◌, ◌%◌, ◌<◌, bit_and, bit_or, ◌≡◌, refl, ap, ◌∙◌, inl, false, ◌&&◌}
use dbrew.Prelude.{◌||◌, none, some, List, ◌∷◌, ◌++◌, arith, ltb, ◌==◌, ◌!=◌, if◌then◌else◌}
use dbrew.Prelude.{length, ◌is◌}
use mathlib.Core.List.{append_assoc}
use dbrew.Codec.PrefixRoundTrip.{decode_prefixes-gen_prefix}
use dbrew.Codec.Prefixes.{IsNoPrefix}
use dbrew.Codec.Memory.{KeepsContext}
use dbrew.Decode.Context.{DContext}
use dbrew.Decode.Prefix.{start_instr, decode_prefixes}
use dbrew.Instr.Kinds.{ValType, vt_16, vt_implicit, vt_enum}
use dbrew.Instr.Kinds.{vex_no}
use dbrew.Instr.Types.{Operand, ps_66}
use dbrew.Instr.Operands.{op_val_type}
use dbrew.Generate.Modrm.{calc_modrm}
use dbrew.Generate.Context.{GContext, gen_66_on_vt16}
use dbrew.Generate.Prefix.{has_bits, take_rexw, gen_prefix, append_oo, ps_for_vt16, emit}
use dbrew.Generate.Prefix.{gen_modrm}
use dbrew.Prelude.Table.{holds_below, holds_below_at}

-- The prefix set with the operand-size prefix that the flags ask for.
unfoldable pub operand_size : ℕ → Operand → ℕ → ℕ
operand_size ps o1 flags = elim (op_val_type o1) [
  | none ↦ ps
  | some t ↦ if has_bits flags gen_66_on_vt16 && t is vt_16 then bit_or ps ps_66 else ps
]

take_rexw-small : (c : GContext) → c.ps < 16 → take_rexw c ≡ c
unfolding take_rexw holds_below
take_rexw-small c h = ground (arith, holds_below_at 16 (λ p. bit_and p 32 == 0) c.ps refl h)

operand_size-lt :
    (ps : ℕ) (o1 : Operand) (flags : ℕ)
    → ps < 16
    → ps % 2 ≡ 0
    → (operand_size ps o1 flags < 16) × (operand_size ps o1 flags % 2 ≡ 0)
unfolding operand_size holds_below
operand_size-lt ps o1 flags h e = ground (
  arith,
  holds_below_at 16 (λ p. ltb (bit_or p 2) 16 && (p % 2 != 0 || bit_or p 2 % 2 == 0)) ps refl h,
)

ps_for_vt16_lem :
    (c : GContext) (o1 : Operand) (flags : ℕ) (t : ValType)
    → op_val_type o1 ≡ some t
    → ps_for_vt16 c o1 flags ≡ some (record c { ps = operand_size c.ps o1 flags })
unfolding ps_for_vt16 operand_size
ps_for_vt16_lem c o1 flags t e = ground (arith, e)

append_oo_one :
    (c : GContext) (opc : ℕ)
    → opc < 256
    → append_oo (record c { opc = some opc }) ≡ some (opc ∷ c.b)
unfolding append_oo
append_oo_one c opc h = ground arith

emit_lem :
    (c : GContext) (opc : ℕ) (o1 : Operand) (flags : ℕ) (t : ValType) (prefix : List ℕ)
    → op_val_type o1 ≡ some t
    → opc < 256
    → (let c2 = record c { ps = operand_size c.ps o1 flags; opc = some opc } in
        gen_prefix c2 ≡ some (c2, prefix))
    → emit c opc o1 flags
      ≡ some (record c { ps = operand_size c.ps o1 flags; opc = some opc }, prefix ++ opc ∷ c.b)
unfolding emit
emit_lem c opc o1 flags t prefix et ho hg =
    let c1 = record c { ps = operand_size c.ps o1 flags } in
    rw (ps_for_vt16_lem c o1 flags t et, hg, append_oo_one c1 opc ho) refl

pub gen_modrm-emit :
    (c code : GContext) (opc : ℕ) (o1 o2 : Operand) (gvt : ValType) (flags : ℕ)
    → calc_modrm c o1 o2 ≡ some code
    → (gvt is vt_implicit) ≡ false
    → gen_modrm c opc o1 o2 gvt flags ≡ emit code opc o1 flags
unfolding gen_modrm
gen_modrm-emit c code opc o1 o2 gvt flags e h = rw (e, h) refl

-- The decoder at the opcode byte behind the prefixes of `code`, and behind that byte.
abbrev pub at_opcode : DContext → GContext → ℕ → ℕ → List ℕ → List ℕ → DContext
at_opcode x code opc ps prefix tail = record (start_instr x) {
  rest = opc ∷ code.b ++ tail;
  off = x.off + length prefix;
  seg_ov = code.so;
  ps = ps;
  rex = code.rex;
  has_rex = code.rex != 0;
}

abbrev pub behind_opcode : DContext → GContext → ℕ → List ℕ → List ℕ → DContext
behind_opcode x code ps prefix tail = record (start_instr x) {
  rest = code.b ++ tail;
  off = x.off + length prefix + 1;
  seg_ov = code.so;
  ps = ps;
  rex = code.rex;
  has_rex = code.rex != 0;
}

-- The bytes of an instruction with encoded operands, and what the decoder makes of the prefixes.
pub record Emitted (c code : GContext) (opc : ℕ) (o1 : Operand) (flags : ℕ) (x : DContext)
    (tail : List ℕ) : Type 0 where
  pub after : GContext
  pub prefix : List ℕ
  pub emits : emit code opc o1 flags ≡ some (after, prefix ++ opc ∷ code.b)
  pub prefixes :
      decode_prefixes (record x { rest = (prefix ++ opc ∷ code.b) ++ tail })
      ≡ some (at_opcode x code opc (operand_size c.ps o1 flags) prefix tail)

pub emitted :
    (c code : GContext) (opc : ℕ) (o1 : Operand) (flags : ℕ) (t : ValType) (x : DContext)
    → (tail : List ℕ) → c.vp ≡ vex_no
    → c.ps < 16
    → c.ps % 2 ≡ 0
    → KeepsContext c o1 code
    → op_val_type o1 ≡ some t
    → opc < 256
    → IsNoPrefix opc
    → Emitted c code opc o1 flags x tail
emitted c code opc o1 flags t x tail hv hp he k et ho hb =
    let ps = operand_size c.ps o1 flags in
    let size = operand_size-lt c.ps o1 flags hp he in
    let c2 = record code { ps = operand_size code.ps o1 flags; opc = some opc } in
    let eps : operand_size code.ps o1 flags ≡ ps = ap (λ p. operand_size p o1 flags) k.ps_eq in
    let same = take_rexw-small c2 (rw eps size.0) in
    let (prefix, gen, dec) =
      decode_prefixes-gen_prefix c2 x opc (code.b ++ tail) (k.vp_eq ∙ hv) (inl k.rex_lt)
        (rw eps (omega (arith, size))) hb in
    let mod_rex : code.rex % 16 ≡ code.rex = omega (arith, k.rex_lt) in
    let mod_ps : c2.ps % 16 ≡ ps = omega (arith, eps, size) in
    record {
      after = c2;
      prefix = prefix;
      emits = emit_lem code opc o1 flags t prefix et ho (rw same at gen);
      prefixes =
          rw (append_assoc prefix (opc ∷ code.b) tail) (dec ∙ rw (same, mod_rex, mod_ps) refl);
    }
