-- ===== src/Generate/Prefix.antt =====
-- src/generate.c: prefixes, opcode and operand bytes, immediates, and the generators for one
-- operand encoding each. A function that writes to `c->buf` returns the bytes that it appends.
use dbrew.Prelude.{ℕ, ◌+◌, ◌-◌, ◌*◌, ◌/◌, ◌%◌, ◌^◌, bit_and, bit_or, Bool, ◌&&◌, ◌||◌, Option}
use dbrew.Prelude.{none, some, List, [], ◌∷◌, ◌++◌, ltb, ◌==◌, ◌!=◌, if◌then◌else◌, ◌>>=◌, ◌>>◌}
use dbrew.Prelude.{assert, set, ◌is◌}
use dbrew.Instr.Kinds.{ValType, vt_16, vt_64, vt_implicit, vt_enum, ot_imm8, ot_imm16}
use dbrew.Instr.Kinds.{ot_imm32, ot_imm64, OpSegOverride, oso_none, oso_usefs}
use dbrew.Instr.Kinds.{oso_usegs, vex_no, vex_128, vex_256, vex_enum}
use dbrew.Instr.Types.{Operand, ps_no, ps_66, ps_f2, ps_f3, ps_rexw}
use dbrew.Instr.Operands.{op_val_type, op_is_imm, op_is_reg}
use dbrew.Generate.Modrm.{bytes32, calc_modrm_digit, calc_modrm}
use dbrew.Generate.Context.{GContext, rex_mask_b, rex_mask_x, rex_mask_r, rex_mask_w}
use dbrew.Generate.Context.{gen_66_on_vt16, gp_reg_encoding}

abbrev pub has_bits : ℕ → ℕ → Bool
has_bits set mask = bit_and set mask != 0

-- The legacy prefixes.
unfoldable pub legacy_prefixes : ℕ → ℕ → List ℕ
legacy_prefixes ps rex =
    (if has_bits ps ps_66 then 0x66 ∷ [] else [])
    ++ ((if has_bits ps ps_f2 then 0xF2 ∷ [] else [])
        ++ ((if has_bits ps ps_f3 then 0xF3 ∷ [] else [])
            ++ (if rex != 0 then bit_or 0x40 rex % 256 ∷ [] else [])))

-- The low two bits of the last VEX byte.
unfoldable pub vex_pp : ℕ → Option ℕ
vex_pp ps =
    if ps == ps_66
    then some 1
    else if ps == ps_f3
    then some 2
    else if ps == ps_f2
    then some 3
    else if ps == ps_no
    then some 0
    else none

-- The VEX prefix, of two bytes where it can be.
unfoldable pub vex_prefix : ℕ → ℕ → List ℕ
vex_prefix b rex =
    if bit_and rex (bit_or rex_mask_x (bit_or rex_mask_b rex_mask_w)) == 0
    then 0xC5 ∷ bit_or b (if has_bits rex rex_mask_r then 0 else 128) ∷ []
    else let b0 = bit_or 1 (if has_bits rex rex_mask_r then 0 else 128) in
      let b1 = bit_or b0 (if has_bits rex rex_mask_x then 0 else 64) in
      let b2 = bit_or b1 (if has_bits rex rex_mask_b then 0 else 32) in
      0xC4 ∷ b2 ∷ bit_or b (if has_bits rex rex_mask_w then 0 else 128) ∷ []

unfoldable pub seg_prefix : OpSegOverride → List ℕ
seg_prefix oso_none = []
seg_prefix oso_usefs = 0x64 ∷ []
seg_prefix oso_usegs = 0x65 ∷ []

-- PS_REXW is turned into the W bit of the REX prefix.
unfoldable pub take_rexw : GContext → GContext
take_rexw c =
    if has_bits c.ps ps_rexw
    then record c { rex = bit_or c.rex rex_mask_w; ps = bit_and c.ps (2 ^ 32 - 1 - ps_rexw) }
    else c

unfoldable pub gen_prefix : GContext → Option (GContext × List ℕ)
unfolding take_rexw seg_prefix legacy_prefixes vex_pp
gen_prefix c0 = do
  let c = take_rexw c0
  if c.vp is vex_no then some (c, seg_prefix c0.so ++ legacy_prefixes c.ps c.rex) else (do
    assert (c.vp is vex_128 || c.vp is vex_256)
    opc ← c.opc
    assert (bit_and opc 0xFF00 == 0x0F00)
    pp ← vex_pp c.ps
    let b = bit_or ((15 - c.vvvv) * 8) (if c.vp is vex_128 then 0 else 4)
    some (
      record c { opc = some (bit_and opc 0xFF) },
      seg_prefix c0.so ++ vex_prefix (bit_or b pp) c.rex,
    ))

-- The opcode of one or two bytes and the encoded operands.
unfoldable pub append_oo : GContext → Option (List ℕ)
append_oo c = do
  opc ← c.opc
  if ltb 255 opc
      then (do assert (ltb opc 65536); some (opc / 2 ^ 8 ∷ bit_and opc 255 ∷ c.b))
      else some (opc ∷ c.b)

-- PS_66 for a 16-bit operand, where the flags ask for it.
unfoldable pub ps_for_vt16 : GContext → Operand → ℕ → Option GContext
ps_for_vt16 c o1 flags =
    if has_bits flags gen_66_on_vt16
    then (do
      t ← op_val_type o1
      some (if t is vt_16 then record c { ps = bit_or c.ps ps_66 } else c))
    else some c

-- Prefixes, opcode and operands, where `c` has the encoded operands.
unfoldable pub emit : GContext → ℕ → Operand → ℕ → Option (GContext × List ℕ)
emit c opc o1 flags = do
  c1 ← ps_for_vt16 c o1 flags
  (c2, prefix) ← gen_prefix (record c1 { opc = some opc })
  body ← append_oo c2
  some (c2, prefix ++ body)

unfoldable pub gen_modrm :
    GContext → ℕ → Operand → Operand → ValType → ℕ → Option (GContext × List ℕ)
gen_modrm c opc o1 o2 vt flags = do
  c1 ← calc_modrm c o1 o2
  let c2 =
      if vt is vt_implicit && bit_and c1.ps ps_rexw == 0
      then record c1 { rex = bit_and c1.rex (2 ^ 32 - 1 - rex_mask_w) }
      else c1
  emit c2 opc o1 flags

unfoldable pub gen_digit_rm : GContext → ℕ → ℕ → Operand → ℕ → Option (GContext × List ℕ)
gen_digit_rm c opc digit o1 flags = do c1 ← calc_modrm_digit c o1 digit flags; emit c1 opc o1 flags

-- The little-endian bytes of an immediate.
unfoldable pub append_i : Operand → Option (List ℕ)
append_i op = elim (op.type) [
  | ot_imm8 ↦ some (op.val % 256 ∷ [])
  | ot_imm16 ↦ some (op.val % 256 ∷ op.val / 2 ^ 8 % 256 ∷ [])
  | ot_imm32 ↦ some (bytes32 op.val)
  | ot_imm64 ↦ some (bytes32 op.val ++ bytes32 (op.val / 2 ^ 32))
  | _ ↦ none
]

unfoldable pub gen_modrm_i :
    GContext → ℕ → Operand → Operand → Operand → ℕ → Option (GContext × List ℕ)
gen_modrm_i c opc o1 o2 o3 flags = do
  c1 ← calc_modrm c o1 o2
  (c2, bytes) ← emit c1 opc o1 flags
  imm ← append_i o3
  some (c2, bytes ++ imm)

unfoldable pub gen_digit_mi : GContext → ℕ → ℕ → Operand → Operand → ℕ → Option (GContext × List ℕ)
gen_digit_mi c opc digit o1 o2 flags = do
  assert (op_is_imm o2)
  c1 ← calc_modrm_digit c o1 digit flags
  (c2, bytes) ← emit c1 opc o1 flags
  imm ← append_i o2
  some (c2, bytes ++ imm)

-- The register is part of the opcode.
unfoldable pub gen_oi : GContext → ℕ → Operand → Operand → ℕ → Option (GContext × List ℕ)
gen_oi c opc o1 o2 flags = do
  assert (op_is_reg o1)
  assert (op_is_imm o2)
  r ← gp_reg_encoding o1.reg
  t ← op_val_type o1
  let rex = if bit_and r 8 != 0 then bit_or c.rex rex_mask_b else c.rex
  let c1 = record c { rex = if t is vt_64 then bit_or rex rex_mask_w else rex }
  assert (ltb opc 256 && bit_and opc 7 == 0)
  (c2, bytes) ← emit c1 (opc + bit_and r 7) o1 flags
  imm ← append_i o2
  some (c2, bytes ++ imm)
