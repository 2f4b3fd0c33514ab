-- ===== src/Generate/Modrm.antt =====
-- src/generate.c: `calcModRMDigit` and `calcModRM`, the bytes of a ModRM encoding.
use dbrew.Prelude.{ℕ, ◌+◌, ◌-◌, ◌*◌, ◌/◌, ◌%◌, ◌^◌, bit_and, bit_or, Bool, true, false, ◌&&◌}
use dbrew.Prelude.{◌||◌, Option, none, some, List, [], ◌∷◌, ◌++◌, ltb, leb, ◌==◌, ◌!=◌}
use dbrew.Prelude.{if◌then◌else◌, ◌>>=◌, ◌>>◌, assert, ◌is◌}
use dbrew.Instr.Kinds.{rt_none, rt_gp8, rt_ip, rt_enum, vt_64, vt_enum}
use dbrew.Instr.Types.{ri_sp, ri_bp, ri_12, ri_13, Reg, Operand}
use dbrew.Instr.Operands.{op_val_type, op_is_reg, op_is_ind, op_is_gp_reg, op_is_v_reg}
use dbrew.Instr.Registers.{reg_gp64_index}
use dbrew.Generate.Context.{GContext, rex_mask_b, rex_mask_x, rex_mask_r, rex_mask_w}
use dbrew.Generate.Context.{gen_def_op_vt64, gp_reg_encoding, gp64_reg_encoding, v_reg_encoding}

-- The local variables of `calcModRMDigit` that its memory part changes, with `c->rex`.
pub record Locals : Type 0 where
  pub modrm : ℕ
  pub sib : ℕ
  pub use_sib : Bool
  pub use_disp8 : Bool
  pub use_disp32 : Bool
  pub rex : ℕ

-- `(v >= -128) && (v < 128)` and the like: the signed reading of a 64-bit pattern fits `2 ^ k`
-- both ways.
abbrev pub fits_signed : ℕ → ℕ → Bool
fits_signed k v = ltb v (2 ^ k) || leb (2 ^ 64 - 2 ^ k) v

-- The displacement that the value asks for: `useDisp8` and `useDisp32`.
unfoldable pub disp_uses : ℕ → Option (Bool × Bool)
disp_uses v =
    if v != 0
    then (if fits_signed 7 v
        then some (true, false)
        else if fits_signed 31 v
        then some (false, true)
        else none)
    else some (false, false)

-- The base register without a SIB byte.
unfoldable pub calc_base : Operand → Locals → Option Locals
unfolding gp64_reg_encoding
calc_base o1 l =
    if o1.reg.rt is rt_none
    then some (record l {
      use_disp32 = true;
      use_disp8 = false;
      modrm = bit_and l.modrm 63;
      use_sib = true;
      sib = 4 * 8 + 5;
    })
    else if o1.reg.rt is rt_ip
    then none
    else do
      r1 ← gp64_reg_encoding o1.reg
      l' ←
          (if (r1 == ri_bp || r1 == ri_13) && o1.val == 0
            then (do
              assert (ltb l.modrm 64)
              some (record l { use_disp8 = true; modrm = bit_or l.modrm 64 }))
            else some l)
      some (record l' {
        rex = if bit_and r1 8 != 0 then bit_or l'.rex rex_mask_b else l'.rex;
        modrm = bit_or l'.modrm (bit_and r1 7);
      })

-- The scale bits of the SIB byte.
unfoldable pub sib_scale : ℕ → Option ℕ
sib_scale scale =
    if scale == 2
    then some 64
    else if scale == 4
    then some 128
    else if scale == 8
    then some 192
    else do assert (scale == 0 || scale == 1); some 0

-- The index register of the SIB byte; index 4 stands for none.
unfoldable pub sib_index : Operand → Locals → Option Locals
unfolding gp64_reg_encoding
sib_index o1 l =
    if o1.scale == 0 || o1.ireg.rt is rt_none
    then some (record l { sib = bit_or l.sib (4 * 8) })
    else do
      ri ← gp64_reg_encoding o1.ireg
      assert (ri != 4)
      some (record l {
        rex = if bit_and ri 8 != 0 then bit_or l.rex rex_mask_x else l.rex;
        sib = bit_or l.sib (bit_and ri 7 * 8);
      })

-- `rbp` and `r13` as the base cannot go with mod 00: they get a displacement byte.
unfoldable pub force_disp8 : ℕ → Locals → Locals
force_disp8 base l =
    if base == ri_bp || base == ri_13
    then (if bit_and l.modrm 192 == 0
        then record l { modrm = bit_or l.modrm 64; use_disp8 = true }
        else l)
    else l

-- The base register of the SIB byte.
unfoldable pub sib_base : Operand → Locals → Option Locals
unfolding gp64_reg_encoding reg_gp64_index force_disp8
sib_base o1 l =
    if o1.reg.rt is rt_none
    then some (record l {
      use_disp32 = true;
      use_disp8 = false;
      modrm = bit_and l.modrm 63;
      sib = bit_or l.sib 5;
    })
    else do
      base ← reg_gp64_index o1.reg
      let l' = force_disp8 base l
      rb ← gp64_reg_encoding o1.reg
      some (record l' {
        rex = if bit_and rb 8 != 0 then bit_or l'.rex rex_mask_b else l'.rex;
        sib = bit_or l'.sib (bit_and rb 7);
      })

unfoldable pub calc_sib : Operand → Locals → Option Locals
calc_sib o1 l = do
  s ← sib_scale o1.scale
  l' ← sib_index o1 (record l { use_sib = true; sib = s })
  sib_base o1 l'

-- Little-endian bytes of a 32-bit value.
abbrev pub bytes32 : ℕ → List ℕ
bytes32 v = v % 256 ∷ v / 2 ^ 8 % 256 ∷ v / 2 ^ 16 % 256 ∷ v / 2 ^ 24 % 256 ∷ []

-- The bytes at the end of `calcModRMDigit`.
unfoldable pub modrm_bytes : ℕ → Locals → List ℕ
modrm_bytes v l =
    (if l.use_sib then bit_or l.modrm 4 % 256 ∷ l.sib % 256 ∷ [] else l.modrm % 256 ∷ [])
    ++ ((if l.use_disp8 then v % 256 ∷ [] else []) ++ (if l.use_disp32 then bytes32 v else []))

-- Whether the memory operand goes without a SIB byte (but for an absolute address).
unfoldable pub needs_no_sib : Operand → Option Bool
unfolding reg_gp64_index
needs_no_sib o1 =
    if o1.scale == 0
    then (do i ← reg_gp64_index o1.reg; some (i != ri_sp && i != ri_12))
    else some false

-- The local variables behind the choice of a displacement.
unfoldable pub disp_locals : ℕ → ℕ → ℕ → Option Locals
unfolding disp_uses
disp_locals v modrm rex = do
  (d8, d32) ← disp_uses v
  let modrm' = if d8 then bit_or modrm 64 else modrm
  some (record {
    modrm = if d32 then bit_or modrm' 128 else modrm';
    sib = 0;
    use_sib = false;
    use_disp8 = d8;
    use_disp32 = d32;
    rex = rex;
  })

-- `calcModRMDigit` on a memory operand.
unfoldable pub calc_ind : GContext → ℕ → ℕ → Operand → Option GContext
unfolding modrm_bytes needs_no_sib
calc_ind c rex modrm o1 = do
  l ← disp_locals o1.val modrm rex
  plain ← needs_no_sib o1
  l' ← (if plain then calc_base o1 l else calc_sib o1 l)
  some (record c { so = o1.seg; rex = l'.rex; b = modrm_bytes o1.val l' })

-- An empty REX prefix is needed for `spl`, `bpl`, `sil` and `dil`.
unfoldable pub rex_for_gp8 : Reg → ℕ → ℕ
rex_for_gp8 r rex = if r.rt is rt_gp8 && leb 4 r.ri && ltb r.ri 8 then bit_or rex 0x40 else rex

-- `calcModRMDigit` on a register operand: mod 3.
unfoldable pub calc_reg : GContext → ℕ → ℕ → Operand → Option GContext
unfolding op_is_gp_reg op_is_v_reg gp_reg_encoding v_reg_encoding rex_for_gp8
calc_reg c rex modrm o1 = do
  gp ← op_is_gp_reg o1
  (r1, rex') ←
      (if gp
        then (do r1 ← gp_reg_encoding o1.reg; some (r1, rex_for_gp8 o1.reg rex))
        else (do v ← op_is_v_reg o1; assert v; r1 ← v_reg_encoding o1.reg; some (r1, rex)))
  some (record c {
    rex = if bit_and r1 8 != 0 then bit_or rex' rex_mask_b else rex';
    b = bit_or (bit_or modrm 192) (bit_and r1 7) % 256 ∷ [];
  })

unfoldable pub calc_modrm_digit : GContext → Operand → ℕ → ℕ → Option GContext
unfolding op_is_reg op_is_ind op_val_type
calc_modrm_digit c o1 digit flags = do
  assert (ltb digit 8)
  assert (op_is_reg o1 || op_is_ind o1)
  vt ← op_val_type o1
  let rex =
      if bit_and flags gen_def_op_vt64 == 0
      then (if vt is vt_64 then bit_or c.rex rex_mask_w else c.rex)
      else c.rex
  let modrm = bit_and digit 7 * 8
  if op_is_reg o1 then calc_reg c rex modrm o1 else calc_ind c rex modrm o1

-- The register number of the second operand of `calcModRM`, with the REX bits that it asks for.
unfoldable pub calc_reg2 : GContext → Operand → Operand → Option (ℕ × ℕ)
unfolding op_is_gp_reg op_is_v_reg gp_reg_encoding v_reg_encoding rex_for_gp8 op_is_reg op_is_ind
calc_reg2 c o1 o2 = do
  gp ← op_is_gp_reg o2
  if gp
      then (do
        assert (op_is_reg o1 || op_is_ind o1)
        r2 ← gp_reg_encoding o2.reg
        some (r2, rex_for_gp8 o2.reg c.rex))
      else (do
        v ← op_is_v_reg o2
        assert v
        assert (op_is_reg o1 || op_is_ind o1)
        r2 ← v_reg_encoding o2.reg
        some (r2, c.rex))

unfoldable pub calc_modrm : GContext → Operand → Operand → Option GContext
unfolding op_val_type
calc_modrm c o1 o2 = do
  t1 ← op_val_type o1
  t2 ← op_val_type o2
  assert (t1 is t2)
  (r2, rex) ← calc_reg2 c o1 o2
  calc_modrm_digit (record c { rex = if bit_and r2 8 != 0 then bit_or rex rex_mask_r else rex }) o1
      (bit_and r2 7) 0
