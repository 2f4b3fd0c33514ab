-- ===== src/Codec/Base.antt =====
-- `calcModRMDigit` on memory operands, case by case: the bytes that the generator writes.
use dbrew.Prelude.{ℕ, ◌+◌, ◌*◌, ◌%◌, ◌<◌, bit_and, bit_or, ◌≡◌, ◌≢◌, ◌⊎◌, true, false, some}
use dbrew.Prelude.{◌∷◌, arith, ◌==◌, ◌!=◌, if◌then◌else◌}
use dbrew.Codec.Disp.{IsDisp, disp_mod, disp_bytes, disp_mod-lt, disp_mod_two}
use dbrew.Instr.Kinds.{rt_gp64}
use dbrew.Instr.Types.{Reg, Operand}
use dbrew.Generate.Modrm.{Locals, calc_base, sib_scale, sib_index, force_disp8, sib_base}
use dbrew.Generate.Modrm.{calc_sib, disp_locals, calc_ind}
use dbrew.Generate.Context.{GContext}
use dbrew.Prelude.Table.{bit_or_low3, bit_or_top2, bit_or_mid3, bit_and_192, bit_and_7}

-- A register number that may stand in an encoding.
abbrev pub IsGp64 : Reg → Type 0
IsGp64 r = (r.rt ≡ rt_gp64) × (r.ri < 16)

-- A ModRM or SIB byte by its fields of 2, 3 and 3 bits.
abbrev pub fields : ℕ → ℕ → ℕ → ℕ
fields top mid low = top * 64 + mid * 8 + low

-- The REX bit that the high bit of a register number asks for.
abbrev pub rex_if_high : ℕ → ℕ → ℕ → ℕ
rex_if_high r mask rex = if bit_and r 8 != 0 then bit_or rex mask else rex

-- What `calcModRMDigit` starts from: the mod field of a base other than `rbp` and `r13`.
abbrev pub start : ℕ → ℕ → ℕ → Locals
start d v rex = record {
  modrm = fields (disp_mod v 0) d 0;
  sib = 0;
  use_sib = false;
  use_disp8 = disp_mod v 0 == 1;
  use_disp32 = disp_mod v 0 == 2;
  rex = rex;
}

pub disp_locals_lem :
    (d v rex : ℕ) → d < 8 → IsDisp v → disp_locals v (d * 8) rex ≡ some (start d v rex)
unfolding disp_locals disp_mod
disp_locals_lem d v rex hd hv = ground (arith, bit_or_mid3 d 1, bit_or_mid3 d 2)

-- No SIB byte.
pub calc_ind-plain :
    (c : GContext) (rex d : ℕ) (o : Operand)
    → d < 8
    → IsGp64 o.reg
    → o.scale ≡ 0
    → o.reg.ri ≢ 4
    → o.reg.ri ≢ 12
    → IsDisp o.val
    → calc_ind c rex (d * 8) o
      ≡ some (record c {
        so = o.seg;
        rex = rex_if_high o.reg.ri 1 rex;
        b =
            fields (disp_mod o.val o.reg.ri) d (o.reg.ri % 8)
            ∷ disp_bytes (disp_mod o.val o.reg.ri) o.val;
      })
unfolding calc_ind calc_base disp_mod
calc_ind-plain c rex d o hd hr hs h4 h12 hv = ground (
  arith,
  disp_locals_lem d o.val rex,
  bit_or_mid3 d 1,
  bit_or_low3 d (o.reg.ri % 8),
  bit_or_low3 (8 + d) (o.reg.ri % 8),
  bit_or_low3 (16 + d) (o.reg.ri % 8),
  bit_and_7 o.reg.ri,
)

-- `rsp` and `r12` as the base without an index: a SIB byte whose index is 4.
pub calc_ind-no_index :
    (c : GContext) (rex d : ℕ) (o : Operand)
    → d < 8
    → IsGp64 o.reg
    → o.scale ≡ 0
    → (o.reg.ri ≡ 4) ⊎ (o.reg.ri ≡ 12)
    → IsDisp o.val
    → calc_ind c rex (d * 8) o
      ≡ some (record c {
        so = o.seg;
        rex = rex_if_high o.reg.ri 1 rex;
        b =
            fields (disp_mod o.val o.reg.ri) d 4
            ∷ fields 0 4 (o.reg.ri % 8)
            ∷ disp_bytes (disp_mod o.val o.reg.ri) o.val;
      })
unfolding calc_ind calc_sib sib_scale sib_index sib_base disp_mod
calc_ind-no_index c rex d o hd hr hs h4 hv = ground (
  arith,
  disp_locals_lem d o.val rex,
  bit_or_mid3 d 1,
  bit_or_low3 d 4,
  bit_or_low3 (8 + d) 4,
  bit_or_low3 (16 + d) 4,
)

-- The scale of an indexed operand, and its field.
abbrev pub IsScale : ℕ → Type 0
IsScale s = (s ≡ 1) ⊎ (s ≡ 2) ⊎ (s ≡ 4) ⊎ (s ≡ 8)

abbrev pub scale_field : ℕ → ℕ
scale_field s = if s == 2 then 1 else if s == 4 then 2 else if s == 8 then 3 else 0

pub sib_scale_lem : (s : ℕ) → IsScale s → sib_scale s ≡ some (scale_field s * 64)
unfolding sib_scale
sib_scale_lem s h = ground arith

pub sib_index_lem :
    (o : Operand) (l : Locals) (s : ℕ)
    → s < 4
    → l.sib ≡ s * 64
    → IsGp64 o.ireg
    → o.ireg.ri ≢ 4
    → o.scale ≢ 0
    → sib_index o l
      ≡ some (record l { rex = rex_if_high o.ireg.ri 2 l.rex; sib = s * 64 + o.ireg.ri % 8 * 8 })
unfolding sib_index
sib_index_lem o l s hs e hi h4 h0 =
    ground (arith, bit_and_7 o.ireg.ri, bit_or_top2 s (o.ireg.ri % 8))

sib_base_lem :
    (o : Operand) (l : Locals) (x : ℕ)
    → x < 32
    → l.sib ≡ x * 8
    → IsGp64 o.reg
    → sib_base o l ≡ (
        let l' = force_disp8 o.reg.ri l in
        some (record l' { rex = rex_if_high o.reg.ri 1 l'.rex; sib = x * 8 + o.reg.ri % 8 }))
unfolding sib_base
sib_base_lem o l x hx e hr = ground (arith, bit_and_7 o.reg.ri, bit_or_low3 x (o.reg.ri % 8))

calc_sib-indexed :
    (o : Operand) (l : Locals)
    → IsGp64 o.reg
    → IsScale o.scale
    → IsGp64 o.ireg
    → o.ireg.ri ≢ 4
    → calc_sib o l ≡ (
        let l' = force_disp8 o.reg.ri l in
        some (record l' {
          use_sib = true;
          rex = rex_if_high o.reg.ri 1 (rex_if_high o.ireg.ri 2 l.rex);
          sib = fields (scale_field o.scale) (o.ireg.ri % 8) (o.reg.ri % 8);
        }))
unfolding calc_sib force_disp8
calc_sib-indexed o l hr hs hi h4 =
    let s = scale_field o.scale in
    let l1 = record l { use_sib = true; sib = s * 64 } in
    let l2 = record l1 { rex = rex_if_high o.ireg.ri 2 l.rex; sib = s * 64 + o.ireg.ri % 8 * 8 } in
    ground (
      arith,
      sib_scale_lem o.scale hs,
      sib_index_lem o l1 s,
      sib_base_lem o l2 (s * 8 + o.ireg.ri % 8),
    )

force_disp8_lem :
    (d v rex r : ℕ)
    → d < 8
    → force_disp8 r (start d v rex)
      ≡ record (start d v rex) { modrm = fields (disp_mod v r) d 0; use_disp8 = disp_mod v r == 1 }
unfolding force_disp8 disp_mod
force_disp8_lem d v rex r hd = ground (
  arith,
  bit_or_mid3 d 1,
  bit_and_192 (fields 0 d 0),
  bit_and_192 (fields 1 d 0),
  bit_and_192 (fields 2 d 0),
)

-- A base and a scaled index.
pub calc_ind-indexed :
    (c : GContext) (rex d : ℕ) (o : Operand)
    → d < 8
    → IsGp64 o.reg
    → IsScale o.scale
    → IsGp64 o.ireg
    → o.ireg.ri ≢ 4
    → IsDisp o.val
    → calc_ind c rex (d * 8) o
      ≡ some (record c {
        so = o.seg;
        rex = rex_if_high o.reg.ri 1 (rex_if_high o.ireg.ri 2 rex);
        b =
            fields (disp_mod o.val o.reg.ri) d 4
            ∷ fields (scale_field o.scale) (o.ireg.ri % 8) (o.reg.ri % 8)
            ∷ disp_bytes (disp_mod o.val o.reg.ri) o.val;
      })
unfolding calc_ind
calc_ind-indexed c rex d o hd hr hs hi h4 hv = ground (
  arith,
  disp_locals_lem d o.val rex,
  calc_sib-indexed o (start d o.val rex),
  force_disp8_lem d o.val rex o.reg.ri,
  disp_mod_two o.val o.reg.ri,
  disp_mod-lt o.val o.reg.ri,
  bit_or_low3 d 4,
  bit_or_low3 (8 + d) 4,
  bit_or_low3 (16 + d) 4,
)
