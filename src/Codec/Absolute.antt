-- ===== src/Codec/Absolute.antt =====
-- `calcModRMDigit` on memory operands without a base register: four displacement bytes, mod 0.
use dbrew.Prelude.{ℕ, ◌+◌, ◌*◌, ◌%◌, ◌<◌, bit_and, ◌≡◌, ◌≢◌, true, false, some, ◌∷◌, arith}
use dbrew.Codec.Disp.{IsDisp, disp_mod, disp_mod-lt}
use dbrew.Codec.Base.{IsGp64, fields, rex_if_high, start, disp_locals_lem, IsScale, scale_field}
use dbrew.Codec.Base.{sib_scale_lem, sib_index_lem}
use dbrew.Instr.Kinds.{rt_none}
use dbrew.Instr.Types.{Operand}
use dbrew.Generate.Modrm.{Locals, calc_base, sib_base, calc_sib, bytes32, calc_ind}
use dbrew.Generate.Context.{GContext}
use dbrew.Prelude.Table.{bit_or_low3, bit_and_63}

mask_mod : (d v rex : ℕ) → d < 8 → bit_and (start d v rex).modrm 63 ≡ d * 8
mask_mod d v rex hd = ground (arith, bit_and_63 (fields (disp_mod v 0) d 0), disp_mod-lt v 0)

-- An absolute address.
pub calc_ind-absolute :
    (c : GContext) (rex d : ℕ) (o : Operand)
    → d < 8
    → o.reg.rt ≡ rt_none
    → o.scale ≡ 0
    → IsDisp o.val
    → calc_ind c rex (d * 8) o
      ≡ some (record c { so = o.seg; rex = rex; b = fields 0 d 4 ∷ fields 0 4 5 ∷ bytes32 o.val })
unfolding calc_ind calc_base
calc_ind-absolute c rex d o hd hr hs hv =
    ground (arith, disp_locals_lem d o.val rex, mask_mod d o.val rex, bit_or_low3 d 4)

sib_base_none :
    (o : Operand) (l : Locals) (x : ℕ)
    → x < 32
    → l.sib ≡ x * 8
    → o.reg.rt ≡ rt_none
    → sib_base o l
      ≡ some (record l {
        use_disp32 = true;
        use_disp8 = false;
        modrm = bit_and l.modrm 63;
        sib = x * 8 + 5;
      })
unfolding sib_base
sib_base_none o l x hx e hr = ground (arith, bit_or_low3 x 5)

calc_sib-none :
    (o : Operand) (l : Locals)
    → o.reg.rt ≡ rt_none
    → IsScale o.scale
    → IsGp64 o.ireg
    → o.ireg.ri ≢ 4
    → calc_sib o l
      ≡ some (record l {
        use_sib = true;
        use_disp32 = true;
        use_disp8 = false;
        modrm = bit_and l.modrm 63;
        rex = rex_if_high o.ireg.ri 2 l.rex;
        sib = fields (scale_field o.scale) (o.ireg.ri % 8) 5;
      })
unfolding calc_sib
calc_sib-none o l hr hs hi h4 =
    let s = scale_field o.scale in
    let l1 = record l { use_sib = true; sib = s * 64 } in
    let l2 = record l1 { rex = rex_if_high o.ireg.ri 2 l.rex; sib = s * 64 + o.ireg.ri % 8 * 8 } in
    ground (
      arith,
      sib_scale_lem o.scale hs,
      sib_index_lem o l1 s,
      sib_base_none o l2 (s * 8 + o.ireg.ri % 8),
    )

-- A scaled index alone.
pub calc_ind-index_only :
    (c : GContext) (rex d : ℕ) (o : Operand)
    → d < 8
    → o.reg.rt ≡ rt_none
    → IsScale o.scale
    → IsGp64 o.ireg
    → o.ireg.ri ≢ 4
    → IsDisp o.val
    → calc_ind c rex (d * 8) o
      ≡ some (record c {
        so = o.seg;
        rex = rex_if_high o.ireg.ri 2 rex;
        b = fields 0 d 4 ∷ fields (scale_field o.scale) (o.ireg.ri % 8) 5 ∷ bytes32 o.val;
      })
unfolding calc_ind
calc_ind-index_only c rex d o hd hr hs hi h4 hv = ground (
  arith,
  disp_locals_lem d o.val rex,
  calc_sib-none o (start d o.val rex),
  mask_mod d o.val rex,
  bit_or_low3 d 4,
)
