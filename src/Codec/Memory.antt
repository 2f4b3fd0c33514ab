-- ===== src/Codec/Memory.antt =====
-- A memory operand that the generator encodes is decoded as it was: the four shapes of an address.
use dbrew.Prelude.{ℕ, ◌+◌, ◌*◌, ◌%◌, ◌<◌, bit_and, bit_or, ◌≡◌, refl, ◌≢◌, ◌⊎◌, inl, inr}
use dbrew.Prelude.{Option, some, List, ◌∷◌, ◌++◌, arith, ltb, length}
use native.Mathlib.Decide.{ℕ_discrete}
use dbrew.Codec.Address.{SameAddress, feed, IsRexRw, rex_bits-indexed, rex_bits-base}
use dbrew.Codec.Address.{rex_bits-index, rex_bits-none, parse_modrm-plain, parse_modrm-sib}
use dbrew.Codec.Disp.{IsDisp, disp_mod, disp_bytes, disp_mod-lt}
use dbrew.Codec.Parse.{parse_plain_lem}
use dbrew.Codec.Base.{IsGp64, fields, rex_if_high, calc_ind-plain, calc_ind-no_index, IsScale}
use dbrew.Codec.Base.{scale_field, calc_ind-indexed}
use dbrew.Codec.ParseSib.{gp64, no_reg, parse_with_sib-indexed, parse_with_sib-no_index}
use dbrew.Codec.ParseSib.{parse_with_sib-absolute, parse_with_sib-index_only}
use dbrew.Codec.Absolute.{calc_ind-absolute, calc_ind-index_only}
use dbrew.Decode.Modrm.{Parsed, parse_reg_type, parse_ind_type, parse_o2, parse_with_sib}
use dbrew.Decode.Modrm.{parse_modrm}
use dbrew.Decode.Context.{DContext}
use dbrew.Instr.Kinds.{rt_none, ValType, OpType}
use dbrew.Instr.Types.{Operand}
use dbrew.Generate.Modrm.{bytes32, calc_ind}
use dbrew.Generate.Context.{GContext}
use dbrew.Prelude.Table.{holds_below, holds_below_at}

-- What the decoder makes of the bytes of a memory operand.
pub record ReadsBack (o : Operand) (d : ℕ) (o2 : Option Operand) (tail : List ℕ) (end : ℕ)
    (result : Option Parsed) : Type 0 where
  pub parsed : Parsed
  pub parses : result ≡ some parsed
  pub same : SameAddress o parsed.o1
  pub digit_eq : parsed.digit ≡ d
  pub o2_eq : parsed.o2 ≡ o2
  pub rest_eq : parsed.cxt.rest ≡ tail
  pub off_eq : parsed.cxt.off ≡ end

-- Only REX bits are added to the context, besides the segment and the bytes.
pub record KeepsContext (c : GContext) (o : Operand) (code : GContext) : Type 0 where
  pub vp_eq : code.vp ≡ c.vp
  pub ps_eq : code.ps ≡ c.ps
  pub so_eq : code.so ≡ o.seg
  pub rex_lt : code.rex < 16

pub record EncodesAndReadsBack (c : GContext) (encoded : Option GContext) (rex : ℕ) (x : DContext)
    (vt : ValType) (rts : ℕ) (old : Operand) (o2 o2' : Option Operand) (tail : List ℕ) (o : Operand)
    (d : ℕ) : Type 0 where
  pub code : GContext
  pub encodes : encoded ≡ some code
  pub keeps : KeepsContext c o code
  pub w_eq : bit_and code.rex 8 ≡ bit_and rex 8
  pub back :
      ReadsBack o d o2' tail (x.off + length code.b) (parse_modrm (feed x code tail) vt rts old o2)

rex_if_high-lt : (r m rex : ℕ) → rex < 16 → (m ≡ 1) ⊎ (m ≡ 2) → rex_if_high r m rex < 16
unfolding holds_below
rex_if_high-lt r m rex h k = ground (
  arith,
  holds_below_at 16 (λ x. ltb (bit_or x 1) 16) rex refl h,
  holds_below_at 16 (λ x. ltb (bit_or x 2) 16) rex refl h,
)

module _ (vt : ValType) (rts : ℕ) (rot : OpType) (c : GContext) (rex d : ℕ) (o old : Operand)
    (o2 o2' : Option Operand) (x : DContext) (tail : List ℕ)
    (reg_ok : parse_reg_type vt rts ≡ some rot) (ind_ok : parse_ind_type vt rts ≡ some o.type)
    (hd : d < 8) (hx : IsRexRw rex) (hv : IsDisp o.val)
    (second : (y : DContext)
      → y.has_rex ≡ x.has_rex
      → bit_and y.rex 4 ≡ bit_and rex 4
      → parse_o2 y vt rts rot d o2 ≡ some o2') where
  abbrev Goal : Type 0
  Goal = EncodesAndReadsBack c (calc_ind c rex (d * 8) o) rex x vt rts old o2 o2' tail o d

  rex_small : rex < 16
  rex_small = omega (arith, hx)

  -- What stands behind the ModRM byte, as the decoder sees it.
  abbrev behind : ℕ → List ℕ → DContext
  behind rex' rest = record x { rex = rex'; seg_ov = o.seg; rest = rest; off = x.off + 1 }

  plain : IsGp64 o.reg → o.scale ≡ 0 → o.reg.ri ≢ 4 → o.reg.ri ≢ 12 → Goal
  plain hr hs h4 h12 =
      let r = o.reg.ri in
      let rex' = rex_if_high r 1 rex in
      let m = disp_mod o.val r in
      let b = fields m d (r % 8) ∷ disp_bytes m o.val in
      let code = record c { so = o.seg; rex = rex'; b = b } in
      let y = behind rex' (disp_bytes m o.val ++ tail) in
      let bits = rex_bits-base rex r hx hr.1 in
      let o' = record old { type = o.type; seg = o.seg; scale = 0; val = o.val; reg = gp64 r } in
      let c2 = record y { rest = tail; off = y.off + length (disp_bytes m o.val) } in
      let step : parse_modrm (feed x code tail) vt rts old o2
          ≡ some (record { cxt = c2; o1 = o'; o2 = o2'; digit = d }) =
        parse_modrm-plain vt rts rot o.type reg_ok ind_ok (feed x code tail) c2 m d (r % 8)
          (disp_bytes m o.val ++ tail) old o' o2 o2' (disp_mod-lt o.val r) hd (omega arith)
          (omega arith) refl (second y refl bits.2)
          (parse_plain_lem y o.type old o.val r tail hv hr.1 h4 h12 bits.0 refl) in
      record {
        code = code;
        encodes = calc_ind-plain c rex d o hd hr hs h4 h12 hv;
        keeps = record {
          vp_eq = refl;
          ps_eq = refl;
          so_eq = refl;
          rex_lt = rex_if_high-lt r 1 rex rex_small (inl refl);
        };
        w_eq = bits.3;
        back = record {
          parsed = record { cxt = c2; o1 = o'; o2 = o2'; digit = d };
          parses = step;
          same = ground arith;
          digit_eq = refl;
          o2_eq = refl;
          rest_eq = refl;
          off_eq = omega arith;
        };
      }

  -- The three shapes with a SIB byte: given the generator's bytes and what the decoder reads.
  with_sib :
      (rex' m sib : ℕ) (disp : List ℕ) (o' : Operand)
      → m < 3
      → rex' < 16
      → calc_ind c rex (d * 8) o
        ≡ some (record c { so = o.seg; rex = rex'; b = fields m d 4 ∷ sib ∷ disp })
      → bit_and rex' 4 ≡ bit_and rex 4
      → bit_and rex' 8 ≡ bit_and rex 8
      → parse_with_sib (behind rex' (sib ∷ disp ++ tail)) o.type m old
        ≡ some (
          o',
          record (behind rex' (sib ∷ disp ++ tail)) {
            rest = tail;
            off = x.off + 1 + 1 + length disp;
          },
        )
      → SameAddress o o'
      → Goal
  with_sib rex' m sib disp o' hm hl enc hr4 hw read same =
      let b = fields m d 4 ∷ sib ∷ disp in
      let code = record c { so = o.seg; rex = rex'; b = b } in
      let y = behind rex' (sib ∷ disp ++ tail) in
      let c2 = record y { rest = tail; off = x.off + 1 + 1 + length disp } in
      record {
        code = code;
        encodes = enc;
        keeps = record { vp_eq = refl; ps_eq = refl; so_eq = refl; rex_lt = hl };
        w_eq = hw;
        back = record {
          parsed = record { cxt = c2; o1 = o'; o2 = o2'; digit = d };
          parses =
              parse_modrm-sib vt rts rot o.type reg_ok ind_ok (feed x code tail) c2 m d
                (sib ∷ disp ++ tail) old o' o2 o2' hm hd refl (second y refl hr4) read;
          same = same;
          digit_eq = refl;
          o2_eq = refl;
          rest_eq = refl;
          off_eq = omega arith;
        };
      }

  no_index : IsGp64 o.reg → o.scale ≡ 0 → (o.reg.ri ≡ 4) ⊎ (o.reg.ri ≡ 12) → Goal
  no_index hr hs h4 =
      let r = o.reg.ri in
      let rex' = rex_if_high r 1 rex in
      let m = disp_mod o.val r in
      let disp = disp_bytes m o.val in
      let y = behind rex' (fields 0 4 (r % 8) ∷ disp ++ tail) in
      let bits = rex_bits-base rex r hx hr.1 in
      let o' = record old {
        type = o.type;
        seg = o.seg;
        scale = 0;
        val = o.val;
        ireg = no_reg;
        reg = gp64 r;
      } in
      with_sib rex' m (fields 0 4 (r % 8)) disp o' (disp_mod-lt o.val r)
        (rex_if_high-lt r 1 rex rex_small (inl refl)) (calc_ind-no_index c rex d o hd hr hs h4 hv)
        bits.2 bits.3 (parse_with_sib-no_index y o.type old o.val tail hv r hr.1 bits.1 bits.0 refl)
        (ground arith)

  indexed : IsGp64 o.reg → IsScale o.scale → IsGp64 o.ireg → o.ireg.ri ≢ 4 → Goal
  indexed hr hs hi h4 =
      let r = o.reg.ri in
      let i = o.ireg.ri in
      let rex' = rex_if_high r 1 (rex_if_high i 2 rex) in
      let m = disp_mod o.val r in
      let disp = disp_bytes m o.val in
      let sib = fields (scale_field o.scale) (i % 8) (r % 8) in
      let y = behind rex' (sib ∷ disp ++ tail) in
      let bits = rex_bits-indexed rex r i hx hr.1 hi.1 in
      let o' = record old {
        type = o.type;
        seg = o.seg;
        scale = o.scale;
        val = o.val;
        ireg = gp64 i;
        reg = gp64 r;
      } in
      with_sib rex' m sib disp o' (disp_mod-lt o.val r)
        (rex_if_high-lt r 1 (rex_if_high i 2 rex) (rex_if_high-lt i 2 rex rex_small (inr refl))
          (inl refl))
        (calc_ind-indexed c rex d o hd hr hs hi h4 hv) bits.2 bits.3
        (parse_with_sib-indexed y o.type old o.val tail hv o.scale i r hs hi.1 h4 hr.1 bits.1 bits.0
          refl)
        (ground arith)

  absolute : o.reg.rt ≡ rt_none → o.scale ≡ 0 → Goal
  absolute hr hs =
      let disp = bytes32 o.val in
      let y = behind rex (fields 0 4 5 ∷ disp ++ tail) in
      let o' = record old {
        type = o.type;
        seg = o.seg;
        scale = 0;
        val = o.val;
        ireg = no_reg;
        reg = no_reg;
      } in
      with_sib rex 0 (fields 0 4 5) disp o' (omega arith) rex_small
        (calc_ind-absolute c rex d o hd hr hs hv) refl refl
        (parse_with_sib-absolute y o.type old o.val tail hv (rex_bits-none rex hx) refl)
        (ground arith)

  index_only : o.reg.rt ≡ rt_none → IsScale o.scale → IsGp64 o.ireg → o.ireg.ri ≢ 4 → Goal
  index_only hr hs hi h4 =
      let i = o.ireg.ri in
      let rex' = rex_if_high i 2 rex in
      let disp = bytes32 o.val in
      let sib = fields (scale_field o.scale) (i % 8) 5 in
      let y = behind rex' (sib ∷ disp ++ tail) in
      let bits = rex_bits-index rex i hx hi.1 in
      let o' = record old {
        type = o.type;
        seg = o.seg;
        scale = o.scale;
        val = o.val;
        ireg = gp64 i;
        reg = no_reg;
      } in
      with_sib rex' 0 sib disp o' (omega arith) (rex_if_high-lt i 2 rex rex_small (inr refl))
        (calc_ind-index_only c rex d o hd hr hs hi h4 hv) bits.1 bits.2
        (parse_with_sib-index_only y o.type old o.val tail hv o.scale i hs hi.1 h4 bits.0 refl)
        (ground arith)

  -- A base without an index: with a SIB byte exactly for `rsp` and `r12`.
  unindexed : IsGp64 o.reg → o.scale ≡ 0 → Goal
  unindexed hr hs = elim (ℕ_discrete o.reg.ri 4) [
    | yes e ↦ no_index hr hs (inl e)
    | no n4 ↦ elim (ℕ_discrete o.reg.ri 12) [
      | yes e ↦ no_index hr hs (inr e)
      | no n12 ↦ plain hr hs n4 n12
    ]
  ]

  pub calc_ind-ReadsBack :
      (o.reg.rt ≡ rt_none) ⊎ IsGp64 o.reg
      → (o.scale ≡ 0) ⊎ (IsScale o.scale × IsGp64 o.ireg × (o.ireg.ri ≢ 4))
      → Goal
  calc_ind-ReadsBack (inl hr) (inl hs) = absolute hr hs
  calc_ind-ReadsBack (inl hr) (inr h) = index_only hr h.0 h.1 h.2
  calc_ind-ReadsBack (inr hr) (inl hs) = unindexed hr hs
  calc_ind-ReadsBack (inr hr) (inr h) = indexed hr h.0 h.1 h.2
