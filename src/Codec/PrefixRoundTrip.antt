-- ===== src/Codec/PrefixRoundTrip.antt =====
-- `decodePrefixes` undoes `genPrefix`.
use dbrew.Prelude.{ℕ, ◌+◌, ◌-◌, ◌*◌, ◌%◌, ◌<◌, bit_and, ◌≡◌, refl, ap, ◌∙◌, true, not, some}
use dbrew.Prelude.{List, ◌∷◌, ◌++◌, arith, ◌==◌, ◌!=◌, if◌then◌else◌, ==_iff, length}
use dbrew.Prelude.{length-append, ◌is◌}
use mathlib.Core.List.{append_assoc}
use dbrew.Codec.Vex.{vex_low, IsVexContext, pp_of, loop_vex}
use dbrew.Codec.Prefixes.{IsRex, IsNoPrefix, after, loop_seg, IsPrefixSet, take_rexw_lem}
use dbrew.Codec.Prefixes.{legacy_prefixes_back}
use dbrew.Decode.Context.{DContext}
use dbrew.Decode.Prefix.{prefix_loop, start_instr, decode_prefixes}
use dbrew.Instr.Kinds.{oso_none, oso_enum, VexPrefix}
use dbrew.Instr.Kinds.{vex_no, vex_128, vex_enum}
use dbrew.Generate.Context.{GContext}
use dbrew.Generate.Prefix.{legacy_prefixes, vex_prefix, seg_prefix, take_rexw, gen_prefix}
use dbrew.Prelude.Table.{holds_below, holds_below_at}

-- A legacy instruction: for every segment override, set of the prefixes 66, F2, F3 and REX.W, and
-- REX prefix, `genPrefix` succeeds, and `decodePrefixes` reads its bytes back up to the first byte
-- that is no prefix. The REX.W request of the prefix set has become the W bit of the REX prefix.
pub decode_prefixes-gen_prefix :
    (c : GContext) (x : DContext) (b : ℕ) (tail : List ℕ)
    → c.vp ≡ vex_no
    → IsRex c.rex
    → IsPrefixSet c.ps
    → IsNoPrefix b
    → (bytes : List ℕ) × (gen_prefix c ≡ some (take_rexw c, bytes))
      × (decode_prefixes (record x { rest = bytes ++ b ∷ tail })
          ≡ some (record (start_instr x) {
            rest = b ∷ tail;
            off = x.off + length bytes;
            seg_ov = c.so;
            ps = c.ps % 16;
            rex = (take_rexw c).rex % 16;
            has_rex = (take_rexw c).rex != 0;
          }))
unfolding gen_prefix decode_prefixes
decode_prefixes-gen_prefix c x b tail hv hr hp hb =
    let t = take_rexw_lem c hr hp in
    let rex = (take_rexw c).rex in
    let bytes = seg_prefix c.so ++ legacy_prefixes (c.ps % 16) rex in
    (
      bytes,
      ground (arith, t),
      legacy_prefixes_back c.so (c.ps % 16) rex b tail x (omega arith) (omega arith) t.1 hb,
    )

opc_0f :
    (opc : ℕ)
    → opc < 256
    → (bit_and (0x0F00 + opc) 0xFF00 ≡ 0x0F00) × (bit_and (0x0F00 + opc) 0xFF ≡ opc)
unfolding holds_below
opc_0f opc h = (
  (==_iff _ _).0 (holds_below_at 256 (λ o. bit_and (0x0F00 + o) 0xFF00 == 0x0F00) opc refl h),
  (==_iff _ _).0 (holds_below_at 256 (λ o. bit_and (0x0F00 + o) 0xFF == o) opc refl h),
)

vex_length : VexPrefix → ℕ
vex_length v = if v is vex_128 then 0 else 1

gen_prefix-vex :
    (c : GContext) (opc : ℕ)
    → IsVexContext c
    → c.opc ≡ some (0x0F00 + opc)
    → opc < 256
    → gen_prefix c
      ≡ some (
        record c { opc = some opc },
        seg_prefix c.so ++ vex_prefix ((15 - c.vvvv) * 8 + vex_length c.vp * 4 + pp_of c.ps) c.rex,
      )
unfolding gen_prefix vex_length pp_of
gen_prefix-vex c opc h e ho =
    ground (arith, opc_0f opc, vex_low c.vvvv (vex_length c.vp) (pp_of c.ps))

-- A VEX instruction: for both vector lengths, every vvvv register, REX bits and prefix of the
-- opcode map 0F, `genPrefix` takes the leading 0F off the opcode, and `decodePrefixes` reads the
-- prefix of two or three bytes back and stops behind it.
pub decode_prefixes-gen_prefix_vex :
    (c : GContext) (x : DContext) (opc : ℕ) (tail : List ℕ)
    → IsVexContext c
    → c.opc ≡ some (0x0F00 + opc)
    → opc < 256
    → (bytes : List ℕ) × (gen_prefix c ≡ some (record c { opc = some opc }, bytes))
      × (decode_prefixes (record x { rest = bytes ++ tail })
          ≡ some (record (start_instr x) {
            rest = tail;
            off = x.off + length bytes;
            seg_ov = c.so;
            vex = c.vp;
            vex_vvvv = some c.vvvv;
            ps = c.ps;
            rex = c.rex;
            has_rex = true;
            opc1 = some 0x0F;
          }))
unfolding decode_prefixes
decode_prefixes-gen_prefix_vex c x opc tail h e ho =
    let p = vex_prefix ((15 - c.vvvv) * 8 + vex_length c.vp * 4 + pp_of c.ps) c.rex in
    let bytes = seg_prefix c.so ++ p in
    let c0 = start_instr (record x { rest = bytes ++ tail }) in
    let c1 = after (not (c.so is oso_none)) c0 (record c0 { seg_ov = c.so }) (p ++ tail) in
    (
      bytes,
      gen_prefix-vex c opc h e ho,
      ap (λ l. prefix_loop l c0) (append_assoc (seg_prefix c.so) p tail)
          ∙ loop_seg c.so (p ++ tail) c0 refl
          ∙ loop_vex c.vvvv (vex_length c.vp) c.ps c.rex tail c1 h.vvvv_ok
              (unfold vex_length in ground arith) h.ps_ok h.rex_ok (ground arith) (ground arith)
          ∙ unfold vex_length seg_prefix in ground (arith, length-append (seg_prefix c.so) p),
    )
