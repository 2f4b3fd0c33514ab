-- ===== src/Codec/ParseSib.antt =====
-- `parseModRM` on memory operands with a SIB byte.
use dbrew.Prelude.{ℕ, ◌+◌, ◌%◌, ◌^◌, ◌<◌, bit_and, ◌≡◌, ◌≢◌, some, List, ◌∷◌, ◌++◌, arith, leb}
use dbrew.Prelude.{◌!=◌, length}
use dbrew.Codec.Disp.{IsDisp, disp_mod, disp_bytes, disp_mod-lt, disp_mod_zero, parse_disp_word}
use dbrew.Codec.Disp.{parse_disp-disp_bytes}
use dbrew.Codec.Parse.{split_fields, rex_extend_back}
use dbrew.Codec.Base.{fields, IsScale, scale_field}
use dbrew.Decode.Modrm.{rex_extend, parse_sib, parse_with_sib}
use dbrew.Decode.Context.{DContext}
use dbrew.Instr.Kinds.{rt_none, rt_gp64, OpType}
use dbrew.Instr.Types.{Reg, Operand}
use dbrew.Generate.Modrm.{bytes32}

-- The scale comes back from its field.
two-pow-scale_field : (s : ℕ) → IsScale s → 2 ^ scale_field s ≡ s
two-pow-scale_field s h = ground arith

-- Reading a SIB byte with fields `s`, `i`, `b`.
parse_sib_lem :
    (c : DContext) (s i b : ℕ) (tail : List ℕ)
    → s < 4
    → i < 8
    → b < 8
    → c.rest ≡ fields s i b ∷ tail
    → parse_sib c ≡ some (2 ^ s, rex_extend c.rex 2 i, b, record c { rest = tail; off = c.off + 1 })
unfolding parse_sib
parse_sib_lem c s i b tail hs hi hb e = ground (arith, split_fields s i b)

abbrev pub gp64 : ℕ → Reg
gp64 r = record { rt = rt_gp64; ri = r }

abbrev pub no_reg : Reg
no_reg = record { rt = rt_none; ri = 0 }

module _ (c : DContext) (ot : OpType) (o : Operand) (v : ℕ) (tail : List ℕ) (hv : IsDisp v) where
  pub parse_with_sib-indexed :
      (scale i r : ℕ)
      → IsScale scale
      → i < 16
      → i ≢ 4
      → r < 16
      → ((bit_and c.rex 2 != 0) ≡ leb 8 i)
      → ((bit_and c.rex 1 != 0) ≡ leb 8 r)
      → c.rest ≡ fields (scale_field scale) (i % 8) (r % 8) ∷ (disp_bytes (disp_mod v r) v ++ tail)
      → parse_with_sib c ot (disp_mod v r) o
        ≡ some (
          record o {
            type = ot;
            seg = c.seg_ov;
            scale = scale;
            val = v;
            ireg = gp64 i;
            reg = gp64 r;
          },
          record c { rest = tail; off = c.off + 1 + length (disp_bytes (disp_mod v r) v) },
        )
  unfolding parse_with_sib
  parse_with_sib-indexed scale i r hs hi h4 hr hx hb e =
      let rest = disp_bytes (disp_mod v r) v ++ tail in
      ground (
        arith,
        parse_sib_lem c (scale_field scale) (i % 8) (r % 8) rest,
        two-pow-scale_field scale hs,
        parse_disp-disp_bytes (record c { rest = rest; off = c.off + 1 }) v r tail,
        disp_mod_zero v r,
        disp_mod-lt v r,
        rex_extend_back c.rex 2 i,
        rex_extend_back c.rex 1 r,
      )

  pub parse_with_sib-no_index :
      (r : ℕ)
      → r < 16
      → (bit_and c.rex 2 ≡ 0)
      → ((bit_and c.rex 1 != 0) ≡ leb 8 r)
      → c.rest ≡ fields 0 4 (r % 8) ∷ (disp_bytes (disp_mod v r) v ++ tail)
      → parse_with_sib c ot (disp_mod v r) o
        ≡ some (
          record o { type = ot; seg = c.seg_ov; scale = 0; val = v; ireg = no_reg; reg = gp64 r },
          record c { rest = tail; off = c.off + 1 + length (disp_bytes (disp_mod v r) v) },
        )
  unfolding parse_with_sib
  parse_with_sib-no_index r hr hx hb e =
      let rest = disp_bytes (disp_mod v r) v ++ tail in
      ground (
        arith,
        parse_sib_lem c 0 4 (r % 8) rest,
        parse_disp-disp_bytes (record c { rest = rest; off = c.off + 1 }) v r tail,
        disp_mod_zero v r,
        disp_mod-lt v r,
        rex_extend_back c.rex 1 r,
      )

  pub parse_with_sib-absolute :
      (bit_and c.rex 2 ≡ 0)
      → c.rest ≡ fields 0 4 5 ∷ (bytes32 v ++ tail)
      → parse_with_sib c ot 0 o
        ≡ some (
          record o { type = ot; seg = c.seg_ov; scale = 0; val = v; ireg = no_reg; reg = no_reg },
          record c { rest = tail; off = c.off + 1 + 4 },
        )
  unfolding parse_with_sib
  parse_with_sib-absolute hx e =
      let rest = bytes32 v ++ tail in
      ground (
        arith,
        parse_sib_lem c 0 4 5 rest,
        parse_disp_word (record c { rest = rest; off = c.off + 1 }) v tail,
      )

  pub parse_with_sib-index_only :
      (scale i : ℕ)
      → IsScale scale
      → i < 16
      → i ≢ 4
      → ((bit_and c.rex 2 != 0) ≡ leb 8 i)
      → c.rest ≡ fields (scale_field scale) (i % 8) 5 ∷ (bytes32 v ++ tail)
      → parse_with_sib c ot 0 o
        ≡ some (
          record o {
            type = ot;
            seg = c.seg_ov;
            scale = scale;
            val = v;
            ireg = gp64 i;
            reg = no_reg;
          },
          record c { rest = tail; off = c.off + 1 + 4 },
        )
  unfolding parse_with_sib
  parse_with_sib-index_only scale i hs hi h4 hx e =
      let rest = bytes32 v ++ tail in
      ground (
        arith,
        parse_sib_lem c (scale_field scale) (i % 8) 5 rest,
        two-pow-scale_field scale hs,
        parse_disp_word (record c { rest = rest; off = c.off + 1 }) v tail,
        rex_extend_back c.rex 2 i,
      )
