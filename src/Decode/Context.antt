-- ===== src/Decode/Context.antt =====
-- src/decode.c: the decoder context.
use dbrew.Prelude.{ℕ, ◌+◌, ◌-◌, ◌*◌, ◌^◌, Bool, Option, none, some, List, [], ◌∷◌, ltb}
use dbrew.Prelude.{if◌then◌else◌, ◌>>=◌}
use dbrew.Instr.Kinds.{OpSegOverride, VexPrefix}

-- `DContext`. `rest` holds the bytes from `f + off` on; to read past its end is undefined. Of the
-- other members those stand here that the prefixes and the operands are decoded with; `vex_vvvv`
-- and the opcodes are none for -1.
pub record DContext : Type 0 where
  pub rest : List ℕ
  pub off : ℕ
  pub vex : VexPrefix
  pub vex_vvvv : Option ℕ
  pub has_rex : Bool
  pub rex : ℕ
  pub ps : ℕ
  pub seg_ov : OpSegOverride
  pub opc1 : Option ℕ
  pub opc2 : Option ℕ

-- `cxt->f[cxt->off]`.
unfoldable pub peek : DContext → Option ℕ
peek c = elim (c.rest) [ [] ↦ none | b ∷ bs ↦ some b ]

-- `cxt->f[cxt->off++]`.
unfoldable pub next : DContext → Option (ℕ × DContext)
next c = elim (c.rest) [ [] ↦ none | b ∷ bs ↦ some (b, record c { rest = bs; off = c.off + 1 }) ]

-- Little-endian reads of 2 and 4 bytes.
unfoldable pub next16 : DContext → Option (ℕ × DContext)
unfolding next
next16 c = do (b0, c0) ← next c; (b1, c1) ← next c0; some (b0 + b1 * 2 ^ 8, c1)

unfoldable pub next32 : DContext → Option (ℕ × DContext)
unfolding next16
next32 c = do (h0, c0) ← next16 c; (h1, c1) ← next16 c0; some (h0 + h1 * 2 ^ 16, c1)

unfoldable pub next64 : DContext → Option (ℕ × DContext)
unfolding next32
next64 c = do (w0, c0) ← next32 c; (w1, c1) ← next32 c0; some (w0 + w1 * 2 ^ 32, c1)

-- Sign extension to 64 bits.
abbrev pub sign_extend8 : ℕ → ℕ
sign_extend8 b = if ltb b (2 ^ 7) then b else b + (2 ^ 64 - 2 ^ 8)

abbrev pub sign_extend32 : ℕ → ℕ
sign_extend32 w = if ltb w (2 ^ 31) then w else w + (2 ^ 64 - 2 ^ 32)
