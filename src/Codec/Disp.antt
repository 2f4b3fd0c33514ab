-- ===== src/Codec/Disp.antt =====
-- The displacement of a memory operand: what the generator writes and the decoder reads.
use dbrew.Prelude.{ℕ, ◌+◌, ◌*◌, ◌/◌, ◌%◌, ◌^◌, ◌<◌, ◌≡◌, ◌≢◌, true, false, ◌||◌, some, List, []}
use dbrew.Prelude.{◌∷◌, ◌++◌, arith, ◌==◌, ◌!=◌, if◌then◌else◌, length}
use dbrew.Decode.Modrm.{parse_disp}
use dbrew.Decode.Context.{DContext, next, next16, next32, sign_extend8, sign_extend32}
use dbrew.Generate.Modrm.{fits_signed, bytes32}

-- A displacement that x86 can encode: a signed 32-bit value, as a 64-bit pattern.
abbrev pub IsDisp : ℕ → Type 0
IsDisp v = (v < 2 ^ 64) × (fits_signed 31 v ≡ true)

-- The mod field that the generator comes to with base register `r`.
unfoldable pub disp_mod : ℕ → ℕ → ℕ
disp_mod v r =
    if v != 0 then (if fits_signed 7 v then 1 else 2) else if r == 5 || r == 13 then 1 else 0

-- The displacement bytes that go with a mod field.
abbrev pub disp_bytes : ℕ → ℕ → List ℕ
disp_bytes m v = if m == 0 then [] else if m == 1 then v % 256 ∷ [] else bytes32 v

pub disp_mod-lt : (v r : ℕ) → disp_mod v r < 3
unfolding disp_mod
disp_mod-lt v r = ground arith

pub disp_mod_zero : (v r : ℕ) → disp_mod v r ≡ 0 → (v ≡ 0) × (r ≢ 5) × (r ≢ 13)
unfolding disp_mod
disp_mod_zero v r h = ground arith

-- The base register does not matter for a four-byte displacement.
pub disp_mod_two : (v r : ℕ) → (disp_mod v 0 == 2) ≡ (disp_mod v r == 2)
unfolding disp_mod
disp_mod_two v r = ground arith

sign_extend8_back : (v : ℕ) → v < 2 ^ 64 → fits_signed 7 v ≡ true → sign_extend8 (v % 256) ≡ v
sign_extend8_back v h f = ground arith

pub sign_extend32_back :
    (v : ℕ)
    → IsDisp v
    → sign_extend32
        (v % 256 + v / 2 ^ 8 % 256 * 2 ^ 8 + (v / 2 ^ 16 % 256 + v / 2 ^ 24 % 256 * 2 ^ 8) * 2 ^ 16)
      ≡ v
sign_extend32_back v h = ground arith

-- The decoder reads the displacement back and stops behind it.
pub parse_disp_word :
    (c : DContext) (v : ℕ) (tail : List ℕ)
    → IsDisp v
    → c.rest ≡ bytes32 v ++ tail
    → parse_disp false true c ≡ some (v, record c { rest = tail; off = c.off + 4 })
unfolding parse_disp next32 next16 next
parse_disp_word c v tail h e = ground (arith, sign_extend32_back v h)

pub parse_disp-disp_bytes :
    (c : DContext) (v r : ℕ) (tail : List ℕ)
    → IsDisp v
    → c.rest ≡ disp_bytes (disp_mod v r) v ++ tail
    → parse_disp (disp_mod v r == 1) (disp_mod v r == 2) c
      ≡ some (v, record c { rest = tail; off = c.off + length (disp_bytes (disp_mod v r) v) })
unfolding parse_disp next32 next16 next disp_mod
parse_disp-disp_bytes c v r tail h e = ground (arith, sign_extend8_back v, sign_extend32_back v h)
