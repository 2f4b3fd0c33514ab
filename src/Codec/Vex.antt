-- ===== src/Codec/Vex.antt =====
-- The VEX prefix: what `genPrefix` writes, `decodePrefixes` reads back.
use dbrew.Prelude.{ℕ, ◌+◌, ◌-◌, ◌*◌, ◌/◌, ◌%◌, ◌^◌, ◌<◌, bit_and, bit_or, ◌≡◌, refl, ◌∙◌, ◌≢◌}
use dbrew.Prelude.{◌⊎◌, true, some, List, [], ◌∷◌, ◌++◌, arith, ◌==◌, ◌!=◌, if◌then◌else◌}
use dbrew.Prelude.{==_iff, length}
use native.Mathlib.Decide.{ℕ_discrete}
use dbrew.Decode.Context.{DContext, next}
use dbrew.Decode.Prefix.{vex_ps, rex_if_clear, decode_vex2, decode_vex3, prefix_loop}
use dbrew.Instr.Kinds.{vex_128, vex_256}
use dbrew.Instr.Types.{ps_no, ps_66, ps_f2, ps_f3}
use dbrew.Generate.Context.{GContext}
use dbrew.Generate.Prefix.{has_bits, vex_prefix}
use dbrew.Prelude.Table.{holds_below, holds_below_at, agree_below_sound}

-- The byte of vvvv, L and pp, without its top bit.
pub vex_low :
    (v l pp : ℕ)
    → v < 16
    → l < 2
    → pp < 4
    → bit_or (bit_or ((15 - v) * 8) (l * 4)) pp ≡ (15 - v) * 8 + l * 4 + pp
unfolding holds_below
vex_low v l pp hv hl hp =
    let t =
      agree_below_sound 16 8 (λ v x. bit_or (bit_or ((15 - v) * 8) (x / 4 * 4)) (x % 4))
        (λ v x. (15 - v) * 8 + x) refl v (l * 4 + pp) hv (omega arith) in
    let e1 : (l * 4 + pp) / 4 ≡ l = omega arith in
    let e2 : (l * 4 + pp) % 4 ≡ pp = omega arith in rw (e1, e2) at t ∙ omega arith

top_bit : (y : ℕ) → y < 128 → (bit_or y 128 ≡ y + 128) × (bit_or y 0 ≡ y)
unfolding holds_below
top_bit y h = (
  (==_iff _ _).0 (holds_below_at 128 (λ y. bit_or y 128 == y + 128) y refl h),
  (==_iff _ _).0 (holds_below_at 128 (λ y. bit_or y 0 == y) y refl h),
)

-- The parts of a VEX byte as the decoder takes them.
vex_parts :
    (y : ℕ)
    → y < 256
    → (bit_and y 4 ≡ y / 4 % 2 * 4)
      × (bit_and y 3 ≡ y % 4)
      × (bit_and (y / 2 ^ 3) 15 ≡ y / 8 % 16)
      × (bit_and y 128 ≡ y / 128 * 128)
unfolding holds_below
vex_parts y h = (
  (==_iff _ _).0 (holds_below_at 256 (λ y. bit_and y 4 == y / 4 % 2 * 4) y refl h),
  (==_iff _ _).0 (holds_below_at 256 (λ y. bit_and y 3 == y % 4) y refl h),
  (==_iff _ _).0 (holds_below_at 256 (λ y. bit_and (y / 2 ^ 3) 15 == y / 8 % 16) y refl h),
  (==_iff _ _).0 (holds_below_at 256 (λ y. bit_and y 128 == y / 128 * 128) y refl h),
)

-- A set of at most one of the prefixes 66, F3 and F2.
abbrev pub IsVexPs : ℕ → Type 0
IsVexPs ps = (ps ≡ ps_no) ⊎ (ps ≡ ps_66) ⊎ (ps ≡ ps_f2) ⊎ (ps ≡ ps_f3)

-- A context whose prefix is a VEX prefix, and what the decoder finds of it.
pub record IsVexContext (c : GContext) : Type 0 where
  pub vp_ok : (c.vp ≡ vex_128) ⊎ (c.vp ≡ vex_256)
  pub vvvv_ok : c.vvvv < 16
  pub ps_ok : IsVexPs c.ps
  pub rex_ok : c.rex < 16

-- The `c->rex` of such a context, rebuilt from its four bits.
rex_of_bits :
    (r : ℕ)
    → r < 16
    → rex_if_clear (if has_bits r 8 then 0 else 128) 128 8 (
        rex_if_clear (if has_bits r 1 then 0 else 32) 32 1 (
          rex_if_clear
            (if has_bits r 2 then 0 else 64)
            64
            2
            (rex_if_clear (if has_bits r 4 then 0 else 128) 128 4 0)))
      ≡ r
unfolding holds_below
rex_of_bits r h = (==_iff _ _).0 (
    holds_below_at 16
      (λ r.
        rex_if_clear (if has_bits r 8 then 0 else 128) 128 8 (
          rex_if_clear (if has_bits r 1 then 0 else 32) 32 1 (
            rex_if_clear (if has_bits r 2 then 0 else 64) 64 2
              (rex_if_clear (if has_bits r 4 then 0 else 128) 128 4 0)))
        == r)
      r refl h)

vex3_byte :
    (r : ℕ)
    → r < 16
    → let b0 = bit_or 1 (if has_bits r 4 then 0 else 128) in
      let b1 = bit_or b0 (if has_bits r 2 then 0 else 64) in
      let b2 = bit_or b1 (if has_bits r 1 then 0 else 32) in
      (bit_and b2 31 ≡ 1)
      × (rex_if_clear b2 32 1 (rex_if_clear b2 64 2 (rex_if_clear b2 128 4 0)) ≡ r % 8)
unfolding holds_below
vex3_byte r h = (
  (==_iff _ _).0 (holds_below_at 16 (λ r. bit_and (third r) 31 == 1) r refl h),
  (==_iff _ _).0 (
      holds_below_at 16
        (λ r.
          rex_if_clear (third r) 32 1 (rex_if_clear (third r) 64 2 (rex_if_clear (third r) 128 4 0))
          == r % 8)
        r refl h),
)
  where
    third : ℕ → ℕ
    third r =
        bit_or
          (bit_or (bit_or 1 (if has_bits r 4 then 0 else 128)) (if has_bits r 2 then 0 else 64))
          (if has_bits r 1 then 0 else 32)

rex_bits_vex :
    (r : ℕ)
    → r < 16
    → (bit_and r 8 ≡ r / 8 * 8)
      × (bit_and r 4 ≡ r / 4 % 2 * 4)
      × (bit_and r 11 ≡ r / 8 * 8 + r % 4)
      × (bit_or (r % 8) 8 ≡ r % 8 + 8)
unfolding holds_below
rex_bits_vex r h = (
  (==_iff _ _).0 (holds_below_at 16 (λ r. bit_and r 8 == r / 8 * 8) r refl h),
  (==_iff _ _).0 (holds_below_at 16 (λ r. bit_and r 4 == r / 4 % 2 * 4) r refl h),
  (==_iff _ _).0 (holds_below_at 16 (λ r. bit_and r 11 == r / 8 * 8 + r % 4) r refl h),
  (==_iff _ _).0 (holds_below_at 16 (λ r. bit_or (r % 8) 8 == r % 8 + 8) r refl h),
)

-- The pp field of a prefix set, and back.
unfoldable pub pp_of : ℕ → ℕ
pp_of ps = if ps == 2 then 1 else if ps == 8 then 2 else if ps == 4 then 3 else 0

-- What the decoder takes from the last byte of a VEX prefix.
vex_last :
    (t v l ps : ℕ)
    → t < 2
    → v < 16
    → l < 2
    → IsVexPs ps
    → let y = t * 128 + (15 - v) * 8 + l * 4 + pp_of ps in
      ((bit_and y 4 != 0) ≡ (l == 1))
      × (15 - bit_and (y / 2 ^ 3) 15 ≡ v)
      × (bit_and y 128 ≡ t * 128)
      × (vex_ps 0 y ≡ ps)
unfolding pp_of vex_ps
vex_last t v l ps ht hv hl hp =
    ground (arith, vex_parts (t * 128 + (15 - v) * 8 + l * 4 + pp_of ps))

-- The last byte of a VEX prefix with top bit `t`.
abbrev last_byte : ℕ → ℕ → ℕ → ℕ → ℕ
last_byte t v l ps = t * 128 + (15 - v) * 8 + l * 4 + pp_of ps

pp_of-lt : (ps : ℕ) → pp_of ps < 4
unfolding pp_of
pp_of-lt ps = ground arith

vex_prefix_short :
    (v l ps rex : ℕ)
    → v < 16
    → l < 2
    → rex < 16
    → bit_and rex 11 ≡ 0
    → vex_prefix ((15 - v) * 8 + l * 4 + pp_of ps) rex
      ≡ 0xC5 ∷ last_byte (if has_bits rex 4 then 0 else 1) v l ps ∷ []
unfolding vex_prefix
vex_prefix_short v l ps rex hv hl hr h =
    ground (arith, top_bit ((15 - v) * 8 + l * 4 + pp_of ps), pp_of-lt ps)

abbrev middle_byte : ℕ → ℕ
middle_byte r =
    bit_or (bit_or (bit_or 1 (if has_bits r 4 then 0 else 128)) (if has_bits r 2 then 0 else 64))
      (if has_bits r 1 then 0 else 32)

vex_prefix_long :
    (v l ps rex : ℕ)
    → v < 16
    → l < 2
    → rex < 16
    → bit_and rex 11 ≢ 0
    → vex_prefix ((15 - v) * 8 + l * 4 + pp_of ps) rex
      ≡ 0xC4 ∷ middle_byte rex ∷ last_byte (if has_bits rex 8 then 0 else 1) v l ps ∷ []
unfolding vex_prefix
vex_prefix_long v l ps rex hv hl hr h =
    ground (arith, top_bit ((15 - v) * 8 + l * 4 + pp_of ps), pp_of-lt ps)

abbrev pub decoded : DContext → List ℕ → ℕ → ℕ → ℕ → ℕ → ℕ → DContext
decoded c tail n v l ps rex = record c {
  rest = tail;
  off = c.off + n;
  vex = if l == 1 then vex_256 else vex_128;
  vex_vvvv = some v;
  ps = ps;
  rex = rex;
  has_rex = true;
  opc1 = some 0x0F;
}

module _ (v l ps rex : ℕ) (tail : List ℕ) (c : DContext) (hv : v < 16) (hl : l < 2)
    (hp : IsVexPs ps) (hr : rex < 16) (e1 : c.rex ≡ 0) (e2 : c.ps ≡ 0) where
  loop_vex2 :
      bit_and rex 11 ≡ 0
      → prefix_loop (0xC5 ∷ last_byte (if has_bits rex 4 then 0 else 1) v l ps ∷ tail) c
        ≡ some (decoded c tail 2 v l ps rex)
  unfolding prefix_loop decode_vex2 next
  loop_vex2 h = ground (arith, vex_last (if has_bits rex 4 then 0 else 1) v l ps, rex_bits_vex rex)

  loop_vex3 :
      prefix_loop
        (0xC4 ∷ middle_byte rex ∷ last_byte (if has_bits rex 8 then 0 else 1) v l ps ∷ tail)
        c
      ≡ some (decoded c tail 3 v l ps rex)
  unfolding prefix_loop decode_vex3 next
  loop_vex3 =
      ground
        (arith, vex_last (if has_bits rex 8 then 0 else 1) v l ps, rex_bits_vex rex, vex3_byte rex)

  pub loop_vex :
      let p = vex_prefix ((15 - v) * 8 + l * 4 + pp_of ps) rex in
      prefix_loop (p ++ tail) c ≡ some (decoded c tail (length p) v l ps rex)
  loop_vex = elim (ℕ_discrete (bit_and rex 11) 0) [
    | yes h ↦ rw (vex_prefix_short v l ps rex hv hl hr h) (loop_vex2 h)
    | no h ↦ rw (vex_prefix_long v l ps rex hv hl hr h) loop_vex3
  ]
