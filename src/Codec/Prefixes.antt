-- ===== src/Codec/Prefixes.antt =====
-- Prefixes: what `genPrefix` writes, `decodePrefixes` reads back.
use dbrew.Prelude.{ℕ, ◌+◌, ◌-◌, ◌*◌, ◌/◌, ◌%◌, ◌^◌, ◌≤◌, ◌<◌, bit_and, bit_or, ◌≡◌, refl, ap}
use dbrew.Prelude.{◌∙◌, ◌≢◌, ◌⊎◌, Bool, true, false, not, ◌&&◌, ◌||◌, some, List, [], ◌∷◌, ◌++◌}
use dbrew.Prelude.{arith, ltb, leb, ◌==◌, ◌!=◌, if◌then◌else◌, length, ◌is◌}
use mathlib.Core.List.{append_assoc}
use dbrew.Decode.Context.{DContext}
use dbrew.Decode.Prefix.{legacy_prefix, prefix_loop, start_instr}
use dbrew.Instr.Kinds.{OpSegOverride, oso_none, oso_enum}
use dbrew.Generate.Context.{GContext}
use dbrew.Generate.Prefix.{has_bits, legacy_prefixes, seg_prefix, take_rexw}
use dbrew.Prelude.Table.{holds_below, holds_below_at, bit_and_15, bit_or_rex}

-- REX bits in the low four, and 0x40 for an empty REX prefix.
abbrev pub IsRex : ℕ → Type 0
IsRex rex = (rex < 16) ⊎ ((64 ≤ rex) × (rex < 80))

-- A byte at which `decodePrefixes` stops.
abbrev pub IsNoPrefix : ℕ → Type 0
IsNoPrefix b =
    (b ≢ 0xC5)
    × (b ≢ 0xC4)
    × (b ≢ 0xF2)
    × (b ≢ 0xF3)
    × (b ≢ 0x66)
    × (b ≢ 0x64)
    × (b ≢ 0x65)
    × (b ≢ 0x2E)
    × ((b < 0x40) ⊎ (0x4F < b))

-- The context that the loop ends in at a byte that is no prefix.
loop_stop :
    (b : ℕ) (tail : List ℕ) (c : DContext) → IsNoPrefix b → prefix_loop (b ∷ tail) c ≡ some c
unfolding prefix_loop legacy_prefix
loop_stop b tail c h = ground arith

-- A run of at most one prefix byte: with the byte, the loop goes on behind it.
abbrev pub after : Bool → DContext → DContext → List ℕ → DContext
after t c c' bs = if t then record c' { rest = bs; off = c.off + 1 } else c

loop_after :
    (t : Bool) (p : ℕ) (bs : List ℕ) (c c' : DContext)
    → p ≢ 0xC5
    → p ≢ 0xC4
    → legacy_prefix c p ≡ some c'
    → prefix_loop ((if t then p ∷ [] else []) ++ bs) c ≡ prefix_loop bs (after t c c' bs)
unfolding prefix_loop
loop_after true p bs c c' h5 h4 e = ground arith
loop_after false p bs c c' h5 h4 e = refl

pub loop_seg :
    (so : OpSegOverride) (bs : List ℕ) (c : DContext)
    → c.seg_ov ≡ oso_none
    → prefix_loop (seg_prefix so ++ bs) c
      ≡ prefix_loop bs (after (not (so is oso_none)) c (record c { seg_ov = so }) bs)
unfolding prefix_loop seg_prefix legacy_prefix
loop_seg so bs c e = ground arith

loop_rex :
    (rex : ℕ) (bs : List ℕ) (c : DContext)
    → IsRex rex
    → prefix_loop ((if rex != 0 then bit_or 0x40 rex % 256 ∷ [] else []) ++ bs) c
      ≡ prefix_loop bs (after (rex != 0) c (record c { rex = rex % 16; has_rex = true }) bs)
unfolding legacy_prefix
loop_rex rex bs c h =
    let byte : bit_or 0x40 rex % 256 ≡ 64 + rex % 16 =
      ground (arith, bit_or_rex rex, bit_or_rex (rex - 64)) in
    rw byte (
      loop_after (rex != 0) (64 + rex % 16) bs c (record c { rex = rex % 16; has_rex = true })
        (omega arith) (omega arith) (ground (arith, bit_and_15 (64 + rex % 16))))

-- The set of the bits that were found comes back.
abbrev found : ℕ → ℕ → ℕ → ℕ
found ps mask acc = if has_bits ps mask then bit_or acc mask else acc

found_all : (ps : ℕ) → ps < 16 → ps % 2 ≡ 0 → found ps 8 (found ps 4 (found ps 2 0)) ≡ ps
unfolding holds_below
found_all ps h e = ground (
  arith,
  holds_below_at 16 (λ ps. ps % 2 == 1 || found ps 8 (found ps 4 (found ps 2 0)) == ps) ps refl h,
)

-- Operand-size, repeat and REX.W prefixes, as `genPrefix` is asked for them.
abbrev pub IsPrefixSet : ℕ → Type 0
IsPrefixSet ps = (ps < 64) × (ps % 2 ≡ 0) × (ps / 16 % 2 ≡ 0)

pub take_rexw_lem :
    (c : GContext)
    → IsRex c.rex
    → IsPrefixSet c.ps
    → ((take_rexw c).ps ≡ c.ps % 16) × IsRex (take_rexw c).rex
unfolding take_rexw holds_below
take_rexw_lem c hr hp = ground (
  arith,
  holds_below_at 64 (λ ps. bit_and ps 32 == ps / 32 * 32) c.ps refl,
  holds_below_at 32 (λ ps. bit_and (32 + ps) (2 ^ 32 - 1 - 32) == ps) (c.ps - 32) refl,
  holds_below_at 80
      (λ r.
        ltb (bit_or r 8) 16
        || (leb 64 (bit_or r 8) && ltb (bit_or r 8) 80)
        || (leb 16 r && ltb r 64))
      c.rex refl,
)

module _ (so : OpSegOverride) (ps rex b : ℕ) (tail : List ℕ) (x : DContext) (hp : ps < 16)
    (hp2 : ps % 2 ≡ 0) (hr : IsRex rex) (hb : IsNoPrefix b) where
  abbrev t4 : List ℕ
  t4 = (if rex != 0 then bit_or 0x40 rex % 256 ∷ [] else []) ++ b ∷ tail

  abbrev t3 : List ℕ
  t3 = (if has_bits ps 8 then 0xF3 ∷ [] else []) ++ t4

  abbrev t2 : List ℕ
  t2 = (if has_bits ps 4 then 0xF2 ∷ [] else []) ++ t3

  abbrev t1 : List ℕ
  t1 = (if has_bits ps 2 then 0x66 ∷ [] else []) ++ t2

  abbrev bytes : List ℕ
  bytes = seg_prefix so ++ legacy_prefixes ps rex

  regroup : bytes ++ b ∷ tail ≡ seg_prefix so ++ t1
  unfolding legacy_prefixes
  regroup = simp append_assoc

  abbrev c0 : DContext
  c0 = start_instr (record x { rest = bytes ++ b ∷ tail })

  abbrev c1 : DContext
  c1 = after (not (so is oso_none)) c0 (record c0 { seg_ov = so }) t1

  abbrev c2 : DContext
  c2 = after (has_bits ps 2) c1 (record c1 { ps = bit_or c1.ps 2 }) t2

  abbrev c3 : DContext
  c3 = after (has_bits ps 4) c2 (record c2 { ps = bit_or c2.ps 4 }) t3

  abbrev c4 : DContext
  c4 = after (has_bits ps 8) c3 (record c3 { ps = bit_or c3.ps 8 }) t4

  abbrev c5 : DContext
  c5 = after (rex != 0) c4 (record c4 { rex = rex % 16; has_rex = true }) (b ∷ tail)

  chain : prefix_loop (bytes ++ b ∷ tail) c0 ≡ some c5
  chain =
      ap (λ l. prefix_loop l c0) regroup
      ∙ loop_seg so t1 c0 refl
      ∙ loop_after (has_bits ps 2) 0x66 t2 c1 (record c1 { ps = bit_or c1.ps 2 }) (omega arith)
          (omega arith) (unfold legacy_prefix in refl)
      ∙ loop_after (has_bits ps 4) 0xF2 t3 c2 (record c2 { ps = bit_or c2.ps 4 }) (omega arith)
          (omega arith) (unfold legacy_prefix in refl)
      ∙ loop_after (has_bits ps 8) 0xF3 t4 c3 (record c3 { ps = bit_or c3.ps 8 }) (omega arith)
          (omega arith) (unfold legacy_prefix in refl)
      ∙ loop_rex rex (b ∷ tail) c4 hr
      ∙ loop_stop b tail c5 hb

  pub legacy_prefixes_back :
      prefix_loop (bytes ++ b ∷ tail) c0
      ≡ some (record c0 {
        rest = b ∷ tail;
        off = x.off + length bytes;
        seg_ov = so;
        ps = ps;
        rex = rex % 16;
        has_rex = rex != 0;
      })
  unfolding legacy_prefixes seg_prefix
  legacy_prefixes_back = chain ∙ ground (arith, found_all ps)
