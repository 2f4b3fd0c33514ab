-- ===== src/Process/Compare.antt =====
-- A comparison of known registers and the conditional jump behind it.
use dbrew.Prelude.{ℕ, ◌+◌, ◌-◌, ◌%◌, ◌^◌, ◌<◌, ◌≡◌, refl, sym, ap, ◌∙◌, ◌⊎◌, inl, inr, Bool}
use dbrew.Prelude.{some, arith, ltb, leb, ◌==◌, ◌!=◌, if◌then◌else◌, ◌>>=◌}
use mathlib.Core.Path.{subst}
use dbrew.Emulate.Meta.{cs_static, ms_is_dynamic}
use dbrew.Emulate.FlagLaws.{sub_flags}
use dbrew.Emulate.State.{Cell, Flags, EmuState}
use dbrew.Emulate.Flags.{set_flags_state, put_flags}
use dbrew.Instr.Mnemonics.{it_cmp}
use dbrew.Instr.Types.{Instr}
use dbrew.Capture.Types.{RContext}
use dbrew.Process.Dispatch.{process_instr}
use dbrew.Process.JumpLaws.{condition, IsKnownFlags, process_instr-condition}
use dbrew.Process.Fold.{IsKnownPair, compared, process_cmp-known}
use dbrew.Process.Step.{with_es, next_addr}
use dbrew.Engine.Blocks.{jcc_code}

-- The comparisons of two numbers that a conditional jump can test, without and with sign.
pub data Comparison : Type 0 where
  below not_below equal different at_most above less not_less : Comparison

-- The condition code of x86.
unfoldable pub comparison_code : Comparison → ℕ
comparison_code below = 2
comparison_code not_below = 3
comparison_code equal = 4
comparison_code different = 5
comparison_code at_most = 6
comparison_code above = 7
comparison_code less = 12
comparison_code not_less = 13

-- Adding half the range and wrapping around maps the order of `w`-bit numbers with sign to the one
-- without.
abbrev pub with_sign : ℕ → ℕ → ℕ
with_sign w x = (x + 2 ^ (w - 1)) % 2 ^ w

unfoldable pub compares : Comparison → ℕ → ℕ → ℕ → Bool
compares below w a b = ltb a b
compares not_below w a b = leb b a
compares equal w a b = a == b
compares different w a b = a != b
compares at_most w a b = leb a b
compares above w a b = ltb b a
compares less w a b = ltb (with_sign w a) (with_sign w b)
compares not_less w a b = leb (with_sign w b) (with_sign w a)

abbrev flags_of : ℕ → ℕ → ℕ → EmuState → Flags
flags_of w a b es = (sub_flags es cs_static (w - 1) a b).flags

known_32 : (es : EmuState) (a b : ℕ) → a < 2 ^ 32 → b < 2 ^ 32 → IsKnownFlags (flags_of 32 a b es)
unfolding put_flags set_flags_state ms_is_dynamic
known_32 es a b ha hb = record {
  carry_state = refl;
  zero_state = refl;
  sign_state = refl;
  overflow_state = refl;
  parity_state = refl;
  carry = ground arith;
  zero_ = ground arith;
  sign = omega arith;
  overflow = ground arith;
  parity = ground arith;
}

known_64 : (es : EmuState) (a b : ℕ) → a < 2 ^ 64 → b < 2 ^ 64 → IsKnownFlags (flags_of 64 a b es)
unfolding put_flags set_flags_state ms_is_dynamic
known_64 es a b ha hb = record {
  carry_state = refl;
  zero_state = refl;
  sign_state = refl;
  overflow_state = refl;
  parity_state = refl;
  carry = ground arith;
  zero_ = ground arith;
  sign = omega arith;
  overflow = ground arith;
  parity = ground arith;
}

condition_32 :
    (es : EmuState) (c : Comparison) (a b : ℕ)
    → a < 2 ^ 32
    → b < 2 ^ 32
    → condition (comparison_code c) (flags_of 32 a b es) ≡ compares c 32 a b
unfolding put_flags set_flags_state condition comparison_code compares
condition_32 es below a b ha hb = ground arith
condition_32 es not_below a b ha hb = ground arith
condition_32 es equal a b ha hb = ground arith
condition_32 es different a b ha hb = ground arith
condition_32 es at_most a b ha hb = ground arith
condition_32 es above a b ha hb = ground arith
condition_32 es less a b ha hb = ground arith
condition_32 es not_less a b ha hb = ground arith

condition_64 :
    (es : EmuState) (c : Comparison) (a b : ℕ)
    → a < 2 ^ 64
    → b < 2 ^ 64
    → condition (comparison_code c) (flags_of 64 a b es) ≡ compares c 64 a b
unfolding put_flags set_flags_state condition comparison_code compares
condition_64 es below a b ha hb = ground arith
condition_64 es not_below a b ha hb = ground arith
condition_64 es equal a b ha hb = ground arith
condition_64 es different a b ha hb = ground arith
condition_64 es at_most a b ha hb = ground arith
condition_64 es above a b ha hb = ground arith
condition_64 es less a b ha hb = ground arith
condition_64 es not_less a b ha hb = ground arith

compared_flags :
    (w : ℕ) (es : EmuState) (c : Comparison) (x y : ℕ)
    → (w ≡ 32) ⊎ (w ≡ 64)
    → IsKnownFlags (flags_of w (x % 2 ^ w) (y % 2 ^ w) es)
      × (condition (comparison_code c) (flags_of w (x % 2 ^ w) (y % 2 ^ w) es)
          ≡ compares c w (x % 2 ^ w) (y % 2 ^ w))
compared_flags w es c x y (inl e) =
    subst
      (λ n.
        IsKnownFlags (flags_of n (x % 2 ^ n) (y % 2 ^ n) es)
        × (condition (comparison_code c) (flags_of n (x % 2 ^ n) (y % 2 ^ n) es)
            ≡ compares c n (x % 2 ^ n) (y % 2 ^ n)))
      (sym e)
      (
        known_32 es (x % 2 ^ 32) (y % 2 ^ 32) (omega arith) (omega arith),
        condition_32 es c (x % 2 ^ 32) (y % 2 ^ 32) (omega arith) (omega arith),
      )
compared_flags w es c x y (inr e) =
    subst
      (λ n.
        IsKnownFlags (flags_of n (x % 2 ^ n) (y % 2 ^ n) es)
        × (condition (comparison_code c) (flags_of n (x % 2 ^ n) (y % 2 ^ n) es)
            ≡ compares c n (x % 2 ^ n) (y % 2 ^ n)))
      (sym e)
      (
        known_64 es (x % 2 ^ 64) (y % 2 ^ 64) (omega arith) (omega arith),
        condition_64 es c (x % 2 ^ 64) (y % 2 ^ 64) (omega arith) (omega arith),
      )

comparison_code-bound : (c : Comparison) → comparison_code c < 14
unfolding comparison_code
comparison_code-bound below = omega arith
comparison_code-bound not_below = omega arith
comparison_code-bound equal = omega arith
comparison_code-bound different = omega arith
comparison_code-bound at_most = omega arith
comparison_code-bound above = omega arith
comparison_code-bound less = omega arith
comparison_code-bound not_less = omega arith

-- Let a CMP of two known registers of 32 or 64 bits, at a call depth where values may stay known, be
-- followed by one of the conditional jumps JC, JNC, JZ, JNZ, JBE, JA, JL and JGE: they compare without
-- sign, for equality, and, but for JLE and JG, with sign.
-- Emulating both instructions captures nothing, changes
-- only the flags, and the exit is the target of the jump exactly if the comparison holds for the
-- values of the registers, and else the address behind the jump.
pub process_instr-compares :
    (r : RContext) (cmp jcc : Instr) (w : ℕ) (c1 c2 : Cell) (c : Comparison)
    → (h : IsKnownPair r cmp w c1 c2) → cmp.type ≡ it_cmp
    → jcc.pt_len ≡ 0
    → jcc_code jcc.type ≡ some (comparison_code c)
    → (process_instr r cmp >>= λ r1. process_instr r1 jcc)
      ≡ some (record (with_es r (compared r cmp w c1 c2 h)) {
        exit =
            if compares c w (c1.val % 2 ^ w) (c2.val % 2 ^ w) then jcc.dst.val else next_addr jcc;
      })
process_instr-compares r cmp jcc w c1 c2 c h e p j =
    let f = compared_flags w r.world.es c c1.val c2.val h.bits in
    let k = process_cmp-known r cmp w c1 c2 h e in
    let x =
      process_instr-condition (with_es r (compared r cmp w c1 c2 h)) jcc (comparison_code c) p j
        (inl (comparison_code-bound c)) f.0 in
    let y = f.1 in
    rw k x
    ∙ ap
        (λ b. some (record (with_es r (compared r cmp w c1 c2 h)) {
          exit = if b then jcc.dst.val else next_addr jcc;
        }))
        y
