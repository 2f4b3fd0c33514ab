-- ===== src/Emulate/FlagLaws.antt =====
-- `setFlagsSub` against the meaning of the x86 flags; `setFlagsAdd` and its carry.
use dbrew.Prelude.{ℕ, zero, suc, ◌+◌, ◌-◌, ◌/◌, ◌%◌, ◌^◌, ◌≤◌, ◌<◌, bit_and, ◌≡◌, refl, sym, ap}
use dbrew.Prelude.{◌∙◌, ◌⊎◌, inl, inr, Bool, true, false, none, some, arith, ltb, ◌==◌, ==_iff}
use dbrew.Prelude.{Option-cases, is_iff}
use mathlib.Core.Path.{subst}
use dbrew.Emulate.Meta.{CaptureState, init_meta_state, EmuValue, combine_state4_flags}
use dbrew.Emulate.State.{Cell, EmuState}
use dbrew.Emulate.Flags.{fs_czsop, bit, parity_flag, xor2, set_flags_state, sign_bit, put_flags}
use dbrew.Emulate.Flags.{borrow_chain, set_flags_sub, set_flags_add}
use dbrew.Emulate.FlagBits.{chain_bit, diff, sign_of, sub_overflows, wide, sub_bits_8}
use dbrew.Emulate.FlagBits.{sub_bits_32, sub_bits_64}
use dbrew.Instr.Kinds.{ValType, vt_8}
use dbrew.Prelude.Bits.{bit_and_255, bit_and_one}
use dbrew.Prelude.Table.{holds_below, holds_below_at}

-- The number of ones among the low `n` bits.
unfoldable pub ones : ℕ → ℕ → ℕ
ones zero x = 0
ones (suc n) x = x % 2 + ones n (x / 2)

-- The parity flag: an even number of ones in a byte.
abbrev pub even_ones : ℕ → Bool
even_ones x = ones 8 x % 2 == 0

abbrev found_parity : ℕ → Bool
found_parity x = elim (parity_flag x) [ none ↦ false | some p ↦ p == bit (even_ones x) ]

parity_flag_found : (x : ℕ) → found_parity x ≡ true → parity_flag x ≡ some (bit (even_ones x))
parity_flag_found x h = elim (Option-cases (parity_flag x)) [
  | inl e ↦ absurd (ground arith)
  | inr (p, e) ↦ e ∙ ap some ((==_iff p (bit (even_ones x))).0 (ground arith))
]

-- The parity table of the source is right for every byte.
pub parity_flag_lem : (x : ℕ) → x < 256 → parity_flag x ≡ some (bit (even_ones x))
unfolding parity_flag ones holds_below
parity_flag_lem x h = parity_flag_found x (holds_below_at 256 (λ x. found_parity x) x refl h)

sign_bit_cases : (t : ValType) (k : ℕ) → sign_bit t ≡ some k → (k ≡ 7) ⊎ (k ≡ 31) ⊎ (k ≡ 63)
unfolding sign_bit
sign_bit_cases t k h = ground arith

-- The flags of `d - s` on `k + 1` bits, as x86 defines them: a borrow, equality, the sign of the
-- wrapped difference, a difference that does not fit with its sign, an even number of ones in the
-- low byte. Each flag has the capture state `st`, and nothing else is changed.
abbrev pub sub_flags : EmuState → CaptureState → ℕ → ℕ → ℕ → EmuState
sub_flags es st k d s =
    let r = diff (k + 1) d s in
    let flag : ℕ → Cell = λ n. record { val = n; state = init_meta_state st } in
    record es {
      flags = record {
        carry = flag (bit (ltb d s));
        zero_ = flag (bit (d == s));
        sign = flag (sign_of (k + 1) r);
        overflow = flag (bit (sub_overflows (k + 1) d s));
        parity = flag (bit (even_ones (r % 256)));
      };
    }

low_byte :
    (d s : ℕ) → parity_flag (bit_and (wide d s) 255) ≡ some (bit (even_ones (wide d s % 256)))
low_byte d s = rw (bit_and_255 (wide d s)) (parity_flag_lem (wide d s % 256) (omega arith))

-- What the flags of a subtraction on `k + 1` bits are, by their meaning.
abbrev HasMeaning : ℕ → ℕ → ℕ → Type 0
HasMeaning k d s =
    let bc = borrow_chain d s (wide d s) in
    (bit_and (bc / 2 ^ k) 1 ≡ bit (ltb d s))
    × (bit_and (wide d s / 2 ^ k) 1 ≡ sign_of (k + 1) (diff (k + 1) d s))
    × (xor2 (bc / 2 ^ (k - 1)) ≡ bit (sub_overflows (k + 1) d s))
    × (wide d s % 256 ≡ diff (k + 1) d s % 256)

sub_bits_7 : (d s : ℕ) → d < 2 ^ 8 → s < 2 ^ 8 → HasMeaning 7 d s
sub_bits_7 d s hd hs = let b = sub_bits_8 d s hd hs in (b.0, b.1, b.2, omega arith)

sub_bits_31 : (d s : ℕ) → d < 2 ^ 32 → s < 2 ^ 32 → HasMeaning 31 d s
sub_bits_31 d s hd hs = let b = sub_bits_32 d s hd hs in (b.0, b.1, b.2, omega arith)

sub_bits_63 : (d s : ℕ) → d < 2 ^ 64 → s < 2 ^ 64 → HasMeaning 63 d s
sub_bits_63 d s hd hs = let b = sub_bits_64 d s hd hs in (b.0, b.1, b.2, omega arith)

sub_bits :
    (k d s : ℕ)
    → (k ≡ 7) ⊎ (k ≡ 31) ⊎ (k ≡ 63)
    → d < 2 ^ (k + 1)
    → s < 2 ^ (k + 1)
    → HasMeaning k d s
sub_bits k d s (inl e) hd hs =
    subst (λ n. HasMeaning n d s) (sym e) (sub_bits_7 d s (rw e at hd) (rw e at hs))
sub_bits k d s (inr (inl e)) hd hs =
    subst (λ n. HasMeaning n d s) (sym e) (sub_bits_31 d s (rw e at hd) (rw e at hs))
sub_bits k d s (inr (inr e)) hd hs =
    subst (λ n. HasMeaning n d s) (sym e) (sub_bits_63 d s (rw e at hd) (rw e at hs))

set_flags_sub_step :
    (es : EmuState) (v1 v2 : EmuValue) (k : ℕ)
    → v1.type ≡ v2.type
    → sign_bit v1.type ≡ some k
    → let st = combine_state4_flags v1.state.c_state v2.state.c_state in
      let r = wide v1.val v2.val in
      let bc = borrow_chain v1.val v2.val r in
      set_flags_sub es v1 v2
      ≡ some (
        st,
        put_flags
            (set_flags_state es fs_czsop st)
            (bit_and (bc / 2 ^ k) 1)
            (bit (v1.val == v2.val))
            (bit_and (r / 2 ^ k) 1)
            (xor2 (bc / 2 ^ (k - 1)))
            (bit (even_ones (r % 256))),
      )
unfolding set_flags_sub
set_flags_sub_step es v1 v2 k ht hk =
    rw (low_byte v1.val v2.val, hk, (is_iff v1.type v2.type).1 ht) refl

-- For operands of one type of 8, 32 or 64 bits, with values of that width, `setFlagsSub` fails no
-- assertion, sets the capture state of all five flags to the combined state of the operands, and
-- gives each flag its x86 value for the subtraction on that width.
pub set_flags_sub_lem :
    (es : EmuState) (v1 v2 : EmuValue) (k : ℕ)
    → v1.type ≡ v2.type
    → sign_bit v1.type ≡ some k
    → v1.val < 2 ^ (k + 1)
    → v2.val < 2 ^ (k + 1)
    → let st = combine_state4_flags v1.state.c_state v2.state.c_state in
      set_flags_sub es v1 v2 ≡ some (st, sub_flags es st k v1.val v2.val)
unfolding put_flags set_flags_state
set_flags_sub_lem es v1 v2 k ht hk h1 h2 =
    let b = sub_bits k v1.val v2.val (sign_bit_cases v1.type k hk) h1 h2 in
    set_flags_sub_step es v1 v2 k ht hk ∙ rw (b.0, b.1, b.2, b.3) refl

abbrev add_flags : EmuState → EmuValue → EmuValue → ℕ → EmuState
add_flags es v1 v2 p =
    let r = (v1.val + v2.val) % 2 ^ 64 in
    let cc = borrow_chain v1.val v2.val r in
    put_flags (set_flags_state es fs_czsop (combine_state4_flags v1.state.c_state v2.state.c_state))
      (bit_and (cc / 2 ^ 7) 1) (bit (r % 2 ^ 8 == 0)) (bit_and (r / 2 ^ 7) 1) (xor2 (cc / 2 ^ 6)) p

low_byte_add : (x : ℕ) → parity_flag (bit_and x 255) ≡ some (bit (even_ones (x % 256)))
low_byte_add x = rw (bit_and_255 x) (parity_flag_lem (x % 256) (omega arith))

set_flags_add_step :
    (es : EmuState) (v1 v2 : EmuValue)
    → v1.type ≡ vt_8
    → v2.type ≡ vt_8
    → set_flags_add es v1 v2
      ≡ some (add_flags es v1 v2 (bit (even_ones ((v1.val + v2.val) % 2 ^ 64 % 256))))
unfolding set_flags_add sign_bit
set_flags_add_step es v1 v2 h1 h2 = rw (low_byte_add ((v1.val + v2.val) % 2 ^ 64), h1, h2) refl

-- The carry that `setFlagsAdd` stores is not the carry of the addition: for 8-bit operands, the
-- first below 2^7 and the second of at least 2^7, with a sum below 2^8, no carry leaves the byte,
-- and the flag is set to 1.
pub set_flags_add_carry :
    (es : EmuState) (v1 v2 : EmuValue)
    → v1.type ≡ vt_8
    → v2.type ≡ vt_8
    → v1.val < 2 ^ 7
    → 2 ^ 7 ≤ v2.val
    → v1.val + v2.val < 2 ^ 8
    → (es' : EmuState) × (set_flags_add es v1 v2 ≡ some es') × (es'.flags.carry.val ≡ 1)
unfolding put_flags
set_flags_add_carry es v1 v2 t1 t2 h1 h2 h =
    let r = (v1.val + v2.val) % 2 ^ 64 in
    (
      add_flags es v1 v2 (bit (even_ones (r % 256))),
      set_flags_add_step es v1 v2 t1 t2,
      bit_and_one (borrow_chain v1.val v2.val r / 2 ^ 7)
          ∙ chain_bit 7 v1.val v2.val r (omega arith)
          ∙ omega arith,
    )
