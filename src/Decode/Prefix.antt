-- ===== src/Decode/Prefix.antt =====
-- src/decode.c: prefixes and immediates.
use dbrew.Prelude.{ℕ, ◌+◌, ◌-◌, ◌/◌, ◌^◌, bit_and, bit_or, Bool, true, false, ◌&&◌, Option}
use dbrew.Prelude.{none, some, List, [], ◌∷◌, leb, ◌==◌, ◌!=◌, if◌then◌else◌, ◌>>=◌, ◌>>◌}
use dbrew.Prelude.{assert}
use dbrew.Emulate.Flags.{bit}
use dbrew.Decode.Context.{DContext, next, next16, next32, next64, sign_extend32}
use dbrew.Instr.Kinds.{ValType, vt_8, vt_16, vt_32, vt_64, ot_imm8, ot_imm16, ot_imm32}
use dbrew.Instr.Kinds.{ot_imm64, oso_none, oso_usefs, oso_usegs, vex_no, vex_128, vex_256}
use dbrew.Instr.Types.{Operand, ps_no, ps_66, ps_f2, ps_f3, ps_2e}

-- `c->ps |= ...` by the low two bits of a VEX byte.
unfoldable pub vex_ps : ℕ → ℕ → ℕ
vex_ps ps b =
    let pp = bit_and b 3 in
    if pp == 1
    then bit_or ps ps_66
    else if pp == 2
    then bit_or ps ps_f3
    else if pp == 3
    then bit_or ps ps_f2
    else ps

-- A REX bit that is set where the bit of the VEX byte is clear.
abbrev pub rex_if_clear : ℕ → ℕ → ℕ → ℕ → ℕ
rex_if_clear b mask bit rex = if bit_and b mask == 0 then bit_or rex bit else rex

unfoldable pub decode_vex2 : DContext → ℕ → DContext
unfolding vex_ps
decode_vex2 c b = record c {
  vex = if bit_and b 4 != 0 then vex_256 else vex_128;
  ps = vex_ps c.ps b;
  vex_vvvv = some (15 - bit_and (b / 2 ^ 3) 15);
  rex = rex_if_clear b 128 4 c.rex;
  has_rex = true;
  opc1 = some 0x0F;
}

unfoldable pub decode_vex3 : DContext → ℕ → ℕ → Option DContext
unfolding vex_ps
decode_vex3 c b1 b2 = do
  assert (bit_and b1 31 == 1)
  some (record c {
    vex = if bit_and b2 4 != 0 then vex_256 else vex_128;
    ps = vex_ps c.ps b2;
    vex_vvvv = some (15 - bit_and (b2 / 2 ^ 3) 15);
    rex =
        rex_if_clear b2 128 8
          (rex_if_clear b1 32 1 (rex_if_clear b1 64 2 (rex_if_clear b1 128 4 c.rex)));
    has_rex = true;
    opc1 = some 0x0F;
  })

-- What one prefix byte does to the context; none if the byte is no prefix.
unfoldable pub legacy_prefix : DContext → ℕ → Option DContext
legacy_prefix c b =
    if leb 0x40 b && leb b 0x4F
    then some (record c { rex = bit_and b 15; has_rex = true })
    else if b == 0xF2
    then some (record c { ps = bit_or c.ps ps_f2 })
    else if b == 0xF3
    then some (record c { ps = bit_or c.ps ps_f3 })
    else if b == 0x66
    then some (record c { ps = bit_or c.ps ps_66 })
    else if b == 0x64
    then some (record c { seg_ov = oso_usefs })
    else if b == 0x65
    then some (record c { seg_ov = oso_usegs })
    else if b == 0x2E
    then some (record c { ps = bit_or c.ps ps_2e })
    else none

-- The loop over the prefix bytes, on the bytes from the position of `c` on. A VEX prefix ends it.
unfoldable pub prefix_loop : List ℕ → DContext → Option DContext
prefix_loop [] c = none
prefix_loop (b ∷ bs) c =
    let c1 = record c { rest = bs; off = c.off + 1 } in
    let vex2 = (do (b1, c2) ← next c1; some (decode_vex2 c2 b1)) in
    let vex3 = (do (b1, c2) ← next c1; (b2, c3) ← next c2; decode_vex3 c3 b1 b2) in
    let legacy : Option DContext = elim (legacy_prefix c b) [
      | none ↦ some c
      | some c' ↦ prefix_loop bs (record c' { rest = bs; off = c.off + 1 })
    ] in
    if b == 0xC5 then vex2 else if b == 0xC4 then vex3 else legacy

-- The context at the start of an instruction.
abbrev pub start_instr : DContext → DContext
start_instr c = record c {
  rex = 0;
  has_rex = false;
  seg_ov = oso_none;
  ps = ps_no;
  vex = vex_no;
  vex_vvvv = none;
  opc1 = none;
  opc2 = none;
}

-- `iaddr`, `oe`, `exit` and the assertion that no error is set are left out.
unfoldable pub decode_prefixes : DContext → Option DContext
decode_prefixes c = prefix_loop c.rest (start_instr c)

-- The value of an immediate, and the context behind it. A 64-bit operand is sign-extended from 32
-- bits unless it is a real one.
unfoldable pub parse_imm : DContext → ValType → Operand → Bool → Option (Operand × DContext)
unfolding next next16 next32 next64
parse_imm c vt_8 o real = do (v, c') ← next c; some (record o { type = ot_imm8; val = v }, c')
parse_imm c vt_16 o real = do (v, c') ← next16 c; some (record o { type = ot_imm16; val = v }, c')
parse_imm c vt_32 o real = do (v, c') ← next32 c; some (record o { type = ot_imm32; val = v }, c')
parse_imm c vt_64 o true = do (v, c') ← next64 c; some (record o { type = ot_imm64; val = v }, c')
parse_imm c vt_64 o false = do
  (v, c') ← next32 c
  some (record o { type = ot_imm64; val = sign_extend32 v }, c')
parse_imm c _ o real = none
