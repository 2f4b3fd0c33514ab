-- ===== src/Process/JumpLaws.antt =====
-- Conditional jumps on known flags follow the conditions of x86.
use dbrew.Prelude.{ℕ, ◌/◌, ◌%◌, ◌<◌, ◌≡◌, refl, ◌∙◌, ◌⊎◌, Bool, false, not, ◌||◌, some, arith}
use dbrew.Prelude.{ltb, ◌==◌, ◌!=◌, if◌then◌else◌}
use dbrew.Emulate.Meta.{ms_is_dynamic}
use dbrew.Emulate.State.{Flags}
use dbrew.Instr.Mnemonics.{InstrType, it_jo, it_jno, it_jc, it_jnc, it_jz, it_jnz, it_jbe}
use dbrew.Instr.Mnemonics.{it_ja, it_js, it_jns, it_jp, it_jnp, it_jl, it_jge, it_jle, it_jg}
use dbrew.Instr.Types.{Instr}
use dbrew.Capture.Types.{RContext}
use dbrew.Process.Dispatch.{process_by_type, process_instr}
use dbrew.Process.Jumps.{jcc_case, process_jcc}
use dbrew.Process.Step.{next_addr}
use dbrew.Engine.Blocks.{jcc_code}

-- The condition of a code, from the flags C, Z, S, O and P: its upper bits choose it, and the lowest
-- bit negates it.
unfoldable pub base_condition : ℕ → Flags → Bool
base_condition n f =
    if n == 0
    then f.overflow.val == 1
    else if n == 1
    then f.carry.val == 1
    else if n == 2
    then f.zero_.val == 1
    else if n == 3
    then f.carry.val == 1 || f.zero_.val == 1
    else if n == 4
    then f.sign.val == 1
    else if n == 5
    then f.parity.val == 1
    else if n == 6
    then f.sign.val != f.overflow.val
    else f.zero_.val == 1 || f.sign.val != f.overflow.val

unfoldable pub condition : ℕ → Flags → Bool
unfolding base_condition
condition n f = if n % 2 == 0 then base_condition (n / 2) f else not (base_condition (n / 2) f)

-- All flags are known, and 0 or 1.
pub record IsKnownFlags (f : Flags) : Type 0 where
  pub carry_state : ms_is_dynamic f.carry.state ≡ false
  pub zero_state : ms_is_dynamic f.zero_.state ≡ false
  pub sign_state : ms_is_dynamic f.sign.state ≡ false
  pub overflow_state : ms_is_dynamic f.overflow.state ≡ false
  pub parity_state : ms_is_dynamic f.parity.state ≡ false
  pub carry : f.carry.val < 2
  pub zero_ : f.zero_.val < 2
  pub sign : f.sign.val < 2
  pub overflow : f.overflow.val < 2
  pub parity : f.parity.val < 2

jcc_case_lem :
    (f : Flags) (it : InstrType) (n : ℕ)
    → jcc_code it ≡ some n
    → (n < 14) ⊎ (f.overflow.val ≡ 0)
    → IsKnownFlags f
    → (it' : InstrType) × (jcc_case f it ≡ some (false, it', condition n f))
unfolding jcc_code jcc_case condition base_condition
jcc_case_lem f it_jo n e o k = (it_jo, let z : 0 ≡ n = ground arith in rw⁻¹ z (ground arith))
jcc_case_lem f it_jno n e o k = (it_jno, let z : 1 ≡ n = ground arith in rw⁻¹ z (ground arith))
jcc_case_lem f it_jc n e o k = (it_jc, let z : 2 ≡ n = ground arith in rw⁻¹ z (ground arith))
jcc_case_lem f it_jnc n e o k = (it_jnc, let z : 3 ≡ n = ground arith in rw⁻¹ z (ground arith))
jcc_case_lem f it_jz n e o k = (it_jz, let z : 4 ≡ n = ground arith in rw⁻¹ z (ground arith))
jcc_case_lem f it_jnz n e o k = (it_jnz, let z : 5 ≡ n = ground arith in rw⁻¹ z (ground arith))
jcc_case_lem f it_jbe n e o k = (it_jle, let z : 6 ≡ n = ground arith in rw⁻¹ z (ground arith))
jcc_case_lem f it_ja n e o k = (it_jg, let z : 7 ≡ n = ground arith in rw⁻¹ z (ground arith))
jcc_case_lem f it_js n e o k = (it_js, let z : 8 ≡ n = ground arith in rw⁻¹ z (ground arith))
jcc_case_lem f it_jns n e o k = (it_jns, let z : 9 ≡ n = ground arith in rw⁻¹ z (ground arith))
jcc_case_lem f it_jp n e o k = (it_jp, let z : 10 ≡ n = ground arith in rw⁻¹ z (ground arith))
jcc_case_lem f it_jnp n e o k = (it_jnp, let z : 11 ≡ n = ground arith in rw⁻¹ z (ground arith))
jcc_case_lem f it_jl n e o k = (it_jl, let z : 12 ≡ n = ground arith in rw⁻¹ z (ground arith))
jcc_case_lem f it_jge n e o k = (it_jge, let z : 13 ≡ n = ground arith in rw⁻¹ z (ground arith))
jcc_case_lem f it_jle n e o k = (it_jle, let z : 14 ≡ n = ground arith in rw⁻¹ z (ground arith))
jcc_case_lem f it_jg n e o k = (it_jg, let z : 15 ≡ n = ground arith in rw⁻¹ z (ground arith))
jcc_case_lem f _ n e o k = absurd (ground arith)

by_type_jcc :
    (r : RContext) (i : Instr) (it : InstrType) (n : ℕ)
    → jcc_code it ≡ some n
    → process_by_type r i it ≡ process_jcc r i
unfolding process_by_type jcc_code
by_type_jcc r i it_jo n e = refl
by_type_jcc r i it_jno n e = refl
by_type_jcc r i it_jc n e = refl
by_type_jcc r i it_jnc n e = refl
by_type_jcc r i it_jz n e = refl
by_type_jcc r i it_jnz n e = refl
by_type_jcc r i it_jbe n e = refl
by_type_jcc r i it_ja n e = refl
by_type_jcc r i it_js n e = refl
by_type_jcc r i it_jns n e = refl
by_type_jcc r i it_jp n e = refl
by_type_jcc r i it_jnp n e = refl
by_type_jcc r i it_jl n e = refl
by_type_jcc r i it_jge n e = refl
by_type_jcc r i it_jle n e = refl
by_type_jcc r i it_jg n e = refl
by_type_jcc r i _ n e = absurd (ground arith)

-- Let all flags be known, and let the jump not be JLE or JG unless the overflow flag is clear. Then
-- a conditional jump captures nothing and changes nothing but the exit: this is the target exactly if
-- the condition of its opcode holds, and else the address behind the instruction.
pub process_instr-condition :
    (r : RContext) (i : Instr) (n : ℕ)
    → i.pt_len ≡ 0
    → jcc_code i.type ≡ some n
    → (n < 14) ⊎ (r.world.es.flags.overflow.val ≡ 0)
    → IsKnownFlags r.world.es.flags
    → process_instr r i
      ≡ some (record r { exit = if condition n r.world.es.flags then i.dst.val else next_addr i })
unfolding process_instr process_jcc
process_instr-condition r i n p e o k =
    let (it, c) = jcc_case_lem r.world.es.flags i.type n e o k in
    let b = by_type_jcc r i i.type n e in
    let z : ltb 0 i.pt_len ≡ false = rw p refl in
    rw (process_instr, z) (b ∙ rw (process_jcc, c) refl)
