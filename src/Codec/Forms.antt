-- ===== src/Codec/Forms.antt =====
-- Generators of single instructions that differ in their opcodes.
-- The generators with a register as source and memory as destination, and their opcodes.
use dbrew.Prelude.{ℕ, ◌+◌, ◌<◌, ◌≡◌, refl, Option, arith}
use dbrew.Codec.Prefixes.{IsNoPrefix}
use dbrew.Instr.Kinds.{ValType, vt_none, vt_32, vt_64, OpType, ot_reg32, ot_reg64, ot_ind32}
use dbrew.Instr.Kinds.{ot_ind64}
use dbrew.Instr.Types.{Operand, Instr}
use dbrew.Instr.Operands.{op_val_type}
use dbrew.Generate.Context.{GContext, gen_66_on_vt16}
use dbrew.Generate.Reduce.{reduce_imm64_to32, reduce_imm16_to8, reduce_imm32_to8}
use dbrew.Generate.Single.{Generated, written, one_of, gen_mov_mr, gen_mov_rm, gen_mov}
use dbrew.Generate.Prefix.{gen_modrm}
use dbrew.Generate.Arith.{gen_arith, gen_sub, gen_xor, gen_or, gen_cmp, gen_from_reg}
use dbrew.Generate.Arith.{gen_from_ind, gen_add_and, gen_add, gen_and, gen_test}

pub data IsMr : (GContext → Operand → Instr → Option Generated) → ℕ → Type 0 where
  mov_mr : IsMr gen_mov 0x89
  add_mr : IsMr gen_add 0x01
  sub_mr : IsMr gen_sub 0x29
  xor_mr : IsMr gen_xor 0x31
  or_mr : IsMr gen_or 0x09
  and_mr : IsMr gen_and 0x21
  cmp_mr : IsMr gen_cmp 0x39
  test_mr : IsMr gen_test 0x85

-- The generators with memory as source and a register as destination, and their opcodes.
pub data IsRm : (GContext → Operand → Instr → Option Generated) → ℕ → Type 0 where
  mov_rm : IsRm gen_mov 0x8B
  add_rm : IsRm gen_add 0x03
  sub_rm : IsRm gen_sub 0x2B
  xor_rm : IsRm gen_xor 0x33
  or_rm : IsRm gen_or 0x0B
  and_rm : IsRm gen_and 0x23
  cmp_rm : IsRm gen_cmp 0x3B

-- An operand of 32 or 64 bits in a register or in memory.
pub data IsWide (reg ind : OpType) (vt : ValType) : Type 0 where
  of_32 : reg ≡ ot_reg32 → ind ≡ ot_ind32 → vt ≡ vt_32 → IsWide reg ind vt
  of_64 : reg ≡ ot_reg64 → ind ≡ ot_ind64 → vt ≡ vt_64 → IsWide reg ind vt

reduced_reg :
    (junk o : Operand) (ind : OpType) (vt : ValType)
    → IsWide o.type ind vt
    → (reduce_imm64_to32 junk o ≡ o) × (reduce_imm32_to8 junk o ≡ o) × (reduce_imm16_to8 junk o ≡ o)
unfolding reduce_imm64_to32 reduce_imm32_to8 reduce_imm16_to8
reduced_reg junk o ind vt (of_32 r d v) = ground (arith, r)
reduced_reg junk o ind vt (of_64 r d v) = ground (arith, r)

reduced_ind :
    (junk o : Operand) (reg : OpType) (vt : ValType)
    → IsWide reg o.type vt
    → (reduce_imm64_to32 junk o ≡ o) × (reduce_imm32_to8 junk o ≡ o) × (reduce_imm16_to8 junk o ≡ o)
unfolding reduce_imm64_to32 reduce_imm32_to8 reduce_imm16_to8
reduced_ind junk o reg vt (of_32 r d v) = ground (arith, d)
reduced_ind junk o reg vt (of_64 r d v) = ground (arith, d)

gen_mov_mr_lem :
    (c : GContext) (junk : Operand) (i : Instr) (vt : ValType)
    → IsWide i.src.type i.dst.type vt
    → gen_mov c junk i ≡ written (gen_modrm c 0x89 i.dst i.src vt_none 0)
unfolding gen_mov gen_mov_mr gen_mov_rm one_of op_val_type
gen_mov_mr_lem c junk i vt h =
    let (r64, r32, r16) = reduced_reg junk i.src i.dst.type vt h in
    elim h [ of_32 r d v ↦ rw (r64, r, d) refl | of_64 r d v ↦ rw (r64, r, d) refl ]

gen_arith_mr_lem :
    (c : GContext) (junk : Operand) (i : Instr) (mr rm digit : ℕ) (vt : ValType)
    → IsWide i.src.type i.dst.type vt
    → gen_arith c junk i mr rm digit ≡ written (gen_modrm c mr i.dst i.src vt_none 0)
unfolding gen_arith one_of op_val_type
gen_arith_mr_lem c junk i mr rm digit vt h =
    let (r64, r32, r16) = reduced_reg junk i.src i.dst.type vt h in
    elim h [ of_32 r d v ↦ rw (r64, r32, r, d) refl | of_64 r d v ↦ rw (r64, r32, r, d) refl ]

gen_add_and_mr_lem :
    (c : GContext) (junk : Operand) (i : Instr) (base digit : ℕ) (vt : ValType)
    → IsWide i.src.type i.dst.type vt
    → gen_add_and c junk i base digit
      ≡ written (gen_modrm c (base + 1) i.dst i.src vt_none gen_66_on_vt16)
unfolding gen_add_and gen_from_reg gen_from_ind one_of op_val_type
gen_add_and_mr_lem c junk i base digit vt h =
    let (r64, r32, r16) = reduced_reg junk i.src i.dst.type vt h in
    elim h [
      | of_32 r d v ↦ rw (r64, r32, r16, r, d) refl
      | of_64 r d v ↦ rw (r64, r32, r16, r, d) refl
    ]

gen_test_mr_lem :
    (c : GContext) (junk : Operand) (i : Instr) (vt : ValType)
    → IsWide i.src.type i.dst.type vt
    → gen_test c junk i ≡ written (gen_modrm c 0x85 i.dst i.src vt_none gen_66_on_vt16)
unfolding gen_test gen_from_reg one_of op_val_type
gen_test_mr_lem c junk i vt h =
    let (r64, r32, r16) = reduced_reg junk i.src i.dst.type vt h in
    elim h [ of_32 r d v ↦ rw (r64, r, d) refl | of_64 r d v ↦ rw (r64, r, d) refl ]

gen_mov_rm_lem :
    (c : GContext) (junk : Operand) (i : Instr) (vt : ValType)
    → IsWide i.dst.type i.src.type vt
    → gen_mov c junk i ≡ written (gen_modrm c 0x8B i.src i.dst vt_none 0)
unfolding gen_mov gen_mov_mr gen_mov_rm one_of op_val_type
gen_mov_rm_lem c junk i vt h =
    let (r64, r32, r16) = reduced_ind junk i.src i.dst.type vt h in
    elim h [ of_32 r d v ↦ rw (r64, r, d) refl | of_64 r d v ↦ rw (r64, r, d) refl ]

gen_arith_rm_lem :
    (c : GContext) (junk : Operand) (i : Instr) (mr rm digit : ℕ) (vt : ValType)
    → IsWide i.dst.type i.src.type vt
    → gen_arith c junk i mr rm digit ≡ written (gen_modrm c rm i.src i.dst vt_none 0)
unfolding gen_arith one_of op_val_type
gen_arith_rm_lem c junk i mr rm digit vt h =
    let (r64, r32, r16) = reduced_ind junk i.src i.dst.type vt h in
    elim h [ of_32 r d v ↦ rw (r64, r32, r, d) refl | of_64 r d v ↦ rw (r64, r32, r, d) refl ]

gen_add_and_rm_lem :
    (c : GContext) (junk : Operand) (i : Instr) (base digit : ℕ) (vt : ValType)
    → IsWide i.dst.type i.src.type vt
    → gen_add_and c junk i base digit
      ≡ written (gen_modrm c (base + 3) i.src i.dst vt_none gen_66_on_vt16)
unfolding gen_add_and gen_from_reg gen_from_ind one_of op_val_type
gen_add_and_rm_lem c junk i base digit vt h =
    let (r64, r32, r16) = reduced_ind junk i.src i.dst.type vt h in
    elim h [
      | of_32 r d v ↦ rw (r64, r32, r16, r, d) refl
      | of_64 r d v ↦ rw (r64, r32, r16, r, d) refl
    ]

pub mr_lem :
    (gen : GContext → Operand → Instr → Option Generated) (opc : ℕ) (c : GContext) (junk : Operand)
    (i : Instr) (vt : ValType)
    → IsMr gen opc
    → IsWide i.src.type i.dst.type vt
    → (flags : ℕ) × (gen c junk i ≡ written (gen_modrm c opc i.dst i.src vt_none flags))
      × (opc < 256)
      × IsNoPrefix opc
unfolding gen_add gen_sub gen_xor gen_or gen_and gen_cmp
mr_lem gen opc c junk i vt sub_mr w =
    (0, gen_arith_mr_lem c junk i 0x29 0x2B 5 vt w, omega arith, ground arith)
mr_lem gen opc c junk i vt xor_mr w =
    (0, gen_arith_mr_lem c junk i 0x31 0x33 6 vt w, omega arith, ground arith)
mr_lem gen opc c junk i vt or_mr w =
    (0, gen_arith_mr_lem c junk i 0x09 0x0B 1 vt w, omega arith, ground arith)
mr_lem gen opc c junk i vt cmp_mr w =
    (0, gen_arith_mr_lem c junk i 0x39 0x3B 7 vt w, omega arith, ground arith)
mr_lem gen opc c junk i vt mov_mr w = (0, gen_mov_mr_lem c junk i vt w, omega arith, ground arith)
mr_lem gen opc c junk i vt add_mr w =
    (1, gen_add_and_mr_lem c junk i 0x00 0 vt w, omega arith, ground arith)
mr_lem gen opc c junk i vt and_mr w =
    (1, gen_add_and_mr_lem c junk i 0x20 4 vt w, omega arith, ground arith)
mr_lem gen opc c junk i vt test_mr w = (1, gen_test_mr_lem c junk i vt w, omega arith, ground arith)

pub rm_lem :
    (gen : GContext → Operand → Instr → Option Generated) (opc : ℕ) (c : GContext) (junk : Operand)
    (i : Instr) (vt : ValType)
    → IsRm gen opc
    → IsWide i.dst.type i.src.type vt
    → (flags : ℕ) × (gen c junk i ≡ written (gen_modrm c opc i.src i.dst vt_none flags))
      × (opc < 256)
      × IsNoPrefix opc
unfolding gen_add gen_sub gen_xor gen_or gen_and gen_cmp
rm_lem gen opc c junk i vt sub_rm w =
    (0, gen_arith_rm_lem c junk i 0x29 0x2B 5 vt w, omega arith, ground arith)
rm_lem gen opc c junk i vt xor_rm w =
    (0, gen_arith_rm_lem c junk i 0x31 0x33 6 vt w, omega arith, ground arith)
rm_lem gen opc c junk i vt or_rm w =
    (0, gen_arith_rm_lem c junk i 0x09 0x0B 1 vt w, omega arith, ground arith)
rm_lem gen opc c junk i vt cmp_rm w =
    (0, gen_arith_rm_lem c junk i 0x39 0x3B 7 vt w, omega arith, ground arith)
rm_lem gen opc c junk i vt mov_rm w = (0, gen_mov_rm_lem c junk i vt w, omega arith, ground arith)
rm_lem gen opc c junk i vt add_rm w =
    (1, gen_add_and_rm_lem c junk i 0x00 0 vt w, omega arith, ground arith)
rm_lem gen opc c junk i vt and_rm w =
    (1, gen_add_and_rm_lem c junk i 0x20 4 vt w, omega arith, ground arith)
