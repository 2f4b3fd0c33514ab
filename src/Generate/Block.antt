-- ===== src/Generate/Block.antt =====
-- src/generate.c: vector instructions, those that are passed through, and the code of a block.
use dbrew.Prelude.{ℕ, ◌+◌, ◌*◌, ◌^◌, bit_or, ◌&&◌, Option, none, some, List, [], ◌∷◌, ◌++◌, ltb}
use dbrew.Prelude.{if◌then◌else◌, ◌>>=◌, ◌>>◌, assert, length, get_elem?}
use dbrew.Instr.Kinds.{vt_implicit, oe_none, oe_mr, oe_rm, oe_rvm}
use dbrew.Instr.Mnemonics.{InstrType, it_hint_call, it_hint_ret, it_cltq, it_cwtl, it_cqto}
use dbrew.Instr.Mnemonics.{it_push, it_pop, it_mov, it_movsx, it_lea, it_neg, it_inc, it_dec}
use dbrew.Instr.Mnemonics.{it_add, it_sub, it_imul, it_idiv1, it_xor, it_and, it_or, it_cmp}
use dbrew.Instr.Mnemonics.{it_test, it_shl, it_shr, it_sar, it_ret, it_addss, it_addsd}
use dbrew.Instr.Mnemonics.{it_addps, it_addpd}
use dbrew.Instr.Types.{Operand, ps_no, ps_66, ps_f2, ps_f3, Instr}
use dbrew.Instr.Operands.{op_is_v_reg}
use dbrew.Generate.Context.{GContext, init_gcontext, set_gen_info}
use dbrew.Generate.Single.{Generated, not_supported, generated, written, gen_ret, gen_push}
use dbrew.Generate.Single.{gen_pop, gen_dec, gen_inc, gen_neg, gen_mov, cmov_opcode, gen_cmov}
use dbrew.Generate.Prefix.{gen_prefix, append_oo, gen_modrm}
use dbrew.Generate.Arith.{gen_sub, gen_xor, gen_or, gen_cmp, gen_add, gen_and, gen_test}
use dbrew.Generate.Arith.{gen_imul, gen_idiv1, gen_shl, gen_shr, gen_sar, gen_lea, gen_cltq}
use dbrew.Generate.Arith.{gen_cwtl, gen_cqto}

unfoldable pub gen_instr : GContext → Instr → Option Generated
unfolding written gen_modrm
gen_instr c i = do
  opc ← c.opc
  elim (c.oe) [
    | oe_mr ↦ written (gen_modrm c opc i.dst i.src c.vt c.flags)
    | oe_rm ↦ written (gen_modrm c opc i.src i.dst c.vt c.flags)
    | _ ↦ some (generated [])
  ]

-- The prefix of a vector addition.
unfoldable pub vec_prefix : InstrType → Option ℕ
vec_prefix it_addss = some ps_f3
vec_prefix it_addsd = some ps_f2
vec_prefix it_addps = some ps_no
vec_prefix it_addpd = some ps_66
vec_prefix _ = none

unfoldable pub gen_vec : GContext → Instr → Option Generated
unfolding vec_prefix set_gen_info gen_instr
gen_vec c i = do ps ← vec_prefix i.type; gen_instr (set_gen_info c ps 0x0F58 oe_rm vt_implicit) i

-- The opcode that the decoder has passed on.
unfoldable pub pass_through_opcode : Instr → Option ℕ
pass_through_opcode i = do
  assert (ltb 0 i.pt_len && ltb i.pt_len 3)
  b0 ← get_elem? i.pt_opc 0
  if ltb i.pt_len 2 then some b0 else (do b1 ← get_elem? i.pt_opc 1; some (bit_or (b0 * 2 ^ 8) b1))

unfoldable pub gen_pass_through : GContext → Instr → Option Generated
unfolding pass_through_opcode written gen_prefix append_oo gen_modrm op_is_v_reg
gen_pass_through c0 i = do
  opc ← pass_through_opcode i
  let c = record c0 { ps = i.pt_pset; vp = i.pt_vex_p }
  elim (i.pt_enc) [
    | oe_none ↦ do
      (c1, prefix) ← gen_prefix (record c { opc = some opc })
      body ← append_oo c1
      some (generated (prefix ++ body))
    | oe_mr ↦ written (gen_modrm c opc i.dst i.src i.vtype 0)
    | oe_rvm ↦ do
      v ← op_is_v_reg i.src
      assert v
      written (gen_modrm (record c { vvvv = i.src.reg.ri }) opc i.src2 i.dst i.vtype 0)
    | oe_rm ↦ written (gen_modrm c opc i.src i.dst i.vtype 0)
    | _ ↦ none
  ]

-- What `generate` makes of one instruction.
pub data GenOne : Type 0 where
  one : Generated → GenOne
  unsupported_instr : GenOne

-- The cases of `generate`; `junk` is as in the generators of single instructions.
unfoldable pub gen_by_type : GContext → Operand → Instr → Option GenOne
unfolding gen_add gen_cltq gen_cwtl gen_cqto gen_cmp gen_dec gen_imul gen_idiv1 gen_inc gen_neg
    gen_xor gen_or gen_and gen_shl gen_shr gen_sar gen_lea gen_mov gen_pop gen_push gen_ret gen_sub
    gen_test gen_vec
gen_by_type c junk i = elim (i.type) [
  | it_add ↦ do g ← gen_add c junk i; some (one g)
  | it_cltq ↦ some (one (generated gen_cltq))
  | it_cwtl ↦ some (one (generated gen_cwtl))
  | it_cqto ↦ some (one (gen_cqto i))
  | it_cmp ↦ do g ← gen_cmp c junk i; some (one g)
  | it_dec ↦ do g ← gen_dec c i; some (one g)
  | it_imul ↦ do g ← gen_imul c junk i; some (one g)
  | it_idiv1 ↦ do g ← gen_idiv1 c i; some (one g)
  | it_inc ↦ do g ← gen_inc c i; some (one g)
  | it_neg ↦ do g ← gen_neg c i; some (one g)
  | it_xor ↦ do g ← gen_xor c junk i; some (one g)
  | it_or ↦ do g ← gen_or c junk i; some (one g)
  | it_and ↦ do g ← gen_and c junk i; some (one g)
  | it_shl ↦ do g ← gen_shl c i; some (one g)
  | it_shr ↦ do g ← gen_shr c i; some (one g)
  | it_sar ↦ do g ← gen_sar c i; some (one g)
  | it_lea ↦ do g ← gen_lea c i; some (one g)
  | it_mov ↦ do g ← gen_mov c junk i; some (one g)
  | it_movsx ↦ do g ← gen_mov c junk i; some (one g)
  | it_pop ↦ do g ← gen_pop i; some (one g)
  | it_push ↦ do g ← gen_push c i; some (one g)
  | it_ret ↦ some (one (generated gen_ret))
  | it_sub ↦ do g ← gen_sub c junk i; some (one g)
  | it_test ↦ do g ← gen_test c junk i; some (one g)
  | it_addss ↦ do g ← gen_vec c i; some (one g)
  | it_addsd ↦ do g ← gen_vec c i; some (one g)
  | it_addps ↦ do g ← gen_vec c i; some (one g)
  | it_addpd ↦ do g ← gen_vec c i; some (one g)
  | it_hint_call ↦ some (one (generated []))
  | it_hint_ret ↦ some (one (generated []))
  | _ ↦ some unsupported_instr
]

unfoldable pub gen_one : Operand → Instr → Option GenOne
unfolding gen_pass_through gen_by_type cmov_opcode gen_cmov
gen_one junk i =
    if ltb 0 i.pt_len
    then (do g ← gen_pass_through init_gcontext i; some (one g))
    else elim (cmov_opcode i.type) [
      | some opc ↦ do g ← gen_cmov init_gcontext i; some (one g)
      | none ↦ gen_by_type init_gcontext junk i
    ]

-- The outcome of `generate`: the code of each instruction, or an error at a position of the block.
pub data BlockCode : Type 0 where
  code : List (List ℕ) → BlockCode
  bad_operands : ℕ → BlockCode
  bad_instr : ℕ → BlockCode

-- The loop of `generate` from position `n` on; it asserts that an instruction is shorter than the 15
-- bytes that are reserved. After an error no code is left.
unfoldable pub gen_from : Operand → List Instr → ℕ → Option BlockCode
unfolding gen_one
gen_from junk [] n = some (code [])
gen_from junk (i ∷ rest) n = do
  g ← gen_one junk i
  let tail = gen_from junk rest (n + 1)
  elim g [
    | unsupported_instr ↦ some (bad_instr n)
    | one not_supported ↦ some (bad_operands n)
    | one (generated bytes) ↦ do
      assert (ltb (length bytes) 15)
      r ← tail
      some (elim r [
        | code cs ↦ code (bytes ∷ cs)
        | bad_operands k ↦ bad_operands k
        | bad_instr k ↦ bad_instr k
      ])
  ]

-- The instructions of a block that has some.
unfoldable pub generate : Operand → List Instr → Option BlockCode
unfolding gen_from
generate junk instrs = gen_from junk instrs 0
