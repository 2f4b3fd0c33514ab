-- ===== src/Engine/Pass1.antt =====
-- src/engine.c, pass 1 of `generateBinaryFromCaptured`: the code of all blocks that are reached.
use dbrew.Prelude.{ℕ, zero, suc, ◌+◌, ◌*◌, Option, none, some, List, [], ◌∷◌, ◌++◌, ltb}
use dbrew.Prelude.{if◌then◌else◌, ◌>>=◌, ◌>>◌, assert, length, get_elem?}
use dbrew.Instr.Copy.{instr_is_jcc}
use dbrew.Capture.Blocks.{push_capture_bb}
use dbrew.Capture.Types.{Cbb}
use dbrew.Engine.Emit.{GenState, generate_block}
use dbrew.Engine.Storage.{use_code_storage}

-- GENORDER_MAX.
abbrev pub genorder_max : ℕ
genorder_max = 20

-- The successors of a block with a conditional jump are pushed; a null pointer fails when it is
-- used.
unfoldable pub push_successors : GenState → Cbb → Option GenState
unfolding push_capture_bb
push_successors g cbb =
    if instr_is_jcc cbb.end_type
    then (do
      b ← cbb.next_branch
      f ← cbb.next_fall_through
      let (_, c1) = push_capture_bb g.context b
      let (_, c2) = push_capture_bb c1 f
      some (record g { context = c2 }))
    else some g

-- The hole behind a block.
unfoldable pub leave_hole : GenState → Option GenState
unfolding use_code_storage
leave_hole g = do (_, cs) ← use_code_storage g.cs 26; some (record g { cs = cs })

-- The body of the loop for a block that is not generated yet. An error ends it before the hole.
unfoldable pub generate_next : GenState → ℕ → Option GenState
unfolding generate_block push_successors leave_hole
generate_next g bb = do
  assert (ltb (length g.gen_order) genorder_max)
  (error, g1) ← generate_block (record g { gen_order = g.gen_order ++ bb ∷ [] }) bb
  elim error [
    | some e ↦ some (record g1 {
      generated_code_addr = 0;
      generated_code_size = 0;
      context = record g1.context { e = some e };
    })
    | none ↦ do
      cbb ← get_elem? g1.context.cap_bb bb
      g2 ← push_successors g1 cbb
      elim (g2.context.e) [ some e ↦ some g2 | none ↦ leave_hole g2 ]
  ]

-- The body of the loop for the block that was on top.
unfoldable pub visit : GenState → ℕ → Option GenState
unfolding generate_next
visit g bb = do
  cbb ← get_elem? g.context.cap_bb bb
  elim (cbb.size) [ some n ↦ some g | none ↦ generate_next g bb ]

pub data Pass1 : Type 0 where
  out_of_fuel : Pass1
  finished : Option GenState → Pass1

-- The loop on a fuel. It finishes without a state when an assertion fails or the program exits, and
-- with the error set in the context when a function has set one.
unfoldable pub pass1 : ℕ → GenState → Pass1
unfolding visit
pass1 zero g = out_of_fuel
pass1 (suc n) g = elim (g.context.cap_stack) [
  | [] ↦ finished (some g)
  | top ∷ rest ↦ elim (visit (record g { context = record g.context { cap_stack = rest } }) top) [
    | none ↦ finished none
    | some g1 ↦ elim (g1.context.e) [ some e ↦ finished (some g1) | none ↦ pass1 n g1 ]
  ]
]

-- A sum over the blocks that are not generated yet.
unfoldable pub pending : (Cbb → ℕ) → List Cbb → ℕ
pending w [] = 0
pending w (c ∷ cs) = elim (c.size) [ some n ↦ pending w cs | none ↦ pending w cs + w c ]

-- Their number.
abbrev pub ungenerated : List Cbb → ℕ
ungenerated cs = pending (λ c. 1) cs

-- Each round takes a block from the stack, and only one that is generated in it adds two.
unfoldable pub pass1_fuel : GenState → ℕ
unfolding pending
pass1_fuel g = length g.context.cap_stack + 2 * ungenerated g.context.cap_bb + 1
