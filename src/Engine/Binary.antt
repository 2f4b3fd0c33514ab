-- ===== src/Engine/Binary.antt =====
-- src/engine.c: `generateBinaryFromCaptured`, its three passes together.
use dbrew.Prelude.{ℕ, ◌+◌, ◌-◌, ◌%◌, Option, none, some, List, [], ◌∷◌, ltb, ◌==◌}
use dbrew.Prelude.{if◌then◌else◌, ◌>>=◌, ◌>>◌, assert, length, get_elem?}
use dbrew.Capture.Blocks.{push_capture_bb}
use dbrew.Capture.Types.{Cbb}
use dbrew.Engine.Emit.{GenState}
use dbrew.Engine.Blocks.{GenCbb}
use dbrew.Engine.Link.{place_and_link}
use dbrew.Engine.Pass1.{out_of_fuel, finished, pass1, pass1_fuel}
use dbrew.Engine.Storage.{CodeStorage, reserve_code_storage, use_code_storage}

-- The first position of a block in an order.
unfoldable pub position : List ℕ → ℕ → Option ℕ
position [] i = none
position (j ∷ order) i = if j == i then some 0 else (do k ← position order i; some (k + 1))

-- A generated block as passes 2 and 3 see it, with pointers to blocks as positions in `genOrder`.
unfoldable pub gen_cbb : List ℕ → Cbb → Option GenCbb
unfolding position
gen_cbb order c = do
  n ← c.size
  some (record {
    count = c.count;
    end_type = c.end_type;
    next_branch = c.next_branch >>= position order;
    next_fall_through = c.next_fall_through >>= position order;
    size = n;
    addr1 = c.addr1;
    addr2 = c.addr2;
    gen_jcc8 = c.gen_jcc8;
    gen_jump = c.gen_jump;
  })

-- The blocks at some positions of the array.
unfoldable pub gen_cbbs : List ℕ → List Cbb → List ℕ → Option (List GenCbb)
unfolding gen_cbb
gen_cbbs order bbs [] = some []
gen_cbbs order bbs (i ∷ rest) = do
  c ← get_elem? bbs i
  p ← gen_cbb order c
  ps ← gen_cbbs order bbs rest
  some (p ∷ ps)

-- The code starts at a multiple of 64.
unfoldable pub align_storage : CodeStorage → Option CodeStorage
unfolding reserve_code_storage use_code_storage
align_storage cs = do
  buf0 ← reserve_code_storage cs 0
  let cl_off = buf0 % 64
  if ltb 0 cl_off then (do (_, cs1) ← use_code_storage cs (64 - cl_off); some cs1) else some cs

-- The rewriter behind the code generation. `placed` are the blocks of `genOrder`, with the members
-- that pass 2 sets.
pub record Binary : Type 0 where
  pub state : GenState
  pub placed : List GenCbb

-- The address and the size of the code, from the first block.
unfoldable pub generated_code : List GenCbb → CodeStorage → ℕ × ℕ
generated_code [] cs = (0, 0)
generated_code (p ∷ ps) cs = (p.addr2, cs.used - (p.addr2 - cs.buf))

-- Passes 2 and 3 on what pass 1 left from `buf0` on, where `used0` bytes were in use before.
unfoldable pub link_generated : GenState → ℕ → ℕ → Option Binary
unfolding gen_cbbs place_and_link generated_code
link_generated g buf0 used0 = do
  cbbs ← gen_cbbs g.gen_order g.context.cap_bb g.gen_order
  (placed, end, m) ← place_and_link cbbs buf0 g.memory
  let cs = record g.cs { used = used0 + (end - buf0) }
  assert (ltb 0 cs.used)
  let (addr, size) = generated_code placed cs
  some (record {
    state = record g {
      cs = cs;
      memory = m;
      generated_code_addr = addr;
      generated_code_size = size;
    };
    placed = placed;
  })

-- The function for a rewriter that has not generated code before, whose `genOrder` is empty. The
-- fuel of the loop is enough for every state.
unfoldable pub generate_binary_from_captured : GenState → Option Binary
unfolding align_storage reserve_code_storage push_capture_bb pass1 pass1_fuel link_generated
generate_binary_from_captured g = do
  cs ← align_storage g.cs
  buf0 ← reserve_code_storage cs 0
  assert (length g.context.cap_stack == 0)
  assert (ltb 0 (length g.context.cap_bb))
  let (_, c) = push_capture_bb g.context 0
  let g1 = record g { cs = cs; context = c }
  elim (c.e) [
    | some e ↦ some (record { state = g1; placed = [] })
    | none ↦ elim (pass1 (pass1_fuel g1) g1) [
      | out_of_fuel ↦ none
      | finished r ↦ do
        g2 ← r
        elim (g2.context.e) [
          | some e ↦ some (record { state = g2; placed = [] })
          | none ↦ link_generated g2 buf0 cs.used
        ]
    ]
  ]
