-- ===== src/Engine/Place.antt =====
-- src/engine.c, pass 2: the final address of each block, and the form of its jumps.
use dbrew.Prelude.{ℕ, ◌+◌, true, Option, some, List, [], ◌∷◌, ltb, leb, ◌!=◌, if◌then◌else◌}
use dbrew.Prelude.{◌>>=◌, ◌>>◌, assert, get_elem?}
use dbrew.Decode.Context.{next}
use dbrew.Instr.Copy.{instr_is_jcc}
use dbrew.Engine.Blocks.{GenCbb, diff32, between}
use dbrew.Memory.{Memory, copy}

-- The copy of a block with its assertions.
unfoldable pub move_block : GenCbb → ℕ → Memory → Option Memory
move_block cbb buf1 m =
    if ltb 0 cbb.size
    then (do
      assert (ltb 0 cbb.count)
      assert (leb buf1 cbb.addr1)
      some (copy cbb.size buf1 cbb.addr1 m))
    else some m

-- The jumps behind a block that ends with a conditional jump; `next` is the position of the block
-- that follows in `genOrder`. There is none behind the last block, where C has stored a null.
unfoldable pub choose_jumps : List GenCbb → ℕ → GenCbb → Option GenCbb
choose_jumps all next cbb =
    if instr_is_jcc cbb.end_type
    then (do
      b ← cbb.next_branch
      target ← get_elem? all b
      let diff = diff32 target.addr1 (cbb.addr1 + cbb.size)
      let cbb1 = if between 120 120 diff then record cbb { gen_jcc8 = true } else cbb
      f ← cbb.next_fall_through
      some (if f != next then record cbb1 { gen_jump = true } else cbb1))
    else some cbb

-- The bytes of these jumps.
unfoldable pub jump_bytes : GenCbb → ℕ
jump_bytes cbb =
    if instr_is_jcc cbb.end_type
    then (if cbb.gen_jcc8 then 2 else 6) + (if cbb.gen_jump then 5 else 0)
    else 0

-- The loop: the blocks from position `i` on are placed from `buf1` on. `all` is the whole list, of
-- which `addr1` is read, and this pass does not change that.
unfoldable pub place :
    List GenCbb → List GenCbb → ℕ → ℕ → Memory → Option (List GenCbb × ℕ × Memory)
place all [] i buf1 m = some ([], buf1, m)
place all (cbb ∷ cbbs) i buf1 m = do
  m1 ← move_block cbb buf1 m
  cbb1 ← choose_jumps all (i + 1) (record cbb { addr2 = buf1 })
  (rest, end, m2) ← place all cbbs (i + 1) (buf1 + cbb.size + jump_bytes cbb1) m1
  some (cbb1 ∷ rest, end, m2)
