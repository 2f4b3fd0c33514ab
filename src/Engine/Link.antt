-- ===== src/Engine/Link.antt =====
-- src/engine.c, pass 3: the jumps behind the blocks.
use dbrew.Prelude.{ℕ, ◌+◌, ◌%◌, Option, some, List, [], ◌∷◌, if◌then◌else◌, ◌>>=◌, ◌>>◌, assert}
use dbrew.Prelude.{get_elem?}
use dbrew.Instr.Copy.{instr_is_jcc}
use dbrew.Engine.Blocks.{GenCbb, diff32, between, jcc_code}
use dbrew.Engine.Place.{place}
use dbrew.Memory.{Memory, write, write32}

-- The conditional jump at `buf`, and the address behind it.
unfoldable pub write_jcc : List GenCbb → GenCbb → ℕ → Memory → Option (ℕ × Memory)
write_jcc all cbb buf m = do
  b ← cbb.next_branch
  target ← get_elem? all b
  if cbb.gen_jcc8
      then (do
        let diff = diff32 target.addr2 (buf + 2)
        assert (between 128 127 diff)
        c ← jcc_code cbb.end_type
        some (buf + 2, write (write m buf (0x70 + c)) (buf + 1) (diff % 256)))
      else (do
        let diff = diff32 target.addr2 (buf + 6)
        c ← jcc_code cbb.end_type
        some (buf + 6, write32 (write (write m buf 0x0F) (buf + 1) (0x80 + c)) (buf + 2) diff))

-- The jump to the block behind, if that does not follow.
unfoldable pub write_jump : List GenCbb → GenCbb → ℕ → Memory → Option Memory
write_jump all cbb buf m =
    if cbb.gen_jump
    then (do
      f ← cbb.next_fall_through
      target ← get_elem? all f
      some (write32 (write m buf 0xE9) (buf + 1) (diff32 target.addr2 (buf + 5))))
    else some m

unfoldable pub link_block : List GenCbb → GenCbb → Memory → Option Memory
unfolding write_jcc write_jump
link_block all cbb m =
    if instr_is_jcc cbb.end_type
    then (do (buf, m1) ← write_jcc all cbb (cbb.addr2 + cbb.size) m; write_jump all cbb buf m1)
    else some m

-- The loop; `all` is the whole list, which this pass does not change.
unfoldable pub link : List GenCbb → List GenCbb → Memory → Option Memory
link all [] m = some m
link all (cbb ∷ cbbs) m = do m1 ← link_block all cbb m; link all cbbs m1

-- Both passes on the blocks that pass 1 left, from `buf0` on: the blocks, the end of the code and
-- the memory.
unfoldable pub place_and_link : List GenCbb → ℕ → Memory → Option (List GenCbb × ℕ × Memory)
unfolding place link
place_and_link cbbs buf0 m = do
  (placed, end, m1) ← place cbbs cbbs 0 buf0 m
  m2 ← link placed placed m1
  some (placed, end, m2)
