-- ===== src/Engine/Tests.antt =====
-- Tests of src/engine.c on two blocks: a loop that jumps to itself, and what follows it.
use dbrew.Prelude.{ℕ, ◌+◌, ◌≤◌, ◌≡◌, refl, inl, inr, false, Option, none, some, List, [], ◌∷◌}
use dbrew.Prelude.{arith, ◌>>=◌, get_elem?}
use dbrew.Memory.{Memory, write, write32, copy}
use dbrew.Instr.Copy.{instr_is_jcc}
use dbrew.Instr.Mnemonics.{it_ret, it_jnz}
use dbrew.Engine.PlaceLaws.{SameCode}
use dbrew.Engine.LinkLaws.{LinkedAt}
use dbrew.Engine.Blocks.{GenCbb, diff32, between, jcc_code}
use dbrew.Engine.Place.{move_block, choose_jumps, jump_bytes, place}
use dbrew.Engine.Link.{write_jcc, write_jump, link_block, link, place_and_link}
use dbrew.Engine.Spacing.{spaced_end}
use dbrew.Engine.LayoutLaws.{IsGenerated, place_and_link-LinkedAt, place_and_link-bytes}

abbrev loop_block : GenCbb
loop_block = record {
  count = 1;
  end_type = it_jnz;
  next_branch = some 0;
  next_fall_through = some 1;
  size = 3;
  addr1 = 4096;
  addr2 = 0;
  gen_jcc8 = false;
  gen_jump = false;
}

abbrev exit_block : GenCbb
exit_block = record {
  count = 1;
  end_type = it_ret;
  next_branch = none;
  next_fall_through = none;
  size = 1;
  addr1 = 4125;
  addr2 = 0;
  gen_jcc8 = false;
  gen_jump = false;
}

abbrev blocks : List GenCbb
blocks = loop_block ∷ exit_block ∷ []

blocks-IsGenerated : IsGenerated blocks 4096
unfolding instr_is_jcc
blocks-IsGenerated = record {
  spaced = (refl, inr (omega arith), refl, refl, (refl, inr (omega arith), refl, refl, tt));
  targets = (inr (0, loop_block, 1, exit_block, refl, refl, refl, refl), (inl refl, tt));
  fits = omega arith;
  in_range = omega arith;
}

place_and_link-LinkedAt_example :
    (placed : List GenCbb) × (end : ℕ) × (m' : Memory) × (p : GenCbb) × (place_and_link blocks 4096
        (λ a. a)
      ≡ some (placed, end, m'))
    × (get_elem? placed 0 ≡ some p)
    × SameCode loop_block p
    × LinkedAt placed p m'
place_and_link-LinkedAt_example =
    place_and_link-LinkedAt blocks 4096 (λ a. a) 0 loop_block blocks-IsGenerated refl

place_and_link-bytes_example :
    (placed : List GenCbb) × (end : ℕ) × (m' : Memory) × (p : GenCbb) × (place_and_link blocks 4096
        (λ a. a)
      ≡ some (placed, end, m'))
    × (get_elem? placed 1 ≡ some p)
    × (m' (p.addr2 + 0) ≡ 4125)
    × (m' 7 ≡ 7)
    × (end ≤ spaced_end blocks 4096)
place_and_link-bytes_example =
    place_and_link-bytes blocks 4096 (λ a. a) 1 exit_block 0 7 blocks-IsGenerated refl (omega arith)
      (omega arith)

abbrev loop_code : Option (ℕ × ℕ × ℕ)
loop_code = do (placed, end, m) ← place_and_link blocks 4096 (λ a. 0); some (end, m 4099, m 4100)

-- The jump is short, goes back over the block and its own two bytes, and falls through.
loop_bytes : loop_code ≡ some (4102, 0x75, 251)
unfolding place_and_link place link link_block move_block choose_jumps jump_bytes write_jcc
    write_jump write32 write copy diff32 between jcc_code instr_is_jcc
loop_bytes = refl
