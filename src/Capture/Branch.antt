-- ===== src/Capture/Branch.antt =====
-- src/emulate.c: ending a captured block at a conditional jump.
use dbrew.Prelude.{ℕ, Bool, Option, none, some, ltb, if◌then◌else◌, ◌>>=◌, get_elem?, set}
use dbrew.Emulate.Saved.{saved, too_many, save_emu_state}
use dbrew.Instr.Mnemonics.{InstrType}
use dbrew.Capture.Blocks.{get_capture_bb, push_capture_bb, pop_capture_bb}
use dbrew.Capture.Types.{em_rewriter, et_buffer_overflow, set_error, RContext}

-- `saveEmuState` on the context: the ID, or none for -1.
unfoldable pub save_state : RContext → Option (Option ℕ × RContext)
unfolding save_emu_state
save_state r = do
  s ← save_emu_state r.junk_es r.junk_cell r.es_self r.world.es r.saved_state
  elim s [
    | saved id states ↦ some (some id, record r { saved_state = states })
    | too_many ↦ some (none, record r { e = some (set_error et_buffer_overflow em_rewriter) })
  ]

-- `cbb->endType = it` with `cbb->preferBranch = prefer`.
unfoldable pub end_block : RContext → ℕ → InstrType → Bool → Option RContext
end_block r bb it prefer = do
  c ← get_elem? r.cap_bb bb
  some (record r { cap_bb = set r.cap_bb bb (record c { end_type = it; prefer_branch = prefer }) })

-- `cbb->nextFallThrough = ft` with `cbb->nextBranch = br`.
unfoldable pub set_next : RContext → ℕ → ℕ → ℕ → Option RContext
set_next r bb ft br = do
  c ← get_elem? r.cap_bb bb
  some (record r {
    cap_bb = set r.cap_bb bb (record c { next_fall_through = some ft; next_branch = some br });
  })

-- The entry that is pushed last is processed first.
unfoldable pub push_both : RContext → Bool → ℕ → ℕ → RContext
unfolding push_capture_bb
push_both r prefer ft br =
    if prefer
    then (push_capture_bb (push_capture_bb r ft).1 br).1
    else (push_capture_bb (push_capture_bb r br).1 ft).1

-- The two successors are created for the saved state; an error, also an earlier one, ends it. The
-- assertion at the end, that no block is current, holds since `popCaptureBB` has left none.
unfoldable pub queue_successors : RContext → ℕ → Bool → ℕ → ℕ → Option RContext
unfolding save_state get_capture_bb set_next push_both
queue_successors r bb prefer branch_target fallthrough_target = do
  (id, r1) ← save_state r
  let (ft, r2) = get_capture_bb r1 fallthrough_target id
  let (br, r3) = get_capture_bb r2 branch_target id
  elim (r3.e) [
    | some e ↦ some r3
    | none ↦ do f ← ft; b ← br; r4 ← set_next r3 bb f b; some (push_both r4 prefer f b)
  ]

unfoldable pub capture_jcc : RContext → InstrType → ℕ → ℕ → Option RContext
unfolding pop_capture_bb end_block queue_successors
capture_jcc r it branch_target fallthrough_target = do
  conf ← r.cc
  if conf.branches_known then some r else (do
    let prefer = ltb branch_target fallthrough_target
    (bb, r1) ← pop_capture_bb r
    r2 ← end_block r1 bb it prefer
    queue_successors r2 bb prefer branch_target fallthrough_target)
