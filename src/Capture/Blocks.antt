-- ===== src/Capture/Blocks.antt =====
-- src/emulate.c: finding and allocating captured blocks and instructions.
use dbrew.Prelude.{ℕ, ◌+◌, Bool, false, ◌&&◌, Option, none, some, List, [], ◌∷◌, ◌++◌, leb}
use dbrew.Prelude.{◌==◌, if◌then◌else◌, ◌>>=◌, ◌>>◌, assert, length, get_elem?, set, drop}
use dbrew.Emulate.State.{option_eq}
use dbrew.Config.Ranges.{cc_get, config_find_function}
use dbrew.Instr.Copy.{copy_instr}
use dbrew.Instr.Mnemonics.{it_none}
use dbrew.Instr.Types.{Instr}
use dbrew.Capture.Types.{em_capture, em_rewriter, et_buffer_overflow, set_error, Cbb}
use dbrew.Capture.Types.{capturestack_len, RContext}

unfoldable pub reset_capturing : RContext → RContext
reset_capturing r = record r {
  cap_bb = [];
  cap_instr = [];
  current_cap_bb = none;
  cap_stack = [];
  saved_state = [];
}

-- The key of a block.
unfoldable pub has_key : ℕ → Option ℕ → Cbb → Bool
has_key f es_id bb = bb.dec_addr == f && option_eq bb.es_id es_id

-- The position of the first block with a key, counted from `i`.
unfoldable pub find_from : List Cbb → ℕ → Option ℕ → ℕ → Option ℕ
find_from [] f es_id i = none
find_from (bb ∷ bbs) f es_id i =
    if has_key f es_id bb then some i else find_from bbs f es_id (i + 1)

unfoldable pub find_capture_bb : RContext → ℕ → Option ℕ → Option ℕ
unfolding find_from
find_capture_bb r f es_id = find_from r.cap_bb f es_id 0

unfoldable pub new_bb : ℕ → Option ℕ → Option ℕ → Cbb
new_bb f es_id fc = record {
  dec_addr = f;
  es_id = es_id;
  fc = fc;
  count = 0;
  instr = none;
  next_branch = none;
  next_fall_through = none;
  end_type = it_none;
  prefer_branch = false;
  size = none;
  addr1 = 0;
  addr2 = 0;
  gen_jcc8 = false;
  gen_jump = false;
}

-- The block, or none for null, and the context. `config_find_function` creates a configuration if
-- there is none.
unfoldable pub get_capture_bb : RContext → ℕ → Option ℕ → Option ℕ × RContext
unfolding find_capture_bb new_bb config_find_function
get_capture_bb r f es_id = elim (find_capture_bb r f es_id) [
  | some i ↦ (some i, r)
  | none ↦
      if leb r.cap_bb_capacity (length r.cap_bb)
      then (none, record r { e = some (set_error et_buffer_overflow em_rewriter) })
      else (
        some (length r.cap_bb),
        record r {
          cap_bb = r.cap_bb ++ new_bb f es_id (config_find_function r.cc f) ∷ [];
          cc = some (cc_get r.cc);
        },
      )
]

-- The new top of the capture stack, or none for -1.
unfoldable pub push_capture_bb : RContext → ℕ → Option ℕ × RContext
push_capture_bb r bb =
    if leb capturestack_len (length r.cap_stack)
    then (none, record r { e = some (set_error et_buffer_overflow em_rewriter) })
    else (some (length r.cap_stack), record r { cap_stack = bb ∷ r.cap_stack })

-- An empty stack has no entry to compare with.
unfoldable pub pop_capture_bb : RContext → Option (ℕ × RContext)
pop_capture_bb r = do
  bb ← r.current_cap_bb
  top ← get_elem? r.cap_stack 0
  assert (top == bb)
  some (bb, record r { cap_stack = drop 1 r.cap_stack; current_cap_bb = none })

-- The new instruction, or none for null, and the context.
unfoldable pub new_cap_instr : RContext → Option ℕ × RContext
new_cap_instr r =
    if leb r.cap_instr_capacity (length r.cap_instr)
    then (none, record r { e = some (set_error et_buffer_overflow em_capture) })
    else (some (length r.cap_instr), record r { cap_instr = r.cap_instr ++ r.junk ∷ [] })

-- `capture` behind the allocation: the instruction at position `n` of the array becomes one more of
-- the current block.
unfoldable pub add_captured : RContext → ℕ → ℕ → Instr → Option RContext
add_captured r cur n instr = do
  cbb ← get_elem? r.cap_bb cur
  first ← elim (cbb.instr) [ some s ↦ some s | none ↦ do assert (cbb.count == 0); some n ]
  old ← get_elem? r.cap_instr n
  new ← copy_instr old instr
  some (record r {
    cap_instr = set r.cap_instr n new;
    cap_bb = set r.cap_bb cur (record cbb { instr = some first; count = cbb.count + 1 });
  })

-- An error that was set before stops `capture` too, behind the allocation.
unfoldable pub capture : RContext → Instr → Option RContext
unfolding new_cap_instr add_captured
capture r instr = elim (r.current_cap_bb) [
  | none ↦ some r
  | some cur ↦
      let (p, r1) = new_cap_instr r in
      elim (r1.e) [ some e ↦ some r1 | none ↦ do n ← p; add_captured r1 cur n instr ]
]

unfoldable pub capture_all : RContext → List Instr → Option RContext
unfolding capture
capture_all r [] = some r
capture_all r (instr ∷ instrs) = do r1 ← capture r instr; capture_all r1 instrs

-- `createCBBfromDBB` on the instructions of a decoded block; its context is its own and is gone
-- afterwards. If there is no free block, the null pointer is the current block, so nothing is
-- captured.
unfoldable pub create_cbb_from_dbb : RContext → ℕ → List Instr → Option (Option ℕ × RContext)
unfolding get_capture_bb capture_all
create_cbb_from_dbb r addr instrs = do
  let (cbb, r1) = get_capture_bb (record r { e = none }) addr none
  r2 ← capture_all (record r1 { current_cap_bb = cbb }) instrs
  some (cbb, record r2 { current_cap_bb = none; e = r.e })
