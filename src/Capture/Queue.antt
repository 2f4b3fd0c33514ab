-- ===== src/Capture/Queue.antt =====
-- Ending a block at a conditional jump queues its two successors.
use dbrew.Prelude.{ℕ, suc, ◌+◌, ◌-◌, ◌≤◌, ◌<◌, ◌≡◌, refl, ap, ◌∙◌, inl, inr, Bool, true, false}
use dbrew.Prelude.{Option, none, some, List, [], ◌∷◌, ◌++◌, arith, ltb, if◌then◌else◌, ==_iff}
use dbrew.Prelude.{lt→leb_false, Option-cases, length, get_elem?, set, length-append}
use dbrew.Prelude.{length-set, get_elem?-set_self, get_elem?-set_ne, get_elem?-bound}
use native.Mathlib.Decide.{ℕ_discrete}
use dbrew.Emulate.Saved.{saved, save_emu_state}
use dbrew.Emulate.State.{EmuState}
use dbrew.Config.Ranges.{CaptureConfig, cc_get, config_find_function}
use dbrew.Instr.Mnemonics.{InstrType}
use dbrew.Capture.Branch.{save_state, end_block, set_next, push_both, queue_successors}
use dbrew.Capture.Branch.{capture_jcc}
use dbrew.Capture.BlockLaws.{get_new, get_old}
use dbrew.Capture.Blocks.{find_capture_bb, new_bb, get_capture_bb, push_capture_bb}
use dbrew.Capture.Blocks.{pop_capture_bb}
use dbrew.Capture.Types.{Cbb, capturestack_len, RContext}
use dbrew.Capture.Segments.{get_elem?-append_self}
use dbrew.Capture.Keys.{has_key_lem, find_from_found, get_elem-append_left}

-- The block that `get_capture_bb` returns, and what else it changes.
record Got (r : RContext) (f : ℕ) (id : Option ℕ) : Type 0 where
  i : ℕ
  bbs : List Cbb
  conf : Option CaptureConfig
  eq : get_capture_bb r f id ≡ (some i, record r { cap_bb = bbs; cc = conf })
  size : length bbs ≤ length r.cap_bb + 1
  block : Cbb
  there : get_elem? bbs i ≡ some block
  addr : block.dec_addr ≡ f
  state : block.es_id ≡ id
  kept : (k : ℕ) (a : Cbb) → get_elem? r.cap_bb k ≡ some a → get_elem? bbs k ≡ some a

got : (r : RContext) (f : ℕ) (id : Option ℕ) → length r.cap_bb < r.cap_bb_capacity → Got r f id
unfolding find_capture_bb new_bb
got r f id l = elim (Option-cases (find_capture_bb r f id)) [
  | inr (i, e) ↦
      let (_, (b, e', h)) = find_from_found r.cap_bb f id 0 i e in
      let k = has_key_lem f id b h in
      let z : i - 0 ≡ i = omega arith in
      record {
        i = i;
        bbs = r.cap_bb;
        conf = r.cc;
        eq = get_old r f id i e;
        size = omega arith;
        block = b;
        there = rw z at e';
        addr = k.0;
        state = k.1;
        kept = λ k a h. h;
      }
  | inl n ↦
      let bb = new_bb f id (config_find_function r.cc f) in
      record {
        i = length r.cap_bb;
        bbs = r.cap_bb ++ bb ∷ [];
        conf = some (cc_get r.cc);
        eq = get_new r f id n l;
        size = omega (arith, length-append r.cap_bb (bb ∷ []));
        block = bb;
        there = get_elem?-append_self r.cap_bb bb;
        addr = refl;
        state = refl;
        kept = λ k a h. get_elem-append_left r.cap_bb bb k a h;
      }
]

-- There is a block with a key.
pub record HasBlock (bbs : List Cbb) (i f : ℕ) (id : Option ℕ) : Type 0 where
  pub block : Cbb
  pub there : get_elem? bbs i ≡ some block
  pub addr : block.dec_addr ≡ f
  pub state : block.es_id ≡ id

-- Changing an entry to one with the same key leaves all keys.
HasBlock-set :
    (bbs : List Cbb) (i f : ℕ) (id : Option ℕ) (k : ℕ) (old new : Cbb)
    → get_elem? bbs k ≡ some old
    → new.dec_addr ≡ old.dec_addr
    → new.es_id ≡ old.es_id
    → HasBlock bbs i f id
    → HasBlock (set bbs k new) i f id
HasBlock-set bbs i f id k old new e d s h = elim (ℕ_discrete k i) [
  | no ne ↦ record {
    block = h.block;
    there = get_elem?-set_ne bbs k i new ne ∙ h.there;
    addr = h.addr;
    state = h.state;
  }
  | yes z ↦
      let t = h.there in
      let x : old ≡ h.block = ground (arith, z, e, t) in
      record {
        block = new;
        there = rw⁻¹ z (get_elem?-set_self bbs k new (get_elem?-bound bbs k old e));
        addr = d ∙ ap (λ b. b.dec_addr) x ∙ h.addr;
        state = s ∙ ap (λ b. b.es_id) x ∙ h.state;
      }
]

-- A block with two successors for one emulator state, which are on top of the stack.
pub record IsQueued (r' : RContext) (bb : ℕ) (it : InstrType) (br ft : ℕ) (id : Option ℕ)
    (rest : List ℕ) : Type 0 where
  pub ok : r'.e ≡ none
  pub closed : r'.current_cap_bb ≡ none
  pub block : Cbb
  pub there : get_elem? r'.cap_bb bb ≡ some block
  pub ended : block.end_type ≡ it
  pub b : ℕ
  pub f : ℕ
  pub branch : block.next_branch ≡ some b
  pub fall_through : block.next_fall_through ≡ some f
  pub branch_key : HasBlock r'.cap_bb b br id
  pub fall_through_key : HasBlock r'.cap_bb f ft id
  pub stack : r'.cap_stack ≡ (if ltb br ft then b ∷ f ∷ rest else f ∷ b ∷ rest)

push_both-room :
    (r : RContext) (prefer : Bool) (f b : ℕ)
    → length r.cap_stack + 2 ≤ capturestack_len
    → push_both r prefer f b
      ≡ record r { cap_stack = if prefer then b ∷ f ∷ r.cap_stack else f ∷ b ∷ r.cap_stack }
unfolding push_both push_capture_bb
push_both-room r true f b l =
    rw
      (
        lt→leb_false capturestack_len (length r.cap_stack) (omega arith),
        lt→leb_false capturestack_len (suc (length r.cap_stack)) (omega arith),
      )
      refl
push_both-room r false f b l =
    rw
      (
        lt→leb_false capturestack_len (length r.cap_stack) (omega arith),
        lt→leb_false capturestack_len (suc (length r.cap_stack)) (omega arith),
      )
      refl

queue_successors_lem :
    (r : RContext) (bb : ℕ) (c : Cbb) (br ft id : ℕ) (states : List EmuState)
    → r.e ≡ none
    → r.current_cap_bb ≡ none
    → get_elem? r.cap_bb bb ≡ some c
    → save_emu_state r.junk_es r.junk_cell r.es_self r.world.es r.saved_state
      ≡ some (saved id states)
    → length r.cap_bb + 2 ≤ r.cap_bb_capacity
    → length r.cap_stack + 2 ≤ capturestack_len
    → (r' : RContext) × (queue_successors r bb (ltb br ft) br ft ≡ some r')
      × IsQueued r' bb c.end_type br ft (some id) r.cap_stack
unfolding queue_successors save_state set_next
queue_successors_lem r bb c br ft id states ok cur there sv room stk =
    let r1 = record r { saved_state = states } in
    let g1 = got r1 ft (some id) (omega arith) in
    let r2 = record r1 { cap_bb = g1.bbs; cc = g1.conf } in
    let g2 = got r2 br (some id) (omega (arith, g1.size)) in
    let t2 = g2.kept bb c (g1.kept bb c there) in
    let new = record c { next_fall_through = some g1.i; next_branch = some g2.i } in
    let r3 = record r2 { cap_bb = g2.bbs; cc = g2.conf } in
    let r4 = record r3 { cap_bb = set g2.bbs bb new } in
    let p = push_both-room r4 (ltb br ft) g1.i g2.i stk in
    let g1eq = g1.eq in
    let g2eq = g2.eq in
    let hf : HasBlock g2.bbs g1.i ft (some id) = record {
      block = g1.block;
      there = g2.kept g1.i g1.block g1.there;
      addr = g1.addr;
      state = g1.state;
    } in
    let hb : HasBlock g2.bbs g2.i br (some id) = record {
      block = g2.block;
      there = g2.there;
      addr = g2.addr;
      state = g2.state;
    } in
    (
      push_both r4 (ltb br ft) g1.i g2.i,
      ground (arith, sv, g1eq, g2eq, ok, t2),
      rw p (record {
        ok = ok;
        closed = cur;
        block = new;
        there = get_elem?-set_self g2.bbs bb new (get_elem?-bound g2.bbs bb c t2);
        ended = refl;
        b = g2.i;
        f = g1.i;
        branch = refl;
        fall_through = refl;
        branch_key = HasBlock-set g2.bbs g2.i br (some id) bb c new t2 refl refl hb;
        fall_through_key = HasBlock-set g2.bbs g1.i ft (some id) bb c new t2 refl refl hf;
        stack = refl;
      }),
    )

-- At a conditional jump, let branches not be configured as known, the current block be the one on
-- top of the capture stack, an ID be found for the emulator state, and let there be room for two
-- blocks and for two entries of the stack. Then `captureJcc` ends the block with the jump and
-- closes it; its successors are blocks for the two targets with the ID, and both are on the stack in
-- place of the block, the jump's target on top exactly if it lies before the other.
pub capture_jcc_lem :
    (r : RContext) (it : InstrType) (br ft : ℕ) (conf : CaptureConfig) (bb : ℕ) (c : Cbb)
    → (rest : List ℕ) (id : ℕ) (states : List EmuState) → r.e ≡ none
    → r.cc ≡ some conf
    → conf.branches_known ≡ false
    → r.current_cap_bb ≡ some bb
    → r.cap_stack ≡ bb ∷ rest
    → get_elem? r.cap_bb bb ≡ some c
    → save_emu_state r.junk_es r.junk_cell r.es_self r.world.es r.saved_state
      ≡ some (saved id states)
    → length r.cap_bb + 2 ≤ r.cap_bb_capacity
    → length rest + 2 ≤ capturestack_len
    → (r' : RContext) × (capture_jcc r it br ft ≡ some r') × IsQueued r' bb it br ft (some id) rest
unfolding capture_jcc pop_capture_bb end_block
capture_jcc_lem r it br ft conf bb c rest id states ok cc known cur stk there sv room space =
    let new = record c { end_type = it; prefer_branch = ltb br ft } in
    let r1 = record r { cap_stack = rest; current_cap_bb = none; cap_bb = set r.cap_bb bb new } in
    let len = length-set r.cap_bb bb new in
    let x =
      queue_successors_lem r1 bb new br ft id states ok refl
        (get_elem?-set_self r.cap_bb bb new (get_elem?-bound r.cap_bb bb c there)) sv
        (omega (arith, len)) space in
    let self = (==_iff bb bb).1 refl in
    (x.0, ground (arith, cc, known, cur, stk, there, self, x.1), x.2)
