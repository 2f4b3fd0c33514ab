-- ===== src/Engine/Visit.antt =====
-- One round of pass 1 when nothing is in its way.
use dbrew.Prelude.{ℕ, suc, ◌+◌, ◌≤◌, ◌<◌, ◌≡◌, refl, ◌⊎◌, inl, inr, true, false, none, some}
use dbrew.Prelude.{List, [], ◌∷◌, ◌++◌, arith, lt→ltb, lt→leb_false, length, get_elem?, set}
use dbrew.Prelude.{get_elem?-set_self, get_elem?-bound}
use dbrew.Instr.Copy.{instr_is_jcc}
use dbrew.Capture.InstrLaws.{instrs_in}
use dbrew.Capture.Blocks.{push_capture_bb}
use dbrew.Capture.Types.{Cbb, capturestack_len}
use dbrew.Generate.Block.{code, generate}
use dbrew.Engine.Emit.{write_bytes, GenState, put_bb, generate_block}
use dbrew.Engine.Emitted.{joined, reserve-room, grown_by, use-room, emit_from_lem}
use dbrew.Engine.Pass1.{genorder_max, push_successors, leave_hole, generate_next, visit}

-- The block behind `generate`, with `n` bytes at `a`.
abbrev pub sized : Cbb → ℕ → ℕ → Cbb
sized c n a = record c { size = some n; addr1 = a }

-- The state behind the round that generated `bs` for block `bb`.
abbrev pub visited : GenState → ℕ → Cbb → List ℕ → List ℕ → GenState
visited g bb c bs stack = record g {
  gen_order = g.gen_order ++ bb ∷ [];
  cs = grown_by g.cs (length bs + 26);
  memory = write_bytes g.memory (g.cs.buf + g.cs.used) bs;
  context = record g.context {
    cap_bb = set g.context.cap_bb bb (sized c (length bs) (g.cs.buf + g.cs.used));
    cap_stack = stack;
  };
}

-- What the successors of a block do to the capture stack.
abbrev pub Pushed : Cbb → List ℕ → List ℕ → Type 0
Pushed c old new =
    ((instr_is_jcc c.end_type ≡ false) × (new ≡ old))
    ⊎ ((b : ℕ) × (f : ℕ) × (instr_is_jcc c.end_type ≡ true)
        × (c.next_branch ≡ some b)
        × (c.next_fall_through ≡ some f)
        × (length old + 2 ≤ capturestack_len)
        × (new ≡ f ∷ b ∷ old))

generate_block_lem :
    (g : GenState) (bb : ℕ) (c : Cbb) (codes : List (List ℕ))
    → get_elem? g.context.cap_bb bb ≡ some c
    → generate g.context.junk.dst (instrs_in g.context.cap_instr c) ≡ some (code codes)
    → g.cs.used + length (joined codes) + 26 ≤ g.cs.fullsize
    → generate_block g bb
      ≡ some (
        none,
        put_bb
            (record g {
              cs = grown_by g.cs (length (joined codes));
              memory = write_bytes g.memory (g.cs.buf + g.cs.used) (joined codes);
            })
            bb
            (sized c (length (joined codes)) (g.cs.buf + g.cs.used)),
      )
unfolding generate_block generate
generate_block_lem g bb c codes e h l =
    let r = reserve-room g.cs 0 (omega (arith, l)) in
    let s =
      emit_from_lem g.context.junk.dst (instrs_in g.context.cap_instr c) 0 codes g.cs g.memory 0 h
        (omega (arith, l)) in
    let z : 0 + length (joined codes) ≡ length (joined codes) = omega arith in
    rw (generate_block, e, r, s, z) refl

push_successors_lem :
    (g : GenState) (c : Cbb) (stack : List ℕ)
    → Pushed c g.context.cap_stack stack
    → push_successors g c ≡ some (record g { context = record g.context { cap_stack = stack } })
unfolding push_successors push_capture_bb
push_successors_lem g c stack (inl (n, e)) = rw (n, e) refl
push_successors_lem g c stack (inr (b, f, j, eb, ef, l, e)) =
    let l1 = lt→leb_false capturestack_len (length g.context.cap_stack) (omega (arith, l)) in
    let l2 = lt→leb_false capturestack_len (suc (length g.context.cap_stack)) (omega (arith, l)) in
    rw (push_successors, j, eb, ef, e) (ground (arith, l1, l2))

pub visit_lem :
    (g : GenState) (bb : ℕ) (c : Cbb) (codes : List (List ℕ)) (stack : List ℕ)
    → g.context.e ≡ none
    → get_elem? g.context.cap_bb bb ≡ some c
    → c.size ≡ none
    → length g.gen_order < genorder_max
    → generate g.context.junk.dst (instrs_in g.context.cap_instr c) ≡ some (code codes)
    → g.cs.used + length (joined codes) + 26 ≤ g.cs.fullsize
    → Pushed c g.context.cap_stack stack
    → visit g bb ≡ some (visited g bb c (joined codes) stack)
unfolding visit generate_next leave_hole put_bb
visit_lem g bb c codes stack ok e s room h l p =
    let g0 = record g { gen_order = g.gen_order ++ bb ∷ [] } in
    let r = generate_block_lem g0 bb c codes e h l in
    let n = length (joined codes) in
    let new = sized c n (g.cs.buf + g.cs.used) in
    let there =
      get_elem?-set_self g.context.cap_bb bb new (get_elem?-bound g.context.cap_bb bb c e) in
    let g1 =
      put_bb
        (record g0 {
          cs = grown_by g.cs n;
          memory = write_bytes g.memory (g.cs.buf + g.cs.used) (joined codes);
        })
        bb new in
    let q = push_successors_lem g1 new stack p in
    let u = use-room (grown_by g.cs n) 26 (omega (arith, l)) in
    let lt = lt→ltb (length g.gen_order) genorder_max room in
    ground (arith, e, s, lt, r, there, q, ok, u)
