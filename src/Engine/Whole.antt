-- ===== src/Engine/Whole.antt =====
-- All three passes on captured blocks that can be generated.
use dbrew.Prelude.{ℕ, ◌+◌, ◌-◌, ◌%◌, ◌≤◌, ◌<◌, ◌≡◌, refl, sym, ap, ◌∙◌, inl, inr, true, Option}
use dbrew.Prelude.{none, some, List, [], ◌∷◌, arith, ◌==◌, lt→ltb, length, get_elem?}
use dbrew.Prelude.{get_elem?-there}
use mathlib.Core.Path.{ap₂, subst}
use dbrew.Memory.{Memory}
use dbrew.Instr.Types.{Operand, Instr}
use dbrew.Capture.InstrLaws.{instrs_in}
use dbrew.Capture.Blocks.{push_capture_bb}
use dbrew.Capture.Types.{Cbb, RContext}
use dbrew.Capture.Segments.{segment}
use dbrew.Generate.Block.{code, generate}
use dbrew.Engine.Binary.{gen_cbbs, align_storage, generated_code, link_generated}
use dbrew.Engine.Binary.{generate_binary_from_captured}
use dbrew.Engine.Emit.{GenState}
use dbrew.Engine.Blocks.{GenCbb}
use dbrew.Engine.Push.{block_room_lem}
use dbrew.Engine.Link.{place_and_link}
use dbrew.Engine.Spacing.{Placed}
use dbrew.Engine.Pass1Laws.{all_reached}
use dbrew.Engine.View.{Viewed, Views, gen_cbb-ViewOf, view_result, is_generated}
use dbrew.Engine.Emitted.{reserve-room}
use dbrew.Engine.Pass1.{finished, pass1, pass1_fuel}
use dbrew.Engine.Reach.{SameBlock, IsReached}
use dbrew.Engine.Laid.{HasCode, Laid-at}
use dbrew.Engine.Start.{CanGenerate, align_storage_lem, started, started-IsReached}
use dbrew.Engine.LayoutLaws.{Chosen-at, LayoutResult, layout_result}
use dbrew.Engine.Storage.{CodeStorage}

-- The whole run.
pub record Run (g : GenState) : Type 0 where
  pub u : ℕ
  pub aligned : (g.cs.buf + u) % 64 ≡ 0
  pub above : g.cs.used ≤ u
  pub state : GenState
  pub reached : IsReached (started g u) (g.cs.buf + u) state
  pub empty : state.context.cap_stack ≡ []
  pub views :
      Views state.gen_order state.context.cap_bb state.gen_order
        (g.cs.buf + u)
        (state.cs.buf + state.cs.used)
  pub linked : LayoutResult views.cbbs (g.cs.buf + u) state.memory
  pub p : GenCbb
  pub first : get_elem? linked.first.placed 0 ≡ some p
  pub first_at : p.addr2 ≡ g.cs.buf + u
  pub runs :
      generate_binary_from_captured g
      ≡ some (record {
        state = record state {
          cs = record state.cs { used = u + (linked.first.end - (g.cs.buf + u)) };
          memory = linked.second.after;
          generated_code_addr = g.cs.buf + u;
          generated_code_size = linked.first.end - (g.cs.buf + u);
        };
        placed = linked.first.placed;
      })

pub HasCode-same :
    (junk : Operand) (instrs : List Instr) (c d : Cbb) (bs : List ℕ)
    → SameBlock c d
    → HasCode junk instrs d bs
    → HasCode junk instrs c bs
unfolding instrs_in
HasCode-same junk instrs c d bs s (codes, h, e) =
    let z : instrs_in instrs d ≡ instrs_in instrs c =
      ap₂
        (λ (o : Option ℕ) (n : ℕ). elim o as (λ _. List Instr) [
          | none ↦ []
          | some k ↦ segment k n instrs
        ])
        s.0 s.1 in
    (codes, subst (λ l. generate junk l ≡ some (code codes)) z h, e)

Placed-first :
    (ps : List GenCbb) (b1 b2 : ℕ) (p : GenCbb)
    → Placed ps b1 b2
    → get_elem? ps 0 ≡ some p
    → p.addr2 ≡ b2
Placed-first [] b1 b2 p h e = absurd (ground arith)
Placed-first (q ∷ ps) b1 b2 p h e =
    let z : q ≡ p = ground arith in subst (λ (x : GenCbb). x.addr2 ≡ b2) z h.1

generated_code-first :
    (ps : List GenCbb) (cs : CodeStorage) (p : GenCbb)
    → get_elem? ps 0 ≡ some p
    → generated_code ps cs ≡ (p.addr2, cs.used - (p.addr2 - cs.buf))
unfolding generated_code
generated_code-first [] cs p e = absurd (ground arith)
generated_code-first (q ∷ ps) cs p e = let z : q ≡ p = ground arith in rw z refl

pub first_in_order :
    (g : GenState) (b : ℕ) (s : GenState)
    → IsReached g b s
    → s.context.cap_stack ≡ []
    → get_elem? s.gen_order 0 ≡ some 0
first_in_order g b s h e = elim (h.start) [ inl x ↦ x | inr (x, y) ↦ absurd (ground (arith, y, e)) ]

-- Block 0 has code.
first_size :
    (g : GenState) (u : ℕ) (s : GenState) (p : GenCbb)
    → CanGenerate g
    → IsReached (started g u) (g.cs.buf + u) s
    → get_elem? s.gen_order 0 ≡ some 0
    → Viewed s.gen_order s.context.cap_bb 0 p
    → 0 < p.size
first_size g u s p h r o v =
    let (c, bs, a, ec, x) =
      Laid-at g.context.junk.dst g.context.cap_instr s.memory s.context.cap_bb s.gen_order
        (g.cs.buf + u) (s.cs.buf + s.cs.used) 0 0 r.laid o in
    let (c0, e0) = get_elem?-there g.context.cap_bb 0 h.some_block in
    let (d, ed, same) = r.same 0 c0 e0 in
    let zd : c ≡ d = ground (arith, ec, ed) in
    let there = v.there in
    let zv : c ≡ v.block = ground (arith, ec, there) in
    let w = gen_cbb-ViewOf s.gen_order v.block p v.view in
    let coded =
      HasCode-same g.context.junk.dst g.context.cap_instr c0 d bs same
        (subst (λ y. HasCode g.context.junk.dst g.context.cap_instr y bs) zd x.has_code) in
    let size = block_room_lem g.context.junk.dst g.context.cap_instr c0 bs coded in
    let pos = h.some_code c0 e0 in
    let sz : some (length bs) ≡ some p.size = sym x.sized ∙ ap (λ (y : Cbb). y.size) zv ∙ w.sized in
    let z : length bs ≡ p.size = ground (arith, sz) in omega (arith, pos, size, z)

link_generated_lem :
    (s : GenState) (buf u b : ℕ) (cbbs : List GenCbb) (placed : List GenCbb) (end : ℕ) (m : Memory)
    → (p : GenCbb) → gen_cbbs s.gen_order s.context.cap_bb s.gen_order ≡ some cbbs
    → place_and_link cbbs b s.memory ≡ some (placed, end, m)
    → get_elem? placed 0 ≡ some p
    → p.addr2 ≡ b
    → b ≡ s.cs.buf + u
    → b < end
    → link_generated s b u
      ≡ some (record {
        state = record s {
          cs = record s.cs { used = u + (end - b) };
          memory = m;
          generated_code_addr = b;
          generated_code_size = end - b;
        };
        placed = placed;
      })
unfolding link_generated
link_generated_lem s buf u b cbbs placed end m p ev er ep ea eb l =
    let cs = record s.cs { used = u + (end - b) } in
    let g = generated_code-first placed cs p ep in
    let t = lt→ltb 0 (u + (end - b)) (omega (arith, l)) in
    let z : u + (end - b) - (b - s.cs.buf) ≡ end - b = omega (arith, eb, l) in
    ground (arith, ev, er, t, g, ea, z)

-- The steps before passes 2 and 3.
push_first :
    (r : RContext)
    → r.cap_stack ≡ []
    → push_capture_bb r 0 ≡ (some 0, record r { cap_stack = 0 ∷ [] })
unfolding push_capture_bb
push_first r e = rw (push_capture_bb, e) refl

generate-runs :
    (g : GenState) (u : ℕ) (s : GenState)
    → CanGenerate g
    → align_storage g.cs ≡ some (record g.cs { used = u })
    → u ≤ g.cs.fullsize
    → pass1 (pass1_fuel (started g u)) (started g u) ≡ finished (some s)
    → s.context.e ≡ none
    → generate_binary_from_captured g ≡ link_generated s (g.cs.buf + u) u
unfolding generate_binary_from_captured
generate-runs g u s h ea l r e =
    let b = reserve-room (record g.cs { used = u }) 0 (omega (arith, l)) in
    let stack = h.stack in
    let ok = h.ok in
    let some_block = lt→ltb 0 (length g.context.cap_bb) h.some_block in
    let p = push_first g.context stack in
    let z : (length g.context.cap_stack == 0) ≡ true = rw stack refl in
    ground (arith, ea, b, z, some_block, p, ok, r, e)

pub run : (g : GenState) → CanGenerate g → Run g
unfolding generate_binary_from_captured push_capture_bb pass1_fuel
run g h =
    let (u, ea, al, ab, up) = align_storage_lem g.cs (omega (arith, h.room)) in
    let g1 = started g u in
    let b = g.cs.buf + u in
    let a = all_reached g1 b (pass1_fuel g1) g1 (omega arith) (started-IsReached g u h up) in
    let v = view_result g1 b a.after a.reached a.empty in
    let gen =
      is_generated g1 b a.after a.reached a.empty
        (omega (arith, a.reached.room, a.reached.buf, a.reached.fullsize, h.fits))
        (omega (arith, h.room, h.in_range, h.fits, up)) in
    let l = layout_result v.cbbs b a.after.memory gen in
    let o = first_in_order g1 b a.after a.reached a.empty in
    let (p0, e0, v0) = v.to 0 0 o in
    let (p, ep, ch) = Chosen-at v.cbbs v.cbbs l.first.placed 0 0 p0 l.first.chosen e0 in
    let fa = Placed-first l.first.placed b b p l.first.laid ep in
    let n : 0 < p.size = omega (arith, first_size g u a.after p0 h a.reached o v0, ch.0.1) in
    let lk =
      link_generated_lem a.after g.cs.buf u b v.cbbs l.first.placed l.first.end l.second.after p
        v.runs l.runs ep fa (ap (λ x. x + u) (sym a.reached.buf))
        (omega (arith, l.first.first_le p ep, n)) in
    record {
      u = u;
      aligned = al;
      above = ab;
      state = a.after;
      reached = a.reached;
      empty = a.empty;
      views = v;
      linked = l;
      p = p;
      first = ep;
      first_at = fa;
      runs = generate-runs g u a.after h ea (omega (arith, h.room, up)) a.runs a.reached.ok ∙ lk;
    }
