-- ===== src/Engine/BinaryLaws.antt =====
-- The code of a rewritten function.
use dbrew.Prelude.{ℕ, ◌+◌, ◌-◌, ◌%◌, ◌≤◌, ◌<◌, ◌≡◌, sym, ap, ◌∙◌, ◌⊎◌, inl, inr, false, none}
use dbrew.Prelude.{some, List, arith, ◌>>=◌, length, get_elem?, get_elem?-bound}
use dbrew.Prelude.{get_elem?-there}
use mathlib.Core.Path.{subst}
use dbrew.Instr.Copy.{instr_is_jcc}
use dbrew.Capture.Types.{Cbb}
use dbrew.Engine.PlaceLaws.{SameCode}
use dbrew.Engine.Binary.{position, Binary, generate_binary_from_captured}
use dbrew.Engine.Whole.{Run, HasCode-same, first_in_order, run}
use dbrew.Engine.LinkLaws.{LinkedAt}
use dbrew.Engine.Emit.{GenState}
use dbrew.Engine.Blocks.{GenCbb}
use dbrew.Engine.View.{ViewOf, gen_cbb-ViewOf, known_position}
use dbrew.Engine.Emitted.{BytesAt, BytesAt-moved}
use dbrew.Engine.Reach.{IsKnown, Successors, SameBlock}
use dbrew.Engine.Laid.{HasCode, Laid-at}
use dbrew.Engine.Start.{CanGenerate}
use dbrew.Engine.LayoutLaws.{Chosen-at, moved_at}

-- The successors of a block, as blocks of the array in `c`, and as positions in `order` in `p`.
abbrev pub SuccessorsIn : List ℕ → Cbb → GenCbb → Type 0
SuccessorsIn order c p =
    (instr_is_jcc c.end_type ≡ false)
    ⊎ ((b : ℕ) × (f : ℕ) × (j : ℕ) × (k : ℕ) × (c.next_branch ≡ some b)
        × (c.next_fall_through ≡ some f)
        × (p.next_branch ≡ some j)
        × (p.next_fall_through ≡ some k)
        × (get_elem? order j ≡ some b)
        × (get_elem? order k ≡ some f))

-- The final code of the block at position `k` of `genOrder`, which is block `i` of those captured in
-- `g`.
pub record IsFinal (g : GenState) (r : Binary) (k i : ℕ) : Type 0 where
  pub captured : Cbb
  pub there : get_elem? g.context.cap_bb i ≡ some captured
  pub final : GenCbb
  pub placed : get_elem? r.placed k ≡ some final
  pub bs : List ℕ
  pub has_code : HasCode g.context.junk.dst g.context.cap_instr captured bs
  pub bytes : BytesAt r.state.memory final.addr2 bs
  pub size : final.size ≡ length bs
  pub end_type : final.end_type ≡ captured.end_type
  pub successors : SuccessorsIn r.state.gen_order captured final
  pub jumps : LinkedAt r.placed final r.state.memory

abbrev binary_of : (g : GenState) → Run g → Binary
binary_of g x = record {
  state = record x.state {
    cs = record x.state.cs { used = x.u + (x.linked.first.end - (g.cs.buf + x.u)) };
    memory = x.linked.second.after;
    generated_code_addr = g.cs.buf + x.u;
    generated_code_size = x.linked.first.end - (g.cs.buf + x.u);
  };
  placed = x.linked.first.placed;
}

successors_in :
    (g : GenState) (x : Run g) (c0 c : Cbb) (p : GenCbb)
    → SameBlock c0 c
    → ViewOf x.state.gen_order c p
    → Successors (IsKnown x.state.context.cap_bb x.state.context.cap_stack) c
    → SuccessorsIn x.state.gen_order c0 p
successors_in g x c0 c p s w (inl n) = inl (ap instr_is_jcc (sym s.2) ∙ n)
successors_in g x c0 c p s w (inr (b, f, j, eb, ef, kb, kf)) =
    let order = x.state.gen_order in
    let (jb, pb, tb) = known_position _ _ x.state x.reached x.empty b kb in
    let (jf, pf, tf) = known_position _ _ x.state x.reached x.empty f kf in
    inr (
      b,
      f,
      jb,
      jf,
      sym s.3 ∙ eb,
      sym s.4 ∙ ef,
      w.branch ∙ ap (λ o. o >>= position order) eb ∙ pb,
      w.fall_through ∙ ap (λ o. o >>= position order) ef ∙ pf,
      tb,
      tf,
    )

SuccessorsIn-SameCode :
    (order : List ℕ) (c : Cbb) (p q : GenCbb)
    → SameCode p q
    → SuccessorsIn order c p
    → SuccessorsIn order c q
SuccessorsIn-SameCode order c p q s (inl n) = inl n
SuccessorsIn-SameCode order c p q s (inr (b, f, j, k, eb, ef, pb, pf, tb, tf)) =
    inr (b, f, j, k, eb, ef, s.3 ∙ pb, s.4 ∙ pf, tb, tf)

is_final :
    (g : GenState) (x : Run g) (k i : ℕ)
    → get_elem? x.state.gen_order k ≡ some i
    → IsFinal g (binary_of g x) k i
is_final g x k i e =
    let b = g.cs.buf + x.u in
    let junk = g.context.junk.dst in
    let instrs = g.context.cap_instr in
    let (c, bs, a, ec, em) =
      Laid-at junk instrs x.state.memory x.state.context.cap_bb x.state.gen_order b
        (x.state.cs.buf + x.state.cs.used) k i x.reached.laid e in
    let (c0, e0) =
      get_elem?-there g.context.cap_bb i
        (omega (arith, get_elem?-bound x.state.context.cap_bb i c ec, x.reached.number)) in
    let (d, ed, same_d) = x.reached.same i c0 e0 in
    let zd : d ≡ c = ground (arith, ec, ed) in
    let same : SameBlock c0 c = subst (λ y. SameBlock c0 y) zd same_d in
    let (p0, ep0, v) = x.views.to k i e in
    let there = v.there in
    let zv : v.block ≡ c = ground (arith, ec, there) in
    let w : ViewOf x.state.gen_order c p0 =
      subst (λ y. ViewOf x.state.gen_order y p0) zv
        (gen_cbb-ViewOf x.state.gen_order v.block p0 v.view) in
    let (p, ep, ch) =
      Chosen-at x.views.cbbs x.views.cbbs x.linked.first.placed 0 k p0 x.linked.first.chosen ep0 in
    let sz0 : some (length bs) ≡ some p0.size = sym em.sized ∙ w.sized in
    let sz1 : length bs ≡ p0.size = ground (arith, sz0) in
    let sz : p.size ≡ length bs = omega (arith, ch.0.1, sz1) in
    let at = x.linked.second.at k p ep in
    record {
      captured = c0;
      there = e0;
      final = p;
      placed = ep;
      bs = bs;
      has_code = HasCode-same junk instrs c0 c bs same em.has_code;
      bytes =
          BytesAt-moved x.state.memory x.linked.second.after a p.addr2 bs
            (λ j l.
              let lp : j < p.size = omega (arith, sz, l) in
              at.1 j lp
              ∙ moved_at x.linked.first.placed x.state.memory x.linked.first.after k p j
                  x.linked.first.moved ep lp
              ∙ ap (λ n. x.state.memory (n + j)) (ch.0.0 ∙ w.start ∙ em.start))
            em.bytes;
      size = sz;
      end_type = ch.0.2 ∙ w.end_type ∙ same.2;
      successors =
          SuccessorsIn-SameCode x.state.gen_order c0 p0 p ch.0
            (successors_in g x c0 c p0 same w (x.reached.closed i (length bs) c ec em.sized));
      jumps = at.0;
    }

-- For captured blocks that are not generated, each with code and with its successors among them,
-- less than 20 of them and with room for their code, `generateBinaryFromCaptured` returns without an
-- error. The code starts at a multiple of 64 in the part of the storage that was free, with the first
-- block, and stays in the storage; memory before it is as before.
pub generate_binary_from_captured_lem :
    (g : GenState) (a : ℕ)
    → CanGenerate g
    → a < g.cs.buf + g.cs.used
    → (r : Binary) × (generate_binary_from_captured g ≡ some r)
      × (r.state.context.e ≡ none)
      × (r.state.generated_code_addr % 64 ≡ 0)
      × (g.cs.buf + g.cs.used ≤ r.state.generated_code_addr)
      × (r.state.generated_code_addr + r.state.generated_code_size ≤ g.cs.buf + g.cs.fullsize)
      × (get_elem? r.state.gen_order 0 ≡ some 0)
      × (r.state.memory a ≡ g.memory a)
generate_binary_from_captured_lem g a h l =
    let x = run g h in
    (
      binary_of g x,
      x.runs,
      x.reached.ok,
      x.aligned,
      omega (arith, x.above),
      omega (
        arith, x.linked.first.end_eq, x.linked.first.end_le, x.views.end_eq, x.reached.room,
        x.reached.buf, x.reached.fullsize,
      ),
      first_in_order _ _ x.state x.reached x.empty,
      x.linked.second.below a (omega (arith, x.above, l))
          ∙ x.linked.first.below a (omega (arith, x.above, l))
          ∙ x.reached.below a (omega (arith, x.above, l)),
    )

-- Let captured blocks be given that are not generated, each with code and with its successors among
-- them, less than 20 of them and with room for their code, and let `generateBinaryFromCaptured`
-- return for them. Then for every block of `genOrder`: from its final address on stands the code
-- of all its instructions, and behind it, if it ends with a conditional jump, the jumps that lead to
-- the final addresses of its two successors, which are blocks of `genOrder` too.
pub generate_binary_from_captured-IsFinal :
    (g : GenState) (r : Binary) (k i : ℕ)
    → CanGenerate g
    → generate_binary_from_captured g ≡ some r
    → get_elem? r.state.gen_order k ≡ some i
    → IsFinal g r k i
generate_binary_from_captured-IsFinal g r k i h e o =
    let x = run g h in
    let q = binary_of g x in
    let w : some q ≡ some r = sym x.runs ∙ e in
    let z : q ≡ r = ground (arith, w) in
    subst (λ y. get_elem? y.state.gen_order k ≡ some i → IsFinal g y k i) z (is_final g x k i) o
