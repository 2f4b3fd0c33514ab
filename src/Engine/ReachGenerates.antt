-- ===== src/Engine/ReachGenerates.antt =====
-- A round of pass 1 that generates a block keeps the invariant.
use dbrew.Prelude.{ℕ, zero, suc, ◌+◌, ◌≤◌, ◌≡◌, refl, sym, ap, ◌∙◌, inl, inr, none, some, List}
use dbrew.Prelude.{[], ◌∷◌, ◌++◌, arith, length, get_elem?, set, length-append}
use dbrew.Prelude.{length-set, get_elem?-set_self, get_elem?-set_ne, get_elem?-append_left}
use dbrew.Prelude.{get_elem?-bound, set-cases}
use mathlib.Core.Path.{subst}
use native.Mathlib.Decide.{ℕ_discrete}
use dbrew.Capture.InstrLaws.{instrs_in}
use dbrew.Capture.Types.{Cbb}
use dbrew.Capture.Segments.{get_elem?-append_self}
use dbrew.Engine.Pass1Ends.{pending-set, popped}
use dbrew.Engine.Emit.{write_bytes, GenState}
use dbrew.Engine.Visit.{sized, visited, visit_lem}
use dbrew.Engine.Push.{HasPushed, block_room_lem}
use dbrew.Engine.Emitted.{write_bytes-below, write_bytes-BytesAt}
use dbrew.Engine.Pass1.{visit}
use dbrew.Engine.Reach.{IsKnown, Successors-map, IsReady, block_room, SameBlock, IsReached}
use dbrew.Engine.Laid.{IsEmitted, Laid, Laid-le, Laid-ext, Laid-append}

module _ (g0 : GenState) (b : ℕ) (g : GenState) (top : ℕ) (rest : List ℕ)
    (e : g.context.cap_stack ≡ top ∷ rest) (h : IsReached g0 b g) (c : Cbb)
    (there : get_elem? g.context.cap_bb top ≡ some c) (no_size : c.size ≡ none) where
  abbrev pub ready_block :
      IsReady g0.context.junk.dst g0.context.cap_instr (length g.context.cap_bb) c
  ready_block = h.ready top c there no_size

  abbrev pub ready_bytes : List ℕ
  ready_bytes = ready_block.bytes

  abbrev bbs : List Cbb
  bbs = g.context.cap_bb

  abbrev new : Cbb
  new = sized c (length ready_bytes) (g.cs.buf + g.cs.used)

  set_self : get_elem? (set bbs top new) top ≡ some new
  set_self = get_elem?-set_self bbs top new (get_elem?-bound bbs top c there)

  kept :
      (i n : ℕ) (d : Cbb)
      → get_elem? bbs i ≡ some d
      → d.size ≡ some n
      → get_elem? (set bbs top new) i ≡ some d
  kept i n d ed sd = elim (ℕ_discrete top i) [
    | no ne ↦ get_elem?-set_ne bbs top i new ne ∙ ed
    | yes z ↦
        let x : c ≡ d = ground (arith, z, there, ed) in
        absurd (ground (arith, ap (λ (y : Cbb). y.size) x, no_size, sd))
  ]

  room_now : g.cs.used + length ready_bytes + 26 ≤ g.cs.fullsize
  room_now = omega (
    arith,
    pending-set (block_room g0.context.junk.dst g0.context.cap_instr) bbs top c new
        (length ready_bytes) there no_size refl,
    block_room_lem g0.context.junk.dst g0.context.cap_instr c ready_bytes ready_block.has_code,
    h.room,
  )

  pub visit_goes :
      (stack : List ℕ)
      → HasPushed c rest stack
      → visit (popped g rest) top ≡ some (visited (popped g rest) top c ready_bytes stack)
  visit_goes stack p =
      let (codes, ec, eb) = ready_block.has_code in
      let junk = h.junk in
      let instrs = h.instrs in
      let l = pending-set (λ d. 1) bbs top c new (length ready_bytes) there no_size refl in
      let v =
        visit_lem (popped g rest) top c codes stack h.ok there no_size (omega (arith, l, h.count))
          (rw (junk, instrs) ec) (omega (arith, room_now, ap length eb)) p.pushed in
      subst (λ l. visit (popped g rest) top ≡ some (visited (popped g rest) top c l stack)) (sym eb)
        v

  module _ (stack : List ℕ) (p : HasPushed c rest stack) where
    IsKnown-later : (i : ℕ) → IsKnown bbs g.context.cap_stack i → IsKnown (set bbs top new) stack i
    IsKnown-later i (inr (d, n, ed, sd)) = inr (d, n, kept i n d ed sd, sd)
    IsKnown-later i (inl (zero, x)) =
        let y : some top ≡ some i = rw e at x in
        let z : top ≡ i = ground arith in
        inr (
          new,
          length ready_bytes,
          subst (λ j. get_elem? (set bbs top new) j ≡ some new) z set_self,
          refl,
        )
    IsKnown-later i (inl (suc k, x)) = inl (p.within k i (rw e at x))

    same_new : (d d' : Cbb) → c ≡ d' → SameBlock d d' → SameBlock d new
    same_new d d' x s =
        subst (λ y. SameBlock d (sized y (length ready_bytes) (g.cs.buf + g.cs.used))) (sym x) s

    is_emitted :
        IsEmitted g0.context.junk.dst g0.context.cap_instr
          (write_bytes g.memory (g.cs.buf + g.cs.used) ready_bytes)
          (g.cs.buf + g.cs.used)
          new
          ready_bytes
    unfolding instrs_in
    is_emitted = record {
      has_code = ready_block.has_code;
      sized = refl;
      start = refl;
      no_jcc8 = ready_block.no_jcc8;
      no_jump = ready_block.no_jump;
      bytes = write_bytes-BytesAt g.memory (g.cs.buf + g.cs.used) ready_bytes;
    }

    pub IsReached-generates : IsReached g0 b (visited (popped g rest) top c ready_bytes stack)
    IsReached-generates = record {
      ok = h.ok;
      junk = h.junk;
      instrs = h.instrs;
      buf = h.buf;
      fullsize = h.fullsize;
      laid =
          subst
            (λ n.
              Laid g0.context.junk.dst g0.context.cap_instr
                (write_bytes g.memory (g.cs.buf + g.cs.used) ready_bytes) (set bbs top new)
                (g.gen_order ++ top ∷ []) b n)
            (omega arith)
            (Laid-append g0.context.junk.dst g0.context.cap_instr
              (write_bytes g.memory (g.cs.buf + g.cs.used) ready_bytes) (set bbs top new)
              g.gen_order b (g.cs.buf + g.cs.used) top new ready_bytes
              (Laid-ext g0.context.junk.dst g0.context.cap_instr g.memory
                (write_bytes g.memory (g.cs.buf + g.cs.used) ready_bytes) bbs (set bbs top new)
                g.gen_order b (g.cs.buf + g.cs.used)
                (write_bytes-below g.memory (g.cs.buf + g.cs.used) ready_bytes) kept h.laid)
              set_self is_emitted);
      ordered = λ i n d ed sd. elim (set-cases bbs top i new d ed) [
        | inl (z, x) ↦ (length g.gen_order, rw (← z) (get_elem?-append_self g.gen_order top))
        | inr (ne, x) ↦
            let (k, ek) = h.ordered i n d x sd in
            (
              k,
              get_elem?-append_left g.gen_order (top ∷ []) k (get_elem?-bound g.gen_order k i ek)
                  ∙ ek,
            )
      ];
      closed = λ i n d ed sd. elim (set-cases bbs top i new d ed) [
        | inl (z, x) ↦ rw (← x) (
            Successors-map (λ j. (k : ℕ) × (get_elem? stack k ≡ some j))
              (IsKnown (set bbs top new) stack) new (λ j y. inl y) p.targets)
        | inr (ne, x) ↦
            Successors-map (IsKnown bbs g.context.cap_stack) (IsKnown (set bbs top new) stack) d
              IsKnown-later (h.closed i n d x sd)
      ];
      ready = λ i d ed sd. elim (set-cases bbs top i new d ed) [
        | inl (z, x) ↦ absurd (ground (arith, ap (λ (y : Cbb). y.size) x, sd))
        | inr (ne, x) ↦
            subst (λ n. IsReady g0.context.junk.dst g0.context.cap_instr n d)
              (sym (length-set bbs top new)) (h.ready i d x sd)
      ];
      room = omega (
        arith,
        pending-set (block_room g0.context.junk.dst g0.context.cap_instr) bbs top c new
            (length ready_bytes) there no_size refl,
        block_room_lem g0.context.junk.dst g0.context.cap_instr c ready_bytes ready_block.has_code,
        h.room,
      );
      count = omega (
        arith,
        length-append g.gen_order (top ∷ []),
        pending-set (λ d. 1) bbs top c new (length ready_bytes) there no_size refl,
        h.count,
      );
      depth = omega (
        arith,
        p.grows,
        pending-set (λ d. 1) bbs top c new (length ready_bytes) there no_size refl,
        ap length e,
        h.depth,
      );
      stacked = λ k i x. omega (
        arith,
        p.bounded (length bbs) (λ j t y. h.stacked (suc j) t (rw e y)) ready_block.successors k i x,
        length-set bbs top new,
      );
      same = λ i d ed.
          let (d', ed', s) = h.same i d ed in
          elim (ℕ_discrete top i) [
            | no ne ↦ (d', get_elem?-set_ne bbs top i new ne ∙ ed', s)
            | yes z ↦
                let x : c ≡ d' = ground (arith, z, there, ed') in
                (
                  new,
                  subst (λ j. get_elem? (set bbs top new) j ≡ some new) z set_self,
                  same_new d d' x s,
                )
          ];
      number = length-set bbs top new ∙ h.number;
      start = inl (elim (h.start) [
        | inl x ↦
            get_elem?-append_left g.gen_order (top ∷ []) 0 (get_elem?-bound g.gen_order 0 0 x) ∙ x
        | inr (x, y) ↦ rw x (ground (arith, y, e))
      ]);
      below = λ x l.
          write_bytes-below g.memory (g.cs.buf + g.cs.used) ready_bytes x (
            omega (
              arith,
              l,
              Laid-le g0.context.junk.dst g0.context.cap_instr g.memory bbs g.gen_order b
                  (g.cs.buf + g.cs.used) h.laid,
            ))
          ∙ h.below x l;
    }
