-- ===== src/Engine/Pass1Ends.antt =====
-- The loop of pass 1 ends.
use dbrew.Prelude.{ℕ, zero, suc, ◌+◌, ◌*◌, ◌≤◌, ◌<◌, ◌≡◌, refl, ap, ◌∙◌, inl, inr, Option, none}
use dbrew.Prelude.{some, List, [], ◌∷◌, ◌++◌, arith, ltb, leb, Bool-cases, Option-cases}
use dbrew.Prelude.{length, get_elem?, set, List-cases}
use dbrew.Engine.Emit.{emitted, refused, emit_from, GenState, put_bb, generate_block}
use dbrew.Instr.Copy.{instr_is_jcc}
use dbrew.Capture.InstrLaws.{instrs_in}
use dbrew.Capture.Blocks.{push_capture_bb}
use dbrew.Capture.Types.{Error, Cbb, capturestack_len, RContext}
use dbrew.Engine.Pass1.{genorder_max, push_successors, leave_hole, generate_next, visit}
use dbrew.Engine.Pass1.{finished, pass1, pending, ungenerated, pass1_fuel}
use dbrew.Engine.Storage.{reserve_code_storage, use_code_storage}

pub pending-set :
    (w : Cbb → ℕ) (cs : List Cbb) (i : ℕ) (c new : Cbb) (n : ℕ)
    → get_elem? cs i ≡ some c
    → c.size ≡ none
    → new.size ≡ some n
    → pending w (set cs i new) + w c ≡ pending w cs
unfolding pending
pending-set w [] i c new n e s t = absurd (ground arith)
pending-set w (d ∷ cs) zero c new n e s t =
    let z : d ≡ c = ground arith in
    let y : d.size ≡ none = ap (λ (x : Cbb). x.size) z ∙ s in ground (arith, y, t, ap w z)
pending-set w (d ∷ cs) (suc i) c new n e s t =
    let r = pending-set w cs i c new n e s t in
    elim (Option-cases d.size) [
      | inl x ↦ rw (pending, x) (omega (arith, r))
      | inr (k, x) ↦ rw (pending, x) r
    ]

pub pending-le-one :
    (cs : List Cbb) (i : ℕ) (c : Cbb) → get_elem? cs i ≡ some c → c.size ≡ none → 1 ≤ ungenerated cs
pending-le-one cs i c e s =
    omega (arith, pending-set (λ d. 1) cs i c (record c { size = some 0 }) 0 e s refl)

-- What the loop still has to do.
abbrev pub work : GenState → ℕ
work g = length g.context.cap_stack + 2 * ungenerated g.context.cap_bb

push_capture_bb-grows :
    (r : RContext) (bb : ℕ)
    → (length (push_capture_bb r bb).1.cap_stack ≤ length r.cap_stack + 1)
      × ((push_capture_bb r bb).1.cap_bb ≡ r.cap_bb)
unfolding push_capture_bb
push_capture_bb-grows r bb = elim (Bool-cases (leb capturestack_len (length r.cap_stack))) [
  | inl x ↦ rw (push_capture_bb, x) (omega arith, refl)
  | inr x ↦ rw (push_capture_bb, x) (omega arith, refl)
]

work-context :
    (g : GenState) (c : RContext)
    → length c.cap_stack ≤ length g.context.cap_stack + 2
    → c.cap_bb ≡ g.context.cap_bb
    → work (record g { context = c }) ≤ work g + 2
work-context g c h e = omega (arith, h, ap ungenerated e)

push_successors-work :
    (g g1 : GenState) (cbb : Cbb) → push_successors g cbb ≡ some g1 → work g1 ≤ work g + 2
unfolding push_successors
push_successors-work g g1 cbb h = elim (Bool-cases (instr_is_jcc cbb.end_type)) [
  | inr j ↦ let z : g ≡ g1 = ground (arith, j, h) in rw (← z) (omega arith)
  | inl j ↦ elim (Option-cases cbb.next_branch) [
    | inl x ↦ absurd (ground (arith, j, x, h))
    | inr (b, eb) ↦ elim (Option-cases cbb.next_fall_through) [
      | inl x ↦ absurd (ground (arith, j, eb, x, h))
      | inr (f, ef) ↦
          let p = push_capture_bb-grows g.context b in
          let c1 = (push_capture_bb g.context b).1 in
          let q = push_capture_bb-grows c1 f in
          let z : record g { context = (push_capture_bb c1 f).1 } ≡ g1 =
            ground (arith, j, eb, ef, h) in
          rw (← z) (work-context g (push_capture_bb c1 f).1 (omega (arith, p.0, q.0)) (q.1 ∙ p.1))
    ]
  ]
]

-- A block is generated, or there is an error.
record GeneratesOne (g g1 : GenState) (bb : ℕ) : Type 0 where
  old : Cbb
  there : get_elem? g.context.cap_bb bb ≡ some old
  new : Cbb
  n : ℕ
  sized : new.size ≡ some n
  blocks : g1.context.cap_bb ≡ set g.context.cap_bb bb new
  stack : g1.context.cap_stack ≡ g.context.cap_stack

generate_block-GeneratesOne :
    (g g1 : GenState) (bb : ℕ) → generate_block g bb ≡ some (none, g1) → GeneratesOne g g1 bb
unfolding generate_block put_bb
generate_block-GeneratesOne g g1 bb h = elim (Option-cases (get_elem? g.context.cap_bb bb)) [
  | inl x ↦ absurd (ground (arith, x, h))
  | inr (c, ec) ↦ elim (Option-cases (reserve_code_storage g.cs 0)) [
    | inl x ↦ absurd (ground (arith, ec, x, h))
    | inr (b, eb) ↦
        let em = emit_from g.context.junk.dst (instrs_in g.context.cap_instr c) g.cs g.memory 0 in
        elim (Option-cases em) [
          | inl x ↦ absurd (ground (arith, ec, eb, x, h))
          | inr (refused et m, x) ↦ absurd (ground (arith, ec, eb, x, h))
          | inr (emitted cs m used, x) ↦
              let new = record c { size = some used; addr1 = b } in
              let z : put_bb (record g { cs = cs; memory = m }) bb new ≡ g1 =
                ground (arith, ec, eb, x, h) in
              rw (← z) (record {
                old = c;
                there = ec;
                new = new;
                n = used;
                sized = refl;
                blocks = refl;
                stack = refl;
              })
        ]
  ]
]

GeneratesOne-work :
    (g g1 : GenState) (bb : ℕ) (c : Cbb)
    → get_elem? g.context.cap_bb bb ≡ some c
    → c.size ≡ none
    → GeneratesOne g g1 bb
    → work g1 + 2 ≡ work g
GeneratesOne-work g g1 bb c e s x =
    let there = x.there in
    let z : c ≡ x.old = ground (arith, e, there) in
    let u = pending-set (λ c. 1) g.context.cap_bb bb c x.new x.n e s x.sized in
    omega (arith, ap ungenerated x.blocks, ap length x.stack, u)

generate_next-work :
    (g g1 : GenState) (bb : ℕ) (c : Cbb)
    → get_elem? g.context.cap_bb bb ≡ some c
    → c.size ≡ none
    → generate_next g bb ≡ some g1
    → g1.context.e ≡ none
    → work g1 ≤ work g
unfolding generate_next leave_hole
generate_next-work g g1 bb c e s h ok = elim (Bool-cases (ltb (length g.gen_order) genorder_max)) [
  | inr x ↦ absurd (ground (arith, x, h))
  | inl room ↦
      let g0 = record g { gen_order = g.gen_order ++ bb ∷ [] } in
      elim (Option-cases (generate_block g0 bb)) [
        | inl x ↦ absurd (ground (arith, room, x, h))
        | inr ((some er, k), x) ↦ absurd (ground (arith, room, x, h, ok))
        | inr ((none, k), x) ↦
            let w = GeneratesOne-work g0 k bb c e s (generate_block-GeneratesOne g0 k bb x) in
            elim (Option-cases (get_elem? k.context.cap_bb bb)) [
              | inl y ↦ absurd (ground (arith, room, x, y, h))
              | inr (d, ed) ↦ elim (Option-cases (push_successors k d)) [
                | inl y ↦ absurd (ground (arith, room, x, ed, y, h))
                | inr (l, el) ↦ elim (Option-cases l.context.e) [
                  | inr (er, y) ↦ absurd (ground (arith, room, x, ed, el, y, h, ok))
                  | inl y ↦ elim (Option-cases (use_code_storage l.cs 26)) [
                    | inl v ↦ absurd (ground (arith, room, x, ed, el, y, v, h))
                    | inr ((p, cs), v) ↦
                        let z : record l { cs = cs } ≡ g1 =
                          ground (arith, room, x, ed, el, y, v, h) in
                        rw (← z) (omega (arith, w, push_successors-work k l d el))
                  ]
                ]
              ]
            ]
      ]
]

pub visit-work :
    (g g1 : GenState) (bb : ℕ) → visit g bb ≡ some g1 → g1.context.e ≡ none → work g1 ≤ work g
unfolding visit
visit-work g g1 bb h ok = elim (Option-cases (get_elem? g.context.cap_bb bb)) [
  | inl x ↦ absurd (ground (arith, x, h))
  | inr (c, ec) ↦ elim (Option-cases c.size) [
    | inr (n, s) ↦ let z : g ≡ g1 = ground (arith, ec, s, h) in rw (← z) (omega arith)
    | inl s ↦ generate_next-work g g1 bb c ec s (ground (arith, ec, s, h)) ok
  ]
]

-- The state with the rest of the capture stack.
abbrev pub popped : GenState → List ℕ → GenState
popped g rest = record g { context = record g.context { cap_stack = rest } }

-- One round of the loop.
module _ (n : ℕ) (g : GenState) (top : ℕ) (rest : List ℕ)
    (h : g.context.cap_stack ≡ top ∷ rest) where
  pass1-fails : visit (popped g rest) top ≡ none → pass1 (suc n) g ≡ finished none
  unfolding pass1
  pass1-fails v = ground (arith, h, v)

  pass1-error :
      (g1 : GenState) (e : Error)
      → visit (popped g rest) top ≡ some g1
      → g1.context.e ≡ some e
      → pass1 (suc n) g ≡ finished (some g1)
  unfolding pass1
  pass1-error g1 e v x = ground (arith, h, v, x)

  pub pass1-goes :
      (g1 : GenState)
      → visit (popped g rest) top ≡ some g1
      → g1.context.e ≡ none
      → pass1 (suc n) g ≡ pass1 n g1
  unfolding pass1
  pass1-goes g1 v x = ground (arith, h, v, x)

pub pass1-empty :
    (n : ℕ) (g : GenState) → g.context.cap_stack ≡ [] → pass1 (suc n) g ≡ finished (some g)
unfolding pass1
pass1-empty n g h = ground (arith, h)

-- One result for every fuel from `n` on.
abbrev Ends : ℕ → GenState → Type 0
Ends n g = (r : Option GenState) × ((k : ℕ) → n ≤ k → pass1 k g ≡ finished r)

Ends-suc :
    (n : ℕ) (g : GenState) (r : Option GenState)
    → ((k : ℕ) → n ≤ k → pass1 (suc k) g ≡ finished r)
    → Ends (suc n) g
Ends-suc n g r h = (r, go)
  where
    go : (k : ℕ) → suc n ≤ k → pass1 k g ≡ finished r
    go zero l = absurd (omega arith)
    go (suc k) l = h k (omega arith)

pass1-Ends : (n : ℕ) (g : GenState) → work g < n → Ends n g
pass1-Ends zero g h = absurd (omega arith)
pass1-Ends (suc n) g h = elim (List-cases g.context.cap_stack) [
  | inl e ↦ Ends-suc n g (some g) (λ k l. pass1-empty k g e)
  | inr (top, rest, e) ↦
      let g0 = popped g rest in
      elim (Option-cases (visit g0 top)) [
        | inl v ↦ Ends-suc n g none (λ k l. pass1-fails k g top rest e v)
        | inr (g1, v) ↦ elim (Option-cases g1.context.e) [
          | inr (er, x) ↦ Ends-suc n g (some g1) (λ k l. pass1-error k g top rest e g1 er v x)
          | inl x ↦
              let w = visit-work g0 g1 top v x in
              let (r, t) = pass1-Ends n g1 (omega (arith, w, ap length e, h)) in
              Ends-suc n g r (λ k l. pass1-goes k g top rest e g1 v x ∙ t k l)
        ]
      ]
]

-- From every state the loop of pass 1 ends, with whatever result, within as many rounds as the
-- capture stack has entries, two more for each block that is not generated yet, and one. More fuel
-- does not change the result.
pub pass1-pass1_fuel :
    (g : GenState) → (r : Option GenState) × ((k : ℕ) → pass1_fuel g ≤ k → pass1 k g ≡ finished r)
unfolding pass1_fuel
pass1-pass1_fuel g = pass1-Ends (pass1_fuel g) g (omega arith)
