-- ===== src/Engine/Layout.antt =====
-- Pass 3 on all blocks, and both passes together.
use dbrew.Prelude.{ℕ, zero, suc, ◌+◌, ◌^◌, ◌≤◌, ◌<◌, ◌≡◌, refl, sym, ap, ◌∙◌, ◌⊎◌, inl, inr}
use dbrew.Prelude.{true, some, List, [], ◌∷◌, arith, Bool-cases, get_elem?}
use mathlib.Core.Path.{subst}
use native.Mathlib.Decide.{dec_lt}
use dbrew.Instr.Copy.{instr_is_jcc}
use dbrew.Engine.PlaceLaws.{Chosen}
use dbrew.Engine.Displacement.{Near, short_stays_short}
use dbrew.Engine.LinkLaws.{LinkedAt, IsLinkable, jcc_code-some, JccAt-ext, GoesOnAt-ext}
use dbrew.Engine.LinkLaws.{jcc_length, write_jcc_lem, write_jump_lem, jump_bytes_sum}
use dbrew.Engine.Blocks.{GenCbb, diff32, between}
use dbrew.Engine.Place.{jump_bytes}
use dbrew.Engine.Link.{link_block, link}
use dbrew.Engine.Spacing.{spaced_end, Placed, Placed-later, Placed-forward, Placed-backward}
use dbrew.Engine.Spacing.{Placed-next}
use dbrew.Memory.{Memory}

-- The jumps of one block.
record BlockLinked (all : List GenCbb) (p : GenCbb) (m m' : Memory) : Type 0 where
  runs : link_block all p m ≡ some m'
  linked :
      (n : ℕ) (m'' : Memory)
      → p.addr2 + p.size + jump_bytes p ≤ n
      → ((x : ℕ) → x < n → m'' x ≡ m' x)
      → LinkedAt all p m''
  frame : (x : ℕ) → (x < p.addr2 + p.size) ⊎ (p.addr2 + p.size + jump_bytes p ≤ x) → m' x ≡ m x

link_block_lem :
    (all : List GenCbb) (p : GenCbb) (m : Memory)
    → IsLinkable all p
    → (m' : Memory) × BlockLinked all p m m'
unfolding link_block
link_block_lem all p m (inl e) =
    (m, record { runs = rw e refl; linked = λ n m'' l h. inl e; frame = λ x h. refl })
link_block_lem all p m (inr (b, q, f, r, eb, eq, ef, er, (n2, n6, n7, n11, s, j))) =
    elim (Bool-cases (instr_is_jcc p.end_type)) [
      | inr e ↦ (m, record { runs = rw e refl; linked = λ n m'' l h. inl e; frame = λ x h. refl })
      | inl e ↦
          let a = p.addr2 + p.size in
          let sum = jump_bytes_sum p e in
          let (c, ec, lc) = jcc_code-some p.end_type e in
          let (m1, r1, at1, fr1) = write_jcc_lem all p q b c a m eb eq ec n2 n6 s in
          let end = a + jcc_length p in
          let (m2, r2, at2, fr2, ok) =
            write_jump_lem all p r f end m1 ef er (ground (arith, sum)) (ground (arith, sum)) in
          (
            m2,
            record {
              runs = rw (e, r1, r2) refl;
              linked = λ n m'' l h. inr (
                c,
                b,
                q,
                f,
                r,
                end,
                ec,
                eb,
                eq,
                ef,
                er,
                JccAt-ext m1 m'' a c q.addr2 end (λ x k. h x (omega (arith, sum)) ∙ fr2 x (inl k))
                    at1,
                GoesOnAt-ext m2 m'' end r.addr2 n (ground (arith, sum, ok)) h at2,
              );
              frame = λ x h. fr2 x (omega (arith, sum, h)) ∙ fr1 x (omega (arith, sum, h));
            },
          )
    ]

abbrev pub AllLinkable : List GenCbb → List GenCbb → Type 0
AllLinkable all [] = Unit
AllLinkable all (p ∷ ps) = IsLinkable all p × AllLinkable all ps

-- The bytes of a block stay.
abbrev pub Kept : GenCbb → Memory → Memory → Type 0
Kept p m' m = (j : ℕ) → j < p.size → m' (p.addr2 + j) ≡ m (p.addr2 + j)

at_cons :
    (P : GenCbb → Type 0) (p : GenCbb) (ps : List GenCbb)
    → P p
    → ((k : ℕ) (q : GenCbb) → get_elem? ps k ≡ some q → P q)
    → (k : ℕ) (q : GenCbb) → get_elem? (p ∷ ps) k ≡ some q
    → P q
at_cons P p ps h t zero q e = let z : p ≡ q = ground arith in rw (← z) h
at_cons P p ps h t (suc k) q e = t k q e

-- All blocks from `b2` on.
pub record Linked (all ps : List GenCbb) (b2 : ℕ) (m : Memory) : Type 0 where
  pub after : Memory
  pub runs : link all ps m ≡ some after
  pub below : (x : ℕ) → x < b2 → after x ≡ m x
  pub at : (k : ℕ) (p : GenCbb) → get_elem? ps k ≡ some p → LinkedAt all p after × Kept p after m

pub link_lem :
    (all ps : List GenCbb) (b1 b2 : ℕ) (m : Memory)
    → Placed ps b1 b2
    → AllLinkable all ps
    → Linked all ps b2 m
unfolding link
link_lem all [] b1 b2 m h l = record {
  after = m;
  runs = refl;
  below = λ x k. refl;
  at = λ k p e. absurd (ground arith);
}
link_lem all (p ∷ ps) b1 b2 m h l =
    let (m1, bl) = link_block_lem all p m l.0 in
    let n = b2 + p.size + jump_bytes p in
    let r = link_lem all ps (b1 + p.size + 26) n m1 h.3 l.1 in
    record {
      after = r.after;
      runs = rw (bl.runs, r.runs) refl;
      below = λ x k. r.below x (omega arith) ∙ bl.frame x (inl (omega (arith, h.1)));
      at =
          at_cons (λ q. LinkedAt all q r.after × Kept q r.after m) p ps
            (
              bl.linked n r.after (omega (arith, h.1)) r.below,
              λ j k.
                  r.below (p.addr2 + j) (omega (arith, h.1))
                  ∙ bl.frame (p.addr2 + j) (inl (omega arith)),
            )
            (λ k q e.
              let a = r.at k q e in
              let g = Placed-later ps (b1 + p.size + 26) n k q h.3 e in
              (a.0, λ j t. a.1 j t ∙ bl.frame (q.addr2 + j) (inr (omega (arith, h.1, g.1)))));
    }

-- The blocks after pass 2, all of them from `b` on, in a code buffer of less than 2^31 bytes.
module _ (ps : List GenCbb) (b : ℕ) (h : Placed ps b b) (l2 : spaced_end ps b ≤ b + 2 ^ 31)
    (l3 : b + 2 ^ 31 ≤ 2 ^ 64) where
  near :
      (k t n : ℕ) (p q : GenCbb)
      → get_elem? ps k ≡ some p
      → get_elem? ps t ≡ some q
      → n ≤ 11
      → Near q.addr2 (p.addr2 + p.size + n)
  near k t n p q e f l =
      omega (arith, Placed-later ps b b k p h e, Placed-later ps b b t q h f, l2, l3)

  near1 :
      (k t : ℕ) (p q : GenCbb)
      → get_elem? ps k ≡ some p
      → get_elem? ps t ≡ some q
      → Near q.addr1 (p.addr1 + p.size)
  near1 k t p q e f =
      omega (arith, Placed-later ps b b k p h e, Placed-later ps b b t q h f, l2, l3)

  short_ok :
      (k t : ℕ) (p q : GenCbb)
      → get_elem? ps k ≡ some p
      → get_elem? ps t ≡ some q
      → 2 ≤ jump_bytes p
      → between 120 120 (diff32 q.addr1 (p.addr1 + p.size)) ≡ true
      → between 128 127 (diff32 q.addr2 (p.addr2 + p.size + 2)) ≡ true
  short_ok k t p q e f j s =
      short_stays_short p.addr1 p.addr2 p.size q.addr1 q.addr2 (near1 k t p q e f)
        (near k t 2 p q e f (omega arith)) s where_it_is
    where
      where_it_is :
          ((p.addr2 + p.size + 2 ≤ q.addr2)
            × (q.addr2 + p.addr1 + 15 ≤ q.addr1 + p.addr2)
            × (p.addr1 + p.size ≤ q.addr1))
          ⊎ ((q.addr2 ≤ p.addr2) × (p.addr2 + q.addr1 ≤ p.addr1 + q.addr2))
      where_it_is = elim (dec_lt k t) [
        | yes l ↦
            inl
              (omega (arith, Placed-forward ps b b k t p q h e f l, Placed-later ps b b k p h e, j))
        | no l ↦ inr (Placed-backward ps b b k t p q h e f (omega arith))
      ]

  -- The conditions for the jumps hold after pass 2.
  pub linkable :
      (all : List GenCbb) (k : ℕ) (c p : GenCbb)
      → Chosen all (k + 1) c p
      → get_elem? ps k ≡ some p
      → ((t : ℕ) (q : GenCbb)
          → get_elem? all t ≡ some q
          → (q' : GenCbb) × (get_elem? ps t ≡ some q') × (q'.addr1 ≡ q.addr1))
      → IsLinkable ps p
  linkable all k c p (same, le, inl z) e core = inl (ap instr_is_jcc same.2 ∙ z)
  linkable all k c p (same, le, inr (t, q, f, r, et, eq, ef, er, g8, gj)) e core =
      elim (Bool-cases (instr_is_jcc p.end_type)) [
        | inr z ↦ inl z
        | inl jcc ↦
            let (q', eq', aq) = core t q eq in
            let (r', er', ar) = core f r er in
            let sum = jump_bytes_sum p jcc in
            inr (
              t,
              q',
              f,
              r',
              same.3 ∙ et,
              eq',
              same.4 ∙ ef,
              er',
              (
                near k t 2 p q' e eq' (omega arith),
                near k t 6 p q' e eq' (omega arith),
                near k f 7 p r' e er' (omega arith),
                near k f 11 p r' e er' (omega arith),
                elim (Bool-cases p.gen_jcc8) [
                  | inr no8 ↦ inl no8
                  | inl g ↦ inr (
                      short_ok k t p q' e eq' (ground (arith, sum, g))
                        (rw (aq, same.0, same.1) (sym g8 ∙ g)))
                ],
                elim (Bool-cases p.gen_jump) [
                  | inl g ↦ inl g
                  | inr g ↦
                      let z : f ≡ k + 1 = ground arith in
                      inr (
                        Placed-next ps b b k p r' h e (subst (λ n. get_elem? ps n ≡ some r') z er'))
                ],
              ),
            )
      ]
