-- ===== src/Engine/LayoutLaws.antt =====
-- The generated code: what the last two passes promise.
use dbrew.Prelude.{ℕ, zero, suc, ◌+◌, ◌^◌, ◌≤◌, ◌<◌, ◌≡◌, refl, ap, ◌∙◌, some, List, [], ◌∷◌}
use dbrew.Prelude.{arith, get_elem?}
use mathlib.Core.Path.{subst}
use native.Mathlib.Nat.{le_refl}
use dbrew.Memory.{Memory}
use dbrew.Engine.PlaceLaws.{AllHaveTargets, SameCode, Chosen, AllChosen, AllMoved, PlaceResult}
use dbrew.Engine.PlaceLaws.{place_lem}
use dbrew.Engine.LinkLaws.{LinkedAt, IsLinkable}
use dbrew.Engine.Blocks.{GenCbb}
use dbrew.Engine.Layout.{AllLinkable, Linked, link_lem, linkable}
use dbrew.Engine.Link.{place_and_link}
use dbrew.Engine.Spacing.{Spaced, spaced_end}

-- The two lists of blocks belong together.
pub Chosen-at :
    (all cs ps : List GenCbb) (i k : ℕ) (c : GenCbb)
    → AllChosen all cs ps i
    → get_elem? cs k ≡ some c
    → (p : GenCbb) × (get_elem? ps k ≡ some p) × Chosen all (i + k + 1) c p
Chosen-at all [] ps i k c h e = absurd (ground arith)
Chosen-at all (d ∷ cs) [] i k c h e = absurd h
Chosen-at all (d ∷ cs) (p ∷ ps) i zero c h e =
    let z : d ≡ c = ground arith in
    (
      p,
      refl,
      subst (λ x. Chosen all (i + 0 + 1) x p) z (subst (λ n. Chosen all n d p) (omega arith) h.0),
    )
Chosen-at all (d ∷ cs) (p ∷ ps) i (suc k) c h e =
    let r = Chosen-at all cs ps (i + 1) k c h.1 e in
    (r.0, r.1, subst (λ n. Chosen all n c r.0) (omega arith) r.2)

Chosen-from :
    (all cs ps : List GenCbb) (i k : ℕ) (p : GenCbb)
    → AllChosen all cs ps i
    → get_elem? ps k ≡ some p
    → (c : GenCbb) × (get_elem? cs k ≡ some c) × Chosen all (i + k + 1) c p
Chosen-from all [] [] i k p h e = absurd (ground arith)
Chosen-from all [] (q ∷ ps) i k p h e = absurd h
Chosen-from all (d ∷ cs) [] i k p h e = absurd h
Chosen-from all (d ∷ cs) (q ∷ ps) i zero p h e =
    let z : q ≡ p = ground arith in
    (
      d,
      refl,
      subst (λ x. Chosen all (i + 0 + 1) d x) z (subst (λ n. Chosen all n d q) (omega arith) h.0),
    )
Chosen-from all (d ∷ cs) (q ∷ ps) i (suc k) p h e =
    let r = Chosen-from all cs ps (i + 1) k p h.1 e in
    (r.0, r.1, subst (λ n. Chosen all n r.0 p) (omega arith) r.2)

chosen_end :
    (all cs ps : List GenCbb) (i b : ℕ) → AllChosen all cs ps i → spaced_end ps b ≡ spaced_end cs b
chosen_end all [] [] i b h = refl
chosen_end all [] (p ∷ ps) i b h = absurd h
chosen_end all (c ∷ cs) [] i b h = absurd h
chosen_end all (c ∷ cs) (p ∷ ps) i b h =
    ap (λ (s : ℕ). spaced_end ps (b + s + 26)) h.0.0.1
    ∙ chosen_end all cs ps (i + 1) (b + c.size + 26) h.1

all_linkable :
    (all ps : List GenCbb)
    → ((k : ℕ) (p : GenCbb) → get_elem? ps k ≡ some p → IsLinkable all p)
    → AllLinkable all ps
all_linkable all [] h = tt
all_linkable all (p ∷ ps) h = (h 0 p refl, all_linkable all ps (λ k q e. h (suc k) q e))

pub moved_at :
    (ps : List GenCbb) (m m' : Memory) (k : ℕ) (p : GenCbb) (j : ℕ)
    → AllMoved ps m m'
    → get_elem? ps k ≡ some p
    → j < p.size
    → m' (p.addr2 + j) ≡ m (p.addr1 + j)
moved_at [] m m' k p j h e l = absurd (ground arith)
moved_at (q ∷ ps) m m' zero p j h e l =
    let z : q ≡ p = ground arith in
    subst (λ (x : GenCbb). m' (x.addr2 + j) ≡ m (x.addr1 + j)) z (h.0 j (rw z l))
moved_at (q ∷ ps) m m' (suc k) p j h e l = moved_at ps m m' k p j h.1 e l

-- What pass 1 has to leave: the blocks from `b` on with their holes, every conditional jump with
-- both successors, in a code buffer of less than 2^31 bytes.
pub record IsGenerated (cbbs : List GenCbb) (b : ℕ) : Type 0 where
  pub spaced : Spaced cbbs b
  pub targets : AllHaveTargets cbbs cbbs
  pub fits : spaced_end cbbs b ≤ b + 2 ^ 31
  pub in_range : b + 2 ^ 31 ≤ 2 ^ 64

-- What both passes make of that.
pub record LayoutResult (cbbs : List GenCbb) (b : ℕ) (m : Memory) : Type 0 where
  pub first : PlaceResult cbbs cbbs 0 b b m
  pub second : Linked first.placed first.placed b first.after
  pub runs : place_and_link cbbs b m ≡ some (first.placed, first.end, second.after)

pub layout_result :
    (cbbs : List GenCbb) (b : ℕ) (m : Memory) → IsGenerated cbbs b → LayoutResult cbbs b m
unfolding place_and_link
layout_result cbbs b m g =
    let r = place_lem cbbs cbbs 0 b b m g.spaced g.targets (le_refl b) in
    let l = link_lem r.placed r.placed b b r.after r.laid (
      all_linkable r.placed r.placed (λ k p e.
        let (c, ec, ch) = Chosen-from cbbs cbbs r.placed 0 k p r.chosen e in
        linkable r.placed b r.laid
          (omega (arith, chosen_end cbbs cbbs r.placed 0 b r.chosen, g.fits)) g.in_range cbbs k c p
          (subst (λ n. Chosen cbbs n c p) (omega arith) ch) e
          (λ t q eq.
            let s = Chosen-at cbbs cbbs r.placed 0 t q r.chosen eq in (s.0, s.1, s.2.0.0)))) in
    record { first = r; second = l; runs = rw (r.runs, l.runs) refl }

-- For what pass 1 leaves, passes 2 and 3 fail no assertion, and behind each block that ends with a
-- conditional jump stand the bytes of that jump: its condition, a short or a near displacement that
-- leads to the final address of the branch target, and behind it the final address of the
-- fall-through block or a near jump that leads there.
pub place_and_link-LinkedAt :
    (cbbs : List GenCbb) (b : ℕ) (m : Memory) (k : ℕ) (c : GenCbb)
    → IsGenerated cbbs b
    → get_elem? cbbs k ≡ some c
    → (placed : List GenCbb) × (end : ℕ) × (m' : Memory) × (p : GenCbb) × (place_and_link cbbs b m
        ≡ some (placed, end, m'))
      × (get_elem? placed k ≡ some p)
      × SameCode c p
      × LinkedAt placed p m'
place_and_link-LinkedAt cbbs b m k c g e =
    let r = layout_result cbbs b m g in
    let (p, ep, ch) = Chosen-at cbbs cbbs r.first.placed 0 k c r.first.chosen e in
    (r.first.placed, r.first.end, r.second.after, p, r.runs, ep, ch.0, (r.second.at k p ep).0)

-- For what pass 1 leaves: although the blocks are moved within one buffer and jumps are written
-- between them, every byte of every block is found at its place from the block's final address on.
-- Memory before the code stays as it is, and the code does not grow.
pub place_and_link-bytes :
    (cbbs : List GenCbb) (b : ℕ) (m : Memory) (k : ℕ) (c : GenCbb) (j x : ℕ)
    → IsGenerated cbbs b
    → get_elem? cbbs k ≡ some c
    → j < c.size
    → x < b
    → (placed : List GenCbb) × (end : ℕ) × (m' : Memory) × (p : GenCbb) × (place_and_link cbbs b m
        ≡ some (placed, end, m'))
      × (get_elem? placed k ≡ some p)
      × (m' (p.addr2 + j) ≡ m (c.addr1 + j))
      × (m' x ≡ m x)
      × (end ≤ spaced_end cbbs b)
place_and_link-bytes cbbs b m k c j x g e l lx =
    let r = layout_result cbbs b m g in
    let (p, ep, ch) = Chosen-at cbbs cbbs r.first.placed 0 k c r.first.chosen e in
    let lp : j < p.size = omega (arith, ch.0.1) in
    (
      r.first.placed,
      r.first.end,
      r.second.after,
      p,
      r.runs,
      ep,
      (r.second.at k p ep).1 j lp
          ∙ moved_at r.first.placed m r.first.after k p j r.first.moved ep lp
          ∙ ap (λ (a : ℕ). m (a + j)) ch.0.0,
      r.second.below x lx ∙ r.first.below x lx,
      r.first.end_le,
    )
