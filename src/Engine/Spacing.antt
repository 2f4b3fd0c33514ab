-- ===== src/Engine/Spacing.antt =====
-- Where the blocks lie after pass 1 and after pass 2, as numbers.
use dbrew.Prelude.{ℕ, zero, suc, ◌+◌, ◌≤◌, ◌<◌, ◌≡◌, ◌⊎◌, false, some, List, [], ◌∷◌, arith}
use dbrew.Prelude.{get_elem?}
use dbrew.Engine.Blocks.{GenCbb}
use dbrew.Engine.Place.{jump_bytes}

-- What pass 1 leaves: each block at `b` or behind the 26 bytes of hole of the block before, with
-- the members that `getCaptureBB` resets.
abbrev pub Spaced : List GenCbb → ℕ → Type 0
Spaced [] b = Unit
Spaced (c ∷ cs) b =
    (c.addr1 ≡ b)
    × ((c.size ≡ 0) ⊎ (0 < c.count))
    × (c.gen_jcc8 ≡ false)
    × (c.gen_jump ≡ false)
    × Spaced cs (b + c.size + 26)

-- The end of the code that pass 1 generated from `b` on, the last hole included.
abbrev pub spaced_end : List GenCbb → ℕ → ℕ
spaced_end [] b = b
spaced_end (c ∷ cs) b = spaced_end cs (b + c.size + 26)

-- The blocks with both addresses, from `b1` and `b2` on.
abbrev pub Placed : List GenCbb → ℕ → ℕ → Type 0
Placed [] b1 b2 = Unit
Placed (p ∷ ps) b1 b2 =
    (p.addr1 ≡ b1)
    × (p.addr2 ≡ b2)
    × (jump_bytes p ≤ 11)
    × Placed ps (b1 + p.size + 26) (b2 + p.size + jump_bytes p)

spaced_end-le : (ps : List GenCbb) (b : ℕ) → b ≤ spaced_end ps b
spaced_end-le [] b = omega arith
spaced_end-le (p ∷ ps) b = omega (arith, spaced_end-le ps (b + p.size + 26))

-- Pass 2 only shrinks the distance from the start.
pub Placed-later :
    (ps : List GenCbb) (b1 b2 k : ℕ) (p : GenCbb)
    → Placed ps b1 b2
    → get_elem? ps k ≡ some p
    → (b1 ≤ p.addr1)
      × (b2 ≤ p.addr2)
      × (p.addr2 + b1 ≤ p.addr1 + b2)
      × (p.addr1 + p.size + 26 ≤ spaced_end ps b1)
      × (jump_bytes p ≤ 11)
Placed-later [] b1 b2 k p h e = absurd (ground arith)
Placed-later (q ∷ ps) b1 b2 zero p h e =
    let z : q ≡ p = ground arith in rw (← z) (omega (arith, h, spaced_end-le ps (b1 + q.size + 26)))
Placed-later (q ∷ ps) b1 b2 (suc k) p h e =
    omega (arith, h, Placed-later ps (b1 + q.size + 26) (b2 + q.size + jump_bytes q) k p h.3 e)

-- A block behind another one.
pub Placed-forward :
    (ps : List GenCbb) (b1 b2 k t : ℕ) (p q : GenCbb)
    → Placed ps b1 b2
    → get_elem? ps k ≡ some p
    → get_elem? ps t ≡ some q
    → k < t
    → (p.addr2 + p.size + jump_bytes p ≤ q.addr2)
      × (q.addr2 + p.addr1 + 26 ≤ q.addr1 + p.addr2 + jump_bytes p)
      × (p.addr1 + p.size ≤ q.addr1)
Placed-forward [] b1 b2 k t p q h e f l = absurd (ground arith)
Placed-forward (c ∷ ps) b1 b2 zero zero p q h e f l = absurd (omega arith)
Placed-forward (c ∷ ps) b1 b2 zero (suc t) p q h e f l =
    let z : c ≡ p = ground arith in
    rw (← z)
      (omega (arith, h, Placed-later ps (b1 + c.size + 26) (b2 + c.size + jump_bytes c) t q h.3 f))
Placed-forward (c ∷ ps) b1 b2 (suc k) zero p q h e f l = absurd (omega arith)
Placed-forward (c ∷ ps) b1 b2 (suc k) (suc t) p q h e f l =
    Placed-forward ps (b1 + c.size + 26) (b2 + c.size + jump_bytes c) k t p q h.3 e f (omega arith)

-- A block before another one, or the same.
pub Placed-backward :
    (ps : List GenCbb) (b1 b2 k t : ℕ) (p q : GenCbb)
    → Placed ps b1 b2
    → get_elem? ps k ≡ some p
    → get_elem? ps t ≡ some q
    → t ≤ k
    → (q.addr2 ≤ p.addr2) × (p.addr2 + q.addr1 ≤ p.addr1 + q.addr2)
Placed-backward [] b1 b2 k t p q h e f l = absurd (ground arith)
Placed-backward (c ∷ ps) b1 b2 k zero p q h e f l =
    let z : c ≡ q = ground arith in rw (← z) (omega (arith, h, Placed-later (c ∷ ps) b1 b2 k p h e))
Placed-backward (c ∷ ps) b1 b2 zero (suc t) p q h e f l = absurd (omega arith)
Placed-backward (c ∷ ps) b1 b2 (suc k) (suc t) p q h e f l =
    Placed-backward ps (b1 + c.size + 26) (b2 + c.size + jump_bytes c) k t p q h.3 e f (omega arith)

-- The next block starts where the jumps end.
pub Placed-next :
    (ps : List GenCbb) (b1 b2 k : ℕ) (p q : GenCbb)
    → Placed ps b1 b2
    → get_elem? ps k ≡ some p
    → get_elem? ps (k + 1) ≡ some q
    → q.addr2 ≡ p.addr2 + p.size + jump_bytes p
Placed-next [] b1 b2 k p q h e f = absurd (ground arith)
Placed-next (c ∷ []) b1 b2 zero p q h e f = absurd (ground arith)
Placed-next (c ∷ d ∷ ps) b1 b2 zero p q h e f =
    let z : c ≡ p = ground arith in let y : d ≡ q = ground arith in rw (← z, ← y) (omega (arith, h))
Placed-next (c ∷ ps) b1 b2 (suc k) p q h e f =
    Placed-next ps (b1 + c.size + 26) (b2 + c.size + jump_bytes c) k p q h.3 e (ground arith)
