-- ===== src/Capture/Keys.antt =====
-- Keys of captured blocks, and the search for one.
use dbrew.Prelude.{ℕ, zero, suc, ◌+◌, ◌-◌, ◌≤◌, ◌≡◌, refl, ap, ◌∙◌, ◌⊎◌, inl, inr, true, false}
use dbrew.Prelude.{Option, none, some, List, [], ◌∷◌, ◌++◌, arith, Bool-cases}
use dbrew.Prelude.{Option-cases, length, get_elem?}
use dbrew.Capture.Blocks.{has_key, find_from, new_bb}
use dbrew.Capture.Types.{Cbb}

pub has_key_lem :
    (f : ℕ) (id : Option ℕ) (bb : Cbb)
    → has_key f id bb ≡ true
    → (bb.dec_addr ≡ f) × (bb.es_id ≡ id)
unfolding has_key
has_key_lem f none bb h = ground arith
has_key_lem f (some n) bb h = ground arith

pub has_key_self : (f : ℕ) (id fc : Option ℕ) → has_key f id (new_bb f id fc) ≡ true
unfolding has_key new_bb
has_key_self f none fc = ground arith
has_key_self f (some n) fc = ground arith

pub key_has_key : (bb : Cbb) → has_key bb.dec_addr bb.es_id bb ≡ true
unfolding has_key
key_has_key bb = elim (Option-cases bb.es_id) [ inl n ↦ ground arith | inr (i, e) ↦ ground arith ]

pub find_from_found :
    (bbs : List Cbb) (f : ℕ) (id : Option ℕ) (k i : ℕ)
    → find_from bbs f id k ≡ some i
    → (k ≤ i) × ((bb : Cbb) × (get_elem? bbs (i - k) ≡ some bb) × (has_key f id bb ≡ true))
unfolding find_from
find_from_found [] f id k i h = absurd (ground arith)
find_from_found (b ∷ bbs) f id k i h = elim (Bool-cases (has_key f id b)) [
  | inl e ↦
      let z : i ≡ k = ground arith in
      let d : i - k ≡ 0 = omega arith in (omega arith, (b, rw d refl, e))
  | inr e ↦
      let r = find_from_found bbs f id (k + 1) i (ground arith) in
      let d : i - k ≡ suc (i - (k + 1)) = omega (arith, r.0) in
      (omega (arith, r.0), (r.1.0, rw d r.1.1, r.1.2))
]

pub find_from-none :
    (bbs : List Cbb) (f : ℕ) (id : Option ℕ) (k i : ℕ) (bb : Cbb)
    → find_from bbs f id k ≡ none
    → get_elem? bbs i ≡ some bb
    → has_key f id bb ≡ false
unfolding find_from
find_from-none [] f id k i bb h e = absurd (ground arith)
find_from-none (b ∷ bbs) f id k zero bb h e = elim (Bool-cases (has_key f id b)) [
  | inl t ↦ absurd (ground arith)
  | inr t ↦ let z : b ≡ bb = ground arith in rw (← z) t
]
find_from-none (b ∷ bbs) f id k (suc i) bb h e = elim (Bool-cases (has_key f id b)) [
  | inl t ↦ absurd (ground arith)
  | inr t ↦ find_from-none bbs f id (k + 1) i bb (rw t at h) e
]

pub find_from-append :
    (bbs : List Cbb) (f : ℕ) (id : Option ℕ) (k : ℕ) (bb : Cbb)
    → find_from bbs f id k ≡ none
    → has_key f id bb ≡ true
    → find_from (bbs ++ bb ∷ []) f id k ≡ some (k + length bbs)
unfolding find_from
find_from-append [] f id k bb h e = rw e (ap some (omega arith))
find_from-append (b ∷ bbs) f id k bb h e = elim (Bool-cases (has_key f id b)) [
  | inl t ↦ absurd (ground arith)
  | inr t ↦ rw t (find_from-append bbs f id (k + 1) bb (rw t at h) e ∙ ap some (omega arith))
]

-- An entry of a list that has grown by one is an old one, or the new one.
pub append_cases :
    (bbs : List Cbb) (bb : Cbb) (i : ℕ) (a : Cbb)
    → get_elem? (bbs ++ bb ∷ []) i ≡ some a
    → (get_elem? bbs i ≡ some a) ⊎ ((i ≡ length bbs) × (a ≡ bb))
append_cases [] bb zero a e = inr (refl, ground arith)
append_cases [] bb (suc i) a e = absurd (ground arith)
append_cases (b ∷ bbs) bb zero a e = inl e
append_cases (b ∷ bbs) bb (suc i) a e = elim (append_cases bbs bb i a e) [
  | inl h ↦ inl h
  | inr (z, y) ↦ inr (omega arith, y)
]

pub get_elem-append_left :
    (bbs : List Cbb) (bb : Cbb) (i : ℕ) (a : Cbb)
    → get_elem? bbs i ≡ some a
    → get_elem? (bbs ++ bb ∷ []) i ≡ some a
get_elem-append_left [] bb i a e = absurd (ground arith)
get_elem-append_left (b ∷ bbs) bb zero a e = e
get_elem-append_left (b ∷ bbs) bb (suc i) a e = get_elem-append_left bbs bb i a e

pub get_elem-append_self :
    (bbs : List Cbb) (bb : Cbb) → get_elem? (bbs ++ bb ∷ []) (length bbs) ≡ some bb
get_elem-append_self [] bb = refl
get_elem-append_self (b ∷ bbs) bb = get_elem-append_self bbs bb
