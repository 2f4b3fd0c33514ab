-- ===== src/Capture/Segments.antt =====
-- Parts of an array that grows at its end.
use dbrew.Prelude.{ℕ, zero, suc, ◌+◌, ◌≤◌, ◌≡◌, refl, ap, some, List, [], ◌∷◌, ◌++◌, arith}
use dbrew.Prelude.{length, get_elem?, set}

unfoldable pub take {ℓ} : {A : Type ℓ} → ℕ → List A → List A
take zero xs = []
take (suc n) [] = []
take (suc n) (x ∷ xs) = x ∷ take n xs

-- The `n` entries from position `s`.
unfoldable pub segment {ℓ} : {A : Type ℓ} → ℕ → ℕ → List A → List A
unfolding take
segment zero n xs = take n xs
segment (suc s) n [] = []
segment (suc s) n (x ∷ xs) = segment s n xs

module _ {ℓ} {A : Type ℓ} where
  take-append : (n : ℕ) (xs ys : List A) → n ≤ length xs → take n (xs ++ ys) ≡ take n xs
  unfolding take
  take-append zero xs ys h = refl
  take-append (suc n) [] ys h = absurd (omega arith)
  take-append (suc n) (x ∷ xs) ys h = ap (λ r. x ∷ r) (take-append n xs ys (omega arith))

  take-append_one :
      (n : ℕ) (xs : List A) (y : A)
      → n ≡ length xs
      → take (n + 1) (xs ++ y ∷ []) ≡ take n xs ++ y ∷ []
  unfolding take
  take-append_one zero [] y h = refl
  take-append_one zero (x ∷ xs) y h = absurd (omega arith)
  take-append_one (suc n) [] y h = absurd (omega arith)
  take-append_one (suc n) (x ∷ xs) y h =
      let z : suc n + 1 ≡ suc (n + 1) = omega arith in
      rw z (ap (λ r. x ∷ r) (take-append_one n xs y (omega arith)))

  pub segment-append :
      (s n : ℕ) (xs ys : List A) → s + n ≤ length xs → segment s n (xs ++ ys) ≡ segment s n xs
  unfolding segment
  segment-append zero n xs ys h = take-append n xs ys (omega arith)
  segment-append (suc s) n [] ys h = absurd (omega arith)
  segment-append (suc s) n (x ∷ xs) ys h = segment-append s n xs ys (omega arith)

  pub segment-append_one :
      (s n : ℕ) (xs : List A) (y : A)
      → s + n ≡ length xs
      → segment s (n + 1) (xs ++ y ∷ []) ≡ segment s n xs ++ y ∷ []
  unfolding segment
  segment-append_one zero n xs y h = take-append_one n xs y (omega arith)
  segment-append_one (suc s) n [] y h = absurd (omega arith)
  segment-append_one (suc s) n (x ∷ xs) y h = segment-append_one s n xs y (omega arith)

  pub set-append_self : (xs : List A) (x y : A) → set (xs ++ x ∷ []) (length xs) y ≡ xs ++ y ∷ []
  set-append_self [] x y = refl
  set-append_self (z ∷ xs) x y = ap (λ r. z ∷ r) (set-append_self xs x y)

  pub get_elem?-append_self : (xs : List A) (x : A) → get_elem? (xs ++ x ∷ []) (length xs) ≡ some x
  get_elem?-append_self [] x = refl
  get_elem?-append_self (z ∷ xs) x = get_elem?-append_self xs x

  pub segment-start : (xs : List A) (y : A) → segment (length xs) 1 (xs ++ y ∷ []) ≡ y ∷ []
  unfolding segment take
  segment-start [] y = refl
  segment-start (x ∷ xs) y = segment-start xs y
