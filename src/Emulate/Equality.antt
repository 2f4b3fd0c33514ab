-- ===== src/Emulate/Equality.antt =====
-- `esIsEqual` holds for equal parts of two emulator states.
use dbrew.Prelude.{ℕ, ◌≡◌, refl, true, Option, none, some, List, [], ◌∷◌, arith}
use dbrew.Emulate.State.{Cell, option_eq, cs_is_equal, cells_equal}

option_eq_refl : (a : Option ℕ) → option_eq a a ≡ true
option_eq_refl none = refl
option_eq_refl (some a) = ground arith

pub cs_is_equal_refl : (p : Option ℕ) (c : Cell) → cs_is_equal p c p c ≡ true
unfolding cs_is_equal
cs_is_equal_refl p c = ground (arith, option_eq_refl p)

pub cells_equal_refl : (p : Option ℕ) (l : List Cell) → cells_equal p l p l ≡ true
unfolding cells_equal
cells_equal_refl p [] = refl
cells_equal_refl p (c ∷ l) = rw (cs_is_equal_refl p c) (cells_equal_refl p l)
