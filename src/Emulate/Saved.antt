-- ===== src/Emulate/Saved.antt =====
-- src/emulate.c: `saveEmuState` and `restoreEmuState`. The array `savedState` with its count is the
-- list of the saved states.
use dbrew.Prelude.{ℕ, ◌+◌, Option, none, some, List, [], ◌∷◌, ◌++◌, leb, if◌then◌else◌, ◌>>=◌}
use dbrew.Prelude.{length, get_elem?}
use dbrew.Emulate.State.{Cell, EmuState, es_is_equal, copy_emu_state, clone_emu_state}

abbrev pub savedstate_max : ℕ
savedstate_max = 20

-- The loop of `saveEmuState`: the first saved state that equals the current one.
unfoldable pub find_saved : EmuState → List EmuState → ℕ → Option ℕ
find_saved es [] i = none
find_saved es (s ∷ ss) i = if es_is_equal es s then some i else find_saved es ss (i + 1)

-- An ID with the saved states, or the error "Too many different emulation states".
pub data SaveResult : Type 0 where
  saved : ℕ → List EmuState → SaveResult
  too_many : SaveResult

-- `junk` and `byte` are what newly allocated memory holds, `self` is the address of `r->es`.
unfoldable pub save_emu_state : EmuState → Cell → ℕ → EmuState → List EmuState → Option SaveResult
save_emu_state junk byte self es states = elim (find_saved es states 0) [
  | some i ↦ some (saved i states)
  | none ↦ if leb savedstate_max (length states) then some too_many else (do
    s ← clone_emu_state junk byte self es
    some (saved (length states) (states ++ s ∷ [])))
]

unfoldable pub restore_emu_state : EmuState → List EmuState → ℕ → Option EmuState
restore_emu_state es states id = do s ← get_elem? states id; copy_emu_state es s
