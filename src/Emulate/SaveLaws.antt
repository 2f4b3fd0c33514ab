-- ===== src/Emulate/SaveLaws.antt =====
-- The IDs of saved emulator states.
use dbrew.Prelude.{ℕ, suc, ◌+◌, ◌-◌, ◌≤◌, ◌<◌, ◌≡◌, refl, sym, ap, ◌∙◌, ◌⊎◌, inl, inr, true}
use dbrew.Prelude.{false, Option, none, some, List, [], ◌∷◌, ◌++◌, arith, leb, Bool-cases}
use dbrew.Prelude.{Option-cases, length, get_elem?, length-append}
use dbrew.Emulate.Saved.{savedstate_max, find_saved, SaveResult, saved, save_emu_state}
use dbrew.Emulate.SaveRestore.{IsStackValid, untouched, snapshot, clone_emu_state_lem}
use dbrew.Emulate.SaveRestore.{es_is_equal-clone}
use dbrew.Emulate.State.{Cell, EmuState, none_static, es_is_equal}

find_saved-some :
    (es : EmuState) (states : List EmuState) (k i : ℕ)
    → find_saved es states k ≡ some i
    → (k ≤ i)
      × (i - k < length states)
      × ((s : EmuState) × (get_elem? states (i - k) ≡ some s) × (es_is_equal es s ≡ true))
unfolding find_saved
find_saved-some es [] k i h = absurd (ground arith)
find_saved-some es (s ∷ ss) k i h = elim (Bool-cases (es_is_equal es s)) [
  | inl e ↦
      let z : i ≡ k = ground arith in
      let d : i - k ≡ 0 = omega arith in (omega arith, omega arith, (s, rw d refl, e))
  | inr e ↦
      let r = find_saved-some es ss (k + 1) i (ground arith) in
      let d : i - k ≡ suc (i - (k + 1)) = omega (arith, r.0) in
      (omega (arith, r.0), omega (arith, r.0, r.1), (r.2.0, rw d r.2.1, r.2.2))
]

find_saved-append :
    (es s : EmuState) (states : List EmuState) (k : ℕ)
    → find_saved es states k ≡ none
    → es_is_equal es s ≡ true
    → find_saved es (states ++ s ∷ []) k ≡ some (k + length states)
unfolding find_saved
find_saved-append es s [] k h e = rw e (ap some (omega arith))
find_saved-append es s (t ∷ ts) k h e = elim (Bool-cases (es_is_equal es t)) [
  | inl q ↦ absurd (ground arith)
  | inr q ↦ rw q (find_saved-append es s ts (k + 1) (ground arith) e ∙ ap some (omega arith))
]

get_elem?-append_last :
    (states : List EmuState) (s : EmuState) → get_elem? (states ++ s ∷ []) (length states) ≡ some s
get_elem?-append_last [] s = refl
get_elem?-append_last (t ∷ ts) s = get_elem?-append_last ts s

saved_injective :
    {i j : ℕ} {a b : List EmuState}
    → ◌≡◌ {A = Option SaveResult} (some (saved i a)) (some (saved j b))
    → (i ≡ j) × (a ≡ b)
saved_injective p = ground arith

leb-false : (a b : ℕ) → leb a b ≡ false → b < a
leb-false a b h = ground arith

module _ (junk : EmuState) (byte : Cell) (self : ℕ) (es : EmuState) (v : IsStackValid es)
    (e : es.parent ≡ some self) (h : none_static (untouched es) es.stack ≡ true) where
  abbrev snap : EmuState
  snap = snapshot junk self es

  save_new :
      (states : List EmuState)
      → find_saved es states 0 ≡ none
      → length states < savedstate_max
      → save_emu_state junk byte self es states ≡ some (saved (length states) (states ++ snap ∷ []))
  unfolding save_emu_state
  save_new states n l = ground (arith, clone_emu_state_lem junk byte self es v)

  snap_equal : es_is_equal es snap ≡ true
  snap_equal =
      let r = es_is_equal-clone junk byte self es v e h in
      let q : some r.0 ≡ some snap = sym r.1 ∙ clone_emu_state_lem junk byte self es v in
      rw (← some_eq q) r.2
    where
      some_eq : {a b : EmuState} → some a ≡ some b → a ≡ b
      some_eq p = cc

  find_cases :
      (states : List EmuState)
      → (find_saved es states 0 ≡ none) ⊎ ((i : ℕ) × (find_saved es states 0 ≡ some i))
  find_cases states = Option-cases (find_saved es states 0)

  save_found :
      (states : List EmuState) (i : ℕ)
      → find_saved es states 0 ≡ some i
      → save_emu_state junk byte self es states ≡ some (saved i states)
  unfolding save_emu_state
  save_found states i f = ground arith

  save_full :
      (states : List EmuState) (id : ℕ) (states' : List EmuState)
      → find_saved es states 0 ≡ none
      → leb savedstate_max (length states) ≡ true
      → save_emu_state junk byte self es states ≡ some (saved id states')
      → ⊥
  unfolding save_emu_state
  save_full states id states' n full p = ground arith

  -- Let a state have stack boundaries that fit, itself as its parent, and no static byte below the
  -- accessed part of its stack. If saving it gave an ID, then saving it once more gives the same ID
  -- and saves nothing new.
  pub save_emu_state_again :
      (states : List EmuState) (id : ℕ) (states' : List EmuState)
      → save_emu_state junk byte self es states ≡ some (saved id states')
      → save_emu_state junk byte self es states' ≡ some (saved id states')
  save_emu_state_again states id states' p = elim (find_cases states) [
    | inl n ↦ elim (Bool-cases (leb savedstate_max (length states))) [
      | inl full ↦ absurd (save_full states id states' n full p)
      | inr room ↦
          let q = saved_injective (sym p ∙ save_new states n (ground arith)) in
          rw (q.0, q.1)
            (save_found (states ++ snap ∷ []) (length states)
              (find_saved-append es snap states 0 n snap_equal ∙ ap some (omega arith)))
    ]
    | inr (i, f) ↦
        let q = saved_injective (sym p ∙ save_found states i f) in
        rw (q.0, q.1) (save_found states i f)
  ]

  -- Let a state have stack boundaries that fit, itself as its parent, and no static byte below the
  -- accessed part of its stack, and let at most 20 states be saved so far. After a save that is no
  -- error, the state with the returned ID equals the given one, there are at most 20 saved states,
  -- and the list of the saved states is as before or has this state as a further one at its end.
  pub save_emu_state_lem :
      (states : List EmuState) (id : ℕ) (states' : List EmuState)
      → length states ≤ savedstate_max
      → save_emu_state junk byte self es states ≡ some (saved id states')
      → (s : EmuState) × (get_elem? states' id ≡ some s)
        × (es_is_equal es s ≡ true)
        × (length states' ≤ savedstate_max)
        × ((states' ≡ states) ⊎ ((id ≡ length states) × (states' ≡ states ++ s ∷ [])))
  save_emu_state_lem states id states' hl p = elim (find_cases states) [
    | inl n ↦ elim (Bool-cases (leb savedstate_max (length states))) [
      | inl full ↦ absurd (save_full states id states' n full p)
      | inr room ↦
          let q = saved_injective (sym p ∙ save_new states n (ground arith)) in
          rw (q.0, q.1)
            (
              snap,
              get_elem?-append_last states snap,
              snap_equal,
              omega (
                arith,
                length-append states (snap ∷ []),
                leb-false savedstate_max (length states) room,
              ),
              inr (refl, refl),
            )
    ]
    | inr (j, f) ↦
        let q = saved_injective (sym p ∙ save_found states j f) in
        let r = find_saved-some es states 0 j f in
        rw (q.0, q.1) (r.2.0, ap (get_elem? states) (omega arith) ∙ r.2.1, r.2.2, hl, inl refl)
  ]
