-- ===== src/Config/Laws.antt =====
-- What the configured functions and ranges are found as.
use dbrew.Prelude.{ℕ, suc, ◌≡◌, refl, ◌∙◌, inl, inr, Bool, true, false, Option, none, some}
use dbrew.Prelude.{List, [], ◌∷◌, arith, Bool-cases, ◌>>=◌, Option-cases, get_elem?, set}
use dbrew.Prelude.{◌is◌}
use dbrew.Codec.Base.{start}
use dbrew.Config.Ranges.{MemRangeType, mr_unknown, mr_function, mr_enum, MemRangeConfig}
use dbrew.Config.Ranges.{CaptureConfig, cc_get, mrc_matches, mrc_find, fc_get}
use dbrew.Config.Ranges.{config_find_function}
use dbrew.Config.Api.{dbrew_config_function_setname, dbrew_config_set_memrange}

-- A found position holds a match, and replacing it by a match keeps it found.
find_facts :
    (ms : List MemRangeConfig) (t : MemRangeType) (a i : ℕ)
    → mrc_find ms t a ≡ some i
    → (m : MemRangeConfig) × (get_elem? ms i ≡ some m) × (mrc_matches t a m ≡ true)
unfolding mrc_find
find_facts [] t a i h = absurd (ground arith)
find_facts (m ∷ ms) t a i h = elim (Bool-cases (mrc_matches t a m)) [
  | inl e ↦ let z : i ≡ 0 = ground arith in (m, rw z refl, e)
  | inr e ↦ elim (Option-cases (mrc_find ms t a)) [
    | inl n ↦ absurd (ground arith)
    | inr (j, p) ↦
        let z : i ≡ suc j = ground arith in let r = find_facts ms t a j p in (r.0, rw z r.1, r.2)
  ]
]

find_replaced :
    (ms : List MemRangeConfig) (t : MemRangeType) (a i : ℕ) (m : MemRangeConfig)
    → mrc_find ms t a ≡ some i
    → mrc_matches t a m ≡ true
    → (mrc_find (set ms i m) t a ≡ some i) × (get_elem? (set ms i m) i ≡ some m)
unfolding mrc_find
find_replaced [] t a i m h e = absurd (ground arith)
find_replaced (x ∷ ms) t a i m h e = elim (Bool-cases (mrc_matches t a x)) [
  | inl q ↦ let z : i ≡ 0 = ground arith in rw z (rw e refl, refl)
  | inr q ↦ elim (Option-cases (mrc_find ms t a)) [
    | inl n ↦ absurd (ground arith)
    | inr (j, p) ↦
        let z : i ≡ suc j = ground arith in
        let r = find_replaced ms t a j m p e in rw z (rw (q, r.0) refl, r.1)
  ]
]

renamed_matches :
    (t : MemRangeType) (a : ℕ) (m : MemRangeConfig) (n : List ℕ)
    → mrc_matches t a (record m { name = some n }) ≡ mrc_matches t a m
unfolding mrc_matches
renamed_matches t a m n = refl

matches_type :
    (a : ℕ) (m : MemRangeConfig)
    → mrc_matches mr_function a m ≡ true
    → (m.type is mr_function) ≡ true
unfolding mrc_matches
matches_type a m h = ground arith

-- The configuration of a function that was not found.
abbrev fresh : ℕ → Option (List ℕ) → MemRangeConfig
fresh f name = record { type = mr_function; name = name; start = f; size = 0 }

fresh_matches : (f : ℕ) (n : Option (List ℕ)) → mrc_matches mr_function f (fresh f n) ≡ true
unfolding mrc_matches
fresh_matches f n = ground arith

fresh_first :
    (f : ℕ) (n : Option (List ℕ)) (ms : List MemRangeConfig)
    → mrc_find (fresh f n ∷ ms) mr_function f ≡ some 0
unfolding mrc_find
fresh_first f n ms = rw (fresh_matches f n) refl

fc_get_new :
    (c : CaptureConfig) (f : ℕ)
    → mrc_find c.range_configs mr_function f ≡ none
    → fc_get c f ≡ some (0, record c { range_configs = fresh f none ∷ c.range_configs })
unfolding fc_get
fc_get_new c f n = ground (arith, n)

fc_get_old :
    (c : CaptureConfig) (f i : ℕ)
    → mrc_find c.range_configs mr_function f ≡ some i
    → fc_get c f ≡ some (i, c)
unfolding fc_get
fc_get_old c f i p =
    let r = find_facts c.range_configs mr_function f i p in
    let e = r.1 in let t = matches_type f r.0 r.2 in ground (arith, p, e, t)

-- Whatever is configured already, naming a function succeeds, and the function is found afterwards:
-- by a configuration that has the name and covers the address.
pub config_find_function-dbrew_config_function_setname :
    (conf : Option CaptureConfig) (f : ℕ) (name : List ℕ)
    → (c : CaptureConfig) × (dbrew_config_function_setname conf f name ≡ some c)
      × ((i : ℕ) × (m : MemRangeConfig) × (config_find_function (some c) f ≡ some i)
          × (get_elem? c.range_configs i ≡ some m)
          × (mrc_matches mr_function f m ≡ true)
          × (m.name ≡ some name))
unfolding dbrew_config_function_setname config_find_function cc_get
config_find_function-dbrew_config_function_setname conf f name =
    let c = cc_get conf in
    elim (Option-cases (mrc_find c.range_configs mr_function f)) [
      | inl n ↦ (
        record c { range_configs = fresh f (some name) ∷ c.range_configs },
        rw (fc_get_new c f n) refl,
        (
          0,
          fresh f (some name),
          fresh_first f (some name) c.range_configs,
          refl,
          fresh_matches f (some name),
          refl,
        ),
      )
      | inr (i, p) ↦
          let r = find_facts c.range_configs mr_function f i p in
          let m : MemRangeConfig = record (r.0) { name = some name } in
          let q =
            find_replaced c.range_configs mr_function f i m p
              (renamed_matches mr_function f r.0 name ∙ r.2) in
          (
            record c { range_configs = set c.range_configs i m },
            rw (fc_get_old c f i p, r.1) refl,
            (i, m, q.0, q.1, renamed_matches mr_function f r.0 name ∙ r.2, refl),
          )
    ]

-- Configuring a range of data succeeds; the range is found at its start before all others, and a
-- function is found exactly if it was found before, by the same configuration.
pub config_find_function-dbrew_config_set_memrange :
    (conf : Option CaptureConfig) (name : Option (List ℕ)) (w : Bool) (start size f : ℕ)
    → (c : CaptureConfig) × (dbrew_config_set_memrange conf name w start size ≡ some c)
      × (mrc_find c.range_configs mr_unknown start ≡ some 0)
      × (config_find_function (some c) f ≡ (do i ← config_find_function conf f; some (suc i)))
      × ((i : ℕ) → get_elem? c.range_configs (suc i) ≡ get_elem? (cc_get conf).range_configs i)
unfolding dbrew_config_set_memrange config_find_function cc_get mrc_find mrc_matches
config_find_function-dbrew_config_set_memrange conf name true start size f =
    (_, refl, ground arith, ground arith, λ i. refl)
config_find_function-dbrew_config_set_memrange conf name false start size f =
    (_, refl, ground arith, ground arith, λ i. refl)
