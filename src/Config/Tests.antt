-- ===== src/Config/Tests.antt =====
-- A configured function.
use dbrew.Prelude.{ℕ, suc, ◌≡◌, true, none, some, [], ◌∷◌, ◌>>=◌, get_elem?}
use dbrew.Config.Ranges.{mr_unknown, mr_function, MemRangeConfig, CaptureConfig, cc_get}
use dbrew.Config.Ranges.{mrc_matches, mrc_find, config_find_function}
use dbrew.Config.Laws.{config_find_function-dbrew_config_function_setname}
use dbrew.Config.Laws.{config_find_function-dbrew_config_set_memrange}
use dbrew.Config.Api.{dbrew_config_function_setname, dbrew_config_set_memrange}

config_find_function-dbrew_config_function_setname_example :
    (c : CaptureConfig) × (dbrew_config_function_setname none 4096 (97 ∷ []) ≡ some c)
    × ((i : ℕ) × (m : MemRangeConfig) × (config_find_function (some c) 4096 ≡ some i)
        × (get_elem? c.range_configs i ≡ some m)
        × (mrc_matches mr_function 4096 m ≡ true)
        × (m.name ≡ some (97 ∷ [])))
config_find_function-dbrew_config_function_setname_example =
    config_find_function-dbrew_config_function_setname none 4096 (97 ∷ [])

config_find_function-dbrew_config_set_memrange_example :
    (c : CaptureConfig) × (dbrew_config_set_memrange none none true 8192 64 ≡ some c)
    × (mrc_find c.range_configs mr_unknown 8192 ≡ some 0)
    × (config_find_function (some c) 4096 ≡ (do i ← config_find_function none 4096; some (suc i)))
    × ((i : ℕ) → get_elem? c.range_configs (suc i) ≡ get_elem? (cc_get none).range_configs i)
config_find_function-dbrew_config_set_memrange_example =
    config_find_function-dbrew_config_set_memrange none none true 8192 64 4096
