-- ===== src/Config/Api.antt =====
-- src/config.c: the functions of the API. Each takes the configuration of the rewriter, none for
-- null, and returns the configuration afterwards; none is a failed assertion. An argument that is a
-- negative `int` fails the assertions on its range and is left out.
use dbrew.Prelude.{ℕ, Bool, true, Option, some, List, ◌∷◌, ltb, if◌then◌else◌, ◌>>=◌, ◌>>◌}
use dbrew.Prelude.{assert, get_elem?, set}
use dbrew.Codec.Base.{start}
use dbrew.Emulate.Meta.{cs_static2, init_meta_state}
use dbrew.Config.Ranges.{mr_constant_data, mr_mutable_data, cc_maxparam, cc_maxcalldepth}
use dbrew.Config.Ranges.{CaptureConfig, cc_new, cc_get, fc_get}

unfoldable pub dbrew_config_reset : Option CaptureConfig → Option CaptureConfig
dbrew_config_reset conf = some cc_new

unfoldable pub dbrew_config_staticpar : Option CaptureConfig → ℕ → Option CaptureConfig
unfolding cc_get
dbrew_config_staticpar conf pos = do
  let c = cc_get conf
  assert (ltb pos cc_maxparam)
  some (record c { par_state = set c.par_state pos (init_meta_state cs_static2) })

unfoldable pub dbrew_config_par_setname : Option CaptureConfig → ℕ → List ℕ → Option CaptureConfig
unfolding cc_get
dbrew_config_par_setname conf par name = do
  let c = cc_get conf
  assert (ltb par cc_maxparam)
  some (record c { par_name = set c.par_name par (some name) })

unfoldable pub dbrew_config_force_unknown : Option CaptureConfig → ℕ → Option CaptureConfig
unfolding cc_get
dbrew_config_force_unknown conf depth = do
  let c = cc_get conf
  assert (ltb depth cc_maxcalldepth)
  some (record c { force_unknown = set c.force_unknown depth true })

unfoldable pub dbrew_config_returnfp : Option CaptureConfig → Option CaptureConfig
unfolding cc_get
dbrew_config_returnfp conf = some (record (cc_get conf) { has_return_fp = true })

unfoldable pub dbrew_config_parcount : Option CaptureConfig → ℕ → Option CaptureConfig
unfolding cc_get
dbrew_config_parcount conf par_count = some (record (cc_get conf) { par_count = par_count })

unfoldable pub dbrew_config_branches_known : Option CaptureConfig → Bool → Option CaptureConfig
unfolding cc_get
dbrew_config_branches_known conf b = some (record (cc_get conf) { branches_known = b })

unfoldable pub dbrew_config_function_setname :
    Option CaptureConfig → ℕ → List ℕ → Option CaptureConfig
unfolding cc_get fc_get
dbrew_config_function_setname conf f name = do
  (i, c) ← fc_get (cc_get conf) f
  m ← get_elem? c.range_configs i
  some (record c { range_configs = set c.range_configs i (record m { name = some name }) })

unfoldable pub dbrew_config_function_setsize : Option CaptureConfig → ℕ → ℕ → Option CaptureConfig
unfolding cc_get fc_get
dbrew_config_function_setsize conf f size = do
  (i, c) ← fc_get (cc_get conf) f
  m ← get_elem? c.range_configs i
  some (record c { range_configs = set c.range_configs i (record m { size = size }) })

unfoldable pub dbrew_config_set_memrange :
    Option CaptureConfig → Option (List ℕ) → Bool → ℕ → ℕ → Option CaptureConfig
unfolding cc_get
dbrew_config_set_memrange conf name is_writable start size =
    let c = cc_get conf in
    let type = if is_writable then mr_mutable_data else mr_constant_data in
    some (record c {
      range_configs =
          record { type = type; name = name; start = start; size = size } ∷ c.range_configs;
    })
