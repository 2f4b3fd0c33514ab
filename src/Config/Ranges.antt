-- ===== src/Config/Ranges.antt =====
-- include/priv/common.h and src/config.c: the configuration and its list of memory ranges.
use dbrew.Prelude.{ℕ, zero, suc, ◌+◌, ◌-◌, ◌%◌, ◌^◌, ◌≡◌, refl, Bool, false, ◌&&◌, ◌||◌, Option}
use dbrew.Prelude.{none, some, List, [], ◌∷◌, ltb, ◌==◌, if◌then◌else◌, ◌>>=◌, ◌>>◌, assert}
use dbrew.Prelude.{get_elem?, replicate, Enum, ◌is◌}
use dbrew.Emulate.Meta.{cs_dynamic, MetaState, init_meta_state}

-- `MemRangeType`, numbered as in C.
pub data MemRangeType : Type 0 where
  mr_unknown mr_invalid mr_constant_data mr_mutable_data mr_function : MemRangeType

abbrev pub mr_code : MemRangeType → ℕ
mr_code mr_unknown = 0
mr_code mr_invalid = 1
mr_code mr_constant_data = 2
mr_code mr_mutable_data = 3
mr_code mr_function = 4

pub mr_of_code : ℕ → MemRangeType
mr_of_code zero = mr_unknown
mr_of_code (suc zero) = mr_invalid
mr_of_code (suc (suc zero)) = mr_constant_data
mr_of_code (suc (suc (suc zero))) = mr_mutable_data
mr_of_code _ = mr_function

pub mr_of_code-code : (t : MemRangeType) → mr_of_code (mr_code t) ≡ t
unfolding mr_of_code
mr_of_code-code mr_unknown = refl
mr_of_code-code mr_invalid = refl
mr_of_code-code mr_constant_data = refl
mr_of_code-code mr_mutable_data = refl
mr_of_code-code mr_function = refl

instance abbrev pub mr_enum : Enum MemRangeType
mr_enum = record { code = mr_code; of_code = mr_of_code; of_code-code = mr_of_code-code }

-- `MemRangeConfig` and `FunctionConfig`, which add nothing to each other. The chain of `next` is a
-- list, `cc` the configuration that the list stands in. A name is the list of its characters, or
-- none for null; `size` is the `int` extended to the 64 bits in which it is added to `start`.
pub record MemRangeConfig : Type 0 where
  pub type : MemRangeType
  pub name : Option (List ℕ)
  pub start : ℕ
  pub size : ℕ

-- CC_MAXPARAM, CC_MAXCALLDEPTH.
abbrev pub cc_maxparam : ℕ
cc_maxparam = 6

abbrev pub cc_maxcalldepth : ℕ
cc_maxcalldepth = 5

-- `CaptureConfig`. `par_count` is a 32-bit `int`.
pub record CaptureConfig : Type 0 where
  pub par_state : List MetaState
  pub par_name : List (Option (List ℕ))
  pub has_return_fp : Bool
  pub par_count : ℕ
  pub force_unknown : List Bool
  pub branches_known : Bool
  pub range_configs : List MemRangeConfig

-- `cc_new` with `cc_init`; -1 parameters stand for an unknown number.
unfoldable pub cc_new : CaptureConfig
cc_new = record {
  par_state = replicate cc_maxparam (init_meta_state cs_dynamic);
  par_name = replicate cc_maxparam none;
  has_return_fp = false;
  par_count = 2 ^ 32 - 1;
  force_unknown = replicate cc_maxcalldepth false;
  branches_known = false;
  range_configs = [];
}

-- The configuration of a rewriter is none for null.
unfoldable pub cc_get : Option CaptureConfig → CaptureConfig
unfolding cc_new
cc_get none = cc_new
cc_get (some conf) = conf

-- The test in the loop of `mrc_find`.
unfoldable pub mrc_matches : MemRangeType → ℕ → MemRangeConfig → Bool
mrc_matches type addr m =
    (type is mr_unknown || m.type is type)
    && (addr == m.start || ltb m.start addr && ltb addr ((m.start + m.size) % 2 ^ 64))

-- The position of the first match.
unfoldable pub mrc_find : List MemRangeConfig → MemRangeType → ℕ → Option ℕ
mrc_find [] type addr = none
mrc_find (m ∷ ms) type addr =
    if mrc_matches type addr m then some 0 else (do i ← mrc_find ms type addr; some (suc i))

-- The position of the function's configuration in the list, which has grown if there was none.
unfoldable pub fc_get : CaptureConfig → ℕ → Option (ℕ × CaptureConfig)
unfolding mrc_find
fc_get conf func = elim (mrc_find conf.range_configs mr_function func) [
  | some i ↦ do m ← get_elem? conf.range_configs i; assert (m.type is mr_function); some (i, conf)
  | none ↦ some (
    0,
    record conf {
      range_configs =
          record { type = mr_function; name = none; start = func; size = 0 } ∷ conf.range_configs;
    },
  )
]

unfoldable pub config_find_function : Option CaptureConfig → ℕ → Option ℕ
unfolding cc_get mrc_find
config_find_function conf f = mrc_find (cc_get conf).range_configs mr_function f
