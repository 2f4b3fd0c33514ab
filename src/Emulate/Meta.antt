-- ===== src/Emulate/Meta.antt =====
-- include/priv/common.h and src/emulate.c: capture states and values with a state.
use dbrew.Prelude.{ℕ, zero, suc, ◌≡◌, refl, Bool, true, false, ◌&&◌, ◌||◌, Option, none}
use dbrew.Prelude.{if◌then◌else◌, Enum, ◌is◌}
use dbrew.Instr.Kinds.{ValType}

-- `CaptureState`, numbered as in C; `CS_Max` is left out.
pub data CaptureState : Type 0 where
  cs_dead cs_dynamic cs_static cs_stackrelative cs_static2 : CaptureState

abbrev pub cs_code : CaptureState → ℕ
cs_code cs_dead = 0
cs_code cs_dynamic = 1
cs_code cs_static = 2
cs_code cs_stackrelative = 3
cs_code cs_static2 = 4

pub cs_of_code : ℕ → CaptureState
cs_of_code zero = cs_dead
cs_of_code (suc zero) = cs_dynamic
cs_of_code (suc (suc zero)) = cs_static
cs_of_code (suc (suc (suc zero))) = cs_stackrelative
cs_of_code _ = cs_static2

pub cs_of_code-code : (s : CaptureState) → cs_of_code (cs_code s) ≡ s
unfolding cs_of_code
cs_of_code-code cs_dead = refl
cs_of_code-code cs_dynamic = refl
cs_of_code-code cs_static = refl
cs_of_code-code cs_stackrelative = refl
cs_of_code-code cs_static2 = refl

instance abbrev pub cs_enum : Enum CaptureState
cs_enum = record { code = cs_code; of_code = cs_of_code; of_code-code = cs_of_code-code }

-- `MetaState`. A pointer to a node of the expression pool is its index, or none for null.
pub record MetaState : Type 0 where
  pub c_state : CaptureState
  pub range : Option ℕ
  pub par_dep : Option ℕ

abbrev pub init_meta_state : CaptureState → MetaState
init_meta_state cs = record { c_state = cs; range = none; par_dep = none }

unfoldable pub cs_is_static : CaptureState → Bool
cs_is_static cs = if cs is cs_static || cs is cs_static2 then true else false

unfoldable pub ms_is_static : MetaState → Bool
ms_is_static ms = if ms.c_state is cs_static || ms.c_state is cs_static2 then true else false

unfoldable pub ms_is_dynamic : MetaState → Bool
ms_is_dynamic ms = if ms.c_state is cs_dynamic then true else false

-- `EmuValue`.
pub record EmuValue : Type 0 where
  pub val : ℕ
  pub type : ValType
  pub state : MetaState

unfoldable pub emu_value : ℕ → ValType → MetaState → EmuValue
emu_value v t s = record { val = v; type = t; state = s }

unfoldable pub static_emu_value : ℕ → ValType → EmuValue
static_emu_value v t = record { val = v; type = t; state = init_meta_state cs_static }

-- `combineState`: of two parts of one value, or of two values that an operation combines.
unfoldable pub combine_state : CaptureState → CaptureState → Bool → CaptureState
unfolding cs_is_static
combine_state s1 s2 is_same_value =
    if s1 is cs_dead || s2 is cs_dead
    then cs_dead
    else if cs_is_static s1 && cs_is_static s2
    then (if s1 is cs_static2 || s2 is cs_static2 then cs_static2 else cs_static)
    else if is_same_value
    then (if s1 is cs_stackrelative && s2 is cs_stackrelative then cs_stackrelative else cs_dynamic)
    else if s1 is cs_stackrelative && cs_is_static s2
    then cs_stackrelative
    else if cs_is_static s1 && s2 is cs_stackrelative
    then cs_stackrelative
    else cs_dynamic

unfoldable pub combine_state4_flags : CaptureState → CaptureState → CaptureState
unfolding combine_state
combine_state4_flags s1 s2 =
    let s = combine_state s1 s2 false in
    let s' = if s is cs_stackrelative then cs_dynamic else s in
    if s' is cs_static2 then cs_static else s'
