-- ===== src/Capture/Types.antt =====
-- include/priv/error.h and include/priv/common.h: errors, captured blocks and the rewriter.
use dbrew.Prelude.{ℕ, Bool, Option, List}
use dbrew.Emulate.Operand.{World}
use dbrew.Emulate.State.{Cell, EmuState}
use dbrew.Config.Ranges.{CaptureConfig}
use dbrew.Instr.Mnemonics.{InstrType}
use dbrew.Instr.Types.{Instr}

-- `ErrorModule`, without `EM_Max`.
pub data ErrorModule : Type 0 where
  em_unknown em_decoder em_emulator em_generator em_capture em_rewriter : ErrorModule

-- `ErrorType`, without `ET_Max`.
pub data ErrorType : Type 0 where
  et_no_error et_unknown et_invalid_request et_buffer_overflow et_unsupported_instr : ErrorType
  et_unsupported_operands et_bad_prefix et_bad_opcode et_bad_operands : ErrorType

-- `Error`, without its text.
pub record Error : Type 0 where
  pub em : ErrorModule
  pub et : ErrorType

unfoldable pub set_error : ErrorType → ErrorModule → Error
set_error et em = record { em = em; et = et }

-- `CBB`. A pointer to a block, an instruction or a function configuration is its position, or none
-- for null; `es_id` is none for -1, and so is `size`. `generatorData` is used by other backends.
pub record Cbb : Type 0 where
  pub dec_addr : ℕ
  pub es_id : Option ℕ
  pub fc : Option ℕ
  pub count : ℕ
  pub instr : Option ℕ
  pub next_branch : Option ℕ
  pub next_fall_through : Option ℕ
  pub end_type : InstrType
  pub prefer_branch : Bool
  pub size : Option ℕ
  pub addr1 : ℕ
  pub addr2 : ℕ
  pub gen_jcc8 : Bool
  pub gen_jump : Bool

-- CAPTURESTACK_LEN.
abbrev pub capturestack_len : ℕ
capturestack_len = 20

-- The members of `Rewriter` that capturing works on, with the `RContext` that points to it. The
-- array of captured instructions and the one of captured blocks hold their counted entries; the
-- capture stack has its top first. `junk` is what an allocated instruction held before, `es_self`
-- the address of the emulator state. `returned` says that `es->depth` is -1, with `depth` left at 0.
pub record RContext : Type 0 where
  pub cap_instr : List Instr
  pub cap_instr_capacity : ℕ
  pub cap_bb : List Cbb
  pub cap_bb_capacity : ℕ
  pub current_cap_bb : Option ℕ
  pub cap_stack : List ℕ
  pub world : World
  pub es_self : ℕ
  pub saved_state : List EmuState
  pub cc : Option CaptureConfig
  pub add_inlining_hints : Bool
  pub junk : Instr
  pub junk_es : EmuState
  pub junk_cell : Cell
  pub e : Option Error
  pub exit : ℕ
  pub returned : Bool
