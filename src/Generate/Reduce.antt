-- ===== src/Generate/Reduce.antt =====
-- src/generate.c: an immediate is shortened where its signed value fits. The returned pointer to a
-- static operand is that operand; what stood in it is `old`.
use dbrew.Prelude.{ℕ, ◌-◌, ◌%◌, ◌^◌, Bool, ◌&&◌, ◌||◌, ltb, if◌then◌else◌, ◌is◌}
use dbrew.Instr.Kinds.{ot_imm8, ot_imm16, ot_imm32, ot_imm64, ot_enum}
use dbrew.Instr.Types.{Operand}

-- `(v > -(1 << k)) && (v < (1 << k))` for the signed reading of a pattern of `w` bits.
abbrev pub in_open_range : ℕ → ℕ → ℕ → Bool
in_open_range w k v = ltb v (2 ^ k) || (ltb (2 ^ w - 2 ^ k) v && ltb v (2 ^ w))

unfoldable pub reduce_imm64_to32 : Operand → Operand → Operand
reduce_imm64_to32 old o =
    if o.type is ot_imm64
    then (if in_open_range 64 31 o.val
        then record old { type = ot_imm32; val = o.val % 2 ^ 32 }
        else o)
    else o

unfoldable pub reduce_imm16_to8 : Operand → Operand → Operand
reduce_imm16_to8 old o =
    if o.type is ot_imm16
    then (if in_open_range 16 7 (o.val % 2 ^ 16)
        then record old { type = ot_imm8; val = o.val % 2 ^ 8 }
        else o)
    else o

unfoldable pub reduce_imm32_to8 : Operand → Operand → Operand
reduce_imm32_to8 old o =
    if o.type is ot_imm32
    then (if in_open_range 32 7 (o.val % 2 ^ 32)
        then record old { type = ot_imm8; val = o.val % 2 ^ 8 }
        else o)
    else o
