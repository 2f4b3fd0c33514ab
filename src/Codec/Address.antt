-- ===== src/Codec/Address.antt =====
-- Memory operands that an x86-64 encoding can hold, and when two of them are the same.
use dbrew.Prelude.{ℕ, ◌+◌, ◌<◌, bit_and, ◌≡◌, ◌≢◌, ◌⊎◌, false, Option, some, List, ◌∷◌, ◌++◌}
use dbrew.Prelude.{arith, leb, ◌!=◌, ◌is◌}
use dbrew.Codec.Disp.{IsDisp}
use dbrew.Codec.Parse.{split_fields}
use dbrew.Codec.Base.{IsGp64, fields, rex_if_high, IsScale}
use dbrew.Decode.Modrm.{parse_reg_type, parse_ind_type, parse_o2, parse_plain, parse_with_sib}
use dbrew.Decode.Modrm.{parse_modrm}
use dbrew.Decode.Context.{DContext}
use dbrew.Instr.Kinds.{rt_none, ValType, vt_none, vt_enum, OpType}
use dbrew.Instr.Types.{Reg, Operand}
use dbrew.Generate.Context.{GContext}
use dbrew.Prelude.Table.{bit_and_8}

-- A base register or none, a scaled index other than `rsp` or none, a 32-bit displacement.
pub record IsAddress (o : Operand) : Type 0 where
  pub disp : IsDisp o.val
  pub base : (o.reg.rt ≡ rt_none) ⊎ IsGp64 o.reg
  pub index : (o.scale ≡ 0) ⊎ (IsScale o.scale × IsGp64 o.ireg × (o.ireg.ri ≢ 4))

-- A register of no type has no index that counts.
abbrev pub SameReg : Reg → Reg → Type 0
SameReg a b = (a.rt ≡ b.rt) × ((a.rt ≡ rt_none) ⊎ (a.ri ≡ b.ri))

-- The index register counts only with a scale.
pub record SameAddress (o o' : Operand) : Type 0 where
  pub type_eq : o.type ≡ o'.type
  pub seg_eq : o.seg ≡ o'.seg
  pub val_eq : o.val ≡ o'.val
  pub scale_eq : o.scale ≡ o'.scale
  pub reg_eq : SameReg o.reg o'.reg
  pub ireg_eq : (o.scale ≡ 0) ⊎ SameReg o.ireg o'.ireg

-- The decoder at the bytes that the generator produced, behind the prefixes that it asks for.
abbrev pub feed : DContext → GContext → List ℕ → DContext
feed x c tail = record x { rex = c.rex; seg_ov = c.so; rest = c.b ++ tail }

-- A REX prefix before the base and the index are known: R and W only.
abbrev pub IsRexRw : ℕ → Type 0
IsRexRw rex = (rex ≡ 0) ⊎ (rex ≡ 4) ⊎ (rex ≡ 8) ⊎ (rex ≡ 12)

pub rex_bits-indexed :
    (rex r i : ℕ)
    → IsRexRw rex
    → r < 16
    → i < 16
    → let rex' = rex_if_high r 1 (rex_if_high i 2 rex) in
      ((bit_and rex' 1 != 0) ≡ leb 8 r)
      × ((bit_and rex' 2 != 0) ≡ leb 8 i)
      × (bit_and rex' 4 ≡ bit_and rex 4)
      × (bit_and rex' 8 ≡ bit_and rex 8)
rex_bits-indexed rex r i h hr hi = ground (arith, bit_and_8 r, bit_and_8 i)

pub rex_bits-base :
    (rex r : ℕ)
    → IsRexRw rex
    → r < 16
    → let rex' = rex_if_high r 1 rex in
      ((bit_and rex' 1 != 0) ≡ leb 8 r)
      × (bit_and rex' 2 ≡ 0)
      × (bit_and rex' 4 ≡ bit_and rex 4)
      × (bit_and rex' 8 ≡ bit_and rex 8)
rex_bits-base rex r h hr = ground (arith, bit_and_8 r)

pub rex_bits-index :
    (rex i : ℕ)
    → IsRexRw rex
    → i < 16
    → let rex' = rex_if_high i 2 rex in
      ((bit_and rex' 2 != 0) ≡ leb 8 i)
      × (bit_and rex' 4 ≡ bit_and rex 4)
      × (bit_and rex' 8 ≡ bit_and rex 8)
rex_bits-index rex i h hi = ground (arith, bit_and_8 i)

pub rex_bits-none : (rex : ℕ) → IsRexRw rex → bit_and rex 2 ≡ 0
rex_bits-none rex h = ground arith

-- The shared part of `parseModRM` on memory: type tables and the register part are given.
module _ (vt : ValType) (rts : ℕ) (rot iot : OpType) (reg_ok : parse_reg_type vt rts ≡ some rot)
    (ind_ok : parse_ind_type vt rts ≡ some iot) where
  vt_ne_none : (vt is vt_none) ≡ false
  unfolding parse_ind_type
  vt_ne_none = ground arith

  pub parse_modrm-plain :
      (x c2 : DContext) (m d r : ℕ) (rest : List ℕ) (o1 o1' : Operand) (o2 o2' : Option Operand)
      → m < 3
      → d < 8
      → r < 8
      → r ≢ 4
      → x.rest ≡ fields m d r ∷ rest
      → parse_o2 (record x { rest = rest; off = x.off + 1 }) vt rts rot d o2 ≡ some o2'
      → parse_plain (record x { rest = rest; off = x.off + 1 }) iot m r o1 ≡ some (o1', c2)
      → parse_modrm x vt rts o1 o2 ≡ some (record { cxt = c2; o1 = o1'; o2 = o2'; digit = d })
  unfolding parse_modrm
  parse_modrm-plain x c2 m d r rest o1 o1' o2 o2' hm hd hr h4 e p2 p1 =
      ground (arith, split_fields m d r, vt_ne_none)

  pub parse_modrm-sib :
      (x c2 : DContext) (m d : ℕ) (rest : List ℕ) (o1 o1' : Operand) (o2 o2' : Option Operand)
      → m < 3
      → d < 8
      → x.rest ≡ fields m d 4 ∷ rest
      → parse_o2 (record x { rest = rest; off = x.off + 1 }) vt rts rot d o2 ≡ some o2'
      → parse_with_sib (record x { rest = rest; off = x.off + 1 }) iot m o1 ≡ some (o1', c2)
      → parse_modrm x vt rts o1 o2 ≡ some (record { cxt = c2; o1 = o1'; o2 = o2'; digit = d })
  unfolding parse_modrm
  parse_modrm-sib x c2 m d rest o1 o1' o2 o2' hm hd e p2 p1 =
      ground (arith, split_fields m d 4, vt_ne_none)
