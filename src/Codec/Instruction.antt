-- ===== src/Codec/Instruction.antt =====
-- A whole instruction of the generator, read by the decoder: prefixes, opcode and operands.
use dbrew.Prelude.{ℕ, ◌+◌, ◌%◌, ◌<◌, bit_and, ◌≡◌, refl, sym, ◌∙◌, ◌⊎◌, inl, inr, true, false}
use dbrew.Prelude.{Option, some, List, ◌∷◌, ◌++◌, arith, ◌!=◌, length, length-append, ◌is◌}
use mathlib.Core.Path.{subst}
use dbrew.Codec.Address.{IsAddress, feed}
use dbrew.Codec.RoundTrip.{w_bit, w_bit-w, calc_modrm-memory}
use dbrew.Codec.Emitted.{operand_size, gen_modrm-emit, at_opcode, behind_opcode, emitted}
use dbrew.Codec.Prefixes.{IsNoPrefix}
use dbrew.Codec.Memory.{ReadsBack}
use dbrew.Codec.TwoOperands.{IsGpOperand, ind_facts}
use dbrew.Decode.Modrm.{Parsed, parse_ind_type, parse_modrm}
use dbrew.Decode.Handlers.{prefix_type}
use dbrew.Decode.Context.{DContext, next}
use dbrew.Decode.Prefix.{decode_prefixes}
use dbrew.Instr.Kinds.{ValType, vt_16, vt_32, vt_64, vt_implicit, vt_enum}
use dbrew.Instr.Kinds.{vex_no}
use dbrew.Instr.Types.{Operand, ps_66}
use dbrew.Instr.Operands.{op_is_ind}
use dbrew.Generate.Modrm.{calc_modrm}
use dbrew.Generate.Context.{GContext}
use dbrew.Generate.Prefix.{gen_modrm}

-- What the decoder makes of the bytes of an instruction with one opcode byte, a memory operand and a
-- register, where `parse` is the handler of the operands. It works with the operand type that the
-- prefixes give.
pub record InstrReadsBack (o1 o2 old2 : Operand) (parse : DContext → ValType → Option Parsed)
    (opc ps : ℕ) (bytes : List ℕ) (x : DContext) (tail : List ℕ) : Type 0 where
  pub at : DContext
  pub prefixes : decode_prefixes (record x { rest = bytes ++ tail }) ≡ some at
  pub ps_eq : at.ps ≡ ps
  pub behind : DContext
  pub opcode : next at ≡ some (opc, behind)
  pub operands :
      ReadsBack o1
        (o2.reg.ri % 8)
        (some (record old2 { type = o2.type; reg = o2.reg }))
        tail
        (x.off + length bytes)
        (parse behind (prefix_type behind))

-- The operand type of the prefixes: REX.W for 64 bits, 66 for 16 bits.
pub prefix_type_lem :
    (c : DContext) (vt : ValType)
    → (vt ≡ vt_16) ⊎ (vt ≡ vt_32) ⊎ (vt ≡ vt_64)
    → bit_and c.rex 8 ≡ w_bit vt
    → (bit_and c.ps ps_66 != 0) ≡ (vt is vt_16)
    → prefix_type c ≡ vt
unfolding prefix_type
prefix_type_lem c vt (inl e) w p = let z = rw e at p in rw (z, e) refl
prefix_type_lem c vt (inr (inl e)) w p = let z = rw e at p in let y = rw e at w in rw (z, y, e) refl
prefix_type_lem c vt (inr (inr e)) w p = let z = rw e at p in let y = rw e at w in rw (z, y, e) refl

-- The operands read back wherever the decoder stands.
calc_modrm-memory_at :
    (c code : GContext) (o1 o2 old1 old2 : Operand) (vt : ValType) (x : DContext) (tail : List ℕ)
    → c.rex ≡ 0
    → op_is_ind o1 ≡ true
    → IsAddress o1
    → parse_ind_type vt 0 ≡ some o1.type
    → IsGpOperand vt o2
    → calc_modrm c o1 o2 ≡ some code
    → ReadsBack o1
        (o2.reg.ri % 8)
        (some (record old2 { type = o2.type; reg = o2.reg }))
        tail
        (x.off + length code.b)
        (parse_modrm (feed x code tail) vt 0 old1 (some old2))
calc_modrm-memory_at c code o1 o2 old1 old2 vt x tail hc hi ha ind_ok h2 e =
    let r = calc_modrm-memory c o1 o2 old1 old2 vt x tail hc hi ha ind_ok h2 in
    let z : r.code ≡ code = some_injective (sym r.encodes ∙ e) in
    subst
      (λ g.
        ReadsBack o1 (o2.reg.ri % 8) (some (record old2 { type = o2.type; reg = o2.reg })) tail
          (x.off + length g.b) (parse_modrm (feed x g tail) vt 0 old1 (some old2)))
      z r.back
  where
    some_injective : {a b : GContext} → some a ≡ some b → a ≡ b
    some_injective p = cc

-- An instruction of a memory operand and a 16-, 32- or 64-bit general purpose register, with a one
-- byte opcode that is no prefix and any of the prefixes 66, F2 and F3, with 66 exactly for 16 bits:
-- `genModRM` succeeds, and on
-- its bytes `decodePrefixes` finds these prefixes and stops at the opcode, behind which
-- `parseModRM` gives back both operands and stops at the end of the instruction.
pub decode-gen_modrm :
    (c : GContext) (opc : ℕ) (o1 o2 old1 old2 : Operand) (vt gvt : ValType) (flags : ℕ)
    → (x : DContext) (tail : List ℕ) → c.rex ≡ 0
    → c.vp ≡ vex_no
    → c.ps < 16
    → c.ps % 2 ≡ 0
    → opc < 256
    → IsNoPrefix opc
    → (gvt is vt_implicit) ≡ false
    → op_is_ind o1 ≡ true
    → IsAddress o1
    → parse_ind_type vt 0 ≡ some o1.type
    → IsGpOperand vt o2
    → (bit_and (operand_size c.ps o1 flags) ps_66 != 0) ≡ (vt is vt_16)
    → (c' : GContext) × (bytes : List ℕ) × (gen_modrm c opc o1 o2 gvt flags ≡ some (c', bytes))
      × InstrReadsBack o1 o2 old2
          (λ y t. parse_modrm y t 0 old1 (some old2))
          opc
          (operand_size c.ps o1 flags)
          bytes
          x
          tail
unfolding next
decode-gen_modrm c opc o1 o2 old1 old2 vt gvt flags x tail hc hv hp he ho hb hg hi ha ind_ok h2 hs =
    let r = calc_modrm-memory c o1 o2 old1 old2 vt x tail hc hi ha ind_ok h2 in
    let code = r.code in
    let ps = operand_size c.ps o1 flags in
    let e =
      emitted c code opc o1 flags vt x tail hv hp he r.keeps (ind_facts vt o1 hi ind_ok) ho hb in
    let behind = behind_opcode x code ps e.prefix tail in
    let back =
      calc_modrm-memory_at c code o1 o2 old1 old2 vt behind tail hc hi ha ind_ok h2 r.encodes in
    (
      e.after,
      e.prefix ++ opc ∷ code.b,
      gen_modrm-emit c code opc o1 o2 gvt flags r.encodes hg ∙ e.emits,
      record {
        at = at_opcode x code opc ps e.prefix tail;
        prefixes = e.prefixes;
        ps_eq = refl;
        behind = behind;
        opcode = refl;
        operands =
            subst
              (λ t.
                ReadsBack o1 (o2.reg.ri % 8) (some (record old2 { type = o2.type; reg = o2.reg }))
                  tail (x.off + length (e.prefix ++ opc ∷ code.b))
                  (parse_modrm behind t 0 old1 (some old2)))
              (sym (prefix_type_lem behind vt h2.width (r.w_eq ∙ w_bit-w vt) hs))
              (subst
                (λ n.
                  ReadsBack o1 (o2.reg.ri % 8) (some (record old2 { type = o2.type; reg = o2.reg }))
                    tail n (parse_modrm behind vt 0 old1 (some old2)))
                (omega (arith, length-append e.prefix (opc ∷ code.b))) back);
      },
    )
