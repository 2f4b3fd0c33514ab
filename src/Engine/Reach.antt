-- ===== src/Engine/Reach.antt =====
-- The invariant of pass 1: what is generated is laid out in order, and each successor of a generated
-- block is generated too or waits on the capture stack.
use dbrew.Prelude.{ℕ, ◌+◌, ◌≤◌, ◌<◌, ◌≡◌, ◌⊎◌, inl, inr, true, false, none, some, List, [], ◌∷◌}
use dbrew.Prelude.{length, get_elem?}
use dbrew.Instr.Copy.{instr_is_jcc}
use dbrew.Instr.Types.{Operand, Instr}
use dbrew.Capture.InstrLaws.{instrs_in}
use dbrew.Capture.Types.{Cbb, capturestack_len}
use dbrew.Generate.Block.{code, generate}
use dbrew.Engine.Emit.{GenState}
use dbrew.Engine.Emitted.{joined}
use dbrew.Engine.Pass1.{genorder_max, pending, ungenerated}
use dbrew.Engine.Laid.{HasCode, Laid}

-- Block `i` is generated, or it is on the stack.
abbrev pub IsKnown : List Cbb → List ℕ → ℕ → Type 0
IsKnown bbs stack i =
    ((k : ℕ) × (get_elem? stack k ≡ some i))
    ⊎ ((c : Cbb) × (n : ℕ) × (get_elem? bbs i ≡ some c) × (c.size ≡ some n))

-- The successors of a block have a property.
abbrev pub Successors : (ℕ → Type 0) → Cbb → Type 0
Successors P c =
    (instr_is_jcc c.end_type ≡ false)
    ⊎ ((b : ℕ) × (f : ℕ) × (instr_is_jcc c.end_type ≡ true)
        × (c.next_branch ≡ some b)
        × (c.next_fall_through ≡ some f)
        × P b
        × P f)

pub Successors-map :
    (P Q : ℕ → Type 0) (c : Cbb) → ((i : ℕ) → P i → Q i) → Successors P c → Successors Q c
Successors-map P Q c h (inl n) = inl n
Successors-map P Q c h (inr (b, f, j, eb, ef, x, y)) = inr (b, f, j, eb, ef, h b x, h f y)

-- A block that can be generated, among `n` of them.
pub record IsReady (junk : Operand) (instrs : List Instr) (n : ℕ) (c : Cbb) : Type 0 where
  pub bytes : List ℕ
  pub has_code : HasCode junk instrs c bytes
  pub no_jcc8 : c.gen_jcc8 ≡ false
  pub no_jump : c.gen_jump ≡ false
  pub successors : Successors (λ i. i < n) c

-- The length of the code of a block, with its hole.
unfoldable pub block_room : Operand → List Instr → Cbb → ℕ
unfolding joined
block_room junk instrs c = elim (generate junk (instrs_in instrs c)) [
  | some (code codes) ↦ length (joined codes) + 26
  | _ ↦ 0
]

-- What pass 1 never changes of a block.
abbrev pub SameBlock : Cbb → Cbb → Type 0
SameBlock c d =
    (d.instr ≡ c.instr)
    × (d.count ≡ c.count)
    × (d.end_type ≡ c.end_type)
    × (d.next_branch ≡ c.next_branch)
    × (d.next_fall_through ≡ c.next_fall_through)

-- The rewriter when the loop starts, with the code from `b` on.
module _ (g0 : GenState) (b : ℕ) where
  pub record IsReached (g : GenState) : Type 0 where
    pub ok : g.context.e ≡ none
    pub junk : g.context.junk.dst ≡ g0.context.junk.dst
    pub instrs : g.context.cap_instr ≡ g0.context.cap_instr
    pub buf : g.cs.buf ≡ g0.cs.buf
    pub fullsize : g.cs.fullsize ≡ g0.cs.fullsize
    pub laid :
        Laid g0.context.junk.dst g0.context.cap_instr g.memory g.context.cap_bb g.gen_order b
          (g.cs.buf + g.cs.used)
    pub ordered :
        (i n : ℕ) (c : Cbb)
        → get_elem? g.context.cap_bb i ≡ some c
        → c.size ≡ some n
        → (k : ℕ) × (get_elem? g.gen_order k ≡ some i)
    pub closed :
        (i n : ℕ) (c : Cbb)
        → get_elem? g.context.cap_bb i ≡ some c
        → c.size ≡ some n
        → Successors (IsKnown g.context.cap_bb g.context.cap_stack) c
    pub ready :
        (i : ℕ) (c : Cbb)
        → get_elem? g.context.cap_bb i ≡ some c
        → c.size ≡ none
        → IsReady g0.context.junk.dst g0.context.cap_instr (length g.context.cap_bb) c
    pub room :
        g.cs.used + pending (block_room g0.context.junk.dst g0.context.cap_instr) g.context.cap_bb
        ≤ g.cs.fullsize
    pub count : length g.gen_order + ungenerated g.context.cap_bb ≤ genorder_max
    pub depth : length g.context.cap_stack + ungenerated g.context.cap_bb ≤ capturestack_len
    pub stacked : (k i : ℕ) → get_elem? g.context.cap_stack k ≡ some i → i < length g.context.cap_bb
    pub same :
        (i : ℕ) (c : Cbb)
        → get_elem? g0.context.cap_bb i ≡ some c
        → (d : Cbb) × (get_elem? g.context.cap_bb i ≡ some d) × SameBlock c d
    pub number : length g.context.cap_bb ≡ length g0.context.cap_bb
    pub start :
        (get_elem? g.gen_order 0 ≡ some 0) ⊎ ((g.gen_order ≡ []) × (g.context.cap_stack ≡ 0 ∷ []))
    pub below : (x : ℕ) → x < b → g.memory x ≡ g0.memory x
