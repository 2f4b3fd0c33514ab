-- ===== src/Emulate/OperandLaws.antt =====
-- Filling known registers into a memory operand keeps the address.
use dbrew.Prelude.{ℕ, ◌+◌, ◌*◌, ◌%◌, ◌^◌, ◌<◌, ◌≡◌, refl, sym, ap, ◌∙◌, ◌⊎◌, inl, inr, true}
use dbrew.Prelude.{◌&&◌, Option, none, some, arith, ltb, ◌==◌, if◌then◌else◌, Bool-cases, ◌>>=◌}
use dbrew.Prelude.{◌>>◌, assert, >>=-eq-some, Option-cases, get_elem?, ◌is◌, is_iff}
use dbrew.Emulate.Meta.{cs_static, init_meta_state, ms_is_static, EmuValue}
use dbrew.Emulate.Operand.{add_reg_to_value, get_op_addr, apply_base, apply_ip, apply_index}
use dbrew.Emulate.Operand.{apply_static_to_ind}
use dbrew.Emulate.State.{EmuState}
use dbrew.Instr.Kinds.{rt_none, rt_gp64, rt_ip, rt_enum, vt_64, oso_none}
use dbrew.Instr.Types.{Reg, Operand}
use dbrew.Instr.Operands.{op_is_ind}

-- The address of a memory operand, without its state.
abbrev pub addr_val : EmuState → Operand → Option ℕ
addr_val es o = do a ← get_op_addr es o; some a.val

-- What a register adds.
reg_part : EmuState → Reg → ℕ → Option ℕ
reg_part es r scale = elim (r.rt) [
  | rt_gp64 ↦ do c ← get_elem? es.regs r.ri; some (scale * c.val)
  | rt_ip ↦ do assert (scale == 1); some es.reg_ip
  | _ ↦ none
]

base_part : EmuState → Operand → Option ℕ
unfolding reg_part
base_part es o = if o.reg.rt is rt_none then some 0 else reg_part es o.reg 1

index_part : EmuState → Operand → Option ℕ
unfolding reg_part
index_part es o = if ltb 0 o.scale then reg_part es o.ireg o.scale else some 0

abbrev total : Option ℕ → Option ℕ → ℕ → Option ℕ
total b i v = do x ← b; y ← i; some ((v + x + y) % 2 ^ 64)

add_reg_part :
    (es : EmuState) (v : EmuValue) (r : Reg) (scale : ℕ)
    → (do a ← add_reg_to_value v es r scale; some a.val)
      ≡ (do x ← reg_part es r scale; some ((v.val + x) % 2 ^ 64))
unfolding add_reg_to_value reg_part
add_reg_part es v r scale = ground arith

addr_val_lem :
    (es : EmuState) (o : Operand)
    → op_is_ind o ≡ true
    → o.seg ≡ oso_none
    → o.val < 2 ^ 64
    → addr_val es o ≡ total (base_part es o) (index_part es o) o.val
unfolding get_op_addr base_part index_part
addr_val_lem es o hi hs hv =
    let v0 : EmuValue = record { val = o.val; type = vt_64; state = init_meta_state cs_static } in
    elim (Bool-cases (o.reg.rt is rt_none)) [
      | inl b ↦ elim (Bool-cases (ltb 0 o.scale)) [
        | inl i ↦ ground (arith, add_reg_part es v0 o.ireg o.scale)
        | inr i ↦ ground arith
      ]
      | inr b ↦ elim (Option-cases (add_reg_to_value v0 es o.reg 1)) [
        | inl n ↦ ground (arith, add_reg_part es v0 o.reg 1)
        | inr (v1, e) ↦ elim (Bool-cases (ltb 0 o.scale)) [
          | inl i ↦ ground (arith, add_reg_part es v0 o.reg 1, add_reg_part es v1 o.ireg o.scale)
          | inr i ↦ ground (arith, add_reg_part es v0 o.reg 1)
        ]
      ]
    ]

-- One step of `applyStaticToInd`: nothing happens, or one part goes into the displacement.
Moves : Option ℕ → Option ℕ → ℕ → ℕ → Type 0
Moves p p' v v' =
    ((p' ≡ p) × (v' ≡ v)) ⊎ ((x : ℕ) × (p ≡ some x) × (p' ≡ some 0) × (v' ≡ (v + x) % 2 ^ 64))

record Step (es : EmuState) (o o' : Operand) : Type 0 where
  base : Moves (base_part es o) (base_part es o') o.val o'.val
  index : index_part es o' ≡ index_part es o
  same : (o'.type ≡ o.type) × (o'.seg ≡ o.seg)

stay : (es : EmuState) (o o' : Operand) → o ≡ o' → Step es o o'
unfolding Moves
stay es o o' z = rw (← z) (record { base = inl (refl, refl); index = refl; same = (refl, refl) })

apply_base_lem : (es : EmuState) (o o' : Operand) → apply_base es o ≡ some o' → Step es o o'
unfolding apply_base base_part index_part reg_part Moves
apply_base_lem es o o' h = elim (Bool-cases (o.reg.rt is rt_gp64)) [
  | inr g ↦ stay es o o' (ground arith)
  | inl g ↦ elim (Option-cases (get_elem? es.regs o.reg.ri)) [
    | inl n ↦ absurd (ground arith)
    | inr (c, e) ↦ elim (Bool-cases (ms_is_static c.state)) [
      | inr s ↦ stay es o o' (ground arith)
      | inl s ↦
          let o1 : Operand = record o {
            val = (o.val + c.val) % 2 ^ 64;
            reg = record (o.reg) { rt = rt_none };
          } in
          let z : o1 ≡ o' = ground arith in
          let t : o.reg.rt ≡ rt_gp64 = (is_iff o.reg.rt rt_gp64).0 g in
          rw (← z) (record {
            base = inr (c.val, ground arith, refl, refl);
            index = refl;
            same = (refl, refl);
          })
    ]
  ]
]

apply_ip_lem : (es : EmuState) (o : Operand) → Step es o (apply_ip es o)
unfolding apply_ip base_part index_part reg_part Moves
apply_ip_lem es o = elim (Bool-cases (o.reg.rt is rt_ip && ms_is_static es.reg_ip_state)) [
  | inr g ↦ stay es o (apply_ip es o) (ground arith)
  | inl g ↦ rw g (record {
    base = inr (es.reg_ip, ground arith, refl, refl);
    index = refl;
    same = (refl, refl);
  })
]

apply_index_lem :
    (es : EmuState) (o o' : Operand)
    → apply_index es o ≡ some o'
    → Moves (index_part es o) (index_part es o') o.val o'.val
      × (base_part es o' ≡ base_part es o)
      × (o'.type ≡ o.type)
      × (o'.seg ≡ o.seg)
unfolding apply_index base_part index_part reg_part Moves
apply_index_lem es o o' h = elim (Bool-cases (ltb 0 o.scale)) [
  | inr g ↦ let z : o ≡ o' = ground arith in rw (← z) (inl (refl, refl), refl, refl, refl)
  | inl g ↦ elim (Bool-cases (o.ireg.rt is rt_gp64)) [
    | inr t ↦ absurd (ground arith)
    | inl t ↦ elim (Option-cases (get_elem? es.regs o.ireg.ri)) [
      | inl n ↦ absurd (ground arith)
      | inr (c, e) ↦ elim (Bool-cases (ms_is_static c.state)) [
        | inr s ↦ let z : o ≡ o' = ground arith in rw (← z) (inl (refl, refl), refl, refl, refl)
        | inl s ↦
            let o1 : Operand = record o { val = (o.val + o.scale * c.val) % 2 ^ 64; scale = 0 } in
            let z : o1 ≡ o' = ground arith in
            let t' : o.ireg.rt ≡ rt_gp64 = (is_iff o.ireg.rt rt_gp64).0 t in
            rw (← z) (inr (o.scale * c.val, ground arith, refl, refl), refl, refl, refl)
      ]
    ]
  ]
]

total-Moves_base :
    (p p' i : Option ℕ) (v v' : ℕ)
    → Moves p p' v v'
    → v < 2 ^ 64
    → (total p' i v' ≡ total p i v) × (v' < 2 ^ 64)
unfolding Moves
total-Moves_base p p' i v v' (inl (e, f)) h = (rw (e, f) refl, omega arith)
total-Moves_base p p' none v v' (inr (x, e, e', f)) h = (rw (e, e') refl, omega arith)
total-Moves_base p p' (some y) v v' (inr (x, e, e', f)) h =
    (rw (e, e', f) (ap some (omega arith)), omega arith)

total-Moves_index :
    (b p p' : Option ℕ) (v v' : ℕ)
    → Moves p p' v v'
    → v < 2 ^ 64
    → (total b p' v' ≡ total b p v) × (v' < 2 ^ 64)
unfolding Moves
total-Moves_index b p p' v v' (inl (e, f)) h = (rw (e, f) refl, omega arith)
total-Moves_index none p p' v v' (inr (x, e, e', f)) h = (refl, omega arith)
total-Moves_index (some y) p p' v v' (inr (x, e, e', f)) h =
    (rw (e, e', f) (ap some (omega arith)), omega arith)

-- For a memory operand without a segment override: if `applyStaticToInd` succeeds, the operand is
-- a memory operand of the same type and its address is the same, or as undefined, as before.
pub apply_static_to_ind-addr_val :
    (es : EmuState) (o o' : Operand)
    → op_is_ind o ≡ true
    → o.seg ≡ oso_none
    → o.val < 2 ^ 64
    → apply_static_to_ind es o ≡ some o'
    → (addr_val es o' ≡ addr_val es o) × (o'.type ≡ o.type) × (o'.seg ≡ o.seg)
unfolding apply_static_to_ind op_is_ind
apply_static_to_ind-addr_val es o o' hi hs hv h =
    let (o1, e1, r1) =
      >>=-eq-some (apply_base es o) (λ (x : Operand). apply_index es (apply_ip es x))
        (rw hi at h) in
    let s1 = apply_base_lem es o o1 e1 in
    let o2 = apply_ip es o1 in
    let s2 = apply_ip_lem es o1 in
    let s3 = apply_index_lem es o2 o' r1 in
    let t1 =
      total-Moves_base (base_part es o) (base_part es o1) (index_part es o) o.val o1.val s1.base
        hv in
    let t2 =
      total-Moves_base (base_part es o1) (base_part es o2) (index_part es o) o1.val o2.val s2.base
        t1.1 in
    let t3 =
      total-Moves_index (base_part es o2) (index_part es o2) (index_part es o') o2.val o'.val s3.0
        t2.1 in
    let ty : o'.type ≡ o.type = s3.2 ∙ s2.same.0 ∙ s1.same.0 in
    let sg : o'.seg ≡ o.seg = s3.3 ∙ s2.same.1 ∙ s1.same.1 in
    (
      addr_val_lem es o' (ind_of_type o o' ty ∙ hi) (sg ∙ hs) t3.1
          ∙ ap (λ (b : Option ℕ). total b (index_part es o') o'.val) s3.1
          ∙ t3.0
          ∙ ap (λ (i : Option ℕ). total (base_part es o2) i o2.val) (s2.index ∙ s1.index)
          ∙ t2.0
          ∙ t1.0
          ∙ sym (addr_val_lem es o hi hs hv),
      ty,
      sg,
    )
  where
    ind_of_type : (o o' : Operand) → o'.type ≡ o.type → op_is_ind o' ≡ op_is_ind o
    ind_of_type o o' e = rw e refl
