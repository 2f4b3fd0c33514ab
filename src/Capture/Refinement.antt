-- ===== src/Capture/Refinement.antt =====
-- src/emulate.c: the array of captured instructions with the positions and counts of the blocks
-- implements one list of instructions for each block.
use dbrew.Prelude.{ℕ, suc, ◌+◌, ◌-◌, ◌≤◌, ◌<◌, ◌≡◌, refl, sym, ◌∙◌, ◌≢◌, inl, inr, some, List}
use dbrew.Prelude.{[], ◌∷◌, ◌++◌, arith, le→leb, Option-cases, length, length-append}
use mathlib.Core.Path.{subst}
use native.Mathlib.Decide.{dec_lt}
use mathlib.Core.List.{append_assoc, append-nil}
use dbrew.Instr.Copy.{copy_instr}
use dbrew.Instr.Types.{Instr}
use dbrew.Capture.InstrLaws.{instrs_of, copy_all, IsOpen, captured, capture-room}
use dbrew.Capture.InstrLaws.{captured-IsOpen, instrs_of-captured_self, instrs_of-captured_ne}
use dbrew.Capture.Blocks.{new_cap_instr, capture, capture_all}
use dbrew.Capture.Types.{em_capture, et_buffer_overflow, Error, set_error, RContext}
use dbrew.Capture.Segments.{take}

-- What capturing `news` into block `cur` does to the lists of the blocks.
pub record IsAppended (r r' : RContext) (cur : ℕ) (news : List Instr) : Type 0 where
  pub is_open : IsOpen r' cur
  pub appended : instrs_of r' cur ≡ instrs_of r cur ++ news
  pub others : (k : ℕ) → cur ≢ k → instrs_of r' k ≡ instrs_of r k

-- The overflow of the instruction array.
abbrev pub too_many : Error
too_many = record { em = em_capture; et = et_buffer_overflow }

IsAppended-none : (r : RContext) (cur : ℕ) → IsOpen r cur → IsAppended r r cur []
IsAppended-none r cur h = record {
  is_open = h;
  appended = sym (append-nil (instrs_of r cur));
  others = λ k ne. refl;
}

IsAppended-step :
    (r r' : RContext) (cur : ℕ) (c : Instr) (cs : List Instr) (h : IsOpen r cur)
    → IsAppended (captured r cur h.bb c) r' cur cs
    → IsAppended r r' cur (c ∷ cs)
IsAppended-step r r' cur c cs h x = record {
  is_open = x.is_open;
  appended = rw (x.appended, instrs_of-captured_self r cur h c, append_assoc) refl;
  others = λ k ne. x.others k ne ∙ instrs_of-captured_ne r cur h c k ne;
}

-- If the array has room, `capture` on instructions in a row appends their copies to the list of the
-- current block, keeps the lists of all other blocks, and leaves the block open for more.
pub capture_all_lem :
    (r : RContext) (cur : ℕ) (instrs news : List Instr)
    → IsOpen r cur
    → length r.cap_instr + length instrs ≤ r.cap_instr_capacity
    → copy_all r.junk instrs ≡ some news
    → (r' : RContext) × (capture_all r instrs ≡ some r') × IsAppended r r' cur news
unfolding capture_all copy_all captured
capture_all_lem r cur [] news h l e =
    let z : [] ≡ news = ground arith in (r, refl, rw (← z) (IsAppended-none r cur h))
capture_all_lem r cur (i ∷ instrs) news h l e = elim (Option-cases (copy_instr r.junk i)) [
  | inl n ↦ absurd (ground (arith, n, e))
  | inr (c, ec) ↦ elim (Option-cases (copy_all r.junk instrs)) [
    | inl n ↦ absurd (ground (arith, ec, n, e))
    | inr (cs, es) ↦
        let z : c ∷ cs ≡ news = ground (arith, ec, es, e) in
        let len = length-append r.cap_instr (c ∷ []) in
        let o = captured-IsOpen r cur h c in
        let (r', eq, x) =
          capture_all_lem (captured r cur h.bb c) cur instrs cs o (omega (arith, len)) es in
        (
          r',
          rw (capture-room r cur i c h (omega arith) ec) eq,
          rw (← z) (IsAppended-step r r' cur c cs h x),
        )
  ]
]

capture_full :
    (r : RContext) (cur : ℕ) (instr : Instr)
    → r.current_cap_bb ≡ some cur
    → r.cap_instr_capacity ≤ length r.cap_instr
    → capture r instr ≡ some (record r { e = some too_many })
unfolding capture new_cap_instr set_error
capture_full r cur instr c l = ground (arith, c, le→leb r.cap_instr_capacity (length r.cap_instr) l)

capture_all_full :
    (r : RContext) (cur : ℕ) (i : Instr) (instrs : List Instr)
    → r.current_cap_bb ≡ some cur
    → r.cap_instr_capacity ≤ length r.cap_instr
    → capture_all r (i ∷ instrs) ≡ some (record r { e = some too_many })
unfolding capture_all
capture_all_full r cur i [] c l = rw (capture_full r cur i c l) refl
capture_all_full r cur i (j ∷ instrs) c l =
    rw (capture_full r cur i c l)
      (capture_all_full (record r { e = some too_many }) cur j instrs c l)

-- If there are more instructions in a row than the array has room for, `capture` appends copies of
-- the first ones, as many as fit, to the list of the current block, keeps the lists of all other
-- blocks, and reports a buffer overflow of capturing.
pub capture_all_overflow :
    (r : RContext) (cur : ℕ) (instrs news : List Instr)
    → IsOpen r cur
    → length r.cap_instr ≤ r.cap_instr_capacity
    → r.cap_instr_capacity < length r.cap_instr + length instrs
    → copy_all r.junk instrs ≡ some news
    → (r' : RContext) × (capture_all r instrs ≡ some (record r' { e = some too_many }))
      × IsAppended r r' cur (take (r.cap_instr_capacity - length r.cap_instr) news)
unfolding capture_all copy_all captured take
capture_all_overflow r cur [] news h l m e = absurd (omega arith)
capture_all_overflow r cur (i ∷ instrs) news h l m e = elim (Option-cases (copy_instr r.junk i)) [
  | inl n ↦ absurd (ground (arith, n, e))
  | inr (c, ec) ↦ elim (Option-cases (copy_all r.junk instrs)) [
    | inl n ↦ absurd (ground (arith, ec, n, e))
    | inr (cs, es) ↦
        let z : c ∷ cs ≡ news = ground (arith, ec, es, e) in
        elim (dec_lt (length r.cap_instr) r.cap_instr_capacity) [
          | no full ↦
              let k : r.cap_instr_capacity - length r.cap_instr ≡ 0 = omega arith in
              (
                r,
                capture_all_full r cur i instrs h.current (omega arith),
                rw k (IsAppended-none r cur h),
              )
          | yes room ↦
              let len = length-append r.cap_instr (c ∷ []) in
              let n = r.cap_instr_capacity - length (r.cap_instr ++ c ∷ []) in
              let k : r.cap_instr_capacity - length r.cap_instr ≡ suc n = omega (arith, len) in
              let (r', eq, x) =
                capture_all_overflow (captured r cur h.bb c) cur instrs cs
                  (captured-IsOpen r cur h c) (omega (arith, len)) (omega (arith, len)) es in
              (
                r',
                rw (capture-room r cur i c h room ec) eq,
                subst
                    (λ l. IsAppended r r' cur (take (r.cap_instr_capacity - length r.cap_instr) l))
                    z
                    (subst (λ m. IsAppended r r' cur (take m (c ∷ cs))) (sym k)
                      (IsAppended-step r r' cur c (take n cs) h x)),
              )
        ]
  ]
]
