-- ===== src/Engine/LinkLaws.antt =====
-- Pass 3 succeeds, and the jumps that it writes lead to the blocks.
use dbrew.Prelude.{ℕ, ◌+◌, ◌%◌, ◌^◌, ◌≤◌, ◌<◌, ◌≡◌, refl, sym, ◌∙◌, ◌⊎◌, inl, inr, true, false}
use dbrew.Prelude.{some, List, arith, if◌then◌else◌, Bool-cases, Option-cases, get_elem?}
use dbrew.Decode.Context.{sign_extend8, sign_extend32}
use dbrew.Instr.Copy.{instr_is_jcc}
use dbrew.Instr.Mnemonics.{InstrType}
use dbrew.Engine.Displacement.{Near, Near-target, diff32-lt, short_target}
use dbrew.Engine.Blocks.{GenCbb, diff32, between, jcc_code}
use dbrew.Engine.Place.{jump_bytes}
use dbrew.Engine.Link.{write_jcc, write_jump}
use dbrew.Memory.{Memory, write, write32, read32, read32-write32, write32-outside}
use dbrew.Memory.{write-outside, write-same, read32-ext}

-- The bytes of a conditional jump at `buf` with condition `c` and its target, ending at `e`.
abbrev pub JccAt : Memory → ℕ → ℕ → ℕ → ℕ → Type 0
JccAt m buf c target e =
    ((e ≡ buf + 2) × (m buf ≡ 0x70 + c) × ((e + sign_extend8 (m (buf + 1))) % 2 ^ 64 ≡ target))
    ⊎ ((e ≡ buf + 6)
        × (m buf ≡ 0x0F)
        × (m (buf + 1) ≡ 0x80 + c)
        × ((e + sign_extend32 (read32 m (buf + 2))) % 2 ^ 64 ≡ target))

-- Execution goes on from `e` to the target: it lies there, or there is a jump.
abbrev pub GoesOnAt : Memory → ℕ → ℕ → Type 0
GoesOnAt m e target =
    (e ≡ target) ⊎ ((m e ≡ 0xE9) × ((e + 5 + sign_extend32 (read32 m (e + 1))) % 2 ^ 64 ≡ target))

-- Behind a block with a conditional jump stands that jump, to the one successor, and then the way
-- to the other.
abbrev pub LinkedAt : List GenCbb → GenCbb → Memory → Type 0
LinkedAt all p m =
    (instr_is_jcc p.end_type ≡ false)
    ⊎ ((c : ℕ) × (b : ℕ) × (q : GenCbb) × (f : ℕ) × (r : GenCbb) × (e : ℕ) × (jcc_code p.end_type
          ≡ some c)
        × (p.next_branch ≡ some b)
        × (get_elem? all b ≡ some q)
        × (p.next_fall_through ≡ some f)
        × (get_elem? all f ≡ some r)
        × JccAt m (p.addr2 + p.size) c q.addr2 e
        × GoesOnAt m e r.addr2)

-- What the addresses have to fulfil for that.
abbrev pub IsLinkable : List GenCbb → GenCbb → Type 0
IsLinkable all p =
    (instr_is_jcc p.end_type ≡ false)
    ⊎ ((b : ℕ) × (q : GenCbb) × (f : ℕ) × (r : GenCbb) × (p.next_branch ≡ some b)
        × (get_elem? all b ≡ some q)
        × (p.next_fall_through ≡ some f)
        × (get_elem? all f ≡ some r)
        × (let a = p.addr2 + p.size in
            Near q.addr2 (a + 2)
            × Near q.addr2 (a + 6)
            × Near r.addr2 (a + 7)
            × Near r.addr2 (a + 11)
            × ((p.gen_jcc8 ≡ false) ⊎ (between 128 127 (diff32 q.addr2 (a + 2)) ≡ true))
            × ((p.gen_jump ≡ true) ⊎ (r.addr2 ≡ a + jump_bytes p))))

pub jcc_code-some :
    (t : InstrType) → instr_is_jcc t ≡ true → (c : ℕ) × (jcc_code t ≡ some c) × (c < 16)
unfolding instr_is_jcc jcc_code
jcc_code-some t h = elim (Option-cases (jcc_code t)) [
  | inl n ↦ absurd (ground arith)
  | inr (c, e) ↦ (c, e, ground arith)
]

pub JccAt-ext :
    (m m' : Memory) (buf c t e : ℕ)
    → ((x : ℕ) → x < e → m' x ≡ m x)
    → JccAt m buf c t e
    → JccAt m' buf c t e
JccAt-ext m m' buf c t e h (inl (l, o, d)) =
    inl (l, h buf (omega arith) ∙ o, rw (h (buf + 1) (omega arith)) d)
JccAt-ext m m' buf c t e h (inr (l, o, o', d)) = inr (
  l,
  h buf (omega arith) ∙ o,
  h (buf + 1) (omega arith) ∙ o',
  rw (read32-ext m' m (buf + 2) (λ x a b. h x (omega arith))) d,
)

pub GoesOnAt-ext :
    (m m' : Memory) (e t n : ℕ)
    → (e ≡ t) ⊎ (e + 5 ≤ n)
    → ((x : ℕ) → x < n → m' x ≡ m x)
    → GoesOnAt m e t
    → GoesOnAt m' e t
GoesOnAt-ext m m' e t n (inl z) h g = inl z
GoesOnAt-ext m m' e t n (inr l) h (inl z) = inl z
GoesOnAt-ext m m' e t n (inr l) h (inr (o, d)) =
    inr (h e (omega arith) ∙ o, rw (read32-ext m' m (e + 1) (λ x a b. h x (omega arith))) d)

-- The bytes of the conditional jump.
abbrev pub jcc_length : GenCbb → ℕ
jcc_length p = if p.gen_jcc8 then 2 else 6

short_jcc :
    (m : Memory) (buf c d : ℕ)
    → let m' = write (write m buf (0x70 + c)) (buf + 1) (d % 256) in
      (m' buf ≡ 0x70 + c)
      × (m' (buf + 1) ≡ d % 256)
      × ((x : ℕ) → (x < buf) ⊎ (buf + 2 ≤ x) → m' x ≡ m x)
short_jcc m buf c d =
    let m1 = write m buf (0x70 + c) in
    (
      write-outside m1 (buf + 1) (d % 256) buf (omega arith) ∙ write-same m buf (0x70 + c),
      write-same m1 (buf + 1) (d % 256),
      λ x h.
          write-outside m1 (buf + 1) (d % 256) x (omega arith)
          ∙ write-outside m buf (0x70 + c) x (omega arith),
    )

near_jcc :
    (m : Memory) (buf c d : ℕ)
    → d < 2 ^ 32
    → let m' = write32 (write (write m buf 0x0F) (buf + 1) (0x80 + c)) (buf + 2) d in
      (m' buf ≡ 0x0F)
      × (m' (buf + 1) ≡ 0x80 + c)
      × (read32 m' (buf + 2) ≡ d)
      × ((x : ℕ) → (x < buf) ⊎ (buf + 6 ≤ x) → m' x ≡ m x)
near_jcc m buf c d l =
    let m1 = write m buf 0x0F in
    let m2 = write m1 (buf + 1) (0x80 + c) in
    (
      write32-outside m2 (buf + 2) d buf (inl (omega arith))
          ∙ write-outside m1 (buf + 1) (0x80 + c) buf (omega arith)
          ∙ write-same m buf 0x0F,
      write32-outside m2 (buf + 2) d (buf + 1) (inl (omega arith))
          ∙ write-same m1 (buf + 1) (0x80 + c),
      read32-write32 m2 (buf + 2) d l,
      λ x h.
          write32-outside m2 (buf + 2) d x (omega arith)
          ∙ write-outside m1 (buf + 1) (0x80 + c) x (omega arith)
          ∙ write-outside m buf 0x0F x (omega arith),
    )

near_jump :
    (m : Memory) (buf d : ℕ)
    → d < 2 ^ 32
    → let m' = write32 (write m buf 0xE9) (buf + 1) d in
      (m' buf ≡ 0xE9)
      × (read32 m' (buf + 1) ≡ d)
      × ((x : ℕ) → (x < buf) ⊎ (buf + 5 ≤ x) → m' x ≡ m x)
near_jump m buf d l =
    let m1 = write m buf 0xE9 in
    (
      write32-outside m1 (buf + 1) d buf (inl (omega arith)) ∙ write-same m buf 0xE9,
      read32-write32 m1 (buf + 1) d l,
      λ x h.
          write32-outside m1 (buf + 1) d x (omega arith) ∙ write-outside m buf 0xE9 x (omega arith),
    )

pub write_jcc_lem :
    (all : List GenCbb) (p q : GenCbb) (b c buf : ℕ) (m : Memory)
    → p.next_branch ≡ some b
    → get_elem? all b ≡ some q
    → jcc_code p.end_type ≡ some c
    → Near q.addr2 (buf + 2)
    → Near q.addr2 (buf + 6)
    → (p.gen_jcc8 ≡ false) ⊎ (between 128 127 (diff32 q.addr2 (buf + 2)) ≡ true)
    → (m' : Memory) × (write_jcc all p buf m ≡ some (buf + jcc_length p, m'))
      × JccAt m' buf c q.addr2 (buf + jcc_length p)
      × ((x : ℕ) → (x < buf) ⊎ (buf + jcc_length p ≤ x) → m' x ≡ m x)
unfolding write_jcc
write_jcc_lem all p q b c buf m eb eq ec n2 n6 s = elim (Bool-cases p.gen_jcc8) [
  | inl g ↦
      let d = diff32 q.addr2 (buf + 2) in
      let fit : between 128 127 d ≡ true = elim s [ inl z ↦ absurd (ground arith) | inr h ↦ h ] in
      let w = short_jcc m buf c d in
      (
        write (write m buf (0x70 + c)) (buf + 1) (d % 256),
        rw (eb, eq, g, fit, ec) refl,
        rw g (inl (refl, w.0, rw w.1 (short_target q.addr2 (buf + 2) n2 fit))),
        rw g w.2,
      )
  | inr g ↦
      let d = diff32 q.addr2 (buf + 6) in
      let w = near_jcc m buf c d (diff32-lt q.addr2 (buf + 6)) in
      (
        write32 (write (write m buf 0x0F) (buf + 1) (0x80 + c)) (buf + 2) d,
        rw (eb, eq, g, ec) refl,
        rw g (inr (refl, w.0, w.1, rw w.2 (Near-target q.addr2 (buf + 6) n6))),
        rw g w.3,
      )
]

abbrev pub jump_length : GenCbb → ℕ
jump_length p = if p.gen_jump then 5 else 0

pub write_jump_lem :
    (all : List GenCbb) (p r : GenCbb) (f e : ℕ) (m : Memory)
    → p.next_fall_through ≡ some f
    → get_elem? all f ≡ some r
    → Near r.addr2 (e + 5)
    → (p.gen_jump ≡ true) ⊎ (r.addr2 ≡ e)
    → (m' : Memory) × (write_jump all p e m ≡ some m')
      × GoesOnAt m' e r.addr2
      × ((x : ℕ) → (x < e) ⊎ (e + jump_length p ≤ x) → m' x ≡ m x)
      × ((e ≡ r.addr2) ⊎ (e + 5 ≤ e + jump_length p))
unfolding write_jump
write_jump_lem all p r f e m ef er n s = elim (Bool-cases p.gen_jump) [
  | inl g ↦
      let d = diff32 r.addr2 (e + 5) in
      let w = near_jump m e d (diff32-lt r.addr2 (e + 5)) in
      (
        write32 (write m e 0xE9) (e + 1) d,
        rw (g, ef, er) refl,
        inr (w.0, rw w.1 (Near-target r.addr2 (e + 5) n)),
        rw g w.2,
        inr (rw g (omega arith)),
      )
  | inr g ↦
      let z : r.addr2 ≡ e = elim s [ inl t ↦ absurd (ground arith) | inr h ↦ h ] in
      (m, rw g refl, inl (sym z), λ x h. refl, inl (sym z))
]

pub jump_bytes_sum :
    (p : GenCbb) → instr_is_jcc p.end_type ≡ true → jump_bytes p ≡ jcc_length p + jump_length p
unfolding jump_bytes
jump_bytes_sum p h = rw h refl
