-- ===== src/Engine/Start.antt =====
-- Captured blocks that can be generated, and the state in which the loop of pass 1 starts.
use dbrew.Prelude.{ℕ, zero, suc, ◌+◌, ◌-◌, ◌%◌, ◌^◌, ◌≤◌, ◌<◌, ◌≡◌, refl, ap, inl, inr, none}
use dbrew.Prelude.{some, List, [], ◌∷◌, arith, ltb, ltb→lt, Bool-cases, Option-cases, length}
use dbrew.Prelude.{get_elem?}
use dbrew.Capture.Types.{Cbb, capturestack_len}
use dbrew.Engine.Binary.{align_storage}
use dbrew.Engine.Emit.{GenState}
use dbrew.Engine.Emitted.{reserve-room, use-room}
use dbrew.Engine.Pass1.{pending, ungenerated}
use dbrew.Engine.Reach.{IsReady, block_room, IsReached}
use dbrew.Engine.Storage.{CodeStorage}

-- Captured blocks, none of them generated, with room for their code. The capture stack is empty, and
-- there are so few blocks that it does not overflow.
pub record CanGenerate (g : GenState) : Type 0 where
  pub ok : g.context.e ≡ none
  pub stack : g.context.cap_stack ≡ []
  pub order : g.gen_order ≡ []
  pub some_block : 0 < length g.context.cap_bb
  pub few : length g.context.cap_bb < capturestack_len
  pub fresh : (i : ℕ) (c : Cbb) → get_elem? g.context.cap_bb i ≡ some c → c.size ≡ none
  pub ready :
      (i : ℕ) (c : Cbb)
      → get_elem? g.context.cap_bb i ≡ some c
      → IsReady g.context.junk.dst g.context.cap_instr (length g.context.cap_bb) c
  pub some_code :
      (c : Cbb)
      → get_elem? g.context.cap_bb 0 ≡ some c
      → 26 < block_room g.context.junk.dst g.context.cap_instr c
  pub room :
      g.cs.used + 63 + pending (block_room g.context.junk.dst g.context.cap_instr) g.context.cap_bb
      ≤ g.cs.fullsize
  pub fits : g.cs.fullsize < 2 ^ 31
  pub in_range : g.cs.buf + 2 ^ 32 ≤ 2 ^ 64

pub align_storage_lem :
    (cs : CodeStorage)
    → cs.used + 63 ≤ cs.fullsize
    → (u : ℕ) × (align_storage cs ≡ some (record cs { used = u }))
      × ((cs.buf + u) % 64 ≡ 0)
      × (cs.used ≤ u)
      × (u ≤ cs.used + 63)
unfolding align_storage
align_storage_lem cs h =
    let n = (cs.buf + cs.used) % 64 in
    let r = reserve-room cs 0 (omega arith) in
    elim (Bool-cases (ltb 0 n)) [
      | inr x ↦
          (cs.used, rw (align_storage, r, x) refl, ground (arith, x), omega arith, omega arith)
      | inl x ↦
          let pos = ltb→lt 0 n x in
          let u = use-room cs (64 - n) (omega (arith, h, pos)) in
          (
            cs.used + (64 - n),
            rw (align_storage, r, x, u) refl,
            ground (arith, x),
            omega arith,
            ground (arith, x),
          )
    ]

pending_le : (bbs : List Cbb) → ungenerated bbs ≤ length bbs
unfolding pending
pending_le [] = omega arith
pending_le (c ∷ bbs) = elim (Option-cases c.size) [
  | inl x ↦ rw (pending, x) (omega (arith, pending_le bbs))
  | inr (n, x) ↦ rw (pending, x) (omega (arith, pending_le bbs))
]

-- The state when the loop of pass 1 starts.
abbrev pub started : GenState → ℕ → GenState
started g u = record g {
  cs = record g.cs { used = u };
  context = record g.context { cap_stack = 0 ∷ [] };
}

pub started-IsReached :
    (g : GenState) (u : ℕ)
    → CanGenerate g
    → u ≤ g.cs.used + 63
    → IsReached (started g u) (g.cs.buf + u) (started g u)
started-IsReached g u h l =
    let order = h.order in
    record {
      ok = h.ok;
      junk = refl;
      instrs = refl;
      buf = refl;
      fullsize = refl;
      laid = rw order refl;
      ordered = λ i n c ec es. absurd (ground (arith, h.fresh i c ec, es));
      closed = λ i n c ec es. absurd (ground (arith, h.fresh i c ec, es));
      ready = λ i c ec es. h.ready i c ec;
      room = omega (arith, h.room, l);
      count = omega (arith, pending_le g.context.cap_bb, h.few, ap length order);
      depth = omega (arith, pending_le g.context.cap_bb, h.few);
      stacked = stacked;
      same = λ i c ec. (c, ec, (refl, refl, refl, refl, refl));
      number = refl;
      start = inr (order, refl);
      below = λ x k. refl;
    }
  where
    stacked : (k i : ℕ) → get_elem? (0 ∷ []) k ≡ some i → i < length g.context.cap_bb
    stacked zero i e = let z : 0 ≡ i = ground arith in omega (arith, h.some_block, z)
    stacked (suc k) i e = absurd (ground arith)
