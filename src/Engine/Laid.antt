-- ===== src/Engine/Laid.antt =====
-- The code that pass 1 has left: one block behind the other, in the order of `genOrder`.
use dbrew.Prelude.{ℕ, zero, suc, ◌+◌, ◌≤◌, ◌<◌, ◌≡◌, sym, false, some, List, [], ◌∷◌, ◌++◌}
use dbrew.Prelude.{arith, length, get_elem?}
use mathlib.Core.Path.{subst}
use dbrew.Memory.{Memory}
use dbrew.Instr.Types.{Operand, Instr}
use dbrew.Capture.InstrLaws.{instrs_in}
use dbrew.Capture.Types.{Cbb}
use dbrew.Generate.Block.{code, generate}
use dbrew.Engine.Emitted.{joined, BytesAt, BytesAt-ext}

-- The code of a block.
abbrev pub HasCode : Operand → List Instr → Cbb → List ℕ → Type 0
HasCode junk instrs c bs =
    (codes : List (List ℕ)) × (generate junk (instrs_in instrs c) ≡ some (code codes))
    × (bs ≡ joined codes)

-- A block whose code stands from `a` on.
pub record IsEmitted (junk : Operand) (instrs : List Instr) (m : Memory) (a : ℕ) (c : Cbb)
    (bs : List ℕ) : Type 0 where
  pub has_code : HasCode junk instrs c bs
  pub sized : c.size ≡ some (length bs)
  pub start : c.addr1 ≡ a
  pub no_jcc8 : c.gen_jcc8 ≡ false
  pub no_jump : c.gen_jump ≡ false
  pub bytes : BytesAt m a bs

module _ (junk : Operand) (instrs : List Instr) where
  -- The blocks of an order, the first at `a`, and the end of the last hole.
  abbrev pub Laid : Memory → List Cbb → List ℕ → ℕ → ℕ → Type 0
  Laid m bbs [] a end = a ≡ end
  Laid m bbs (i ∷ order) a end =
      (c : Cbb) × (bs : List ℕ) × (get_elem? bbs i ≡ some c)
      × IsEmitted junk instrs m a c bs
      × Laid m bbs order (a + length bs + 26) end

  pub Laid-le :
      (m : Memory) (bbs : List Cbb) (order : List ℕ) (a end : ℕ) → Laid m bbs order a end → a ≤ end
  Laid-le m bbs [] a end h = omega (arith, h)
  Laid-le m bbs (i ∷ order) a end (c, bs, e, x, t) =
      omega (arith, Laid-le m bbs order (a + length bs + 26) end t)

  -- Nothing changes for these blocks when others are generated behind them.
  pub Laid-ext :
      (m m' : Memory) (bbs bbs' : List Cbb) (order : List ℕ) (a end : ℕ)
      → ((x : ℕ) → x < end → m' x ≡ m x)
      → ((i n : ℕ) (c : Cbb)
          → get_elem? bbs i ≡ some c
          → c.size ≡ some n
          → get_elem? bbs' i ≡ some c)
      → Laid m bbs order a end
      → Laid m' bbs' order a end
  Laid-ext m m' bbs bbs' [] a end hm hb h = h
  Laid-ext m m' bbs bbs' (i ∷ order) a end hm hb (c, bs, e, x, t) =
      let l = Laid-le m bbs order (a + length bs + 26) end t in
      (
        c,
        bs,
        hb i (length bs) c e x.sized,
        record {
          has_code = x.has_code;
          sized = x.sized;
          start = x.start;
          no_jcc8 = x.no_jcc8;
          no_jump = x.no_jump;
          bytes = BytesAt-ext m m' a bs (λ y k. hm y (omega (arith, l, k))) x.bytes;
        },
        Laid-ext m m' bbs bbs' order (a + length bs + 26) end hm hb t,
      )

  pub Laid-append :
      (m : Memory) (bbs : List Cbb) (order : List ℕ) (a end i : ℕ) (c : Cbb) (bs : List ℕ)
      → Laid m bbs order a end
      → get_elem? bbs i ≡ some c
      → IsEmitted junk instrs m end c bs
      → Laid m bbs (order ++ i ∷ []) a (end + length bs + 26)
  Laid-append m bbs [] a end i c bs h e x =
      (c, bs, e, subst (λ n. IsEmitted junk instrs m n c bs) (sym h) x, omega (arith, h))
  Laid-append m bbs (j ∷ order) a end i c bs (d, ds, ed, y, t) e x =
      (d, ds, ed, y, Laid-append m bbs order (a + length ds + 26) end i c bs t e x)

  pub Laid-at :
      (m : Memory) (bbs : List Cbb) (order : List ℕ) (a end k i : ℕ)
      → Laid m bbs order a end
      → get_elem? order k ≡ some i
      → (c : Cbb) × (bs : List ℕ) × (start : ℕ) × (get_elem? bbs i ≡ some c)
        × IsEmitted junk instrs m start c bs
  Laid-at m bbs [] a end k i h e = absurd (ground arith)
  Laid-at m bbs (j ∷ order) a end zero i (c, bs, ec, x, t) e =
      let z : j ≡ i = ground arith in (c, bs, a, subst (λ n. get_elem? bbs n ≡ some c) z ec, x)
  Laid-at m bbs (j ∷ order) a end (suc k) i (c, bs, ec, x, t) e =
      Laid-at m bbs order (a + length bs + 26) end k i t e
