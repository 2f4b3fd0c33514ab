-- ===== src/Memory.antt =====
-- The memory that code is written to: a byte for each address.
use dbrew.Prelude.{ℕ, zero, suc, ◌+◌, ◌*◌, ◌/◌, ◌%◌, ◌^◌, ◌≤◌, ◌<◌, ◌≡◌, refl, ap, ◌∙◌, ◌≢◌}
use dbrew.Prelude.{◌⊎◌, inl, arith, ◌==◌, if◌then◌else◌}

abbrev pub Memory : Type 0
Memory = ℕ → ℕ

unfoldable pub write : Memory → ℕ → ℕ → Memory
write m a v x = if x == a then v else m x

-- A little-endian store and load of 32 bits.
unfoldable pub write32 : Memory → ℕ → ℕ → Memory
unfolding write
write32 m a v =
    write (write (write (write m a (v % 256)) (a + 1) (v / 2 ^ 8 % 256)) (a + 2) (v / 2 ^ 16 % 256))
      (a + 3) (v / 2 ^ 24 % 256)

unfoldable pub read32 : Memory → ℕ → ℕ
read32 m a = m a + m (a + 1) * 2 ^ 8 + m (a + 2) * 2 ^ 16 + m (a + 3) * 2 ^ 24

pub read32-write32 : (m : Memory) (a v : ℕ) → v < 2 ^ 32 → read32 (write32 m a v) a ≡ v
unfolding read32 write32 write
read32-write32 m a v h = ground arith

pub write32-outside : (m : Memory) (a v x : ℕ) → (x < a) ⊎ (a + 4 ≤ x) → write32 m a v x ≡ m x
unfolding write32 write
write32-outside m a v x h = ground arith

pub write-outside : (m : Memory) (a v x : ℕ) → x ≢ a → write m a v x ≡ m x
unfolding write
write-outside m a v x h = ground arith

pub write-same : (m : Memory) (a v : ℕ) → write m a v a ≡ v
unfolding write
write-same m a v = ground arith

pub read32-ext :
    (m m' : Memory) (a : ℕ) → ((x : ℕ) → a ≤ x → x < a + 4 → m x ≡ m' x) → read32 m a ≡ read32 m' a
unfolding read32
read32-ext m m' a h = omega (
  arith,
  h a (omega arith) (omega arith),
  h (a + 1) (omega arith) (omega arith),
  h (a + 2) (omega arith) (omega arith),
  h (a + 3) (omega arith) (omega arith),
)

-- The loop that copies `n` bytes upwards.
unfoldable pub copy : ℕ → ℕ → ℕ → Memory → Memory
unfolding write
copy zero dst src m = m
copy (suc n) dst src m = copy n (dst + 1) (src + 1) (write m dst (m src))

pub copy-outside :
    (n dst src : ℕ) (m : Memory) (x : ℕ) → (x < dst) ⊎ (dst + n ≤ x) → copy n dst src m x ≡ m x
unfolding copy
copy-outside zero dst src m x h = refl
copy-outside (suc n) dst src m x h =
    copy-outside n (dst + 1) (src + 1) (write m dst (m src)) x (ground arith)
    ∙ write-outside m dst (m src) x (ground arith)

-- The copy is right although the destination may overlap the source, as it does not lie above it.
pub copy_lem :
    (n dst src : ℕ) (m : Memory) (j : ℕ)
    → dst ≤ src
    → j < n
    → copy n dst src m (dst + j) ≡ m (src + j)
unfolding copy
copy_lem zero dst src m j h l = absurd (omega arith)
copy_lem (suc n) dst src m zero h l =
    let m' = write m dst (m src) in
    copy-outside n (dst + 1) (src + 1) m' (dst + 0) (inl (omega arith))
    ∙ ap m' (omega arith)
    ∙ write-same m dst (m src)
    ∙ ap m (omega arith)
copy_lem (suc n) dst src m (suc j) h l =
    let m' = write m dst (m src) in
    ap (copy n (dst + 1) (src + 1) m') (omega arith)
    ∙ copy_lem n (dst + 1) (src + 1) m' j (omega arith) (omega arith)
    ∙ write-outside m dst (m src) (src + 1 + j) (omega arith)
    ∙ ap m (omega arith)

-- A little-endian load and store of `n` bytes.
unfoldable pub load : Memory → ℕ → ℕ → ℕ
load m zero a = 0
load m (suc n) a = m a + load m n (a + 1) * 2 ^ 8

unfoldable pub store : Memory → ℕ → ℕ → ℕ → Memory
unfolding write
store m zero a v = m
store m (suc n) a v = store (write m a (v % 2 ^ 8)) n (a + 1) (v / 2 ^ 8)
