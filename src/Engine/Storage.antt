-- ===== src/Engine/Storage.antt =====
-- src/buffers.c: the storage for generated code.
use dbrew.Prelude.{ℕ, ◌+◌, ◌-◌, ◌%◌, Option, none, some, ltb, leb, if◌then◌else◌, ◌>>◌, assert}

-- `CodeStorage`; `buf` is the address that the operating system has mapped.
pub record CodeStorage : Type 0 where
  pub size : ℕ
  pub fullsize : ℕ
  pub buf : ℕ
  pub used : ℕ

-- The size is rounded up to whole pages by clearing the low 12 bits. `buf` is what `mmap` returns.
unfoldable pub init_code_storage : ℕ → ℕ → CodeStorage
init_code_storage size buf = record {
  size = size;
  fullsize = size + 4095 - (size + 4095) % 4096;
  buf = buf;
  used = 0;
}

-- The address of the free part, or none if the program exits because there is not enough of it.
unfoldable pub reserve_code_storage : CodeStorage → ℕ → Option ℕ
reserve_code_storage cs size =
    if ltb cs.fullsize (cs.used + size) then none else some (cs.buf + cs.used)

unfoldable pub use_code_storage : CodeStorage → ℕ → Option (ℕ × CodeStorage)
use_code_storage cs size = do
  assert (leb (cs.used + size) cs.fullsize)
  some (cs.buf + cs.used, record cs { used = cs.used + size })
