-- ===== src/Upload/Appfs.antt =====
-- What the upload relies on of the application file system: files stand in whole pages of 64 KiB,
-- flash is erased in sectors of 4 KiB within the file, a write needs erased space within the file,
-- and a file that exists can be renamed and keeps its contents.
use bkc_chooser.Base.{ℕ, ◌+◌, ◌%◌, ◌≤◌, ◌<◌, ◌≡◌, [], ◌++◌, Bytes, ℤ, true, length}
use bkc_chooser.Platform.{Platform}

-- What the code relies on: the bytes written to a file so far, the end of its erased space, its
-- size in flash, which is 0 for a handle of no file, and its name. A law says when a call succeeds
-- and what it then does.
pub record AppfsLaws (p : Platform) : Type 0 where
  pub stored : ℤ → p.Fs → Bytes
  pub erased : ℤ → p.Fs → ℕ
  pub capacity : ℤ → p.Fs → ℕ
  pub named : ℤ → p.Fs → Bytes
  pub erase_lem :
      (fd : ℤ) (a n : ℕ) (fs : p.Fs)
      → a ≡ erased fd fs
      → a % 4096 ≡ 0
      → n % 4096 ≡ 0
      → 0 < n
      → a + n ≤ capacity fd fs
      → let (ok, fs') = p.erase fd a n fs in
        (ok ≡ true)
        × (stored fd fs' ≡ stored fd fs)
        × (erased fd fs' ≡ a + n)
        × (capacity fd fs' ≡ capacity fd fs)
        × (named fd fs' ≡ named fd fs)
  pub write_lem :
      (fd : ℤ) (a : ℕ) (bytes : Bytes) (fs : p.Fs)
      → 0 < length bytes
      → a ≡ length (stored fd fs)
      → a + length bytes ≤ erased fd fs
      → a + length bytes ≤ capacity fd fs
      → let (ok, fs') = p.write fd a bytes fs in
        (ok ≡ true)
        × (stored fd fs' ≡ stored fd fs ++ bytes)
        × (erased fd fs' ≡ erased fd fs)
        × (capacity fd fs' ≡ capacity fd fs)
        × (named fd fs' ≡ named fd fs)
  pub create_lem :
      (name : Bytes) (size : ℕ) (fs : p.Fs)
      → let (ok, fd, fs') = p.create_file name size fs in
        ok ≡ true
        → (stored fd fs' ≡ [])
          × (erased fd fs' ≡ 0)
          × (size ≤ capacity fd fs')
          × (capacity fd fs' % 0x10000 ≡ 0)
          × (named fd fs' ≡ name)
  pub rename_lem :
      (fd : ℤ) (from to : Bytes) (fs : p.Fs)
      → named fd fs ≡ from
      → 0 < capacity fd fs
      → let (ok, fs') = p.rename from to fs in
        (ok ≡ true) × (stored fd fs' ≡ stored fd fs) × (named fd fs' ≡ to)
