-- ===== src/Sample.antt =====
-- A platform in the small, for the tests: a flash file system of one file that can be listed,
-- and a settings store that counts its calls.
use bkc_chooser.Base.{
  ℕ, ◌+◌, ◌*◌, ◌/◌, refl, true, some, [], ◌++◌, Bytes, pos, negsuc, arith, eqb_ℤ, if◌then◌else◌,
  take, drop, length,
}
use bkc_chooser.Platform.{Platform}
use bkc_chooser.Upload.Appfs.{AppfsLaws}

pub record SampleFs : Type 0 where
  pub bytes : Bytes
  pub erased_to : ℕ
  pub size : ℕ
  pub name : Bytes

abbrev pub empty_fs : SampleFs
empty_fs = record { bytes = []; erased_to = 0; size = 0; name = [] }

abbrev pub sample : Platform
sample = record {
  Fs = SampleFs;
  invalid_fd = negsuc 0;
  create_file =
      λ name size fs. (true, pos 7, record { bytes = []; erased_to = 0; size = size; name = name });
  erase = λ fd a n fs. (true, record fs { erased_to = a + n });
  write = λ fd a b fs. (true, record fs { bytes = fs.bytes ++ b });
  rename = λ from to fs. (true, record fs { name = to });
  delete_file = λ name fs. empty_fs;
  next_entry = λ fd fs. if eqb_ℤ fd (negsuc 0) then pos 7 else negsuc 0;
  fd_valid = λ fd fs. eqb_ℤ fd (pos 7);
  entry_info = λ fd fs. (fs.name, length fs.bytes);
  read_file = λ fd a n fs. take n (drop a fs.bytes);
  free_mem = λ fs. 1024;
  Nvs = ℕ;
  nvs_open = λ name n. (some 1, n + 1);
  nvs_erase_all = λ h n. n + 1;
  nvs_commit = λ h n. n + 1;
  nvs_close = λ h n. n + 1;
}

-- The pages of 64 KiB that `n` bytes take.
abbrev pub whole_pages : ℕ → ℕ
whole_pages n = (n + 0xffff) / 0x10000 * 0x10000

abbrev pub sample_laws : AppfsLaws sample
sample_laws = record {
  stored = λ fd fs. fs.bytes;
  erased = λ fd fs. fs.erased_to;
  capacity = λ fd fs. whole_pages fs.size;
  named = λ fd fs. fs.name;
  erase_lem = λ fd a n fs e al nl pn h. (refl, refl, refl, refl, refl);
  write_lem = λ fd a b fs nb e h k. (refl, refl, refl, refl, refl);
  create_lem = λ name size fs h. (refl, refl, omega arith, omega arith, refl);
  rename_lem = λ fd from to fs h c. (refl, refl, refl);
}
