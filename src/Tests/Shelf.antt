-- ===== src/Tests/Shelf.antt =====
-- A flash file system of two files, in the small: an old one with the handle 3, and the one under
-- way with the handle 7.
use bkc_chooser.Base.{
  ℕ, ◌+◌, some, ◌≡◌, refl, ap, ◌∙◌, Bool, true, false, not, inl, inr, List, [], ◌∷◌, ◌++◌, Bytes, ℤ,
  pos, negsuc, eqb_ℤ, bytes_eq, bytes_eq_self, keep, if◌then◌else◌, Bool-cases, arith, take, drop,
  length,
}
use bkc_chooser.Platform.{Platform}
use bkc_chooser.Sample.{SampleFs, whole_pages}
use bkc_chooser.Upload.Appfs.{AppfsLaws}
use bkc_chooser.Upload.Turns.{DeleteLaws}
use bkc_chooser.FileIndex.Laws.{ListingLaws, FileLaws}

pub record Shelf : Type 0 where
  pub old : SampleFs
  pub new : SampleFs
  pub has_old : Bool
  pub has_new : Bool

abbrev is_old : ℤ → Bool
is_old fd = eqb_ℤ fd (pos 3)

abbrev pub file : ℤ → Shelf → SampleFs
file fd fs = if is_old fd then fs.old else fs.new

abbrev with_file : ℤ → SampleFs → Shelf → Shelf
with_file fd f fs = if is_old fd then record fs { old = f } else record fs { new = f }

abbrev renamed : Bytes → Bytes → SampleFs → SampleFs
renamed from to f = if bytes_eq f.name from then record f { name = to } else f

-- The handles behind a handle.
abbrev behind_old : Shelf → List ℤ
behind_old fs = if fs.has_new then pos 7 ∷ [] else []

abbrev pub listed : ℤ → Shelf → List ℤ
listed h fs =
    if eqb_ℤ h (negsuc 0)
    then (if fs.has_old then pos 3 ∷ behind_old fs else behind_old fs)
    else if is_old h
    then behind_old fs
    else []

abbrev head_or_none : List ℤ → ℤ
head_or_none [] = negsuc 0
head_or_none (x ∷ xs) = x

abbrev pub shelf : Platform
shelf = record {
  Fs = Shelf;
  invalid_fd = negsuc 0;
  create_file = λ name size fs. (
    true,
    pos 7,
    record fs {
      new = record { bytes = []; erased_to = 0; size = size; name = name };
      has_new = true;
    },
  );
  erase = λ fd a n fs. (true, with_file fd (record (file fd fs) { erased_to = a + n }) fs);
  write = λ fd a b fs.
      (true, with_file fd (record (file fd fs) { bytes = (file fd fs).bytes ++ b }) fs);
  rename = λ from to fs.
      (true, record fs { old = renamed from to fs.old; new = renamed from to fs.new });
  delete_file = λ name fs. record fs {
    has_old = if bytes_eq fs.old.name name then false else fs.has_old;
    has_new = if bytes_eq fs.new.name name then false else fs.has_new;
  };
  next_entry = λ h fs. head_or_none (listed h fs);
  fd_valid = λ fd fs. true;
  entry_info = λ fd fs. ((file fd fs).name, length (file fd fs).bytes);
  read_file = λ fd a n fs. take n (drop a (file fd fs).bytes);
  free_mem = λ fs. 1024;
  Nvs = ℕ;
  nvs_open = λ name n. (some 1, n + 1);
  nvs_erase_all = λ h n. n + 1;
  nvs_commit = λ h n. n + 1;
  nvs_close = λ h n. n + 1;
}

renamed_lem :
    (from to : Bytes) (f : SampleFs) → f.name ≡ from → renamed from to f ≡ record f { name = to }
renamed_lem from to f h = rw (ap (λ n. bytes_eq n from) h ∙ bytes_eq_self from) refl

pub rename_shelf :
    (fd : ℤ) (from to : Bytes) (fs : Shelf)
    → (file fd fs).name ≡ from
    → let (ok, fs') = shelf.rename from to fs in file fd fs' ≡ record (file fd fs) { name = to }
rename_shelf fd from to fs h = elim (Bool-cases (is_old fd)) [
  | inl q ↦ rw q (renamed_lem from to fs.old (rw q at h))
  | inr q ↦ rw q (renamed_lem from to fs.new (rw q at h))
]

abbrev pub shelf_laws : AppfsLaws shelf
shelf_laws = record {
  stored = λ fd fs. (file fd fs).bytes;
  erased = λ fd fs. (file fd fs).erased_to;
  capacity = λ fd fs. whole_pages (file fd fs).size;
  named = λ fd fs. (file fd fs).name;
  erase_lem = λ fd a n fs e al nl pn h. elim (Bool-cases (is_old fd)) [
    | inl q ↦ rw q (refl, refl, refl, refl, refl)
    | inr q ↦ rw q (refl, refl, refl, refl, refl)
  ];
  write_lem = λ fd a b fs nb e h k. elim (Bool-cases (is_old fd)) [
    | inl q ↦ rw q (refl, refl, refl, refl, refl)
    | inr q ↦ rw q (refl, refl, refl, refl, refl)
  ];
  create_lem = λ name size fs h. (refl, refl, omega arith, omega arith, refl);
  rename_lem = λ fd from to fs h c.
      let e = rename_shelf fd from to fs h in
      (refl, ap (λ (f : SampleFs). f.bytes) e, ap (λ (f : SampleFs). f.name) e);
}

abbrev pub shelf_deletes : DeleteLaws shelf shelf_laws
shelf_deletes = record { delete_lem = λ fd name fs h. (refl, refl, refl, refl) }

pub listed_cons :
    (h x : ℤ) (xs : List ℤ) (fs : Shelf)
    → listed h fs ≡ x ∷ xs
    → (head_or_none (listed h fs) ≡ x) × (listed x fs ≡ xs) × (eqb_ℤ x (negsuc 0) ≡ false)
listed_cons h x xs fs e = ground (arith, e)

pub listed_delete :
    (h : ℤ) (name : Bytes) (fs : Shelf)
    → listed h (shelf.delete_file name fs)
      ≡ keep (λ x. not (bytes_eq (file x fs).name name)) (listed h fs)
listed_delete h name fs = ground arith

abbrev pub shelf_listing : ListingLaws shelf
shelf_listing = record {
  rest = listed;
  rest_nil = λ h fs e. ap head_or_none e;
  rest_cons = listed_cons;
}

abbrev pub shelf_files : FileLaws shelf
shelf_files = record {
  listing = shelf_listing;
  rest_delete = listed_delete;
  info_delete = λ x name fs e. refl;
}
