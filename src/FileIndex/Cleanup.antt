-- ===== src/FileIndex/Cleanup.antt =====
-- What delete_temp_files of main/main.c leaves of the files in appfs.
use bkc_chooser.Base.{
  ℕ, zero, suc, ◌<◌, ◌≡◌, refl, sym, ap, ◌∙◌, Bool, true, false, not, some, List, [], ◌∷◌, ◌++◌,
  Bytes, ℤ, inl, inr, Bool-cases, eqb_ℤ, if◌then◌else◌, length, bytes_eq, arith, keep, keep-append,
  length-keep, keep-keep, bytes_eq_path, bytes_eq_self,
}
use mathlib.Core.List.{append_assoc, append-nil}
use bkc_chooser.Platform.{Platform}
use bkc_chooser.Libc.{fnmatch}
use bkc_chooser.FileIndex.{temp_pattern, delete_temp_from, delete_temp_files}
use bkc_chooser.FileIndex.Laws.{FileLaws, eqb_ℤ_self}

module _ (p : Platform) (laws : FileLaws p) where
  open p use {Fs, invalid_fd, next_entry, entry_info, delete_file}
  open laws use {listing, rest_delete, info_delete}
  open listing use {rest, rest_nil, rest_cons}

  -- Whether a file's name is not that of a temporary file.
  abbrev pub stays : Fs → ℤ → Bool
  stays fs x = not (fnmatch temp_pattern (entry_info x fs).0)

  -- Whether a file has another name.
  abbrev other : Bytes → Fs → ℤ → Bool
  other name fs x = not (bytes_eq (entry_info x fs).0 name)

  -- The files that stay are those without a temporary name, in their order, and what is known of
  -- them is as it was.
  abbrev pub Cleaned : ℤ → Fs → Fs → Type 0
  Cleaned g fs fs' =
      (rest g fs' ≡ keep (stays fs) (rest g fs))
      × ((x : ℤ) → stays fs x ≡ true → entry_info x fs' ≡ entry_info x fs)

  -- The deletion of a temporary file.
  module _ (name : Bytes) (fs : Fs) (temp : fnmatch temp_pattern name ≡ true) where
    same_name-stays : (x : ℤ) → other name fs x ≡ false → stays fs x ≡ false
    same_name-stays x e =
        let q : bytes_eq (entry_info x fs).0 name ≡ true = ground (arith, e) in
        ap (λ n. not (fnmatch temp_pattern n)) (bytes_eq_path (entry_info x fs).0 name q)
        ∙ rw temp refl

    stays-other : (x : ℤ) → stays fs x ≡ true → other name fs x ≡ true
    stays-other x e = elim (Bool-cases (other name fs x)) [
      | inl q ↦ q
      | inr q ↦ absurd (cc (same_name-stays x q, e))
    ]

    info_kept :
        (x : ℤ) → other name fs x ≡ true → entry_info x (delete_file name fs) ≡ entry_info x fs
    info_kept x e = info_delete x name fs (ground (arith, e))

    stays_kept : (x : ℤ) → other name fs x ≡ true → stays fs x ≡ stays (delete_file name fs) x
    stays_kept x e = ap (λ i. not (fnmatch temp_pattern i.0)) (sym (info_kept x e))

    keep-deleted :
        (xs : List ℤ)
        → keep (stays (delete_file name fs)) (keep (other name fs) xs) ≡ keep (stays fs) xs
    keep-deleted xs =
        keep-keep (other name fs) (stays (delete_file name fs)) (stays fs) xs same_name-stays
          stays_kept

    keep-other : (xs : List ℤ) → keep (other name fs) (keep (stays fs) xs) ≡ keep (stays fs) xs
    keep-other xs =
        keep-keep (stays fs) (other name fs) (stays fs) xs (λ x e. e)
          (λ x e. e ∙ sym (stays-other x e))

    Cleaned-deleted : (g : ℤ) (fs' : Fs) → Cleaned g (delete_file name fs) fs' → Cleaned g fs fs'
    Cleaned-deleted g fs' c = (
      c.0
          ∙ ap (keep (stays (delete_file name fs))) (rest_delete g name fs)
          ∙ keep-deleted (rest g fs),
      λ x e. let o = stays-other x e in c.1 x (sym (stays_kept x o) ∙ e) ∙ info_kept x o,
    )

  -- The loop ends, and what it leaves is cleaned.
  abbrev Ends : ℕ → ℤ → ℤ → Fs → Type 0
  Ends fuel g h fs = (fs' : Fs) × (delete_temp_from p fuel h fs ≡ some fs') × Cleaned g fs fs'

  -- The round for the entry `x`.
  abbrev round_of : ℤ → Fs → Fs
  round_of x fs =
      let name = (entry_info x fs).0 in
      if fnmatch temp_pattern name then delete_file name fs else fs

  round_ends :
      (fuel : ℕ) (h x : ℤ) (xs : List ℤ) (fs : Fs)
      → rest h fs ≡ x ∷ xs
      → delete_temp_from p (suc fuel) h fs ≡ delete_temp_from p fuel x (round_of x fs)
  unfolding delete_temp_from
  round_ends fuel h x xs fs e =
      let (n, r, i) = rest_cons h x xs fs e in
      ap (λ y. if eqb_ℤ y invalid_fd then some fs else delete_temp_from p fuel y (round_of y fs)) n
      ∙ ap (λ b. if b then some fs else delete_temp_from p fuel x (round_of x fs)) i

  last_ends :
      (fuel : ℕ) (h : ℤ) (fs : Fs) → rest h fs ≡ [] → delete_temp_from p (suc fuel) h fs ≡ some fs
  unfolding delete_temp_from
  last_ends fuel h fs e =
      let rest_of = delete_temp_from p fuel (next_entry h fs) (round_of (next_entry h fs) fs) in
      ap (λ b. if b then some fs else rest_of)
        (ap (λ y. eqb_ℤ y invalid_fd) (rest_nil h fs e) ∙ eqb_ℤ_self invalid_fd)

  -- What a deletion leaves of the entries that the loop has passed, and of those behind.
  passed_deleted :
      (g : ℤ) (before : List ℤ) (x : ℤ) (xs : List ℤ) (fs : Fs)
      → fnmatch temp_pattern (entry_info x fs).0 ≡ true
      → rest g fs ≡ before ++ x ∷ xs
      → keep (stays fs) before ≡ before
      → let name = (entry_info x fs).0 in
        let gone = delete_file name fs in
        (rest g gone ≡ before ++ keep (other name fs) xs) × (keep (stays gone) before ≡ before)
  passed_deleted g before x xs fs temp w c =
      let name = (entry_info x fs).0 in
      let gone = delete_file name fs in
      let kept = keep (other name fs) xs in
      let same : keep (other name fs) before ≡ before =
        ap (keep (other name fs)) (sym c) ∙ keep-other name fs temp before ∙ c in
      let none_of_x : keep (other name fs) (x ∷ xs) ≡ kept = rw (bytes_eq_self name) refl in
      (
        rest_delete g name fs
            ∙ ap (keep (other name fs)) w
            ∙ keep-append (other name fs) before (x ∷ xs)
            ∙ ap (λ ys. keep (other name fs) before ++ ys) none_of_x
            ∙ ap (λ ys. ys ++ kept) same,
        ap (keep (stays gone)) (sym same) ∙ keep-deleted name fs temp before ∙ c,
      )

  -- `before` are the entries that the loop has passed.
  loop_ends :
      (fuel : ℕ) (g h : ℤ) (before xs : List ℤ) (fs : Fs)
      → rest h fs ≡ xs
      → length xs < fuel
      → rest g fs ≡ before ++ xs
      → keep (stays fs) before ≡ before
      → Ends fuel g h fs
  loop_ends zero g h before xs fs e l w c = absurd (omega arith)
  loop_ends (suc fuel) g h before [] fs e l w c =
      let all = w ∙ append-nil before in
      (fs, last_ends fuel h fs e, (all ∙ sym c ∙ ap (keep (stays fs)) (sym all), λ x q. refl))
  loop_ends (suc fuel) g h before (x ∷ xs) fs e l w c =
      let name = (entry_info x fs).0 in
      let (n, r, i) = rest_cons h x xs fs e in
      elim (Bool-cases (fnmatch temp_pattern name)) [
        | inl temp ↦
            let gone = delete_file name fs in
            let kept = keep (other name fs) xs in
            let (whole, still) = passed_deleted g before x xs fs temp w c in
            let (fs', end, cleaned) =
              loop_ends fuel g x before kept gone
                (rest_delete x name fs ∙ ap (keep (other name fs)) r)
                (omega (arith, l, length-keep (other name fs) xs)) whole still in
            (
              fs',
              round_ends fuel h x xs fs e
                  ∙ ap (λ b. delete_temp_from p fuel x (if b then gone else fs)) temp
                  ∙ end,
              Cleaned-deleted name fs temp g fs' cleaned,
            )
        | inr plain ↦
            let still : keep (stays fs) (before ++ x ∷ []) ≡ before ++ x ∷ [] =
              keep-append (stays fs) before (x ∷ []) ∙ rw plain (ap (λ ys. ys ++ x ∷ []) c) in
            let (fs', end, cleaned) =
              loop_ends fuel g x (before ++ x ∷ []) xs fs r (omega (arith, l))
                (w ∙ sym (append_assoc before (x ∷ []) xs)) still in
            (
              fs',
              round_ends fuel h x xs fs e
                  ∙ ap (λ b. delete_temp_from p fuel x (if b then delete_file name fs else fs))
                      plain
                  ∙ end,
              cleaned,
            )
      ]

  -- With more fuel than there are files, delete_temp_files ends, and the files that it leaves are
  -- those whose names do not match `__*.tmp`, in their order, with their names and sizes. It is
  -- assumed that appfs lists and deletes files as FileLaws says.
  pub delete_temp_files-Cleaned :
      (fuel : ℕ) (fs : Fs)
      → length (rest invalid_fd fs) < fuel
      → (fs' : Fs) × (delete_temp_files p fuel fs ≡ some fs') × Cleaned invalid_fd fs fs'
  unfolding delete_temp_files
  delete_temp_files-Cleaned fuel fs l =
      loop_ends fuel invalid_fd invalid_fd [] (rest invalid_fd fs) fs refl l refl refl
