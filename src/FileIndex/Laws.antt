-- ===== src/FileIndex/Laws.antt =====
-- What cgiFileIdx of main/cgiappfs.c and delete_temp_files of main/main.c rely on of appfs.
use bkc_chooser.Base.{◌≡◌, true, false, not, List, [], ◌∷◌, Bytes, ℤ, eqb_ℤ, bytes_eq, keep, arith}
use bkc_chooser.Platform.{Platform}

-- How appfsNextEntry lists files: behind each handle there is a list of handles, and the next
-- entry is its head.
pub record ListingLaws (p : Platform) : Type 0 where
  pub rest : ℤ → p.Fs → List ℤ
  pub rest_nil : (h : ℤ) (fs : p.Fs) → rest h fs ≡ [] → p.next_entry h fs ≡ p.invalid_fd
  pub rest_cons :
      (h x : ℤ) (xs : List ℤ) (fs : p.Fs)
      → rest h fs ≡ x ∷ xs
      → (p.next_entry h fs ≡ x) × (rest x fs ≡ xs) × (eqb_ℤ x p.invalid_fd ≡ false)

-- How appfsDeleteFile changes the lists: the files of that name go, and what is known of the
-- others stays.
pub record FileLaws (p : Platform) : Type 0 where
  pub listing : ListingLaws p
  pub rest_delete :
      (h : ℤ) (name : Bytes) (fs : p.Fs)
      → listing.rest h (p.delete_file name fs)
        ≡ keep (λ x. not (bytes_eq (p.entry_info x fs).0 name)) (listing.rest h fs)
  pub info_delete :
      (x : ℤ) (name : Bytes) (fs : p.Fs)
      → bytes_eq (p.entry_info x fs).0 name ≡ false
      → p.entry_info x (p.delete_file name fs) ≡ p.entry_info x fs

pub eqb_ℤ_self : (x : ℤ) → eqb_ℤ x x ≡ true
eqb_ℤ_self x = ground arith
