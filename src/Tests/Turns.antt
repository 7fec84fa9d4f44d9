-- ===== src/Tests/Turns.antt =====
-- Uploads to main/cgiappfs.c over a shelf of two files: with a deletion between the parts, and cut
-- off before the end.
use bkc_chooser.Base.{
  ◌≡◌, refl, negsuc, eqb_ℤ, keep, length, true, false, some, [], ◌∷◌, codes, arith,
}
use bkc_chooser.Libc.{atoi, fnmatch}
use bkc_chooser.Platform.{Request}
use bkc_chooser.FileIndex.{cgi_delete}
use bkc_chooser.Sample.{empty_fs}
use bkc_chooser.Tests.Shelf.{Shelf, shelf, shelf_laws, shelf_deletes, shelf_files, listed}
use bkc_chooser.Upload.Chunks.{feed}
use bkc_chooser.FileIndex.{delete_temp_files, delete_temp_from}
use bkc_chooser.FileIndex.Cleanup.{Cleaned, delete_temp_files-Cleaned}
use bkc_chooser.Upload.Interrupted.{interrupted_upload_swept}
use bkc_chooser.Upload.{
  UploadState, fresh_upload, cgi_upload_file, upload_step, upload_data, upload_loop, upload_round,
  upload_start, len_left, fill_page,
}
use bkc_chooser.Upload.Turns.{part, deletion, Server, handle, run, idle, Spares}
use bkc_chooser.Upload.Deletions.{Stores, deletions_spare_upload}

abbrev new_req : Request
new_req = record { find_arg = λ name n. some (codes "a.app"); post_len = 3 }

-- An old application and no other file.
abbrev on_shelf : Shelf
on_shelf = record {
  old = record { bytes = 8 ∷ 9 ∷ []; erased_to = 0; size = 2; name = codes "old.app" };
  new = empty_fs;
  has_old = true;
  has_new = false;
}

abbrev old_req : Request
old_req = record { find_arg = λ name n. some (codes "3"); post_len = 0 }

abbrev start_server : Server shelf
start_server = idle shelf new_req 4 on_shelf 0

abbrev half : Server shelf
half = handle shelf new_req (part (1 ∷ 2 ∷ [])) start_server

spares : Spares shelf new_req (deletion old_req ∷ []) half
unfolding atoi cgi_upload_file upload_step upload_data upload_loop upload_round upload_start
    len_left
spares = (refl, tt)

deletions_spare_upload_example :
    Stores shelf new_req shelf_laws shelf_deletes 4
      (run shelf new_req (part (1 ∷ 2 ∷ []) ∷ deletion old_req ∷ part (3 ∷ []) ∷ []) start_server)
      (1 ∷ 2 ∷ 3 ∷ [])
deletions_spare_upload_example =
    deletions_spare_upload shelf new_req shelf_laws shelf_deletes 4 (1 ∷ 2 ∷ []) (3 ∷ [])
      (deletion old_req ∷ []) on_shelf 0 refl (omega arith) (omega arith) refl spares

-- The old application is gone behind its deletion.
old_deleted : (handle shelf new_req (deletion old_req) start_server).fs.has_old ≡ false
unfolding cgi_delete atoi
old_deleted = refl

-- An upload of which two bytes come, and no more.
abbrev cut_off : UploadState × Shelf
cut_off = feed shelf new_req fresh_upload ((1 ∷ []) ∷ (2 ∷ []) ∷ []) on_shelf

two_listed : length (listed (negsuc 0) cut_off.1) ≡ 2
unfolding feed upload_data upload_loop upload_round upload_start len_left fill_page
two_listed = refl

interrupted_upload_swept_example :
    (fs : Shelf) × (delete_temp_files shelf 3 cut_off.1 ≡ some fs)
    × Cleaned shelf shelf_files (negsuc 0) cut_off.1 fs
    × (keep (eqb_ℤ cut_off.0.fd) (listed (negsuc 0) fs) ≡ [])
interrupted_upload_swept_example =
    interrupted_upload_swept shelf new_req shelf_laws shelf_files (λ fd fs. refl)
      ((1 ∷ []) ∷ (2 ∷ []) ∷ []) on_shelf 1 3 refl (omega arith) (omega arith) refl
      (omega (arith, two_listed))

-- The new file has the name of a temporary file.
abbrev with_temp : Shelf
with_temp = record on_shelf {
  new = record { bytes = 1 ∷ []; erased_to = 0; size = 3; name = codes "__x.tmp" };
  has_new = true;
}

delete_temp_files-Cleaned_example :
    (fs : Shelf) × (delete_temp_files shelf 3 with_temp ≡ some fs)
    × Cleaned shelf shelf_files (negsuc 0) with_temp fs
delete_temp_files-Cleaned_example =
    delete_temp_files-Cleaned shelf shelf_files 3 with_temp (omega arith)

-- The old application is still there, and the temporary file is not.
old_left : (delete_temp_files shelf 3 with_temp) ≡ some (record with_temp { has_new = false })
unfolding delete_temp_files delete_temp_from fnmatch
old_left = refl
