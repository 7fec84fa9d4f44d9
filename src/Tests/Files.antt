-- ===== src/Tests/Files.antt =====
-- Concrete lists of files for delete_temp_files of main/main.c and cgiFileIdx of main/cgiappfs.c.
use bkc_chooser.Base.{
  ◌≤◌, ◌≡◌, refl, true, false, none, some, List, [], ◌∷◌, ◌++◌, codes, ℤ, pos, eqb_ℤ, arith,
  if◌then◌else◌, length,
}
use bkc_chooser.Platform.{Request}
use bkc_chooser.Sample.{SampleFs, sample}
use bkc_chooser.Serve.{serve}
use bkc_chooser.Download.{find_file}
use bkc_chooser.FileIndex.{json_esc}
use bkc_chooser.FileIndex.Laws.{ListingLaws}
use bkc_chooser.Platform.{done}
use bkc_chooser.FileIndex.{cgi_file_idx, index_row}
use bkc_chooser.FileIndex.Listing.{head, rows, tail, cgi_file_idx-rows}
use bkc_chooser.FileIndex.Rows.{length-index_row, shown_index, find_file-index_row}

-- A file system with one temporary file, whose listing is that file.
abbrev temp_fs : SampleFs
temp_fs = record { bytes = (1 ∷ 2 ∷ 3 ∷ 4 ∷ []); erased_to = 0; size = 4; name = codes "__x.tmp" }

abbrev handles : ℤ → List ℤ
handles h = if eqb_ℤ h (ℤ.negsuc 0) then pos 7 ∷ [] else []

handles_nil : (h : ℤ) (fs : SampleFs) → handles h ≡ [] → sample.next_entry h fs ≡ ℤ.negsuc 0
handles_nil h fs e = ground arith

handles_cons :
    (h x : ℤ) (xs : List ℤ) (fs : SampleFs)
    → handles h ≡ x ∷ xs
    → (sample.next_entry h fs ≡ x) × (handles x ≡ xs) × (eqb_ℤ x (ℤ.negsuc 0) ≡ false)
handles_cons h x xs fs e = ground arith

abbrev listing : ListingLaws sample
listing = record { rest = λ h fs. handles h; rest_nil = handles_nil; rest_cons = handles_cons }

cgi_file_idx-rows_example :
    serve (λ o n. cgi_file_idx sample o n temp_fs) 2 none 0
    ≡ (head ++ (rows sample true (pos 7 ∷ []) temp_fs ++ tail sample temp_fs), done, 0)
cgi_file_idx-rows_example = cgi_file_idx-rows sample listing 0 temp_fs (7, refl, tt)

length-index_row_example : length (index_row false (pos 7) (json_esc (codes "__x.tmp") 128) 4) ≤ 197
length-index_row_example = length-index_row false 7 4 (codes "__x.tmp")

abbrev seven_req : Request
seven_req = record {
  find_arg = λ name n. some (shown_index (index_row false (pos 7) (codes "__x.tmp") 4));
  post_len = 0;
}

find_file-index_row_example : find_file sample seven_req temp_fs ≡ some (pos 7)
find_file-index_row_example =
    find_file-index_row sample seven_req temp_fs false 7 4 (codes "__x.tmp") (omega arith) refl refl
