-- ===== src/Tests/Failures.antt =====
-- An upload to a file system that is full: cgiUploadFile of main/cgiappfs.c.
use bkc_chooser.Base.{◌≡◌, ◌++◌, refl, none, [], ◌∷◌, codes, pos, false, arith}
use bkc_chooser.Platform.{Platform, CgiReturn, send, response}
use bkc_chooser.Sample.{empty_fs, sample}
use bkc_chooser.Upload.{upload_round, upload_loop, upload_data, upload_start}
use bkc_chooser.Upload.Chunks.{feed}
use bkc_chooser.Upload.Session.{Posted, post}
use bkc_chooser.Upload.Failures.{failed_upload_reported}
use bkc_chooser.Tests.Session.{name_req}

abbrev full : Platform
full = record sample { create_file = λ name size fs. (false, pos 0, fs) }

-- The request for three bytes, of which one comes first.
abbrev refused : Posted full
refused = post full name_req 0 ((1 ∷ []) ∷ (2 ∷ []) ∷ (3 ∷ []) ∷ []) none 4 empty_fs

failed_upload_reported_example :
    (refused.out
      ≡ response 400 (codes "Content-Type") (codes "text/plain")
        ++ (send (codes "Upload error:")
            ∷ send (codes "App too large for free space")
            ∷ send (codes "\n")
            ∷ []))
    × (refused.returns ≡ CgiReturn.done)
    × (refused.live ≡ 4)
    × (refused.fs ≡ empty_fs)
unfolding feed upload_data upload_loop upload_round upload_start
failed_upload_reported_example =
    failed_upload_reported full name_req ((1 ∷ []) ∷ []) ((2 ∷ []) ∷ []) (3 ∷ []) 4 empty_fs refl
      (omega arith) refl
