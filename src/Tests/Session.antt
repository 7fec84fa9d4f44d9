-- ===== src/Tests/Session.antt =====
-- Concrete uploads and downloads over whole requests, to the handlers of main/cgiappfs.c.
use bkc_chooser.Base.{◌≡◌, refl, none, some, [], ◌∷◌, Bytes, codes, true, arith}
use bkc_chooser.Platform.{Request, Call, CgiReturn, response}
use bkc_chooser.Sample.{empty_fs, sample, sample_laws}
use bkc_chooser.Upload.{UploadState}
use bkc_chooser.Upload.Session.{Posted, post, post-stores}
use bkc_chooser.Web.{ReadLaws}

abbrev pub name_req : Request
name_req = record { find_arg = λ name n. some (codes "a.app"); post_len = 3 }

abbrev first_part : Bytes
first_part = 1 ∷ 2 ∷ []

abbrev posted : Posted sample
posted = post sample name_req 0 (first_part ∷ (3 ∷ []) ∷ []) none 4 empty_fs

post-stores_example :
    (posted.out ≡ response 200 (codes "Content-Type") (codes "text/plain"))
    × (posted.returns ≡ CgiReturn.done)
    × (posted.live ≡ 4)
    × (s : UploadState) × (posted.cgi_data ≡ some s)
    × (posted.fs.bytes ≡ 1 ∷ 2 ∷ 3 ∷ [])
    × (posted.fs.name ≡ codes "a.app")
post-stores_example =
    post-stores sample name_req sample_laws (first_part ∷ []) (3 ∷ []) 4 empty_fs refl (omega arith)
      refl

abbrev reads : ReadLaws sample sample_laws
reads = record { read_lem = λ fd a n fs. refl; name_lem = λ fd fs. refl }

-- The request for the file that the upload wrote.
abbrev seven_req : Request
seven_req = record { find_arg = λ name n. some (codes "7"); post_len = 0 }

abbrev open_call : Call
open_call = record { is_open = true; has_memory = true; buff = []; received = 0 }
