-- ===== src/Upload/Replies.antt =====
-- What cgiUploadFile tells the client and how it treats its allocated state, on every path.
use bkc_chooser.Base.{ℕ, ◌+◌, ◌≡◌, ◌≢◌, ◌⊎◌, true, none, some, [], ◌∷◌, ◌++◌, arith, codes, Option}
use bkc_chooser.Platform.{Platform, Request, Call, CgiReturn, send, response}
use bkc_chooser.Upload.{
  UploadState, upload_data, upload_loop, upload_step, upload_response, cgi_upload_file,
}

module _ (p : Platform) (req : Request) where
  open p use {Fs}

  abbrev has_state : Option UploadState → ℕ
  has_state none = 0
  has_state (some s) = 1

  -- Over any call the handler owns one allocation exactly while it asks for more calls: of `n`
  -- other allocations none is freed, and its own is freed when it is done.
  pub upload_owns_state :
      (call : Call) (o : Option UploadState) (n : ℕ) (fs : Fs)
      → let r = (cgi_upload_file p req call o (n + has_state o) fs).0 in
        ((r.returns ≡ CgiReturn.done) × (r.live ≡ n))
        ⊎ ((r.returns ≡ CgiReturn.more) × (r.live ≡ n + 1) × (r.cgi_data ≢ none))
  unfolding cgi_upload_file upload_step
  upload_owns_state call none n fs = ground arith
  upload_owns_state call (some s) n fs = ground arith

  -- An upload with no body is answered with the status of success and the text of an error.
  pub empty_body_reply :
      (call : Call) (live : ℕ) (fs : Fs)
      → call.is_open ≡ true
      → call.has_memory ≡ true
      → call.buff ≡ []
      → call.received ≡ req.post_len
      → (cgi_upload_file p req call none live fs).0.out
        ≡ response 200 (codes "Content-Type") (codes "text/plain")
          ++ (send (codes "Upload error:") ∷ send (codes "Premature end") ∷ send (codes "\n") ∷ [])
  unfolding cgi_upload_file upload_step upload_data upload_loop upload_response
  empty_body_reply call live fs o m e r = rw (o, m, e, r) (ground arith)
