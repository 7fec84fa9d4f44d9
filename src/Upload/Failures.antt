-- ===== src/Upload/Failures.antt =====
-- What cgiUploadFile of main/cgiappfs.c answers where a part of the body meets an error: appfs does
-- not grant the file, or does not erase or write a page before the last one.
use bkc_chooser.Base.{
  ℕ, zero, suc, ◌+◌, ◌-◌, ◌<◌, ◌≡◌, refl, sym, ap, ◌∙◌, none, List, [], ◌∷◌, ◌++◌, Bytes, codes,
  arith, length,
}
use mathlib.Core.List.{append_assoc}
use bkc_chooser.Platform.{Platform, Request, CgiReturn, send, response}
use bkc_chooser.Upload.{
  Phase, error, UploadState, fresh_upload, upload_data, upload_loop, upload_round, upload_response,
}
use bkc_chooser.Upload.Chunks.{feed, concat}
use bkc_chooser.Upload.Session.{answered, post, post-first, post-feed}

module _ (p : Platform) (req : Request) where
  open p use {Fs}

  -- The state is left alone from then on, and so is the file system.
  loop_stop : (fuel : ℕ) (s : UploadState) (fs : Fs) → upload_loop p fuel req s [] fs ≡ (s, fs)
  unfolding upload_loop
  loop_stop zero s fs = refl
  loop_stop (suc fuel) s fs = refl

  loop_error :
      (fuel : ℕ) (s : UploadState) (src : Bytes) (fs : Fs)
      → s.state ≡ error
      → upload_loop p (suc fuel) req s src fs ≡ (s, fs)
  unfolding upload_loop upload_round
  loop_error fuel s [] fs e = refl
  loop_error fuel s (b ∷ src) fs e =
      ap (λ (t : UploadState × Bytes × Fs). upload_loop p fuel req t.0 t.1 t.2)
        (ap (λ (ph : Phase). upload_round p req ph s (b ∷ src) fs) e)
      ∙ loop_stop fuel s fs

  upload_data_error :
      (s : UploadState) (src : Bytes) (fs : Fs)
      → s.state ≡ error
      → upload_data p req s src fs ≡ (s, fs)
  unfolding upload_data
  upload_data_error s src fs e =
      let some_fuel : length src + 3 ≡ suc (length src + 2) = omega arith in
      ap (λ (n : ℕ). upload_loop p n req s src fs) some_fuel
      ∙ loop_error (length src + 2) s src fs e

  feed_error :
      (s : UploadState) (parts : List Bytes) (fs : Fs)
      → s.state ≡ error
      → feed p req s parts fs ≡ (s, fs)
  unfolding feed
  feed_error s [] fs e = refl
  feed_error s (part ∷ parts) fs e = rw (upload_data_error s part fs e) (feed_error s parts fs e)

  feed-append :
      (s : UploadState) (xs ys : List Bytes) (fs : Fs)
      → feed p req s (xs ++ ys) fs ≡ (let t = feed p req s xs fs in feed p req t.0 ys t.1)
  unfolding feed
  feed-append s [] ys fs = refl
  feed-append s (x ∷ xs) ys fs = let t = upload_data p req s x fs in feed-append t.0 xs ys t.1

  response_error :
      (s : UploadState)
      → s.state ≡ error
      → upload_response s
        ≡ response 400 (codes "Content-Type") (codes "text/plain")
          ++ (send (codes "Upload error:") ∷ send s.err ∷ send (codes "\n") ∷ [])
  unfolding upload_response
  response_error s e = rw e refl

  -- Where the first parts of a body leave the state at FLST_ERROR, the request is answered with the
  -- status 400 and the error's text, the handler is done and no state stays allocated, and the file
  -- system stays as those parts left it, so the temporary file is not renamed. The connection stays
  -- open, there is memory, and the last part is not empty.
  pub failed_upload_reported :
      (before after : List Bytes) (last : Bytes) (live : ℕ) (fs : Fs)
      → length (concat p req (before ++ (after ++ (last ∷ [])))) ≡ req.post_len
      → 0 < length last
      → (feed p req fresh_upload before fs).0.state ≡ error
      → let t = feed p req fresh_upload before fs in
        let r = post p req 0 (before ++ (after ++ (last ∷ []))) none live fs in
        (r.out
          ≡ response 400 (codes "Content-Type") (codes "text/plain")
            ++ (send (codes "Upload error:") ∷ send t.0.err ∷ send (codes "\n") ∷ []))
        × (r.returns ≡ CgiReturn.done)
        × (r.live ≡ live)
        × (r.fs ≡ t.1)
  failed_upload_reported before after last live fs e h x =
      let t = feed p req fresh_upload before fs in
      let end : feed p req fresh_upload (before ++ (after ++ (last ∷ []))) fs ≡ t =
        feed-append fresh_upload before (after ++ (last ∷ [])) fs
        ∙ feed_error t.0 (after ++ (last ∷ [])) t.1 x in
      let parts : before ++ (after ++ (last ∷ [])) ≡ (before ++ after) ++ (last ∷ []) =
        sym (append_assoc before after (last ∷ [])) in
      let posted : post p req 0 (before ++ (after ++ (last ∷ []))) none live fs
          ≡ answered p req t live =
        ap (λ (x : List Bytes). post p req 0 x none live fs) parts
        ∙ post-first p req (before ++ after) last live fs
        ∙ post-feed p req (before ++ after) last 0 fresh_upload (live + 1) fs
            (omega (arith, e, ap (λ (x : List Bytes). length (concat p req x)) parts)) h
        ∙ ap (λ (x : List Bytes). answered p req (feed p req fresh_upload x fs) (live + 1 - 1))
            (sym parts)
        ∙ ap (λ (u : UploadState × Fs). answered p req u (live + 1 - 1)) end
        ∙ ap (λ (n : ℕ). answered p req t n) (omega arith) in
      rw posted (response_error t.0 x, refl, refl, refl)
