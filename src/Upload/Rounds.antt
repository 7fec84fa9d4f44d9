-- ===== src/Upload/Rounds.antt =====
-- One round of the loop of cgiUploadFile over a part of the body, next to a round over two parts.
use bkc_chooser.Base.{
  ◌+◌, ◌-◌, ◌≤◌, ◌<◌, ◌≡◌, refl, ap, [], ◌++◌, Bytes, arith, ◌⊎◌, length, take, length-append, ltb,
  drop-append_le, take-append_le, le→not-ltb, lt→ltb, take-append_add, drop-append_add,
}
use bkc_chooser.Platform.{Platform, Request}
use bkc_chooser.Upload.{
  Phase, start, done, error, UploadState, len_left, upload_round, fill_page, top_up, flash_page,
  finish_page,
}
use bkc_chooser.Upload.Buffer.{IsValid, memcpy-memcpy}

module _ (p : Platform) (req : Request) where
  open p use {Fs}

  -- A page that is not completed is filled by one part or by two.
  len_left-fill_page :
      (s : UploadState) (a : Bytes)
      → length a < len_left s
      → len_left (fill_page s a) ≡ len_left s - length a
  unfolding len_left fill_page
  len_left-fill_page s a h = ground arith

  fill_page-fill_page :
      (s : UploadState) (a b : Bytes)
      → IsValid s
      → fill_page (fill_page s a) b ≡ fill_page s (a ++ b)
  unfolding fill_page
  fill_page-fill_page s a b v =
      ground
        (arith, memcpy-memcpy s.page_data s.page_pos a b (s.page_pos + length a), length-append a b)

  top_up-fill_page :
      (s : UploadState) (a b : Bytes)
      → IsValid s
      → length a < len_left s
      → top_up (fill_page s a) b ≡ top_up s (a ++ b)
  unfolding top_up
  top_up-fill_page s a b v h = rw (len_left-fill_page s a h) (
      unfold fill_page in
      ground (
        arith,
        take-append_add a b (len_left s) (len_left s - length a) (omega arith),
        memcpy-memcpy s.page_data s.page_pos a (take (len_left s - length a) b)
            (s.page_pos + length a),
      ))

  finish_page-fill_page :
      (s : UploadState) (a b : Bytes) (fs : Fs)
      → IsValid s
      → length a < len_left s
      → finish_page p (fill_page s a) b fs ≡ finish_page p s (a ++ b) fs
  unfolding finish_page
  finish_page-fill_page s a b fs v h = ap (λ t. flash_page p t fs) (top_up-fill_page s a b v h)

  pub finish_page-append :
      (s : UploadState) (a b : Bytes) (fs : Fs)
      → len_left s ≤ length a
      → finish_page p s (a ++ b) fs ≡ finish_page p s a fs
  unfolding finish_page top_up
  finish_page-append s a b fs h = rw (take-append_le (len_left s) a b h)

  -- A round over a part that does not complete the page, then one over the next part.
  pub round_of_fill :
      (s : UploadState) (a b : Bytes) (fs : Fs)
      → IsValid s
      → length a < len_left s
      → upload_round p req Phase.write (fill_page s a) b fs
        ≡ upload_round p req Phase.write s (a ++ b) fs
  unfolding upload_round
  round_of_fill s a b fs v h =
      let test : ltb (length b) (len_left s - length a) ≡ ltb (length (a ++ b)) (len_left s) =
        ground (arith, length-append a b) in
      rw (
        finish_page-fill_page s a b fs v h,
        fill_page-fill_page s a b v,
        len_left-fill_page s a h,
        test,
        drop-append_add a b (len_left s) (len_left s - length a) (omega arith),
      )

  pub round_of_finish :
      (s : UploadState) (a b : Bytes) (fs : Fs)
      → len_left s ≤ length a
      → let (s', rest, fs') = upload_round p req Phase.write s a fs in
        upload_round p req Phase.write s (a ++ b) fs ≡ (s', rest ++ b, fs')
  unfolding upload_round
  round_of_finish s a b fs h = rw (
    le→not-ltb (length a) (len_left s) h,
    le→not-ltb (length (a ++ b)) (len_left s) (omega (arith, length-append a b)),
    finish_page-append s a b fs h,
    drop-append_le (len_left s) a b h,
  )

  -- Finished and failed uploads ignore what comes.
  pub idle_round :
      (ph : Phase) (s : UploadState) (src : Bytes) (fs : Fs)
      → (ph ≡ done) ⊎ (ph ≡ error)
      → upload_round p req ph s src fs ≡ (s, [], fs)
  unfolding upload_round
  idle_round start s src fs i = ground arith
  idle_round Phase.write s src fs i = ground arith
  idle_round _ s src fs i = refl

  pub state-fill_page : (s : UploadState) (a : Bytes) → (fill_page s a).state ≡ s.state
  unfolding fill_page
  state-fill_page s a = refl

  pub round_of_part :
      (s : UploadState) (a : Bytes) (fs : Fs)
      → length a < len_left s
      → upload_round p req Phase.write s a fs ≡ (fill_page s a, [], fs)
  unfolding upload_round
  round_of_part s a fs h = rw (lt→ltb _ _ h)
