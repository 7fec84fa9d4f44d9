-- ===== src/Upload/Resume.antt =====
-- The parts of a body that is uploaded, one after the other: the first, one in between, and the last.
use bkc_chooser.Base.{
  ℕ, ◌+◌, ◌<◌, ◌≡◌, sym, ap, ◌∙◌, [], ◌∷◌, ◌++◌, Bytes, arith, codes, true, length, length-append,
}
use mathlib.Core.Path.{subst}
use mathlib.Core.List.{append_assoc}
use bkc_chooser.Platform.{Platform, Request, arg_or_empty}
use bkc_chooser.Upload.{
  Phase, start, done, UploadState, fresh_upload, upload_start, upload_temp_name, len_left,
  upload_round, upload_data, fill_page,
}
use bkc_chooser.Upload.Buffer.{IsValid, fresh-IsValid}
use bkc_chooser.Upload.Chunks.{Runs-append}
use bkc_chooser.Upload.Runs.{
  Runs, Runs.stop, Runs.next, Runs-next, upload_data-Runs, upload_round-IsValid, fill_page-IsValid,
}
use bkc_chooser.Upload.Appfs.{AppfsLaws}
use bkc_chooser.Upload.Pages.{IsWriting}
use bkc_chooser.Upload.Pending.{Pending, fill_page-nil, round_fills, same_body, writes_some}
use bkc_chooser.Upload.Stored.{writes, opened}

module _ (p : Platform) (req : Request) (laws : AppfsLaws p) where
  open p use {Fs}
  open laws use {stored, named}

  fills :
      {s from : UploadState} (page : Bytes) (fs : Fs)
      → s ≡ fill_page from page
      → from.state ≡ Phase.write
      → length page < len_left from
      → Runs p req (s, fs) from page fs
  fills {from = from} [] fs e w h =
      stop (ap (λ (q : UploadState). (q, fs)) (e ∙ fill_page-nil p req laws from))
  fills {from = from} (b ∷ page) fs e w h =
      next (round_fills p req laws from (b ∷ page) fs w h)
        (stop (ap (λ (q : UploadState). (q, fs)) e))

  -- The loop over the next part goes on from where the page under way began.
  resumed :
      {s : UploadState} {body : Bytes} {n : ℕ} {name : Bytes} (src : Bytes) (fs : Fs)
      → (m : Pending p req laws s fs body n name)
      → Runs p req (upload_data p req s src fs) m.page_start (m.page ++ src) fs
  resumed {s} src fs m =
      let valid =
        subst IsValid (sym m.filled)
          (fill_page-IsValid p req m.page_start m.page m.valid m.short) in
      Runs-append p req src m.valid (fills m.page fs m.filled m.writing.writing m.short)
        (upload_data-Runs p req s src fs valid)

  received :
      {body : Bytes} (flash page src : Bytes)
      → flash ++ page ≡ body
      → flash ++ (page ++ src) ≡ body ++ src
  received flash page src e = sym (append_assoc flash page src) ∙ ap (λ (x : Bytes). x ++ src) e

  -- The next part, behind which some bytes are still to come.
  pub next_part :
      {s : UploadState} {body : Bytes} {k : ℕ} {name : Bytes} (src : Bytes) (fs : Fs) (n : ℕ)
      → Pending p req laws s fs body k name
      → k ≡ length src + n
      → 0 < n
      → let (t, fs') = upload_data p req s src fs in Pending p req laws t fs' (body ++ src) n name
  next_part {k = k} src fs n m e h =
      let all = m.page ++ src in
      let size : length m.page + k ≡ length all + n = omega (arith, e, length-append m.page src) in
      let w = subst (λ (q : ℕ). IsWriting p req laws m.page_start q fs) size m.writing in
      same_body p req laws (writes_some p req laws n (resumed src fs m) m.valid w h)
        (received (stored m.page_start.fd fs) m.page src m.so_far) m.called

  -- The last part.
  pub last_part :
      {s : UploadState} {body : Bytes} {name : Bytes} (src : Bytes) (fs : Fs)
      → Pending p req laws s fs body (length src) name
      → 0 < length src
      → let (t, fs') = upload_data p req s src fs in
        (t.state ≡ done) × (stored t.fd fs' ≡ body ++ src) × (named t.fd fs' ≡ name)
  last_part src fs m h =
      let all = m.page ++ src in
      let size : length m.page + length src ≡ length all =
        omega (arith, length-append m.page src) in
      let w = subst (λ (q : ℕ). IsWriting p req laws m.page_start q fs) size m.writing in
      let (end, bytes, name, fd) =
        writes p req laws (resumed src fs m) m.valid w (omega (arith, size, h)) in
      rw fd (end, bytes ∙ received (stored m.page_start.fd fs) m.page src m.so_far, name ∙ m.called)

  -- The first part opens the file.
  pub first_part :
      (src : Bytes) (fs : Fs) (n : ℕ)
      → length src + n ≡ req.post_len
      → 0 < length src
      → 0 < n
      → (p.create_file upload_temp_name req.post_len fs).0 ≡ true
      → let (t, fs') = upload_data p req fresh_upload src fs in
        Pending p req laws t fs' src n (arg_or_empty (req.find_arg (codes "name") 512))
  unfolding upload_round
  first_part [] fs n e h k c = absurd (omega (arith, h))
  first_part (b ∷ src) fs n e h k c =
      let (w, none_yet, name) = opened p req laws fs c in
      let valid = upload_round-IsValid p req start fresh_upload (b ∷ src) fs fresh-IsValid in
      let later =
        Runs-next p req b src (upload_data-Runs p req fresh_upload (b ∷ src) fs fresh-IsValid) in
      let s = (upload_start p req fresh_upload fs).0 in
      let fs' = (upload_start p req fresh_upload fs).1 in
      let w' = subst (λ (q : ℕ). IsWriting p req laws s q fs') (sym e) w in
      same_body p req laws (writes_some p req laws n later valid w' k)
        (ap (λ (x : Bytes). x ++ (b ∷ src)) none_yet) name
