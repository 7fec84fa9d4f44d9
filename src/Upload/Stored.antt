-- ===== src/Upload/Stored.antt =====
-- What appfs holds behind an upload of cgiUploadFile.
use bkc_chooser.Base.{
  ℕ, ◌≤◌, ◌<◌, ◌≡◌, sym, ap, ◌∙◌, List, [], ◌∷◌, ◌++◌, Bytes, arith, true, inl, inr, length, take,
  drop, length-drop, take-append-drop, drop_all, take_all, codes, le→not-ltb,
}
use mathlib.Core.Path.{subst}
use mathlib.Core.List.{append_assoc}
use bkc_chooser.Platform.{Platform, Request, arg_or_empty}
use bkc_chooser.Upload.{
  Phase, start, done, UploadState, fresh_upload, len_left, upload_round, upload_temp_name,
  finish_page, upload_start,
}
use bkc_chooser.Upload.Buffer.{fresh-IsValid, IsValid}
use bkc_chooser.Upload.Chunks.{feed, feed-concat, concat}
use bkc_chooser.Upload.Runs.{
  Runs, Runs.stop, Runs.next, Runs-stop, Runs-next, upload_data-Runs, upload_round-IsValid,
}
use bkc_chooser.Upload.Appfs.{AppfsLaws}
use bkc_chooser.Upload.Pages.{IsWriting, len_left_cases, PageWritten, page_written}

module _ (p : Platform) (req : Request) (laws : AppfsLaws p) where
  open p use {Fs}
  open laws use {stored, erased, capacity, named, erase_lem, write_lem, create_lem, rename_lem}

  pub round_completes :
      (s : UploadState) (src : Bytes) (fs : Fs)
      → s.state ≡ Phase.write
      → len_left s ≤ length src
      → let (t, fs') = finish_page p s src fs in
        upload_round p req s.state s src fs ≡ (t, drop (len_left s) src, fs')
  round_completes s src fs e h =
      ap (λ ph. upload_round p req ph s src fs) e
      ∙ (unfold upload_round in rw (le→not-ltb (length src) (len_left s) h))

  pub writes :
      {t : UploadState × Fs} {s : UploadState} {src : Bytes} {fs : Fs}
      → Runs p req t s src fs
      → IsValid s
      → IsWriting p req laws s (length src) fs
      → 0 < length src
      → (t.0.state ≡ done)
        × (stored s.fd t.1 ≡ stored s.fd fs ++ src)
        × (named s.fd t.1 ≡ s.name)
        × (t.0.fd ≡ s.fd)
  writes (stop e) v w h = absurd (omega arith)
  writes {t} {s} (next {b = b} {src = src} {fs = fs} {s' = s'} {rest = rest} {fs' = fs'} e k) v w
        h =
      let all = b ∷ src in
      let left : len_left s ≤ length all =
        omega (arith, len_left_cases p req laws s w.empty, w.rest) in
      let round = sym (round_completes s all fs w.writing left) ∙ e in
      let page =
        subst (λ (q : UploadState × Bytes × Fs). PageWritten p req laws s all fs q.0 q.2) round
          (page_written p req laws s all fs v w h) in
      let valid =
        subst (λ (q : UploadState × Bytes × Fs). IsValid q.0) e
          (upload_round-IsValid p req s.state s all fs v) in
      let cut : drop (len_left s) all ≡ rest = ap (λ (q : UploadState × Bytes × Fs). q.1) round in
      elim page.outcome [
        | inl last ↦
            let none_left : rest ≡ [] = sym cut ∙ drop_all (len_left s) all last.0 in
            let end = Runs-stop p req (subst (λ (r : Bytes). Runs p req t s' r fs') none_left k) in
            rw end (
              last.1,
              page.grown ∙ ap (λ x. stored s.fd fs ++ x) (take_all (len_left s) all last.0),
              last.2,
              page.same_fd,
            )
        | inr again ↦
            let w' = subst (λ (r : Bytes). IsWriting p req laws s' (length r) fs') cut again.1 in
            let ih =
              writes k valid w'
                (omega (arith, ap length cut, length-drop (len_left s) all, again.0)) in
            (
              ih.0,
              (rw page.same_fd at (ih.1))
                  ∙ ap (λ x. x ++ rest) page.grown
                  ∙ append_assoc (stored s.fd fs) (take (len_left s) all) rest
                  ∙ ap (λ x. stored s.fd fs ++ x)
                      (ap (λ r. take (len_left s) all ++ r) (sym cut)
                        ∙ take-append-drop (len_left s) all),
              (rw page.same_fd at (ih.2)) ∙ page.same_name,
              ih.3 ∙ page.same_fd,
            )
      ]

  -- The first round opens the file.
  pub opened :
      (fs : Fs)
      → (p.create_file upload_temp_name req.post_len fs).0 ≡ true
      → let (s, fs') = upload_start p req fresh_upload fs in
        IsWriting p req laws s req.post_len fs'
        × (stored s.fd fs' ≡ [])
        × (s.name ≡ arg_or_empty (req.find_arg (codes "name") 512))
  unfolding upload_start
  opened fs h = ground (arith, create_lem upload_temp_name req.post_len fs h)

  fresh_writes :
      {t : UploadState × Fs} (src : Bytes) (fs : Fs)
      → length src ≡ req.post_len
      → 0 < req.post_len
      → (p.create_file upload_temp_name req.post_len fs).0 ≡ true
      → Runs p req t fresh_upload src fs
      → (t.0.state ≡ done)
        × (stored t.0.fd t.1 ≡ src)
        × (named t.0.fd t.1 ≡ arg_or_empty (req.find_arg (codes "name") 512))
  unfolding upload_round
  fresh_writes [] fs e h c r = absurd (omega arith)
  fresh_writes {t} (b ∷ src) fs e h c r =
      let (w, none_yet, name) = opened fs c in
      let valid = upload_round-IsValid p req start fresh_upload (b ∷ src) fs fresh-IsValid in
      let first = Runs-next p req b src r in
      let s = (upload_start p req fresh_upload fs).0 in
      let end =
        writes first valid
          (subst (λ (n : ℕ). IsWriting p req laws s n (upload_start p req fresh_upload fs).1)
            (sym e) w)
          (omega arith) in
      rw (end.3) (end.0, end.1 ∙ ap (λ x. x ++ (b ∷ src)) none_yet, end.2 ∙ name)

  -- A body that arrives whole, in parts of any sizes, is what the new file holds afterwards, under
  -- the name of the request, or under the empty name where the request has none. The conditions
  -- are that the body is not empty and that appfs grants the file.
  pub upload_stores :
      (parts : List Bytes) (fs : Fs)
      → length (concat p req parts) ≡ req.post_len
      → 0 < req.post_len
      → (p.create_file upload_temp_name req.post_len fs).0 ≡ true
      → let (s, fs') = feed p req fresh_upload parts fs in
        (s.state ≡ done)
        × (stored s.fd fs' ≡ concat p req parts)
        × (named s.fd fs' ≡ arg_or_empty (req.find_arg (codes "name") 512))
  upload_stores parts fs e h c = rw (feed-concat p req fresh_upload parts fs fresh-IsValid) (
      fresh_writes (concat p req parts) fs e h c
        (upload_data-Runs p req fresh_upload (concat p req parts) fs fresh-IsValid))
