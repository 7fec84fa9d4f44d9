-- ===== src/Upload/Pending.antt =====
-- An upload between two parts of its body: the pages that are in flash, and the one under way.
use bkc_chooser.Base.{
  ℕ, ◌+◌, ◌-◌, ◌≤◌, ◌<◌, ◌≡◌, refl, sym, ap, ◌∙◌, [], ◌∷◌, ◌++◌, Bytes, ℤ, arith, inl, inr,
  Bool-cases, length, take, drop, replicate, length-replicate, length-append, ltb, take-append_le,
  drop-append_le, take-append-drop, not-ltb→le, ltb→lt,
}
use mathlib.Core.Path.{subst}
use mathlib.Core.List.{append_assoc}
use bkc_chooser.Platform.{Platform, Request}
use bkc_chooser.Upload.{Phase, UploadState, len_left, upload_round, fill_page, finish_page, memcpy}
use bkc_chooser.Upload.Buffer.{IsValid}
use bkc_chooser.Upload.Rounds.{round_of_part, finish_page-append}
use bkc_chooser.Upload.Runs.{Runs, Runs.stop, Runs.next, Runs-stop, upload_round-IsValid}
use bkc_chooser.Upload.Appfs.{AppfsLaws}
use bkc_chooser.Upload.Pages.{IsWriting, len_left_cases, PageWritten, page_written}
use bkc_chooser.Upload.Stored.{round_completes}

module _ (p : Platform) (req : Request) (laws : AppfsLaws p) where
  open p use {Fs}
  open laws use {stored, named}

  -- After `body`, with `n` bytes to come: `opened` is the state with the page under way empty, and
  -- `page` are the bytes in it.
  pub record Pending (s : UploadState) (fs : Fs) (body : Bytes) (n : ℕ) (name : Bytes)
      : Type 0 where
    pub page_start : UploadState
    pub page : Bytes
    pub filled : s ≡ fill_page page_start page
    pub short : length page < len_left page_start
    pub valid : IsValid page_start
    pub writing : IsWriting p req laws page_start (length page + n) fs
    pub so_far : stored page_start.fd fs ++ page ≡ body
    pub called : page_start.name ≡ name

  pub fill_page-nil : (s : UploadState) → fill_page s [] ≡ s
  unfolding fill_page memcpy
  fill_page-nil s =
      let none_more : s.page_pos + 0 ≡ s.page_pos = omega arith in
      let none_less : s.len - 0 ≡ s.len = omega arith in
      rw (none_more, none_less, take-append-drop s.page_pos s.page_data) refl

  abbrev zero_byte : ℕ
  zero_byte = 0

  -- The page is in flash, and `n` bytes come behind those that are left over.
  abbrev Completed : UploadState → Bytes → ℕ → Fs → UploadState → Bytes → Fs → Type 0
  Completed s src n fs t rest fs' =
      (stored s.fd fs' ≡ stored s.fd fs ++ take (len_left s) src)
      × (t.fd ≡ s.fd)
      × (t.name ≡ s.name)
      × IsWriting p req laws t (length rest + n) fs'

  -- A round that completes a page where more bytes are still to come.
  completed :
      (s : UploadState) (src : Bytes) (n : ℕ) (fs : Fs)
      → IsValid s
      → IsWriting p req laws s (length src + n) fs
      → 0 < n
      → len_left s ≤ length src
      → let (t, fs') = finish_page p s src fs in Completed s src n fs t (drop (len_left s) src) fs'
  completed s src n fs v w h le =
      let pad : Bytes = replicate n zero_byte in
      let all = src ++ pad in
      let size : length all ≡ length src + n =
        omega (arith, length-append src pad, length-replicate n zero_byte) in
      let w' = subst (λ (k : ℕ). IsWriting p req laws s k fs) (sym size) w in
      let page =
        subst (λ (q : UploadState × Fs). PageWritten p req laws s all fs q.0 q.1)
          (finish_page-append p req s src pad fs le)
          (page_written p req laws s all fs v w' (omega (arith, size, h))) in
      let left : length (drop (len_left s) all) ≡ length (drop (len_left s) src) + n =
        ap length (drop-append_le (len_left s) src pad le)
        ∙ omega (arith, length-append (drop (len_left s) src) pad, length-replicate n zero_byte) in
      let (t, fs') = finish_page p s src fs in
      (
        page.grown
            ∙ ap (λ (x : Bytes). stored s.fd fs ++ x) (take-append_le (len_left s) src pad le),
        page.same_fd,
        page.same_name,
        elim page.outcome [
          | inl last ↦ absurd (omega (arith, last.0, size, h, le))
          | inr again ↦ subst (λ (k : ℕ). IsWriting p req laws t k fs') left again.1
        ],
      )

  -- What the loop leaves behind bytes that are not the last of the body.
  abbrev After : UploadState → Bytes → ℕ → Fs → UploadState × Fs → Type 0
  After s src n fs t = Pending t.0 t.1 (stored s.fd fs ++ src) n s.name

  pub same_body :
      {s : UploadState} {fs : Fs} {body other : Bytes} {n : ℕ} {name other_name : Bytes}
      → Pending s fs body n name
      → body ≡ other
      → name ≡ other_name
      → Pending s fs other n other_name
  same_body m e q = record {
    page_start = m.page_start;
    page = m.page;
    filled = m.filled;
    short = m.short;
    valid = m.valid;
    writing = m.writing;
    so_far = m.so_far ∙ e;
    called = m.called ∙ q;
  }

  pub round_fills :
      (s : UploadState) (src : Bytes) (fs : Fs)
      → s.state ≡ Phase.write
      → length src < len_left s
      → upload_round p req s.state s src fs ≡ (fill_page s src, [], fs)
  round_fills s src fs e h =
      ap (λ ph. upload_round p req ph s src fs) e ∙ round_of_part p req s src fs h

  room_left :
      (s : UploadState) (n : ℕ) (fs : Fs) → IsWriting p req laws s n fs → 0 < n → 0 < len_left s
  room_left s n fs w h = omega (arith, len_left_cases p req laws s w.empty, w.rest, h)

  pub writes_some :
      {t : UploadState × Fs} {s : UploadState} {src : Bytes} {fs : Fs} (n : ℕ)
      → Runs p req t s src fs
      → IsValid s
      → IsWriting p req laws s (length src + n) fs
      → 0 < n
      → After s src n fs t
  writes_some {s = s} {fs = fs} n (stop e) v w h = rw e (record {
    page_start = s;
    page = [];
    filled = sym (fill_page-nil s);
    short = room_left s n fs (subst (λ (k : ℕ). IsWriting p req laws s k fs) (omega arith) w) h;
    valid = v;
    writing = w;
    so_far = refl;
    called = refl;
  })
  writes_some {t} {s} n (next {b = b} {src = src} {fs = fs} {s' = s'} {rest = rest} {fs' = fs'} e k)
        v w h =
      let all = b ∷ src in
      elim (Bool-cases (ltb (length all) (len_left s))) [
        | inl c ↦
            let small = ltb→lt (length all) (len_left s) c in
            let round = sym (round_fills s all fs w.writing small) ∙ e in
            rw
              (Runs-stop p req
                (subst (λ (q : UploadState × Bytes × Fs). Runs p req t q.0 q.1 q.2) (sym round) k))
              (record {
                page_start = s;
                page = all;
                filled = refl;
                short = small;
                valid = v;
                writing = w;
                so_far = refl;
                called = refl;
              })
        | inr c ↦
            let left = not-ltb→le (length all) (len_left s) c in
            let round = sym (round_completes p req laws s all fs w.writing left) ∙ e in
            let page =
              subst (λ (q : UploadState × Bytes × Fs). Completed s all n fs q.0 q.1 q.2) round
                (completed s all n fs v w h left) in
            let valid =
              subst (λ (q : UploadState × Bytes × Fs). IsValid q.0) e
                (upload_round-IsValid p req s.state s all fs v) in
            let cut : drop (len_left s) all ≡ rest =
              ap (λ (q : UploadState × Bytes × Fs). q.1) round in
            let whole : stored s'.fd fs' ++ rest ≡ stored s.fd fs ++ all =
              ap (λ (fd : ℤ). stored fd fs' ++ rest) page.1
              ∙ ap (λ (x : Bytes). x ++ rest) page.0
              ∙ append_assoc (stored s.fd fs) (take (len_left s) all) rest
              ∙ ap (λ (x : Bytes). stored s.fd fs ++ x)
                  (ap (λ (r : Bytes). take (len_left s) all ++ r) (sym cut)
                    ∙ take-append-drop (len_left s) all) in
            same_body (writes_some n k valid page.3 h) whole page.2
      ]
