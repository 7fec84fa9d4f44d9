-- ===== src/Upload/Runs.antt =====
-- The loop of cgiUploadFile as a relation that runs to its end.
use bkc_chooser.Base.{
  ℕ, zero, suc, ◌+◌, ◌-◌, ◌≤◌, ◌<◌, ◌≡◌, refl, sym, ap, ◌∙◌, [], ◌∷◌, Bytes, arith, ◌⊎◌, inl, inr,
  Bool-cases, length, take, drop, length-drop, ltb, length-take, not-ltb→le, ltb→lt,
}
use mathlib.Core.Path.{subst}
use bkc_chooser.Platform.{Platform, Request}
use bkc_chooser.Upload.{
  Phase, start, done, error, UploadState, len_left, page_len, upload_round, upload_loop,
  upload_data, fill_page, top_up, flash_page, finish_page, memcpy, upload_start, erase_sector,
  write_page, finish_file,
}
use bkc_chooser.Upload.Buffer.{IsValid, len_left_bounds, length-memcpy}

module _ (p : Platform) (req : Request) where
  open p use {Fs}

  -- `Runs t s src fs`: from the state `s` the loop consumes `src` and ends in `t`.
  pub data Runs (t : UploadState × Fs) : UploadState → Bytes → Fs → Type 0 where
    stop : {s : UploadState} {fs : Fs} → t ≡ (s, fs) → Runs t s [] fs
    next :
        {s : UploadState} {b : ℕ} {src : Bytes} {fs : Fs} {s' : UploadState} {rest : Bytes}
        {fs' : Fs}
        → upload_round p req s.state s (b ∷ src) fs ≡ (s', rest, fs')
        → Runs t s' rest fs'
        → Runs t s (b ∷ src) fs

  -- The rounds that are left: two to open the file, one for the bytes of a page, one to ignore.
  rank : Phase → ℕ → ℕ
  rank start n = n + 3
  rank Phase.write n = n + 2
  rank _ n = 1

  -- What a completed page leaves in the state, whether or not appfs reported an error.
  pub finish_page_fields :
      (s : UploadState) (src : Bytes) (fs : Fs)
      → let t = (finish_page p s src fs).0 in
        (t.page_data ≡ memcpy s.page_data s.page_pos (take (len_left s) src))
        × (t.page_pos ≡ 0)
        × (t.address ≡ s.address + page_len)
        × (t.len ≡ s.len - len_left s)
        × (t.fd ≡ s.fd)
        × (t.name ≡ s.name)
  unfolding finish_page top_up flash_page erase_sector write_page finish_file
  finish_page_fields s src fs = ground arith

  finish_page-IsValid :
      (s : UploadState) (src : Bytes) (fs : Fs)
      → IsValid s
      → len_left s ≤ length src
      → IsValid (finish_page p s src fs).0
  finish_page-IsValid s src fs v h =
      let f = finish_page_fields s src fs in
      let b = len_left_bounds s v in
      record {
        sized =
            ap length f.0
            ∙ length-memcpy s.page_data s.page_pos (take (len_left s) src)
                (omega (arith, v.sized, length-take (len_left s) src))
            ∙ v.sized;
        room = omega arith;
      }

  pub fill_page-IsValid :
      (s : UploadState) (src : Bytes)
      → IsValid s
      → length src < len_left s
      → IsValid (fill_page s src)
  unfolding fill_page
  fill_page-IsValid s src v h =
      let b = len_left_bounds s v in
      record {
        sized = length-memcpy s.page_data s.page_pos src (omega (arith, v.sized)) ∙ v.sized;
        room = omega arith;
      }

  upload_start-IsValid :
      (s : UploadState) (fs : Fs) → IsValid s → IsValid (upload_start p req s fs).0
  unfolding upload_start
  upload_start-IsValid s fs v = ground arith

  -- Every round keeps the buffer in bounds.
  pub upload_round-IsValid :
      (ph : Phase) (s : UploadState) (src : Bytes) (fs : Fs)
      → IsValid s
      → IsValid (upload_round p req ph s src fs).0
  unfolding upload_round
  upload_round-IsValid start s src fs v = upload_start-IsValid s fs v
  upload_round-IsValid Phase.write s src fs v = elim (Bool-cases (ltb (length src) (len_left s))) [
    | inl e ↦ rw e (fill_page-IsValid s src v (ltb→lt _ _ e))
    | inr e ↦ rw e (finish_page-IsValid s src fs v (not-ltb→le _ _ e))
  ]
  upload_round-IsValid done s src fs v = v
  upload_round-IsValid error s src fs v = v

  -- The state of the loop through a valid round, in the form that `next` takes.
  pub Runs-stop : {t : UploadState × Fs} {s : UploadState} {fs : Fs} → Runs t s [] fs → t ≡ (s, fs)
  Runs-stop (stop e) = e

  pub Runs-next :
      {t : UploadState × Fs} {s : UploadState} (b : ℕ) (src : Bytes) {fs : Fs}
      → Runs t s (b ∷ src) fs
      → let (s', rest, fs') = upload_round p req s.state s (b ∷ src) fs in Runs t s' rest fs'
  Runs-next {t} b src (next e r) =
      subst (λ (q : UploadState × Bytes × Fs). Runs t q.0 q.1 q.2) (sym e) r

  Runs-round :
      {t : UploadState × Fs} {s : UploadState} (b : ℕ) (src : Bytes) {fs : Fs}
      → (let (s', rest, fs') = upload_round p req s.state s (b ∷ src) fs in Runs t s' rest fs')
      → Runs t s (b ∷ src) fs
  Runs-round b src r = next refl r

  -- The loop has one outcome.
  pub Runs-unique :
      {t u : UploadState × Fs} {s : UploadState} {src : Bytes} {fs : Fs}
      → Runs t s src fs
      → Runs u s src fs
      → t ≡ u
  Runs-unique (stop e) r = e ∙ sym (Runs-stop r)
  Runs-unique {u = u} (next {b = b} {src = src} e k) r =
      Runs-unique k
        (subst (λ (q : UploadState × Bytes × Fs). Runs u q.0 q.1 q.2) e (Runs-next b src r))

  len_left_zero : (s : UploadState) → IsValid s → len_left s ≡ 0 → s.len ≡ 0
  unfolding len_left
  len_left_zero s v h = ground arith

  -- A completed page leaves the loop writing only if it took a byte.
  finish_page_phase :
      (s : UploadState) (src : Bytes) (fs : Fs)
      → s.state ≡ Phase.write
      → (len_left s ≡ 0 → s.len ≡ 0)
      → let t = (finish_page p s src fs).0 in
        ((t.state ≡ Phase.write) × (0 < len_left s)) ⊎ ((t.state ≡ done) ⊎ (t.state ≡ error))
  unfolding finish_page top_up flash_page erase_sector write_page finish_file
  finish_page_phase s src fs e z = ground arith

  rank-finish_page :
      (s : UploadState) (b : ℕ) (src : Bytes) (fs : Fs)
      → IsValid s
      → s.state ≡ Phase.write
      → len_left s ≤ length (b ∷ src)
      → rank (finish_page p s (b ∷ src) fs).0.state (length (drop (len_left s) (b ∷ src)))
        < rank Phase.write (length (b ∷ src))
  unfolding rank
  rank-finish_page s b src fs v e h =
      elim (finish_page_phase s (b ∷ src) fs e (len_left_zero s v)) [
        | inl w ↦ rw (w.0) (omega (arith, w.1, h, length-drop (len_left s) (b ∷ src)))
        | inr (inl d) ↦ rw d (omega arith)
        | inr (inr d) ↦ rw d (omega arith)
      ]

  rank_falls :
      (ph : Phase) (s : UploadState) (b : ℕ) (src : Bytes) (fs : Fs)
      → IsValid s
      → s.state ≡ ph
      → let (s', rest, fs') = upload_round p req ph s (b ∷ src) fs in
        (rest ≡ []) ⊎ (rank s'.state (length rest) < rank ph (length (b ∷ src)))
  unfolding upload_round
  rank_falls start s b src fs v e = inr (unfold upload_start rank in ground arith)
  rank_falls Phase.write s b src fs v e = elim (Bool-cases (ltb (length (b ∷ src)) (len_left s))) [
    | inl c ↦ rw c (inl refl)
    | inr c ↦ rw c (inr (rank-finish_page s b src fs v e (not-ltb→le _ _ c)))
  ]
  rank_falls done s b src fs v e = inl refl
  rank_falls error s b src fs v e = inl refl

  rank_pos : (ph : Phase) (n : ℕ) → 0 < rank ph n
  unfolding rank
  rank_pos ph n = ground arith

  rank_le : (ph : Phase) (n : ℕ) → rank ph n ≤ n + 3
  unfolding rank
  rank_le ph n = ground arith

  loop-Runs :
      (fuel : ℕ) (s : UploadState) (src : Bytes) (fs : Fs)
      → IsValid s
      → (src ≡ []) ⊎ (rank s.state (length src) ≤ fuel)
      → Runs (upload_loop p fuel req s src fs) s src fs
  unfolding upload_loop
  loop-Runs fuel s [] fs v h = stop refl
  loop-Runs zero s (b ∷ src) fs v h = absurd (ground (arith, rank_pos s.state (length (b ∷ src))))
  loop-Runs (suc fuel) s (b ∷ src) fs v h =
      let r = upload_round p req s.state s (b ∷ src) fs in
      Runs-round b src (
        loop-Runs fuel r.0 r.1 r.2 (upload_round-IsValid s.state s (b ∷ src) fs v)
          (ground (arith, rank_falls s.state s b src fs v refl)))

  -- The fuel of `upload_data` is enough.
  pub upload_data-Runs :
      (s : UploadState) (src : Bytes) (fs : Fs)
      → IsValid s
      → Runs (upload_data p req s src fs) s src fs
  unfolding upload_data
  upload_data-Runs s src fs v =
      loop-Runs (length src + 3) s src fs v (inr (rank_le s.state (length src)))
