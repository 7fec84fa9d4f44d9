-- ===== src/Upload/Chunks.antt =====
-- A body of an upload that comes in parts.
use bkc_chooser.Base.{
  ℕ, ◌<◌, ◌≡◌, refl, sym, ap, ◌∙◌, List, [], ◌∷◌, ◌++◌, Bytes, ◌⊎◌, inl, inr, Bool-cases, length,
  ltb, not-ltb→le, ltb→lt,
}
use mathlib.Core.Path.{subst}
use mathlib.Core.List.{append-nil}
use bkc_chooser.Platform.{Platform, Request}
use bkc_chooser.Upload.{
  Phase, start, done, error, UploadState, len_left, upload_round, upload_data, fill_page,
}
use bkc_chooser.Upload.Buffer.{IsValid}
use bkc_chooser.Upload.Rounds.{
  round_of_fill, round_of_finish, idle_round, round_of_part, state-fill_page,
}
use bkc_chooser.Upload.Runs.{Runs, Runs-unique, upload_data-Runs, upload_round-IsValid, stop, next}

module _ (p : Platform) (req : Request) where
  open p use {Fs}

  Runs-idle :
      {t : UploadState × Fs} {s : UploadState} (src : Bytes) {fs : Fs}
      → (s.state ≡ done) ⊎ (s.state ≡ error)
      → t ≡ (s, fs)
      → Runs p req t s src fs
  Runs-idle [] i e = stop e
  Runs-idle {t} {s} (b ∷ src) {fs} i e = next (idle_round p req s.state s (b ∷ src) fs i) (stop e)

  append_idle :
      {t : UploadState × Fs} {s : UploadState} (src b : Bytes) {fs : Fs}
      → (s.state ≡ done) ⊎ (s.state ≡ error)
      → Runs p req t s b fs
      → Runs p req t s src fs
  append_idle src b i r = Runs-idle src i (Runs-unique p req r (Runs-idle b i refl))

  append_fill :
      {t : UploadState × Fs} (s : UploadState) (x : ℕ) (src b : Bytes) (fs : Fs)
      → s.state ≡ Phase.write
      → IsValid s
      → length (x ∷ src) < len_left s
      → Runs p req t (fill_page s (x ∷ src)) b fs
      → Runs p req t s ((x ∷ src) ++ b) fs
  append_fill s x src [] fs e v h (stop q) = rw (append-nil (x ∷ src)) (
      next
        (ap (λ ph. upload_round p req ph s (x ∷ src) fs) e ∙ round_of_part p req s (x ∷ src) fs h)
        (stop q))
  append_fill s x src (c ∷ b) fs e v h (next {s' = s'} {rest = rest} {fs' = fs'} q k) =
      let step : upload_round p req s.state s ((x ∷ src) ++ (c ∷ b)) fs ≡ (s', rest, fs') =
        ap (λ ph. upload_round p req ph s ((x ∷ src) ++ (c ∷ b)) fs) e
        ∙ sym (round_of_fill p req s (x ∷ src) (c ∷ b) fs v h)
        ∙ ap (λ ph. upload_round p req ph (fill_page s (x ∷ src)) (c ∷ b) fs)
            (sym (state-fill_page p req s (x ∷ src) ∙ e))
        ∙ q in
      next step k

  append_round :
      {t : UploadState × Fs} (ph : Phase) (s : UploadState) (x : ℕ) (src b : Bytes) (fs : Fs)
      → s.state ≡ ph
      → IsValid s
      → (let (s', rest, fs') = upload_round p req ph s (x ∷ src) fs in
          Runs p req t s' (rest ++ b) fs')
      → Runs p req t s ((x ∷ src) ++ b) fs
  append_round start s x src b fs e v ih =
      next (ap (λ ph. upload_round p req ph s ((x ∷ src) ++ b) fs) e) (unfold upload_round in ih)
  append_round {t} Phase.write s x src b fs e v ih =
      elim (Bool-cases (ltb (length (x ∷ src)) (len_left s))) [
        | inl c ↦ append_fill s x src b fs e v (ltb→lt _ _ c) (unfold upload_round in rw c at ih)
        | inr c ↦
            next
              (ap (λ ph. upload_round p req ph s ((x ∷ src) ++ b) fs) e
                ∙ round_of_finish p req s (x ∷ src) b fs (not-ltb→le _ _ c))
              ih
      ]
  append_round done s x src b fs e v ih = append_idle _ b (inl e) (unfold upload_round in ih)
  append_round error s x src b fs e v ih = append_idle _ b (inr e) (unfold upload_round in ih)

  -- The outcome of two parts in turn is that of both at once.
  pub Runs-append :
      {m t : UploadState × Fs} {s : UploadState} {a : Bytes} {fs : Fs} (b : Bytes)
      → IsValid s
      → Runs p req m s a fs
      → Runs p req t m.0 b m.1
      → Runs p req t s (a ++ b) fs
  Runs-append {t = t} b v (stop e) r = subst (λ (q : UploadState × Fs). Runs p req t q.0 b q.1) e r
  Runs-append {t = t} {s = s} {fs = fs} b v (next {b = x} {src = src} e k) r =
      let v' =
        subst (λ (q : UploadState × Bytes × Fs). IsValid q.0) e
          (upload_round-IsValid p req s.state s (x ∷ src) fs v) in
      let ih = Runs-append b v' k r in
      append_round s.state s x src b fs refl v
        (subst (λ (q : UploadState × Bytes × Fs). Runs p req t q.0 (q.1 ++ b) q.2) (sym e) ih)

-- The parts of a body, one `upload_data` for each call.
module _ (p : Platform) (req : Request) where
  open p use {Fs}

  unfoldable pub feed : UploadState → List Bytes → Fs → UploadState × Fs
  feed s [] fs = (s, fs)
  feed s (part ∷ parts) fs = let (s', fs') = upload_data p req s part fs in feed s' parts fs'

  abbrev pub concat : List Bytes → Bytes
  concat [] = []
  concat (part ∷ parts) = part ++ concat parts

  Runs-IsValid :
      {t : UploadState × Fs} {s : UploadState} {src : Bytes} {fs : Fs}
      → Runs p req t s src fs
      → IsValid s
      → IsValid t.0
  Runs-IsValid (stop e) v = subst (λ (q : UploadState × Fs). IsValid q.0) (sym e) v
  Runs-IsValid {s = s} {fs = fs} (next {b = b} {src = src} e k) v = Runs-IsValid k (
      subst (λ (q : UploadState × Bytes × Fs). IsValid q.0) e
        (upload_round-IsValid p req s.state s (b ∷ src) fs v))

  feed-Runs :
      (s : UploadState) (parts : List Bytes) (fs : Fs)
      → IsValid s
      → Runs p req (feed s parts fs) s (concat parts) fs
  unfolding feed
  feed-Runs s [] fs v = stop refl
  feed-Runs s (part ∷ parts) fs v =
      let r = upload_data-Runs p req s part fs v in
      let t = upload_data p req s part fs in
      Runs-append p req (concat parts) v r (feed-Runs t.0 parts t.1 (Runs-IsValid r v))

  -- However the body is cut into parts, and whatever appfs answers, the parts in turn leave the
  -- upload state and the file system that the whole body at once leaves.
  pub feed-concat :
      (s : UploadState) (parts : List Bytes) (fs : Fs)
      → IsValid s
      → feed s parts fs ≡ upload_data p req s (concat parts) fs
  feed-concat s parts fs v =
      Runs-unique p req (feed-Runs s parts fs v) (upload_data-Runs p req s (concat parts) fs v)
