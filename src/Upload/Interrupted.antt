-- ===== src/Upload/Interrupted.antt =====
-- An upload to cgiUploadFile of main/cgiappfs.c that never ends, and delete_temp_files of
-- main/main.c at the next start.
use bkc_chooser.Base.{
  ℕ, ◌+◌, ◌<◌, ◌≡◌, refl, sym, ap, ◌∙◌, Bool, true, false, not, some, List, [], ◌∷◌, Bytes, ℤ, pos,
  negsuc, inl, inr, Bool-cases, eqb_ℤ, length, keep, codes, arith,
}
use mathlib.Core.Path.{subst}
use bkc_chooser.Platform.{Platform, Request, arg_or_empty}
use bkc_chooser.Libc.{fnmatch}
use bkc_chooser.FileIndex.{temp_pattern, delete_temp_files}
use bkc_chooser.FileIndex.Laws.{FileLaws}
use bkc_chooser.FileIndex.Cleanup.{stays, Cleaned, delete_temp_files-Cleaned}
use bkc_chooser.Upload.{UploadState, fresh_upload, upload_temp_name, fill_page}
use bkc_chooser.Upload.Buffer.{fresh-IsValid}
use bkc_chooser.Upload.Chunks.{feed, concat, feed-concat}
use bkc_chooser.Upload.Appfs.{AppfsLaws}
use bkc_chooser.Upload.Pending.{Pending}
use bkc_chooser.Upload.Resume.{first_part}

temp_name_matches : fnmatch temp_pattern upload_temp_name ≡ true
unfolding fnmatch
temp_name_matches = refl

fd-fill_page : (s : UploadState) (src : Bytes) → (fill_page s src).fd ≡ s.fd
unfolding fill_page
fd-fill_page s src = refl

eqb_ℤ_path : (a b : ℤ) → eqb_ℤ a b ≡ true → a ≡ b
eqb_ℤ_path (pos a) (pos b) h = ap pos (ground (arith, h))
eqb_ℤ_path (pos a) (negsuc b) h = absurd (ground (arith, h))
eqb_ℤ_path (negsuc a) (pos b) h = absurd (ground (arith, h))
eqb_ℤ_path (negsuc a) (negsuc b) h = ap negsuc (ground (arith, h))

keep_none :
    (f g : ℤ → Bool) (xs : List ℤ) → ((x : ℤ) → f x ≡ true → g x ≡ false) → keep f (keep g xs) ≡ []
keep_none f g [] h = refl
keep_none f g (x ∷ xs) h = elim (Bool-cases (g x)) [
  | inl e ↦ elim (Bool-cases (f x)) [
    | inl q ↦ absurd (cc (h x q, e))
    | inr q ↦ rw (e, q) (keep_none f g xs h)
  ]
  | inr e ↦ rw e (keep_none f g xs h)
]

module _ (p : Platform) (req : Request) (laws : AppfsLaws p) (files : FileLaws p)
    (names : (fd : ℤ) (fs : p.Fs) → (p.entry_info fd fs).0 ≡ laws.named fd fs) where
  open p use {Fs, invalid_fd, create_file}
  open laws use {named}
  open files use {listing}
  open listing use {rest}

  -- Until its body is complete, an upload writes to the temporary file.
  writes_temporary :
      (s : UploadState) (fs : Fs) (body : Bytes) (n : ℕ) (name : Bytes)
      → Pending p req laws s fs body n name
      → named s.fd fs ≡ upload_temp_name
  writes_temporary s fs body n name m =
      ap (λ (t : UploadState). named t.fd fs) m.filled
      ∙ ap (λ (fd : ℤ). named fd fs) (fd-fill_page m.page_start m.page)
      ∙ m.writing.temporary

  temporary_goes :
      (fd x : ℤ) (fs : Fs)
      → named fd fs ≡ upload_temp_name
      → eqb_ℤ fd x ≡ true
      → stays p files fs x ≡ false
  temporary_goes fd x fs temp q =
      let name : (p.entry_info x fs).0 ≡ upload_temp_name =
        ap (λ (h : ℤ). (p.entry_info h fs).0) (sym (eqb_ℤ_path fd x q)) ∙ names fd fs ∙ temp in
      ap (λ n. not (fnmatch temp_pattern n)) name ∙ ap not temp_name_matches

  -- Where the parts that came do not make the whole body, the next start deletes the file that the
  -- upload has written to: none of the files that are listed afterwards has its handle, and they
  -- are the files whose names do not match `__*.tmp`, as they were. The parts are not all empty,
  -- appfs grants the file, and behaves as AppfsLaws and FileLaws say, with one name for a file.
  pub interrupted_upload_swept :
      (parts : List Bytes) (fs : Fs) (n fuel : ℕ)
      → length (concat p req parts) + n ≡ req.post_len
      → 0 < length (concat p req parts)
      → 0 < n
      → (create_file upload_temp_name req.post_len fs).0 ≡ true
      → let (s, fs') = feed p req fresh_upload parts fs in
        length (rest invalid_fd fs') < fuel
        → (fs'' : Fs) × (delete_temp_files p fuel fs' ≡ some fs'')
          × Cleaned p files invalid_fd fs' fs''
          × (keep (eqb_ℤ s.fd) (rest invalid_fd fs'') ≡ [])
  interrupted_upload_swept parts fs n fuel e h k c l =
      let whole = feed-concat p req fresh_upload parts fs fresh-IsValid in
      let (s, fs') = feed p req fresh_upload parts fs in
      let pending =
        subst
          (λ (q : UploadState × Fs).
            Pending p req laws q.0 q.1 (concat p req parts) n
              (arg_or_empty (req.find_arg (codes "name") 512)))
          (sym whole) (first_part p req laws (concat p req parts) fs n e h k c) in
      let temp = writes_temporary s fs' _ _ _ pending in
      let (fs'', end, cleaned) = delete_temp_files-Cleaned p files fuel fs' l in
      let goes : (x : ℤ) → eqb_ℤ s.fd x ≡ true → stays p files fs' x ≡ false =
        λ x q. temporary_goes s.fd x fs' temp q in
      (
        fs'',
        end,
        cleaned,
        ap (keep (eqb_ℤ s.fd)) cleaned.0
            ∙ keep_none (eqb_ℤ s.fd) (stays p files fs') (rest invalid_fd fs') goes,
      )
