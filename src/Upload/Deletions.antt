-- ===== src/Upload/Deletions.antt =====
-- What becomes of an upload while cgiDelete of main/cgiappfs.c runs between its parts.
use bkc_chooser.Base.{
  ℕ, ◌+◌, ◌-◌, ◌<◌, ◌≡◌, refl, sym, ◌∙◌, true, false, some, List, [], ◌∷◌, ◌++◌, Bytes, codes,
  arith, length, length-append, bytes_eq,
}
use mathlib.Core.Path.{subst}
use mathlib.Core.List.{append_assoc, append-nil}
use bkc_chooser.Platform.{Platform, Request, CgiReturn, response}
use bkc_chooser.Upload.{UploadState, fresh_upload, upload_temp_name, upload_data, upload_response}
use bkc_chooser.Upload.Session.{part_call, call_first, call_more, call_last}
use bkc_chooser.Upload.Appfs.{AppfsLaws}
use bkc_chooser.Upload.Pending.{Pending}
use bkc_chooser.Upload.Resume.{first_part, next_part, last_part}
use bkc_chooser.Upload.Spared.{Pending-cgi_delete}
use bkc_chooser.Upload.Turns.{
  Turn, part, deletion, Server, DeleteLaws, handle, run, idle, parts_of, deleted_name, Spares,
  requested_name, run-append,
}

module _ (p : Platform) (req : Request) (laws : AppfsLaws p) (deletes : DeleteLaws p laws) where
  open p use {Fs, Nvs, create_file}
  open laws use {stored, erased, capacity, named}
  open deletes use {delete_lem}

  -- An upload that is under way: `body` came, `n` bytes are still to come.
  record Under (live : ℕ) (v : Server p) (body : Bytes) (n : ℕ) : Type 0 where
    state : UploadState
    kept : v.cgi_data ≡ some state
    counted : v.received + n ≡ req.post_len
    one_more : v.live ≡ live + 1
    silent : v.out ≡ []
    pending : Pending p req laws state v.fs body n (requested_name p req)

  handle-part :
      (live : ℕ) (v : Server p) (body b : Bytes) (n : ℕ)
      → Under live v body (length b + n)
      → 0 < n
      → Under live (handle p req (part b) v) (body ++ b) n
  handle-part live v body b n u h =
      let m = v.received + length b in
      let t = upload_data p req u.state b v.fs in
      rw (u.kept, call_more p req b m u.state v.live v.fs (omega (arith, u.counted, h)))
        (record {
          state = t.0;
          kept = refl;
          counted = omega (arith, u.counted);
          one_more = u.one_more;
          silent = append-nil v.out ∙ u.silent;
          pending = next_part p req laws b v.fs n u.pending refl h;
        })

  handle-deletion :
      (live : ℕ) (v : Server p) (body : Bytes) (q : Request) (n : ℕ)
      → Under live v body n
      → bytes_eq (deleted_name p req q v.fs) upload_temp_name ≡ false
      → Under live (handle p req (deletion q) v) body n
  handle-deletion live v body q n u h = record {
    state = u.state;
    kept = u.kept;
    counted = u.counted;
    one_more = u.one_more;
    silent = u.silent;
    pending = Pending-cgi_delete p req laws deletes q u.state v.fs v.nvs body n h u.pending;
  }

  run-Under :
      (live : ℕ) (ts : List Turn) (v : Server p) (body : Bytes) (n : ℕ)
      → Under live v body (length (parts_of p req ts) + n)
      → 0 < n
      → Spares p req ts v
      → Under live (run p req ts v) (body ++ parts_of p req ts) n
  run-Under live [] v body n u h c =
      let none_left : length (parts_of p req []) + n ≡ n = omega arith in
      subst (λ (x : Bytes). Under live v x n) (sym (append-nil body))
        (subst (λ (k : ℕ). Under live v body k) none_left u)
  run-Under live (part b ∷ ts) v body n u h c =
      let left : length (b ++ parts_of p req ts) + n ≡ length b + (length (parts_of p req ts) + n) =
        omega (arith, length-append b (parts_of p req ts)) in
      let next =
        handle-part live v body b (length (parts_of p req ts) + n)
          (subst (λ (k : ℕ). Under live v body k) left u) (omega (arith, h)) in
      subst (λ (x : Bytes). Under live (run p req ts (handle p req (part b) v)) x n)
        (append_assoc body b (parts_of p req ts))
        (run-Under live ts (handle p req (part b) v) (body ++ b) n next h c)
  run-Under live (deletion q ∷ ts) v body n u h c =
      run-Under live ts (handle p req (deletion q) v) body n
        (handle-deletion live v body q (length (parts_of p req ts) + n) u c.0) h c.1

  first-Under :
      (live : ℕ) (b : Bytes) (n : ℕ) (fs : Fs) (nvs : Nvs)
      → length b + n ≡ req.post_len
      → 0 < length b
      → 0 < n
      → (create_file upload_temp_name req.post_len fs).0 ≡ true
      → Under live (handle p req (part b) (idle p req live fs nvs)) b n
  first-Under live b n fs nvs e h k c =
      let t = upload_data p req fresh_upload b fs in
      rw
        (
          call_first p req (part_call p req b (0 + length b)) live fs refl refl,
          call_more p req b (0 + length b) fresh_upload (live + 1) fs (omega (arith, e, k)),
        )
        (record {
          state = t.0;
          kept = refl;
          counted = omega (arith, e);
          one_more = refl;
          silent = refl;
          pending = first_part p req laws b fs n e h k c;
        })

  -- What the last part leaves: the response, nothing allocated, and the body in the new file.
  abbrev pub Stores : ℕ → Server p → Bytes → Type 0
  Stores live v body =
      (v.out ≡ response 200 (codes "Content-Type") (codes "text/plain"))
      × (v.returns ≡ CgiReturn.done)
      × (v.live ≡ live)
      × (s : UploadState) × (v.cgi_data ≡ some s)
      × (stored s.fd v.fs ≡ body)
      × (named s.fd v.fs ≡ (requested_name p req))

  last-Stores :
      (live : ℕ) (v : Server p) (body b : Bytes)
      → Under live v body (length b)
      → 0 < length b
      → Stores live (handle p req (part b) v) (body ++ b)
  last-Stores live v body b u h =
      let m = v.received + length b in
      let t = upload_data p req u.state b v.fs in
      let (end, bytes, name) = last_part p req laws b v.fs u.pending h in
      let after = record v {
        received = m;
        cgi_data = some t.0;
        live = v.live - 1;
        returns = CgiReturn.done;
        out = v.out ++ upload_response t.0;
        fs = t.1;
      } in
      let handled : handle p req (part b) v ≡ after =
        rw (u.kept, call_last p req b m u.state v.live v.fs u.counted) refl in
      subst (λ (x : Server p). Stores live x (body ++ b)) (sym handled)
        (
          rw (u.silent) (unfold upload_response in (ground (arith, end))),
          refl,
          omega (arith, u.one_more),
          t.0,
          refl,
          bytes,
          name,
        )

  -- Between the parts of an upload the server may handle any requests to delete files, of which
  -- none names the temporary file of the upload: the answer is the status 200 without an error
  -- text, the handler is done, nothing stays allocated, and the new file holds the whole body
  -- under the requested name. The first and the last part are not empty, the connection stays
  -- open, there is memory, appfs grants the file, and behaves as AppfsLaws and DeleteLaws say.
  pub deletions_spare_upload :
      (live : ℕ) (first last : Bytes) (ts : List Turn) (fs : Fs) (nvs : Nvs)
      → length first + (length (parts_of p req ts) + length last) ≡ req.post_len
      → 0 < length first
      → 0 < length last
      → (create_file upload_temp_name req.post_len fs).0 ≡ true
      → Spares p req ts (handle p req (part first) (idle p req live fs nvs))
      → Stores live
          (run p req (part first ∷ (ts ++ part last ∷ [])) (idle p req live fs nvs))
          ((first ++ parts_of p req ts) ++ last)
  deletions_spare_upload live first last ts fs nvs e h k c spares =
      let v = handle p req (part first) (idle p req live fs nvs) in
      let u =
        first-Under live first (length (parts_of p req ts) + length last) fs nvs e h
          (omega (arith, k)) c in
      rw (run-append p req ts (part last ∷ []) v) (
        last-Stores live (run p req ts v) (first ++ parts_of p req ts) last
          (run-Under live ts v first (length last) u k spares) k)
