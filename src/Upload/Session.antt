-- ===== src/Upload/Session.antt =====
-- The calls of cgiUploadFile for one request: the server hands over the body part by part, until
-- the handler is done.
use bkc_chooser.Base.{
  ℕ, ◌+◌, ◌-◌, ◌<◌, ◌≤◌, ◌≡◌, refl, true, Option, none, some, List, [], ◌∷◌, ◌++◌, Bytes, codes,
  arith, length, length-append,
}
use bkc_chooser.Platform.{Platform, Request, Call, Reply, Output, CgiReturn, response, arg_or_empty}
use bkc_chooser.Upload.{
  UploadState, fresh_upload, upload_temp_name, upload_data, upload_response, upload_step,
  cgi_upload_file,
}
use bkc_chooser.Upload.Chunks.{feed, concat}
use bkc_chooser.Upload.Appfs.{AppfsLaws}
use bkc_chooser.Upload.Stored.{upload_stores}

-- What a request leaves behind: the response, the handler's last answer, the live state structs,
-- `cgiData` and the file system.
pub record Posted (p : Platform) : Type 0 where
  pub out : List Output
  pub returns : CgiReturn
  pub live : ℕ
  pub cgi_data : Option UploadState
  pub fs : p.Fs

module _ (p : Platform) (req : Request) where
  open p use {Fs}

  -- A call that is done is the last one.
  abbrev follow : CgiReturn → Reply UploadState → Fs → Posted p → Posted p
  follow CgiReturn.done r fs rest = record {
    out = r.out;
    returns = CgiReturn.done;
    live = r.live;
    cgi_data = r.cgi_data;
    fs = fs;
  }
  follow CgiReturn.more r fs rest = record rest { out = r.out ++ rest.out }

  -- The call with a part of the body that brings the number of received bytes to `n`.
  abbrev pub part_call : Bytes → ℕ → Call
  part_call part n = record { is_open = true; has_memory = true; buff = part; received = n }

  -- The calls for the parts, behind `n` bytes, while the connection stays open and there is memory.
  unfoldable pub post : ℕ → List Bytes → Option UploadState → ℕ → Fs → Posted p
  post n [] o live fs = record {
    out = [];
    returns = CgiReturn.more;
    live = live;
    cgi_data = o;
    fs = fs;
  }
  post n (part ∷ parts) o live fs =
      let (r, fs') = cgi_upload_file p req (part_call part (n + length part)) o live fs in
      let rest = post (n + length part) parts r.cgi_data r.live fs' in follow r.returns r fs' rest

  -- What the handler leaves once the whole body went into its state.
  abbrev pub answered : UploadState × Fs → ℕ → Posted p
  answered t live = record {
    out = upload_response t.0;
    returns = CgiReturn.done;
    live = live;
    cgi_data = some t.0;
    fs = t.1;
  }

  pub call_last :
      (part : Bytes) (n : ℕ) (s : UploadState) (live : ℕ) (fs : Fs)
      → n ≡ req.post_len
      → let t = upload_data p req s part fs in
        cgi_upload_file p req (part_call part n) (some s) live fs ≡ (
          record {
            returns = CgiReturn.done;
            cgi_data = some t.0;
            live = live - 1;
            out = upload_response t.0;
          },
          t.1,
        )
  unfolding cgi_upload_file upload_step
  call_last part n s live fs e = ground (arith, e)

  pub call_more :
      (part : Bytes) (n : ℕ) (s : UploadState) (live : ℕ) (fs : Fs)
      → n < req.post_len
      → let t = upload_data p req s part fs in
        cgi_upload_file p req (part_call part n) (some s) live fs
        ≡ (record { returns = CgiReturn.more; cgi_data = some t.0; live = live; out = [] }, t.1)
  unfolding cgi_upload_file upload_step
  call_more part n s live fs e = ground (arith, e)

  length-last :
      (parts : List Bytes) (last : Bytes)
      → length last ≤ length (concat p req (parts ++ (last ∷ [])))
  length-last [] last = omega (arith, length-append last [])
  length-last (part ∷ parts) last =
      omega
        (arith, length-append part (concat p req (parts ++ (last ∷ []))), length-last parts last)

  pub post-feed :
      (parts : List Bytes) (last : Bytes) (n : ℕ) (s : UploadState) (live : ℕ) (fs : Fs)
      → n + length (concat p req (parts ++ (last ∷ []))) ≡ req.post_len
      → 0 < length last
      → post n (parts ++ (last ∷ [])) (some s) live fs
        ≡ answered (feed p req s (parts ++ (last ∷ [])) fs) (live - 1)
  unfolding post feed
  post-feed [] last n s live fs e h =
      rw (call_last last (n + length last) s live fs (omega (arith, e, length-append last []))) refl
  post-feed (part ∷ parts) last n s live fs e h =
      let t = upload_data p req s part fs in
      let whole = length-append part (concat p req (parts ++ (last ∷ []))) in
      let more : n + length part < req.post_len =
        omega (arith, e, whole, length-last parts last, h) in
      rw (call_more part (n + length part) s live fs more)
        (post-feed parts last (n + length part) t.0 live t.1 (omega (arith, e, whole)) h)

  -- The first call allocates the state that a later call would find.
  pub call_first :
      (call : Call) (live : ℕ) (fs : Fs)
      → call.is_open ≡ true
      → call.has_memory ≡ true
      → cgi_upload_file p req call none live fs
        ≡ cgi_upload_file p req call (some fresh_upload) (live + 1) fs
  unfolding cgi_upload_file
  call_first call live fs o m = rw (o, m) refl

  pub post-first :
      (parts : List Bytes) (last : Bytes) (live : ℕ) (fs : Fs)
      → post 0 (parts ++ (last ∷ [])) none live fs
        ≡ post 0 (parts ++ (last ∷ [])) (some fresh_upload) (live + 1) fs
  unfolding post
  post-first [] last live fs =
      rw (call_first (part_call last (0 + length last)) live fs refl refl) refl
  post-first (part ∷ parts) last live fs =
      rw (call_first (part_call part (0 + length part)) live fs refl refl) refl

  -- While the connection stays open and there is memory, a body that the server hands over in any
  -- parts, the last of them not empty, is answered with the status 200 and no error text; the
  -- handler is done and no state stays allocated; and the new file holds the body under the
  -- requested name, the empty one if there is none. It is assumed that appfs grants the file and
  -- behaves as AppfsLaws says.
  pub post-stores :
      (laws : AppfsLaws p) (parts : List Bytes) (last : Bytes) (live : ℕ) (fs : Fs)
      → length (concat p req (parts ++ (last ∷ []))) ≡ req.post_len
      → 0 < length last
      → (p.create_file upload_temp_name req.post_len fs).0 ≡ true
      → let r = post 0 (parts ++ (last ∷ [])) none live fs in
        (r.out ≡ response 200 (codes "Content-Type") (codes "text/plain"))
        × (r.returns ≡ CgiReturn.done)
        × (r.live ≡ live)
        × (s : UploadState) × (r.cgi_data ≡ some s)
        × (laws.stored s.fd r.fs ≡ concat p req (parts ++ (last ∷ [])))
        × (laws.named s.fd r.fs ≡ arg_or_empty (req.find_arg (codes "name") 512))
  post-stores laws parts last live fs e h c =
      let body = parts ++ (last ∷ []) in
      let t = feed p req fresh_upload body fs in
      let some_bytes : 0 < req.post_len = omega (arith, e, h, length-last parts last) in
      let (finished, holds, name) = upload_stores p req laws body fs e some_bytes c in
      rw
        (
          post-first parts last live fs,
          post-feed parts last 0 fresh_upload (live + 1) fs (omega (arith, e)) h,
        )
        (
          unfold upload_response in (ground (arith, finished)),
          refl,
          omega arith,
          t.0,
          refl,
          holds,
          name,
        )
