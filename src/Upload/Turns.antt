-- ===== src/Upload/Turns.antt =====
-- The server between the parts of an upload: it calls cgiUploadFile of main/cgiappfs.c for the parts
-- and cgiDelete for the requests of other connections, on one file system.
use bkc_chooser.Base.{
  ℕ, ◌+◌, ◌≡◌, refl, false, Option, none, List, [], ◌∷◌, ◌++◌, Bytes, codes, ℤ, length, bytes_eq,
}
use bkc_chooser.Libc.{atoi}
use bkc_chooser.Platform.{Platform, Request, Output, CgiReturn, arg_or_empty}
use bkc_chooser.FileIndex.{cgi_delete}
use bkc_chooser.Upload.{UploadState, upload_temp_name, cgi_upload_file}
use bkc_chooser.Upload.Session.{part_call}
use bkc_chooser.Upload.Appfs.{AppfsLaws}

-- What the server handles next: a part of the upload's body, or a request to delete a file.
pub data Turn : Type 0 where
  part : Bytes → Turn
  deletion : Request → Turn

-- What the server keeps: how much of the body came, the handler's `cgiData`, live state structs,
-- last answer and response, the file system and the settings store.
pub record Server (p : Platform) : Type 0 where
  pub received : ℕ
  pub cgi_data : Option UploadState
  pub live : ℕ
  pub returns : CgiReturn
  pub out : List Output
  pub fs : p.Fs
  pub nvs : p.Nvs

-- What is assumed of a deletion: it leaves files of other names as they are.
pub record DeleteLaws (p : Platform) (laws : AppfsLaws p) : Type 0 where
  pub delete_lem :
      (fd : ℤ) (name : Bytes) (fs : p.Fs)
      → bytes_eq name (laws.named fd fs) ≡ false
      → let fs' = p.delete_file name fs in
        (laws.stored fd fs' ≡ laws.stored fd fs)
        × (laws.erased fd fs' ≡ laws.erased fd fs)
        × (laws.capacity fd fs' ≡ laws.capacity fd fs)
        × (laws.named fd fs' ≡ laws.named fd fs)

module _ (p : Platform) (req : Request) where
  open p use {Fs, Nvs, entry_info, create_file}

  abbrev pub handle : Turn → Server p → Server p
  handle (part b) v =
      let n = v.received + length b in
      let (r, fs') = cgi_upload_file p req (part_call p req b n) v.cgi_data v.live v.fs in
      record v {
        received = n;
        cgi_data = r.cgi_data;
        live = r.live;
        returns = r.returns;
        out = v.out ++ r.out;
        fs = fs';
      }
  handle (deletion q) v =
      let (out, fs', nvs') = cgi_delete p q v.fs v.nvs in record v { fs = fs'; nvs = nvs' }

  abbrev pub run : List Turn → Server p → Server p
  run [] v = v
  run (t ∷ ts) v = run ts (handle t v)

  -- The server as the request for the upload comes in.
  abbrev pub idle : ℕ → Fs → Nvs → Server p
  idle live fs nvs = record {
    received = 0;
    cgi_data = none;
    live = live;
    returns = CgiReturn.more;
    out = [];
    fs = fs;
    nvs = nvs;
  }

  abbrev pub parts_of : List Turn → Bytes
  parts_of [] = []
  parts_of (part b ∷ ts) = b ++ parts_of ts
  parts_of (deletion q ∷ ts) = parts_of ts

  -- The file that a request deletes.
  abbrev pub deleted_name : Request → Fs → Bytes
  deleted_name q fs = (entry_info (atoi (arg_or_empty (q.find_arg (codes "idx") 16))) fs).0

  -- No request names the temporary file of the upload.
  abbrev pub Spares : List Turn → Server p → Type 0
  Spares [] v = Unit {0}
  Spares (part b ∷ ts) v = Spares ts (handle (part b) v)
  Spares (deletion q ∷ ts) v =
      (bytes_eq (deleted_name q v.fs) upload_temp_name ≡ false) × Spares ts (handle (deletion q) v)

  abbrev pub requested_name : Bytes
  requested_name = arg_or_empty (req.find_arg (codes "name") 512)

  pub run-append : (ts us : List Turn) (v : Server p) → run (ts ++ us) v ≡ run us (run ts v)
  run-append [] us v = refl
  run-append (t ∷ ts) us v = run-append ts us (handle t v)
