-- ===== src/Download.antt =====
-- cgiDownloadFile of main/cgiappfs.c: an application file is sent in chunks, one for each call.
pub mod Chunks
pub mod Whole
use bkc_chooser.Base.{
  ℕ, ◌+◌, ◌-◌, ◌%◌, Bool, not, ◌&&◌, ◌||◌, Option, none, some, List, [], ◌∷◌, ◌++◌, Bytes, codes, ℤ,
  pos, ltb, leb, ◌==◌, if◌then◌else◌, length, map,
}
use bkc_chooser.Platform.{
  Platform, Request, Call, Reply, Output, done, more, start_response, header, end_headers, send,
  response, arg_or_empty,
}
use bkc_chooser.Libc.{atoi, print_nat}

pub record DownloadState : Type 0 where
  pub fd : ℤ
  pub size : ℕ
  pub pos : ℕ

abbrev pub zero_download : DownloadState
zero_download = record { fd = ℤ.pos 0; size = 0; pos = 0 }

abbrev pub download_chunk_size : ℕ
download_chunk_size = 1024

-- The length of the next chunk. `pos` does not pass `size`, so the difference is exact.
unfoldable pub chunk_len : ℕ → ℕ → ℕ
chunk_len size at = if ltb download_chunk_size (size - at) then download_chunk_size else size - at

-- Quotes and bytes with the high bit become underscores.
abbrev pub is_unsafe : ℕ → Bool
is_unsafe c = c == b'\'' || c == b'"' || leb 128 (c % 256)

unfoldable pub safe_name : Bytes → Bytes
safe_name = map (λ c. if is_unsafe c then b'_' else c)

unfoldable pub disposition : Bytes → Bytes
disposition name = codes "attachment; filename=\"" ++ (safe_name name ++ codes "\"")

unfoldable pub file_headers : Bytes → ℕ → List Output
file_headers name size =
    start_response 200
    ∷ header (codes "Content-Type") (codes "application/octet-stream")
    ∷ header (codes "Content-Disposition") (disposition name)
    ∷ header (codes "Content-Length") (print_nat size)
    ∷ end_headers
    ∷ []

module _ (p : Platform) where
  open p use {Fs, fd_valid, entry_info, read_file}

  -- The part of every call that sends a chunk.
  unfoldable pub send_chunk : DownloadState → ℕ → Fs → Reply DownloadState
  send_chunk s live fs =
      let n = chunk_len s.size s.pos in
      let s' = record s { pos = s.pos + n } in
      let chunk = send (read_file s.fd s.pos n fs) ∷ [] in
      if s.pos + n == s.size
      then record { returns = done; cgi_data = some s'; live = live - 1; out = chunk }
      else record { returns = more; cgi_data = some s'; live = live; out = chunk }

  -- The file that the argument `idx` names, if it is one.
  unfoldable pub find_file : Request → Fs → Option ℤ
  find_file req fs =
      let sidx = arg_or_empty (req.find_arg (codes "idx") 16) in
      if ltb 0 (length sidx) && fd_valid (atoi sidx) fs then some (atoi sidx) else none

  -- The first call: without a file the state that was allocated is not freed.
  unfoldable pub start_download : Option ℤ → ℕ → Fs → Reply DownloadState
  start_download none live fs = record {
    returns = done;
    cgi_data = some zero_download;
    live = live;
    out =
        response 404 (codes "Content-Type") (codes "text/plain")
        ++ send (codes "Invalid idx var\n") ∷ [];
  }
  start_download (some idx) live fs =
      let (name, size) = entry_info idx fs in
      let first = send_chunk (record { fd = idx; size = size; pos = 0 }) live fs in
      record first { out = file_headers name size ++ first.out }

  -- cgiDownloadFile. `live` counts the allocated state structs.
  unfoldable pub cgi_download_file :
      Request → Call → Option DownloadState → ℕ → Fs → Reply DownloadState
  cgi_download_file req call none live fs =
      if not call.is_open || not call.has_memory
      then record { returns = done; cgi_data = none; live = live; out = [] }
      else start_download (find_file req fs) (live + 1) fs
  cgi_download_file req call (some s) live fs =
      if not call.is_open
      then record { returns = done; cgi_data = some s; live = live - 1; out = [] }
      else send_chunk s live fs
