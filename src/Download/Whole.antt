-- ===== src/Download/Whole.antt =====
-- The calls of cgiDownloadFile for one request: what is sent, and what is left allocated.
use bkc_chooser.Base.{
  ℕ, ◌+◌, ◌≡◌, refl, ◌∙◌, true, Option, none, some, List, [], ◌∷◌, ◌++◌, codes, ℤ, arith,
}
use bkc_chooser.Platform.{Platform, Request, Call, Reply, Output, done, send, response}
use bkc_chooser.Serve.{sent, serve, serve_last}
use bkc_chooser.Download.Chunks.{Chunked, serve_whole}
use bkc_chooser.Download.{
  DownloadState, file_headers, send_chunk, find_file, start_download, cgi_download_file,
}

module _ (p : Platform) (req : Request) (call : Call) where
  open p use {Fs, entry_info, read_file}

  -- Reading on where a read ended is reading at once.
  abbrev ReadsOn : Fs → ℤ → Type 0
  ReadsOn fs fd =
      (a m n : ℕ) → read_file fd a m fs ++ read_file fd (a + m) n fs ≡ read_file fd a (m + n) fs

  abbrev handler : Fs → Option DownloadState → ℕ → Reply DownloadState
  handler fs o live = cgi_download_file p req call o live fs

  open_call :
      (s : DownloadState) (live : ℕ) (fs : Fs)
      → call.is_open ≡ true
      → handler fs (some s) live ≡ send_chunk p s live fs
  unfolding cgi_download_file
  open_call s live fs o = rw o

  abbrev at : ℤ → ℕ → ℕ → DownloadState
  at fd size k = record { fd = fd; size = size; pos = k }

  file-Chunked :
      (fd : ℤ) (size : ℕ) (fs : Fs)
      → call.is_open ≡ true
      → ReadsOn fs fd
      → Chunked (handler fs) size (at fd size) (λ k n. read_file fd k n fs)
  file-Chunked fd size fs o rd = record {
    reads_on = rd;
    last =
        λ k live e. open_call (at fd size k) live fs o ∙ (unfold send_chunk in ground (arith, e));
    next =
        λ k live e. open_call (at fd size k) live fs o ∙ (unfold send_chunk in ground (arith, e));
  }

  first_call :
      (idx : ℤ) (live : ℕ) (fs : Fs)
      → call.is_open ≡ true
      → call.has_memory ≡ true
      → find_file p req fs ≡ some idx
      → let (name, size) = entry_info idx fs in
        let first = send_chunk p (record { fd = idx; size = size; pos = 0 }) (live + 1) fs in
        handler fs none live ≡ record first { out = file_headers name size ++ first.out }
  unfolding cgi_download_file start_download
  first_call idx live fs o m f = rw (o, m, f)

  -- For the index of a file the response is the headers with the file's size, then all of the
  -- file's bytes; the handler is done within `size + 1` calls and leaves no state allocated. It
  -- is assumed that the connection stays open, that there is memory, and that reads add up.
  pub download_whole :
      (idx : ℤ) (live : ℕ) (fs : Fs)
      → call.is_open ≡ true
      → call.has_memory ≡ true
      → find_file p req fs ≡ some idx
      → ReadsOn fs idx
      → let (name, size) = entry_info idx fs in
        let (out, end, live') = serve (handler fs) (size + 1) none live in
        (rest : List Output) × (out ≡ file_headers name size ++ rest)
        × (sent rest ≡ read_file idx 0 size fs)
        × (end ≡ done)
        × (live' ≡ live)
  download_whole idx live fs o m f rd =
      let (name, size) = entry_info idx fs in
      serve_whole (file-Chunked idx size fs o rd) 0 size live (file_headers name size)
        (send_chunk p (at idx size 0) (live + 1) fs) (omega arith)
        (open_call (at idx size 0) (live + 1) fs o) (first_call idx live fs o m f)

  -- A request for no file is answered with 404, and the state that was allocated for it stays
  -- allocated, though the handler is done.
  download_missing :
      (live : ℕ) (fs : Fs)
      → call.is_open ≡ true
      → call.has_memory ≡ true
      → find_file p req fs ≡ none
      → serve (handler fs) 1 none live ≡ (
        response 404 (codes "Content-Type") (codes "text/plain")
            ++ send (codes "Invalid idx var\n") ∷ [],
        done,
        live + 1,
      )
  unfolding cgi_download_file start_download
  download_missing live fs o m f =
      serve_last (handler fs) 0 none live (start_download p none (live + 1) fs) (rw (o, m, f)) refl
