-- ===== src/Web.antt =====
-- The handlers of main/cgiappfs.c together: what one request uploads, a later one downloads.
use bkc_chooser.Base.{
  ℕ, ◌+◌, ◌≡◌, ◌%◌, ◌||◌, ◌==◌, leb, if◌then◌else◌, Option, none, some, List, [], ◌∷◌, ◌++◌, Bytes,
  codes, ℤ, length, take, drop,
}
use bkc_chooser.Platform.{Platform, Request, Call, Output, CgiReturn}
use bkc_chooser.Libc.{print_nat}
use bkc_chooser.Serve.{sent, header_value, status, serve}
use bkc_chooser.Upload.{UploadState}
use bkc_chooser.Upload.Appfs.{AppfsLaws}
use bkc_chooser.Download.{file_headers, cgi_download_file}

-- appfsRead and appfsEntryInfo: a read gives the bytes that were stored, an entry has the name of
-- its file.
pub record ReadLaws (p : Platform) (laws : AppfsLaws p) : Type 0 where
  pub read_lem :
      (fd : ℤ) (a n : ℕ) (fs : p.Fs) → p.read_file fd a n fs ≡ take n (drop a (laws.stored fd fs))
  pub name_lem : (fd : ℤ) (fs : p.Fs) → (p.entry_info fd fs).0 ≡ laws.named fd fs

-- A name with an underscore in place of each quote, double quote and byte with the high bit.
abbrev pub masked : Bytes → Bytes
masked [] = []
masked (c ∷ s) = (if c == 39 || c == 34 || leb 128 (c % 256) then 95 else c) ∷ masked s

abbrev pub file_of : Option UploadState → Option ℤ
file_of none = none
file_of (some s) = some s.fd

module _ (p : Platform) (laws : AppfsLaws p) (reads : ReadLaws p laws) where
  open p use {Fs, entry_info, read_file}

  -- The response to a download from `fd` that the headers announce, with nothing left.
  abbrev WholeFile : Request → Call → ℤ → ℕ → Fs → Bytes → ℕ → Bytes → Type 0
  WholeFile req call fd live fs name size bytes =
      let (out, end, live') =
        serve (λ o n. cgi_download_file p req call o n fs) (size + 1) none live in
      (rest : List Output) × (out ≡ file_headers name size ++ rest)
      × (sent rest ≡ bytes)
      × (end ≡ CgiReturn.done)
      × (live' ≡ live)

  -- The response to a download of a file called `name` that holds `bytes`: the status 200, headers
  -- with the name and the number of the bytes, and the bytes, with nothing left allocated.
  abbrev pub Downloads : Request → Call → ℕ → ℕ → Fs → Bytes → Bytes → Type 0
  Downloads req call calls live fs name bytes =
      let (out, end, live') = serve (λ o n. cgi_download_file p req call o n fs) calls none live in
      (status out ≡ some 200)
      × (header_value (codes "Content-Length") out ≡ some (print_nat (length bytes)))
      × (header_value (codes "Content-Disposition") out
          ≡ some (codes "attachment; filename=\"" ++ (masked name ++ codes "\"")))
      × (sent out ≡ bytes)
      × (end ≡ CgiReturn.done)
      × (live' ≡ live)
