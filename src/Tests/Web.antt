-- ===== src/Tests/Web.antt =====
-- Concrete requests to the handlers of main/cgiappfs.c and main/cgidev.c.
use bkc_chooser.Base.{
  ℕ, zero, suc, ◌+◌, ap, ◌∙◌, length, ◌≡◌, ◌≢◌, ◌⊎◌, refl, true, false, none, some, List, [], ◌∷◌,
  ◌++◌, Bytes, codes, pos, arith, if◌then◌else◌, bytes_eq, take-append-take-drop,
}
use bkc_chooser.Platform.{Request, Call, Output, CgiReturn}
use bkc_chooser.Libc.{atoi, strtol, print_int}
use bkc_chooser.Sample.{SampleFs, empty_fs, sample, sample_laws}
use bkc_chooser.Serve.{sent, header_value, status, serve}
use bkc_chooser.Upload.{Phase, fresh_upload, upload_data, cgi_upload_file}
use bkc_chooser.Upload.Chunks.{feed, feed-concat}
use bkc_chooser.Upload.Buffer.{fresh-IsValid}
use bkc_chooser.Upload.Stored.{upload_stores}
use bkc_chooser.Upload.Replies.{upload_owns_state}
use bkc_chooser.Download.{file_headers, find_file, cgi_download_file}
use bkc_chooser.Download.Whole.{download_whole}
use bkc_chooser.DevDownload.{
  flash_args, int_arg, cgi_download_flash, LogBuffer, log_start, log_headers, cgi_download_log,
}
use bkc_chooser.DevDownload.Flash.{flash_sends_difference}
use bkc_chooser.DevDownload.Log.{log_text, log_whole}
use bkc_chooser.Ownership.{Owns, downloads_own_state}
use bkc_chooser.FileIndex.{json_esc}
use bkc_chooser.FileIndex.Escape.{read_json, read-json_esc}

abbrev upload_req : Request
upload_req = record { find_arg = λ name n. some (codes "a.app"); post_len = 3 }

abbrev parts : List Bytes
parts = (1 ∷ 2 ∷ []) ∷ (3 ∷ []) ∷ []

upload_stores_example :
    let (s, fs) = feed sample upload_req fresh_upload parts empty_fs in
    (s.state ≡ Phase.done) × (fs.bytes ≡ 1 ∷ 2 ∷ 3 ∷ []) × (fs.name ≡ codes "a.app")
upload_stores_example =
    upload_stores sample upload_req sample_laws parts empty_fs refl (omega arith) refl

feed-concat_example :
    feed sample upload_req fresh_upload parts empty_fs
    ≡ upload_data sample upload_req fresh_upload (1 ∷ 2 ∷ 3 ∷ []) empty_fs
feed-concat_example = feed-concat sample upload_req fresh_upload parts empty_fs fresh-IsValid

-- A call that brings a part of a body.
abbrev call_with : Bytes → ℕ → Call
call_with b n = record { is_open = true; has_memory = true; buff = b; received = n }

upload_owns_state_example :
    let r = (cgi_upload_file sample upload_req (call_with (1 ∷ []) 1) none 4 empty_fs).0 in
    ((r.returns ≡ CgiReturn.done) × (r.live ≡ 4))
    ⊎ ((r.returns ≡ CgiReturn.more) × (r.live ≡ 5) × (r.cgi_data ≢ none))
upload_owns_state_example =
    upload_owns_state sample upload_req (call_with (1 ∷ []) 1) none 4 empty_fs

-- A file of four bytes, and requests for it and for nothing.
abbrev four_bytes : Bytes
four_bytes = 1 ∷ 2 ∷ 3 ∷ 4 ∷ []

abbrev file_fs : SampleFs
file_fs = record { bytes = four_bytes; erased_to = 0; size = 4; name = codes "a.app" }

abbrev file_req : Request
file_req = record { find_arg = λ name n. some (codes "7"); post_len = 0 }

abbrev no_req : Request
no_req = record { find_arg = λ name n. none; post_len = 0 }

find_file-file_req : find_file sample file_req file_fs ≡ some (pos 7)
unfolding find_file atoi
find_file-file_req = refl

find_file-no_req : find_file sample no_req file_fs ≡ none
unfolding find_file
find_file-no_req = refl

download_whole_example :
    let (out, end, live) =
      serve
        (λ o live. cgi_download_file sample file_req (call_with [] 0) o live file_fs)
        5
        none
        2 in
    (rest : List Output) × (out ≡ file_headers (codes "a.app") 4 ++ rest)
    × (sent rest ≡ four_bytes)
    × (end ≡ CgiReturn.done)
    × (live ≡ 2)
download_whole_example =
    download_whole sample file_req (call_with [] 0) (pos 7) 2 file_fs refl refl find_file-file_req
      (take-append-take-drop four_bytes)

-- Flash that holds at each address the address.
abbrev flash : ℕ → ℕ → Bytes
flash a zero = []
flash a (suc n) = a ∷ flash (a + 1) n

flash-reads_on : (a m n : ℕ) → flash a m ++ flash (a + m) n ≡ flash a (m + n)
flash-reads_on a zero n = rw (zero_behind a, zero_before n) refl
  where
    zero_behind : (a : ℕ) → a + 0 ≡ a
    zero_behind a = omega arith

    zero_before : (n : ℕ) → 0 + n ≡ n
    zero_before n = omega arith
flash-reads_on a (suc m) n =
    ap (λ (k : ℕ). a ∷ (flash (a + 1) m ++ flash k n)) (one_on a m)
    ∙ ap (λ (s : Bytes). a ∷ s) (flash-reads_on (a + 1) m n)
    ∙ ap (flash a) (one_out m n)
  where
    one_on : (a m : ℕ) → a + suc m ≡ a + 1 + m
    one_on a m = omega arith

    one_out : (m n : ℕ) → suc (m + n) ≡ suc m + n
    one_out m n = omega arith

length-flash : (a n : ℕ) → length (flash a n) ≡ n
length-flash a zero = refl
length-flash a (suc n) = ap suc (length-flash (a + 1) n)

-- Requests for flash: four bytes from the offset 1 on, and one byte from the offset 4 on.
abbrev flash_req : Bytes → Bytes → Request
flash_req size off = record {
  find_arg = λ name n.
      if bytes_eq name (codes "size")
      then some size
      else if bytes_eq name (codes "off")
      then some off
      else none;
  post_len = 0;
}

flash_args-within :
    flash_args (flash_req (codes "4") (codes "1")) ≡ record { size = pos 4; pos = pos 1 }
unfolding flash_args int_arg strtol
flash_args-within = refl

flash_args-beyond :
    flash_args (flash_req (codes "1") (codes "4")) ≡ record { size = pos 1; pos = pos 4 }
unfolding flash_args int_arg strtol
flash_args-beyond = refl

flash_sends_difference_example :
    let req = flash_req (codes "4") (codes "1") in
    let (out, end, live) = serve (cgi_download_flash flash req (call_with [] 0)) 4 none 0 in
    (status out ≡ some 200)
    × (header_value (codes "Content-Length") out ≡ some (print_int (pos 4)))
    × (sent out ≡ 1 ∷ 2 ∷ 3 ∷ [])
    × (length (sent out) ≡ 3)
    × (end ≡ CgiReturn.done)
    × (live ≡ 0)
flash_sends_difference_example =
    flash_sends_difference flash (flash_req (codes "4") (codes "1")) (call_with [] 0) 3 1 3 0 refl
      refl flash-reads_on length-flash flash_args-within refl

-- A log that has wrapped: its oldest byte stands behind the newest.
abbrev wrapped_log : LogBuffer
wrapped_log = record {
  magic_ok = true;
  bufsz = 3;
  writeptr = 1;
  has_wrapped = true;
  buffer = 9 ∷ 7 ∷ 8 ∷ [];
}

log_whole_example :
    let (out, end, live) = serve (cgi_download_log wrapped_log (call_with [] 0)) 4 none 0 in
    (rest : List Output) × (out ≡ log_headers 3 ++ rest)
    × (sent rest ≡ 7 ∷ 8 ∷ 9 ∷ [])
    × (end ≡ CgiReturn.done)
    × (live ≡ 0)
unfolding log_start log_text
log_whole_example = log_whole wrapped_log (call_with [] 0) 0 refl refl refl (omega arith) refl

-- First calls without an argument, and one for the log.
downloads_own_state_example :
    Owns true 2 (cgi_download_file sample no_req (call_with [] 0) none 2 file_fs)
    × Owns true 2 (cgi_download_flash flash no_req (call_with [] 0) none 2)
    × Owns false 2 (cgi_download_log wrapped_log (call_with [] 0) none 2)
unfolding find_file flash_args int_arg
downloads_own_state_example =
    downloads_own_state sample no_req flash wrapped_log (call_with [] 0) none none none 2 file_fs

read-json_esc_example :
    read_json (json_esc (codes "a\"b\\c") 128 ++ codes "\", 4")
    ≡ some (codes "a\"b\\c", codes ", 4")
read-json_esc_example =
    read-json_esc (codes "a\"b\\c") 128 (codes ", 4") (refl, (refl, (refl, (refl, (refl, tt)))))
      (omega arith)
