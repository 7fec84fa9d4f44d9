-- ===== src/DevDownload.antt =====
-- cgiDownloadFlash and cgiDownloadLog of main/cgidev.c: raw flash, and the log in RTC memory.
pub mod Flash
pub mod Log
use bkc_chooser.Base.{
  ℕ, zero, suc, ◌+◌, ◌-◌, Bool, not, ◌||◌, Option, none, some, List, [], ◌∷◌, ◌++◌, Bytes, codes, ℤ,
  pos, ◌==◌, if◌then◌else◌, get_or, ◌+ℤ◌, ◌-ℤ◌, ltb_ℤ, eqb_ℤ,
}
use bkc_chooser.Platform.{
  Request, Call, Reply, Output, done, more, start_response, header, end_headers, send, send_len,
  response, arg_or_empty,
}
use bkc_chooser.Libc.{strtol, print_int, print_nat}
use bkc_chooser.Download.{download_chunk_size, chunk_len}

pub record FlashState : Type 0 where
  pub size : ℤ
  pub pos : ℤ

-- An int argument, or `d` where the request has none.
unfoldable pub int_arg : Bytes → ℤ → ℤ
int_arg [] d = d
int_arg (c ∷ s) d = strtol (c ∷ s)

abbrev pub or_default : Option Bytes → Bytes → Bytes
or_default none d = d
or_default (some b) d = b

-- What the arguments `size` and `off` say of a first call.
unfoldable pub flash_args : Request → FlashState
flash_args req = record {
  size = int_arg (arg_or_empty (req.find_arg (codes "size") 15)) (ℤ.pos 0);
  pos = int_arg (arg_or_empty (req.find_arg (codes "off") 15)) (ℤ.pos 0);
}

unfoldable pub flash_headers : Request → ℤ → List Output
flash_headers req size =
    start_response 200
    ∷ header (codes "Content-Type") (codes "application/octet-stream")
    ∷ header (codes "Content-Disposition") (
        codes "attachment; filename=\""
        ++ (or_default (req.find_arg (codes "name") 15) (codes "data.dat") ++ codes "\""))
    ∷ header (codes "Content-Length") (print_int size)
    ∷ end_headers
    ∷ []

-- httpdSend, with a length that may be negative.
abbrev pub send_int : (ℕ → Bytes) → ℤ → Output
send_int read (ℤ.pos n) = send (read n)
send_int read (ℤ.negsuc n) = send_len [] (ℤ.negsuc n)

abbrev pub at_flash : (ℕ → ℕ → Bytes) → ℤ → ℕ → Bytes
at_flash flash (ℤ.pos a) n = flash a n
at_flash flash (ℤ.negsuc a) n = []

-- `flash a n` is what spi_flash_read gives for `n` bytes at the address `a`.
module _ (flash : ℕ → ℕ → Bytes) (req : Request) where
  unfoldable pub flash_len : FlashState → ℤ
  flash_len s =
      let n = s.size -ℤ s.pos in
      if ltb_ℤ (ℤ.pos download_chunk_size) n then ℤ.pos download_chunk_size else n

  unfoldable pub send_flash : FlashState → ℕ → Reply FlashState
  send_flash s live =
      let n = flash_len s in
      let s' = record s { pos = s.pos +ℤ n } in
      let out = send_int (at_flash flash s.pos) n ∷ [] in
      if eqb_ℤ s'.pos s.size
      then record { returns = done; cgi_data = some s'; live = live - 1; out = out }
      else record { returns = more; cgi_data = some s'; live = live; out = out }

  -- Without a size the state that was allocated is not freed.
  unfoldable pub start_flash : FlashState → ℕ → Reply FlashState
  start_flash s live =
      let first = send_flash s live in
      if eqb_ℤ s.size (ℤ.pos 0)
      then record {
        returns = done;
        cgi_data = some s;
        live = live;
        out =
            response 404 (codes "Content-Type") (codes "text/plain")
            ++ send (codes "Invalid args (size, off, name)\n") ∷ [];
      }
      else record first { out = flash_headers req s.size ++ first.out }

  -- cgiDownloadFlash.
  unfoldable pub cgi_download_flash : Call → Option FlashState → ℕ → Reply FlashState
  cgi_download_flash call none live =
      if not call.is_open || not call.has_memory
      then record { returns = done; cgi_data = none; live = live; out = [] }
      else start_flash (flash_args req) (live + 1)
  cgi_download_flash call (some s) live =
      if not call.is_open
      then record { returns = done; cgi_data = some s; live = live - 1; out = [] }
      else send_flash s live

-- kchal_stdout_rtc_buf_t, the part that is read: `magic_ok` is `magic == KCHAL_STDOUT_MAGIC`.
pub record LogBuffer : Type 0 where
  pub magic_ok : Bool
  pub bufsz : ℕ
  pub writeptr : ℕ
  pub has_wrapped : Bool
  pub buffer : Bytes

pub record LogState : Type 0 where
  pub size : ℕ
  pub pos : ℕ
  pub ptr : ℕ

-- The copy loop: `n` bytes from `ptr` on, round the end of the buffer.
unfoldable pub copy_log : ℕ → ℕ → LogBuffer → Bytes × ℕ
copy_log zero ptr rb = ([], ptr)
copy_log (suc n) ptr rb =
    let (bytes, end) = copy_log n (if ptr + 1 == rb.bufsz then 0 else ptr + 1) rb in
    (get_or rb.buffer ptr 0 ∷ bytes, end)

unfoldable pub log_start : LogBuffer → LogState
log_start rb =
    if rb.has_wrapped
    then record { size = rb.bufsz; pos = 0; ptr = rb.writeptr }
    else record { size = rb.writeptr; pos = 0; ptr = 0 }

unfoldable pub log_headers : ℕ → List Output
log_headers size =
    start_response 200
    ∷ header (codes "Content-Type") (codes "application/octet-stream")
    ∷ header (codes "Content-Disposition") (codes "attachment; filename=\"log.txt\"")
    ∷ header (codes "Content-Length") (print_nat size)
    ∷ end_headers
    ∷ []

unfoldable pub send_log : LogBuffer → LogState → ℕ → Reply LogState
send_log rb s live =
    let n = chunk_len s.size s.pos in
    let (bytes, ptr) = copy_log n s.ptr rb in
    let s' = record s { pos = s.pos + n; ptr = ptr } in
    if s.pos + n == s.size
    then record { returns = done; cgi_data = some s'; live = live - 1; out = send bytes ∷ [] }
    else record { returns = more; cgi_data = some s'; live = live; out = send bytes ∷ [] }

-- A bad magic leaves the state that was allocated.
unfoldable pub start_log : LogBuffer → ℕ → Reply LogState
start_log rb live =
    let s = log_start rb in
    let first = send_log rb s live in
    if rb.magic_ok then record first { out = log_headers s.size ++ first.out } else record {
      returns = done;
      cgi_data = some (record { size = 0; pos = 0; ptr = 0 });
      live = live;
      out =
          response 404 (codes "Content-Type") (codes "text/plain")
          ++ send (codes "Bad RTC mem magic.\n") ∷ [];
    }

-- cgiDownloadLog.
unfoldable pub cgi_download_log : LogBuffer → Call → Option LogState → ℕ → Reply LogState
cgi_download_log rb call none live =
    if not call.is_open || not call.has_memory
    then record { returns = done; cgi_data = none; live = live; out = [] }
    else start_log rb (live + 1)
cgi_download_log rb call (some s) live =
    if not call.is_open
    then record { returns = done; cgi_data = some s; live = live - 1; out = [] }
    else send_log rb s live
