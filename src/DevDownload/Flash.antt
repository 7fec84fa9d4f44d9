-- ===== src/DevDownload/Flash.antt =====
-- The calls of cgiDownloadFlash for one request: what is sent, against what the headers announce.
use bkc_chooser.Base.{
  ℕ, suc, ◌+◌, ◌≤◌, ◌<◌, ◌≡◌, sym, ap, ◌∙◌, length, codes, Option, none, some, List, [], ◌∷◌, ◌++◌,
  Bytes, ℤ, arith, true, sub_ℕ,
}
use bkc_chooser.Platform.{Request, Call, Reply, Output, done, send_len}
use bkc_chooser.Libc.{print_int}
use bkc_chooser.Serve.{sent, header_value, status, serve, serve_last}
use bkc_chooser.Download.{chunk_len}
use bkc_chooser.Download.Chunks.{Chunked, serve_whole}
use bkc_chooser.DevDownload.{
  FlashState, flash_args, flash_headers, flash_len, send_flash, start_flash, cgi_download_flash,
}

module _ (flash : ℕ → ℕ → Bytes) (req : Request) (call : Call) where
  abbrev handler : Option FlashState → ℕ → Reply FlashState
  handler = cgi_download_flash flash req call

  abbrev at : ℕ → ℕ → FlashState
  at size k = record { size = ℤ.pos size; pos = ℤ.pos k }

  flash_len-pos :
      (size k : ℕ) → k ≤ size → flash_len flash req (at size k) ≡ ℤ.pos (chunk_len size k)
  unfolding flash_len chunk_len
  flash_len-pos size k h = ground arith

  open_call :
      (s : FlashState) (live : ℕ)
      → call.is_open ≡ true
      → handler (some s) live ≡ send_flash flash req s live
  unfolding cgi_download_flash
  open_call s live o = rw o

  flash-Chunked :
      (size : ℕ)
      → call.is_open ≡ true
      → ((a m n : ℕ) → flash a m ++ flash (a + m) n ≡ flash a (m + n))
      → Chunked handler size (at size) flash
  flash-Chunked size o rd = record {
    reads_on = rd;
    last = λ k live e.
        open_call (at size k) live o
        ∙ (unfold send_flash in rw (flash_len-pos size k (omega arith)) (ground (arith, e)));
    next = λ k live e.
        open_call (at size k) live o
        ∙ (unfold send_flash in rw (flash_len-pos size k (omega arith)) (ground (arith, e)));
  }

  first_call :
      (size off live : ℕ)
      → call.is_open ≡ true
      → call.has_memory ≡ true
      → flash_args req ≡ at (suc size) off
      → let first = send_flash flash req (at (suc size) off) (live + 1) in
        handler none live ≡ record first { out = flash_headers req (ℤ.pos (suc size)) ++ first.out }
  unfolding cgi_download_flash start_flash
  first_call size off live o m f = rw (o, m, f) (ground arith)

  flash_served :
      (size off total live : ℕ)
      → call.is_open ≡ true
      → call.has_memory ≡ true
      → ((a m n : ℕ) → flash a m ++ flash (a + m) n ≡ flash a (m + n))
      → flash_args req ≡ at (suc size) off
      → off + total ≡ suc size
      → let (out, end, live') = serve handler (total + 1) none live in
        (rest : List Output) × (out ≡ flash_headers req (ℤ.pos (suc size)) ++ rest)
        × (sent rest ≡ flash off total)
        × (end ≡ done)
        × (live' ≡ live)
  flash_served size off total live o m rd f e =
      serve_whole (flash-Chunked (suc size) o rd) off total live
        (flash_headers req (ℤ.pos (suc size))) (send_flash flash req (at (suc size) off) (live + 1))
        e (open_call (at (suc size) off) (live + 1) o) (first_call size off live o m f)

  announced :
      (out rest : List Output) (size : ℕ)
      → out ≡ flash_headers req (ℤ.pos (suc size)) ++ rest
      → (status out ≡ some 200)
        × (header_value (codes "Content-Length") out ≡ some (print_int (ℤ.pos (suc size))))
        × (sent out ≡ sent rest)
  unfolding flash_headers
  announced out rest size e = (ap status e, ap (header_value (codes "Content-Length")) e, ap sent e)

  -- For a size and an offset within it the response has the status 200, its body is the `size - off`
  -- bytes of flash that lie between the offset and the size, and its header Content-Length announces
  -- `size`, which is `off` bytes too many. The handler is done within `size - off + 1` calls and
  -- leaves no state. It is assumed that the connection stays open, that there is memory, and that a
  -- read of flash gives as many bytes as it is asked for, and reads add up.
  pub flash_sends_difference :
      (size off total live : ℕ)
      → call.is_open ≡ true
      → call.has_memory ≡ true
      → ((a m n : ℕ) → flash a m ++ flash (a + m) n ≡ flash a (m + n))
      → ((a n : ℕ) → length (flash a n) ≡ n)
      → flash_args req ≡ at (suc size) off
      → off + total ≡ suc size
      → let (out, end, live') = serve handler (total + 1) none live in
        (status out ≡ some 200)
        × (header_value (codes "Content-Length") out ≡ some (print_int (ℤ.pos (off + total))))
        × (sent out ≡ flash off total)
        × (length (sent out) ≡ total)
        × (end ≡ done)
        × (live' ≡ live)
  flash_sends_difference size off total live o m rd len f e =
      let (rest, headed, bytes, end, freed) = flash_served size off total live o m rd f e in
      let (code, size_header, body) = announced _ rest size headed in
      (
        code,
        size_header ∙ ap (λ (n : ℕ). some (print_int (ℤ.pos n))) (sym e),
        body ∙ bytes,
        ap length (body ∙ bytes) ∙ len off total,
        end,
        freed,
      )

  send_negative :
      (size off live : ℕ)
      → suc size < off
      → send_flash flash req (at (suc size) off) (live + 1) ≡ record {
        returns = done;
        cgi_data = some (at (suc size) (suc size));
        live = live;
        out = send_len [] (sub_ℕ (suc size) off) ∷ [];
      }
  unfolding send_flash flash_len
  send_negative size off live h = ground arith

  -- An offset beyond the size is not refused: httpdSend is called once with a negative length.
  pub flash_negative_length :
      (size off live : ℕ)
      → call.is_open ≡ true
      → call.has_memory ≡ true
      → flash_args req ≡ at (suc size) off
      → suc size < off
      → serve handler 1 none live ≡ (
        flash_headers req (ℤ.pos (suc size)) ++ send_len [] (sub_ℕ (suc size) off) ∷ [],
        done,
        live,
      )
  flash_negative_length size off live o m f h =
      let one = send_negative size off live h in
      serve_last handler 0 none live _ (first_call size off live o m f)
        (ap (λ (r : Reply FlashState). r.returns) one)
      ∙ ap (λ (r : Reply FlashState). (flash_headers req (ℤ.pos (suc size)) ++ r.out, done, r.live))
          one
