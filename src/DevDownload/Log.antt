-- ===== src/DevDownload/Log.antt =====
-- The calls of cgiDownloadLog for one request: what is sent, against the text of the log.
use bkc_chooser.Base.{
  ℕ, zero, suc, ◌+◌, ◌-◌, ◌<◌, ◌≡◌, refl, sym, ap, ◌∙◌, true, false, Option, none, some, List, [],
  ◌∷◌, ◌++◌, Bytes, arith, ◌==◌, if◌then◌else◌, length, take, drop, get_or, drop_all, inl, inr, ◌⊎◌,
}
use bkc_chooser.Platform.{Call, Reply, Output, done}
use bkc_chooser.Serve.{sent, serve}
use bkc_chooser.Download.{chunk_len}
use bkc_chooser.Download.Chunks.{Chunked, serve_whole}
use bkc_chooser.DevDownload.{
  LogBuffer, LogState, copy_log, log_start, log_headers, send_log, start_log, cgi_download_log,
}

module _ (rb : LogBuffer) where
  -- What was logged and is still there, oldest first.
  unfoldable pub log_text : Bytes
  log_text =
      if rb.has_wrapped
      then drop rb.writeptr rb.buffer ++ take rb.writeptr rb.buffer
      else take rb.writeptr rb.buffer

  copy_log_add :
      (m n ptr : ℕ)
      → let (bytes, mid) = copy_log m ptr rb in
        let (more_bytes, end) = copy_log n mid rb in
        copy_log (m + n) ptr rb ≡ (bytes ++ more_bytes, end)
  unfolding copy_log
  copy_log_add zero n ptr = let e : 0 + n ≡ n = omega arith in rw e
  copy_log_add (suc m) n ptr =
      let e : suc m + n ≡ suc (m + n) = omega arith in
      let ptr' = if ptr + 1 == rb.bufsz then 0 else ptr + 1 in
      rw (e, copy_log, copy_log_add m n ptr')

  drop_step : (n : ℕ) (b : Bytes) → n < length b → drop n b ≡ get_or b n 0 ∷ drop (n + 1) b
  drop_step zero [] h = absurd (omega arith)
  drop_step zero (x ∷ b) h = refl
  drop_step (suc n) [] h = absurd (omega arith)
  drop_step (suc n) (x ∷ b) h =
      let e : suc n + 1 ≡ suc (n + 1) = omega arith in rw e (drop_step n b (omega arith))

  -- A copy that stays within the buffer.
  copy_within :
      (n ptr : ℕ)
      → ptr + n < rb.bufsz
      → rb.bufsz ≡ length rb.buffer
      → copy_log n ptr rb ≡ (take n (drop ptr rb.buffer), ptr + n)
  unfolding copy_log
  copy_within zero ptr h e = ground arith
  copy_within (suc n) ptr h e = ground (
    arith,
    drop_step ptr rb.buffer (omega (arith, h, e)),
    copy_within n (ptr + 1) (omega (arith, h)) e,
  )

  -- A copy up to the end of the buffer.
  copy_to_end :
      (n ptr : ℕ)
      → ptr + suc n ≡ rb.bufsz
      → rb.bufsz ≡ length rb.buffer
      → copy_log (suc n) ptr rb ≡ (drop ptr rb.buffer, 0)
  unfolding copy_log
  copy_to_end zero ptr h e = ground (
    arith,
    drop_step ptr rb.buffer (omega (arith, h, e)),
    drop_all (ptr + 1) rb.buffer (omega (arith, h, e)),
  )
  copy_to_end (suc n) ptr h e = ground (
    arith,
    drop_step ptr rb.buffer (omega (arith, h, e)),
    copy_to_end n (ptr + 1) (omega (arith, h)) e,
  )

  abbrev size : ℕ
  size = (log_start rb).size

  abbrev ptr_at : ℕ → ℕ
  ptr_at k = (copy_log k (log_start rb).ptr rb).1

  abbrev read : ℕ → ℕ → Bytes
  read k n = (copy_log n (ptr_at k) rb).0

  abbrev at : ℕ → LogState
  at k = record { size = size; pos = k; ptr = ptr_at k }

  reads_on : (k m n : ℕ) → read k m ++ read (k + m) n ≡ read k (m + n)
  reads_on k m n =
      let p = ptr_at k in
      ap (λ q. (copy_log m p rb).0 ++ (copy_log n q rb).0)
        (ap (λ (r : Bytes × ℕ). r.1) (copy_log_add k m (log_start rb).ptr))
      ∙ sym (ap (λ (r : Bytes × ℕ). r.0) (copy_log_add m n p))

  copy_round :
      rb.writeptr < rb.bufsz
      → rb.bufsz ≡ length rb.buffer
      → copy_log rb.bufsz rb.writeptr rb
        ≡ (drop rb.writeptr rb.buffer ++ take rb.writeptr rb.buffer, rb.writeptr)
  copy_round h e =
      let w = rb.writeptr in
      let k = rb.bufsz - w - 1 in
      let parts : rb.bufsz ≡ suc k + w = omega (arith, h) in
      ap (λ n. copy_log n w rb) parts
      ∙ copy_log_add (suc k) w w
      ∙ rw (copy_to_end k w (omega (arith, h)) e, copy_within w 0 (omega (arith, h)) e)
          (ap (λ n. (drop w rb.buffer ++ take w rb.buffer, n)) (omega arith))

  log_start_cases :
      ((rb.has_wrapped ≡ true)
        × (log_start rb ≡ record { size = rb.bufsz; pos = 0; ptr = rb.writeptr })
        × (log_text ≡ drop rb.writeptr rb.buffer ++ take rb.writeptr rb.buffer))
      ⊎ ((rb.has_wrapped ≡ false)
          × (log_start rb ≡ record { size = rb.writeptr; pos = 0; ptr = 0 })
          × (log_text ≡ take rb.writeptr rb.buffer))
  unfolding log_start log_text
  log_start_cases = ground arith

  at_zero : at 0 ≡ log_start rb
  unfolding log_start copy_log
  at_zero = ground arith

  -- All that is read from the start is the text of the log.
  read_all : rb.writeptr < rb.bufsz → rb.bufsz ≡ length rb.buffer → read 0 size ≡ log_text
  unfolding copy_log
  read_all h e =
      let bytes = λ (s : LogState). (copy_log s.size s.ptr rb).0 in
      let first = λ (r : Bytes × ℕ). r.0 in
      elim log_start_cases [
        | inl (w, s, t) ↦ ap bytes s ∙ ap first (copy_round h e) ∙ sym t
        | inr (w, s, t) ↦
            ap bytes s ∙ ap first (copy_within rb.writeptr 0 (omega (arith, h)) e) ∙ sym t
      ]

module _ (rb : LogBuffer) (call : Call) where
  abbrev handler : Option LogState → ℕ → Reply LogState
  handler = cgi_download_log rb call

  open_call :
      (s : LogState) (live : ℕ) → call.is_open ≡ true → handler (some s) live ≡ send_log rb s live
  unfolding cgi_download_log
  open_call s live o = rw o

  ptr_next :
      (k : ℕ) → let n = chunk_len (size rb) k in ptr_at rb (k + n) ≡ (copy_log n (ptr_at rb k) rb).1
  ptr_next k =
      ap (λ (r : Bytes × ℕ). r.1) (copy_log_add rb k (chunk_len (size rb) k) (log_start rb).ptr)

  log-Chunked : call.is_open ≡ true → Chunked handler (size rb) (at rb) (read rb)
  log-Chunked o = record {
    reads_on = reads_on rb;
    last =
        λ k live e. open_call (at rb k) live o ∙ (unfold send_log in ground (arith, e, ptr_next k));
    next =
        λ k live e. open_call (at rb k) live o ∙ (unfold send_log in ground (arith, e, ptr_next k));
  }

  first_call :
      (live : ℕ)
      → call.is_open ≡ true
      → call.has_memory ≡ true
      → rb.magic_ok ≡ true
      → let first = send_log rb (log_start rb) (live + 1) in
        handler none live ≡ record first { out = log_headers (log_start rb).size ++ first.out }
  unfolding cgi_download_log start_log
  first_call live o m g = simp (o, m, g)

  -- Where the log is valid the response is the headers with its size, then its text from the
  -- oldest byte on, whether or not the ring buffer has wrapped; the handler is done and leaves no
  -- state. It is assumed that the connection stays open, that there is memory, that the write
  -- pointer lies within the buffer, and that nothing is logged meanwhile.
  pub log_whole :
      (live : ℕ)
      → call.is_open ≡ true
      → call.has_memory ≡ true
      → rb.magic_ok ≡ true
      → rb.writeptr < rb.bufsz
      → rb.bufsz ≡ length rb.buffer
      → let (out, end, live') = serve handler (size rb + 1) none live in
        (rest : List Output) × (out ≡ log_headers (size rb) ++ rest)
        × (sent rest ≡ log_text rb)
        × (end ≡ done)
        × (live' ≡ live)
  log_whole live o m g h e =
      let (rest, out, bytes, end, live') =
        serve_whole (log-Chunked o) 0 (size rb) live (log_headers (size rb))
          (send_log rb (log_start rb) (live + 1)) (omega arith)
          (open_call (at rb 0) (live + 1) o ∙ ap (λ s. send_log rb s (live + 1)) (at_zero rb))
          (first_call live o m g) in
      (rest, out, bytes ∙ read_all rb h e, end, live')
