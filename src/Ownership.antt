-- ===== src/Ownership.antt =====
-- The state structs that cgiDownloadFile of main/cgiappfs.c and cgiDownloadFlash and cgiDownloadLog
-- of main/cgidev.c allocate.
use bkc_chooser.Base.{
  ℕ, ◌+◌, ◌-◌, Bool, true, false, not, ◌&&◌, ◌||◌, [], if◌then◌else◌, Option, none, some, ◌≡◌, refl,
  arith, eqb_ℤ, ℤ, pos, Bytes, inl, inr, ◌⊎◌,
}
use bkc_chooser.Platform.{Platform, Request, Call, Reply, more, done}
use bkc_chooser.Download.{DownloadState, find_file, start_download, send_chunk, cgi_download_file}
use bkc_chooser.DevDownload.{
  FlashState, LogState, LogBuffer, flash_args, start_flash, send_flash, cgi_download_flash,
  start_log, log_start, send_log, cgi_download_log,
}

abbrev pub has_state {ℓ} : {S : Type ℓ} → Option S → ℕ
has_state none = 0
has_state (some s) = 1

-- Whether a call is the first one, with a connection and memory.
abbrev pub begins {ℓ} : {S : Type ℓ} → Option S → Call → Bool
begins none call = call.is_open && call.has_memory
begins (some s) call = false

abbrev pub is_none {ℓ} : {A : Type ℓ} → Option A → Bool
is_none none = true
is_none (some a) = false

-- Of `n` other allocations none is freed. The call's own one stays where it asks for more calls, or
-- `lost` holds, and is freed otherwise.
abbrev pub Owns {ℓ} : {S : Type ℓ} → Bool → ℕ → Reply S → Type 0
Owns lost n r =
    ((r.returns ≡ more) × (r.live ≡ n + 1) × (is_none r.cgi_data ≡ false) × (lost ≡ false))
    ⊎ ((r.returns ≡ done) × (r.live ≡ n) × (lost ≡ false))
    ⊎ ((r.returns ≡ done) × (r.live ≡ n + 1) × (lost ≡ true))

-- What a call answers that cannot begin, and one behind the end of the connection.
abbrev idle : {S : Type 0} → ℕ → Reply S
idle n = record { returns = done; cgi_data = none; live = n; out = [] }

abbrev aborted : {S : Type 0} → S → ℕ → Reply S
aborted s n = record { returns = done; cgi_data = some s; live = n + 1 - 1; out = [] }

zero_more : (n : ℕ) → n + 0 ≡ n
zero_more n = omega arith

one_less : (n : ℕ) → n + 1 - 1 ≡ n
one_less n = omega arith

-- A first call that goes on where `b` holds, or where it does not, and loses its state otherwise.
module _ {S : Type 0} (n : ℕ) (x y : Reply S) (hx : Owns false n x) (hy : Owns true n y) where
  on_or_lost : (b : Bool) → Owns (not b) n (if b then x else y)
  on_or_lost true = hx
  on_or_lost false = hy

  lost_or_on : (b : Bool) → Owns b n (if b then y else x)
  lost_or_on true = hy
  lost_or_on false = hx

-- A first call, with what follows the allocation, and a later one.
opened :
    {S : Type 0} (call : Call) (lost : Bool) (n : ℕ) (r : Reply S)
    → Owns lost n r
    → Owns
        (begins {S = S} none call && lost)
        n
        (if not call.is_open || not call.has_memory then idle n else r)
opened call lost n r h = go call.is_open call.has_memory
  where
    go : (o m : Bool) → Owns (o && m && lost) n (if not o || not m then idle n else r)
    go true true = h
    go true false = inr (inl (refl, refl, refl))
    go false m = inr (inl (refl, refl, refl))

continued :
    {S : Type 0} (call : Call) (s : S) (n : ℕ) (r : Reply S)
    → Owns false n r
    → Owns false n (if not call.is_open then aborted s n else r)
continued call s n r h = go call.is_open
  where
    go : (o : Bool) → Owns false n (if not o then aborted s n else r)
    go true = h
    go false = inr (inl (refl, one_less n, refl))

module _ (p : Platform) (req : Request) (flash : ℕ → ℕ → Bytes) (rb : LogBuffer) where
  open p use {Fs}

  send_chunk-Owns : (s : DownloadState) (n : ℕ) (fs : Fs) → Owns false n (send_chunk p s (n + 1) fs)
  unfolding send_chunk
  send_chunk-Owns s n fs = ground arith

  send_flash-Owns : (s : FlashState) (n : ℕ) → Owns false n (send_flash flash req s (n + 1))
  unfolding send_flash
  send_flash-Owns s n = ground arith

  send_log-Owns : (s : LogState) (n : ℕ) → Owns false n (send_log rb s (n + 1))
  unfolding send_log
  send_log-Owns s n = ground arith

  -- The first calls, behind the allocation.
  start_download-Owns :
      (f : Option ℤ) (n : ℕ) (fs : Fs) → Owns (is_none f) n (start_download p f (n + 1) fs)
  unfolding start_download
  start_download-Owns none n fs = inr (inr (refl, refl, refl))
  start_download-Owns (some idx) n fs =
      send_chunk-Owns (record { fd = idx; size = (p.entry_info idx fs).1; pos = 0 }) n fs

  start_flash-Owns :
      (s : FlashState) (n : ℕ) → Owns (eqb_ℤ s.size (pos 0)) n (start_flash flash req s (n + 1))
  unfolding start_flash
  start_flash-Owns s n =
      lost_or_on n _ _ (send_flash-Owns s n) (inr (inr (refl, refl, refl))) (eqb_ℤ s.size (pos 0))

  start_log-Owns : (n : ℕ) → Owns (not rb.magic_ok) n (start_log rb (n + 1))
  unfolding start_log
  start_log-Owns n =
      on_or_lost n _ _ (send_log-Owns (log_start rb) n) (inr (inr (refl, refl, refl))) rb.magic_ok

  cgi_download_file-Owns :
      (call : Call) (o : Option DownloadState) (n : ℕ) (fs : Fs)
      → Owns
          (begins o call && is_none (find_file p req fs))
          n
          (cgi_download_file p req call o (n + has_state o) fs)
  unfolding cgi_download_file
  cgi_download_file-Owns call none n fs = rw (zero_more n) (
      opened call (is_none (find_file p req fs)) n
        (start_download p (find_file p req fs) (n + 1) fs)
        (start_download-Owns (find_file p req fs) n fs))
  cgi_download_file-Owns call (some s) n fs =
      continued call s n (send_chunk p s (n + 1) fs) (send_chunk-Owns s n fs)

  cgi_download_flash-Owns :
      (call : Call) (o : Option FlashState) (n : ℕ)
      → Owns
          (begins o call && eqb_ℤ (flash_args req).size (pos 0))
          n
          (cgi_download_flash flash req call o (n + has_state o))
  unfolding cgi_download_flash
  cgi_download_flash-Owns call none n = rw (zero_more n) (
      opened call (eqb_ℤ (flash_args req).size (pos 0)) n
        (start_flash flash req (flash_args req) (n + 1)) (start_flash-Owns (flash_args req) n))
  cgi_download_flash-Owns call (some s) n =
      continued call s n (send_flash flash req s (n + 1)) (send_flash-Owns s n)

  cgi_download_log-Owns :
      (call : Call) (o : Option LogState) (n : ℕ)
      → Owns (begins o call && not rb.magic_ok) n (cgi_download_log rb call o (n + has_state o))
  unfolding cgi_download_log
  cgi_download_log-Owns call none n =
      rw (zero_more n) (opened call (not rb.magic_ok) n (start_log rb (n + 1)) (start_log-Owns n))
  cgi_download_log-Owns call (some s) n =
      continued call s n (send_log rb s (n + 1)) (send_log-Owns s n)

  -- A call of a download handler that asks for more calls keeps its own state; one that is done has
  -- freed it, or, where a call was refused its memory or found the connection closed, allocated
  -- none. Only a first call leaves it behind when it is done: exactly where it finds no file, a
  -- size of zero or a bad magic. No call frees a state of another request.
  pub downloads_own_state :
      (call : Call) (file : Option DownloadState) (range : Option FlashState)
      (log : Option LogState) (n : ℕ) (fs : Fs)
      → Owns
          (begins file call && is_none (find_file p req fs))
          n
          (cgi_download_file p req call file (n + has_state file) fs)
        × Owns
            (begins range call && eqb_ℤ (flash_args req).size (pos 0))
            n
            (cgi_download_flash flash req call range (n + has_state range))
        × Owns
            (begins log call && not rb.magic_ok)
            n
            (cgi_download_log rb call log (n + has_state log))
  downloads_own_state call file range log n fs = (
    cgi_download_file-Owns call file n fs,
    cgi_download_flash-Owns call range n,
    cgi_download_log-Owns call log n,
  )
