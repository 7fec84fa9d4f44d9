-- ===== src/Download/Chunks.antt =====
-- Handlers that send a resource in chunks of at most `download_chunk_size` bytes, one for each
-- call: what such a handler sends in all, and when it is done.
use bkc_chooser.Base.{
  ℕ, zero, suc, ◌+◌, ◌-◌, ◌≤◌, ◌<◌, ◌≡◌, refl, ap, ◌∙◌, Option, none, some, List, [], ◌∷◌, ◌++◌,
  Bytes, arith, inl, inr, ◌⊎◌,
}
use mathlib.Core.List.{append-nil}
use bkc_chooser.Platform.{Reply, Output, done, more, send}
use bkc_chooser.Serve.{sent, serve, serve_last, serve_next, serve-prefix}
use bkc_chooser.Download.{chunk_len}

pub chunk_cases :
    (size at : ℕ)
    → at ≤ size
    → (at + chunk_len size at ≡ size) ⊎ ((at + chunk_len size at < size) × (0 < chunk_len size at))
unfolding chunk_len
chunk_cases size at h = ground arith

-- The handler `h` in the state `at k` sends the bytes `read k n` of the next chunk, frees its
-- state behind the last one and asks for another call before.
pub record Chunked {ℓ} {S : Type ℓ} (h : Option S → ℕ → Reply S) (size : ℕ) (at : ℕ → S)
    (read : ℕ → ℕ → Bytes) : Type ℓ where
  pub reads_on : (k m n : ℕ) → read k m ++ read (k + m) n ≡ read k (m + n)
  pub last :
      (k live : ℕ)
      → k + chunk_len size k ≡ size
      → h (some (at k)) live ≡ record {
        returns = done;
        cgi_data = some (at (k + chunk_len size k));
        live = live - 1;
        out = send (read k (chunk_len size k)) ∷ [];
      }
  pub next :
      (k live : ℕ)
      → k + chunk_len size k < size
      → h (some (at k)) live ≡ record {
        returns = more;
        cgi_data = some (at (k + chunk_len size k));
        live = live;
        out = send (read k (chunk_len size k)) ∷ [];
      }

module _ {ℓ} {S : Type ℓ} {h : Option S → ℕ → Reply S} {size : ℕ} {at : ℕ → S}
    {read : ℕ → ℕ → Bytes} (c : Chunked h size at read) where
  serve_rest :
      (fuel k live : ℕ)
      → k ≤ size
      → size - k < fuel
      → let (out, end, live') = serve h fuel (some (at k)) live in
        (sent out ≡ read k (size - k)) × (end ≡ done) × (live' ≡ live - 1)
  serve_rest zero k live le f = absurd (omega arith)
  serve_rest (suc fuel) k live le f =
      let n = chunk_len size k in
      elim (chunk_cases size k le) [
        | inl e ↦
            let all : n ≡ size - k = omega (arith, e) in
            rw (serve_last h fuel (some (at k)) live _ (c.last k live e) refl)
              (append-nil _ ∙ ap (λ m. read k m) all, refl, refl)
        | inr (lt, some_bytes) ↦
            let ih =
              serve_rest fuel (k + n) live (omega (arith, lt)) (omega (arith, lt, some_bytes)) in
            let all : n + (size - (k + n)) ≡ size - k = omega (arith, lt) in
            rw (serve_next h fuel (some (at k)) live _ (c.next k live lt) refl) (
              ap (λ b. read k n ++ b) ih.0
                  ∙ c.reads_on k n (size - (k + n))
                  ∙ ap (λ m. read k m) all,
              ih.1,
              ih.2,
            )
      ]

  -- A first call that puts headers in front of the chunk at `k` starts a response of these headers
  -- and all bytes from `k` on.
  pub serve_whole :
      (k total live : ℕ) (pre : List Output) (r : Reply S)
      → k + total ≡ size
      → h (some (at k)) (live + 1) ≡ r
      → h none live ≡ record r { out = pre ++ r.out }
      → let (out, end, live') = serve h (total + 1) none live in
        (rest : List Output) × (out ≡ pre ++ rest)
        × (sent rest ≡ read k total)
        × (end ≡ done)
        × (live' ≡ live)
  serve_whole k total live pre r le e first =
      let one_more : total + 1 ≡ suc total = omega arith in
      let all : size - k ≡ total = omega (arith, le) in
      let rest = serve_rest (suc total) k (live + 1) (omega (arith, le)) (omega (arith, le)) in
      rw one_more (
        rw (serve-prefix h total none (some (at k)) live (live + 1) r pre first e) (
          (serve h (suc total) (some (at k)) (live + 1)).0,
          refl,
          rest.0 ∙ ap (λ m. read k m) all,
          rest.1,
          rest.2 ∙ omega arith,
        ))
