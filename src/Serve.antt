-- ===== src/Serve.antt =====
-- How libesphttpd drives a handler that sends its response in parts: it calls the handler again
-- and again, with what the last call left in `cgiData`, until the handler is done.
use bkc_chooser.Base.{
  ℕ, zero, suc, ◌≡◌, refl, ap, ◌∙◌, Option, none, some, bytes_eq, if◌then◌else◌, List, [], ◌∷◌,
  ◌++◌, Bytes,
}
use mathlib.Core.List.{append_assoc}
use bkc_chooser.Platform.{
  Reply, Output, CgiReturn, done, more, start_response, header, end_headers, send, send_len,
}

-- The bytes of a response's body.
abbrev pub sent : List Output → Bytes
sent [] = []
sent (send b ∷ out) = b ++ sent out
sent (send_len b n ∷ out) = sent out
sent (start_response c ∷ out) = sent out
sent (header n v ∷ out) = sent out
sent (end_headers ∷ out) = sent out

-- The value of the first header of a response with a name.
abbrev pub header_value : Bytes → List Output → Option Bytes
header_value name [] = none
header_value name (header n v ∷ out) =
    let rest = header_value name out in if bytes_eq n name then some v else rest
header_value name (send b ∷ out) = header_value name out
header_value name (send_len b n ∷ out) = header_value name out
header_value name (start_response c ∷ out) = header_value name out
header_value name (end_headers ∷ out) = header_value name out

-- The status of a response: what it begins with.
abbrev pub status : List Output → Option ℕ
status (start_response c ∷ out) = some c
status _ = none

pub sent-append : (a b : List Output) → sent (a ++ b) ≡ sent a ++ sent b
sent-append [] b = refl
sent-append (send x ∷ a) b = ap (λ t. x ++ t) (sent-append a b) ∙ (simp append_assoc)
sent-append (send_len x n ∷ a) b = sent-append a b
sent-append (start_response c ∷ a) b = sent-append a b
sent-append (header n v ∷ a) b = sent-append a b
sent-append (end_headers ∷ a) b = sent-append a b

module _ {ℓ} {S : Type ℓ} where
  abbrev chain : CgiReturn → Reply S → List Output × CgiReturn × ℕ → List Output × CgiReturn × ℕ
  chain done r rest = (r.out, done, r.live)
  chain more r rest = (r.out ++ rest.0, rest.1, rest.2)

  -- The response, whether the handler got done within so many calls, and the live state structs.
  unfoldable pub serve : (Option S → ℕ → Reply S) → ℕ → Option S → ℕ → List Output × CgiReturn × ℕ
  serve h zero o live = ([], more, live)
  serve h (suc calls) o live =
      let r = h o live in let rest = serve h calls r.cgi_data r.live in chain r.returns r rest

  pub serve_last :
      (h : Option S → ℕ → Reply S) (calls : ℕ) (o : Option S) (live : ℕ) (r : Reply S)
      → h o live ≡ r
      → r.returns ≡ done
      → serve h (suc calls) o live ≡ (r.out, done, r.live)
  unfolding serve
  serve_last h calls o live r e d = rw (e, d)

  pub serve_next :
      (h : Option S → ℕ → Reply S) (calls : ℕ) (o : Option S) (live : ℕ) (r : Reply S)
      → h o live ≡ r
      → r.returns ≡ more
      → let rest = serve h calls r.cgi_data r.live in
        serve h (suc calls) o live ≡ (r.out ++ rest.0, rest.1, rest.2)
  unfolding serve
  serve_next h calls o live r e d = rw (e, d)

  chain-prefix :
      (end : CgiReturn) (r : Reply S) (pre : List Output) (rest : List Output × CgiReturn × ℕ)
      → let t = chain end r rest in
        chain end (record r { out = pre ++ r.out }) rest ≡ (pre ++ t.0, t.1, t.2)
  chain-prefix done r pre rest = refl
  chain-prefix more r pre rest = simp append_assoc

  -- A first call that answers like a later one, behind some headers.
  pub serve-prefix :
      (h : Option S → ℕ → Reply S) (calls : ℕ) (o o' : Option S) (live live' : ℕ) (r : Reply S)
      (pre : List Output)
      → h o live ≡ record r { out = pre ++ r.out }
      → h o' live' ≡ r
      → let t = serve h (suc calls) o' live' in serve h (suc calls) o live ≡ (pre ++ t.0, t.1, t.2)
  unfolding serve
  serve-prefix h calls o o' live live' r pre e e' =
      rw (e, e') (chain-prefix r.returns r pre (serve h calls r.cgi_data r.live))
