-- ===== src/FileIndex/Listing.antt =====
-- The calls of cgiFileIdx for one request, against one pass over the files that are listed.
use bkc_chooser.Base.{
  ℕ, suc, ◌≡◌, refl, ap, ◌∙◌, Bool, true, false, Option, none, some, List, [], ◌∷◌, ◌++◌, Bytes,
  codes, ℤ, pos, ◌+ℤ◌, ◌-ℤ◌, eqb_ℤ, length, arith,
}
use bkc_chooser.Platform.{Platform, Reply, Output, CgiReturn, done, more, send, response}
use bkc_chooser.Libc.{print_nat, print_int, print_hex}
use bkc_chooser.Serve.{serve, serve_last, serve_next}
use bkc_chooser.FileIndex.{json_esc, index_row, index_entry, start_index, cgi_file_idx}
use bkc_chooser.FileIndex.Laws.{ListingLaws, eqb_ℤ_self}

-- Handles of files are not negative.
abbrev pub AreHandles : List ℤ → Type 0
AreHandles [] = Unit {0}
AreHandles (x ∷ xs) = (n : ℕ) × (x ≡ pos n) × AreHandles xs

next_index : (h : ℤ) (n : ℕ) → h ≡ pos n → (h +ℤ pos 0x100) -ℤ pos 0x100 ≡ h
next_index h n e = rw e (ground arith)

not_first : (h : ℤ) (n : ℕ) → h ≡ pos n → eqb_ℤ (h +ℤ pos 0x100) (pos 0) ≡ false
not_first h n e = rw e (ground arith)

-- What comes before the files.
abbrev pub head : List Output
head =
    response 200 (codes "Content-Type") (codes "text/json")
    ++ (send (codes "{\n\"files\": [\n") ∷ [])

module _ (p : Platform) where
  open p use {Fs, entry_info, free_mem}

  -- The line for the file behind `x`, without the comma in front of it.
  abbrev pub line : ℤ → Fs → Bytes
  line x fs =
      codes "{\"index\": "
      ++ (print_int x
          ++ (codes ", \"name\": \""
              ++ (json_esc (entry_info x fs).0 128
                  ++ (codes "\", \"size\": "
                      ++ (print_nat (entry_info x fs).1 ++ codes ", \"addr\": \"0x0\" }\n")))))

  abbrev pub row : Bool → ℤ → Fs → Output
  row true x fs = send (line x fs)
  row false x fs = send (codes "," ++ line x fs)

  -- What cgiFileIdx sends for a file is its line, behind a comma but for the first file.
  row_lem :
      (is_first : Bool) (x : ℤ) (fs : Fs)
      → send (index_row is_first x (json_esc (entry_info x fs).0 128) (entry_info x fs).1)
        ≡ row is_first x fs
  unfolding index_row print_hex
  row_lem true x fs = refl
  row_lem false x fs = refl

  abbrev pub rows : Bool → List ℤ → Fs → List Output
  rows is_first [] fs = []
  rows is_first (x ∷ xs) fs = row is_first x fs ∷ rows false xs fs

  abbrev pub tail : Fs → List Output
  tail fs = send (codes "],\n\"free\": ") ∷ send (print_nat (free_mem fs)) ∷ send (codes "}\n") ∷ []

module _ (p : Platform) (laws : ListingLaws p) where
  open p use {Fs, invalid_fd, next_entry}
  open laws use {rest, rest_nil, rest_cons}

  -- The call that ends the response, and one that sends the line of the entry `x`.
  abbrev last_reply : ℤ → ℕ → Fs → Reply ℤ
  last_reply idx live fs = record {
    returns = done;
    cgi_data = some idx;
    live = live;
    out = tail p fs;
  }

  abbrev row_reply : Bool → ℤ → ℕ → Fs → Reply ℤ
  row_reply is_first x live fs = record {
    returns = more;
    cgi_data = some (x +ℤ pos 0x100);
    live = live;
    out = row p is_first x fs ∷ [];
  }

  entry_none :
      (idx h : ℤ) (fs : Fs)
      → rest h fs ≡ []
      → index_entry p idx (next_entry h fs) fs ≡ last_reply idx 0 fs
  unfolding index_entry
  entry_none idx h fs e = rw (rest_nil h fs e, eqb_ℤ_self invalid_fd) refl

  entry_some :
      (idx h x : ℤ) (xs : List ℤ) (fs : Fs)
      → rest h fs ≡ x ∷ xs
      → index_entry p idx (next_entry h fs) fs ≡ row_reply (eqb_ℤ idx (pos 0)) x 0 fs
  unfolding index_entry
  entry_some idx h x xs fs e =
      let (n, r, i) = rest_cons h x xs fs e in
      rw (n, i)
        (ap
          (λ (o : Output). record {
            returns = more;
            cgi_data = some (x +ℤ pos 0x100);
            live = 0;
            out = o ∷ [];
          })
          (row_lem p (eqb_ℤ idx (pos 0)) x fs))

  abbrev handler : Fs → Option ℤ → ℕ → Reply ℤ
  handler fs o live = cgi_file_idx p o live fs

  -- A call behind the entry `h`.
  call_behind :
      (h : ℤ) (n live : ℕ) (fs : Fs)
      → h ≡ pos n
      → handler fs (some (h +ℤ pos 0x100)) live
        ≡ record (index_entry p (h +ℤ pos 0x100) (next_entry h fs) fs) { live = live }
  unfolding cgi_file_idx
  call_behind h n live fs e = rw (not_first h n e) (
      ap (λ (i : ℤ). record (index_entry p (h +ℤ pos 0x100) (next_entry i fs) fs) { live = live })
        (next_index h n e))

  abbrev Served : Type 0
  Served = List Output × CgiReturn × ℕ

  after_row :
      (is_first : Bool) (x : ℤ) (out : List Output) (live : ℕ) (fs : Fs) {t : Served}
      → t ≡ (out, done, live)
      → ◌≡◌ {A = Served}
          ((row p is_first x fs ∷ []) ++ t.0, t.1, t.2)
          (row p is_first x fs ∷ out, done, live)
  after_row is_first x out live fs e = ap (λ (u : Served). (row p is_first x fs ∷ u.0, u.1, u.2)) e

  -- The calls behind the entry `h`.
  serve_behind :
      (xs : List ℤ) (h : ℤ) (n live : ℕ) (fs : Fs)
      → h ≡ pos n
      → rest h fs ≡ xs
      → AreHandles xs
      → serve (handler fs) (suc (length xs)) (some (h +ℤ pos 0x100)) live
        ≡ (rows p false xs fs ++ tail p fs, done, live)
  serve_behind [] h n live fs is_pos e hs =
      let idx = h +ℤ pos 0x100 in
      serve_last (handler fs) 0 (some idx) live (last_reply idx live fs)
        (call_behind h n live fs is_pos
          ∙ ap (λ (r : Reply ℤ). record r { live = live }) (entry_none idx h fs e))
        refl
  serve_behind (x ∷ xs) h n live fs is_pos e (k, next_pos, hs) =
      let idx = h +ℤ pos 0x100 in
      let (_, behind, _) = rest_cons h x xs fs e in
      serve_next (handler fs) (suc (length xs)) (some idx) live (row_reply false x live fs)
        (call_behind h n live fs is_pos
          ∙ ap (λ (r : Reply ℤ). record r { live = live }) (entry_some idx h x xs fs e)
          ∙ ap (λ (b : Bool). row_reply b x live fs) (not_first h n is_pos))
        refl
      ∙ after_row false x (rows p false xs fs ++ tail p fs) live fs
          (serve_behind xs x k live fs next_pos behind hs)

  abbrev with_head : ℕ → Reply ℤ → Reply ℤ
  with_head live r = record r { live = live; out = head ++ r.out }

  call_first :
      (live : ℕ) (fs : Fs)
      → handler fs none live ≡ with_head live (index_entry p (pos 0) (next_entry invalid_fd fs) fs)
  unfolding cgi_file_idx start_index
  call_first live fs = refl

  serve_first :
      (xs : List ℤ) (live : ℕ) (fs : Fs)
      → rest invalid_fd fs ≡ xs
      → AreHandles xs
      → serve (handler fs) (suc (length xs)) none live
        ≡ (head ++ (rows p true xs fs ++ tail p fs), done, live)
  serve_first [] live fs e hs =
      serve_last (handler fs) 0 none live (with_head live (last_reply (pos 0) 0 fs))
        (call_first live fs ∙ ap (with_head live) (entry_none (pos 0) invalid_fd fs e)) refl
  serve_first (x ∷ xs) live fs e (k, is_pos, hs) =
      let (_, behind, _) = rest_cons invalid_fd x xs fs e in
      serve_next (handler fs) (suc (length xs)) none live (with_head live (row_reply true x 0 fs))
        (call_first live fs ∙ ap (with_head live) (entry_some (pos 0) invalid_fd x xs fs e)) refl
      ∙ ap (λ (u : Served). (head ++ u.0, u.1, u.2))
          (after_row true x (rows p false xs fs ++ tail p fs) live fs
            (serve_behind xs x k live fs is_pos behind hs))

  -- The whole response lists the files in the order of appfs, each once and with a comma before
  -- all but the first, and ends with the free memory; it takes one call for each file and one for
  -- the end, and allocates nothing. It is assumed that appfs lists files as ListingLaws says and
  -- that their handles are not negative.
  pub cgi_file_idx-rows :
      (live : ℕ) (fs : Fs)
      → AreHandles (rest invalid_fd fs)
      → serve (handler fs) (suc (length (rest invalid_fd fs))) none live
        ≡ (head ++ (rows p true (rest invalid_fd fs) fs ++ tail p fs), done, live)
  cgi_file_idx-rows live fs hs = serve_first (rest invalid_fd fs) live fs refl hs
