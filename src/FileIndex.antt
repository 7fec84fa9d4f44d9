-- ===== src/FileIndex.antt =====
-- json_esc, cgiFileIdx and cgiDelete of main/cgiappfs.c, and delete_temp_files of main/main.c.
pub mod Escape
pub mod Laws
pub mod Cleanup
pub mod Listing
pub mod Rows
use bkc_chooser.Base.{
  ℕ, zero, suc, ◌+◌, ◌-◌, Bool, Option, none, some, List, [], ◌∷◌, ◌++◌, Bytes, codes, ℤ, pos, ltb,
  leb, ◌==◌, if◌then◌else◌, length, ◌+ℤ◌, ◌-ℤ◌, eqb_ℤ,
}
use bkc_chooser.Platform.{
  Platform, Request, Reply, Output, done, more, start_response, header, end_headers, send, response,
  arg_or_empty,
}
use bkc_chooser.Libc.{atoi, print_int, print_nat, print_hex, fnmatch}

-- The letter behind the backslash, for the bytes that are escaped: `esc`.
abbrev pub escape : ℕ → Option ℕ
escape c =
    if c == 92
    then some 92
    else if c == 34
    then some b'"'
    else if c == 9
    then some b't'
    else if c == 13
    then some b'r'
    else if c == 10
    then some b'n'
    else if c == 12
    then some b'f'
    else if c == 8
    then some b'b'
    else none

abbrev pub escaped : ℕ → Option ℕ → Bytes
escaped c none = c ∷ []
escaped c (some e) = 92 ∷ e ∷ []

-- The loop of json_esc from the output index `j` on, without the final NUL. (`bufsz - 3` stops at
-- 0 here; where the source has a negative number, `j` is not below it either.)
unfoldable pub json_esc_from : ℕ → Bytes → ℕ → Bytes
json_esc_from j [] bufsz = []
json_esc_from j (c ∷ s) bufsz =
    let out = escaped c (escape c) in
    let rest = json_esc_from (j + length out) s bufsz in
    if leb (bufsz - 3) j then [] else out ++ rest

unfoldable pub json_esc : Bytes → ℕ → Bytes
unfolding json_esc_from
json_esc s bufsz = json_esc_from 0 s bufsz

-- The line for one file.
unfoldable pub index_row : Bool → ℤ → Bytes → ℕ → Bytes
index_row is_first fd name_esc size =
    (if is_first then [] else codes ",")
    ++ (codes "{\"index\": "
        ++ (print_int fd
            ++ (codes ", \"name\": \""
                ++ (name_esc
                    ++ (codes "\", \"size\": "
                        ++ (print_nat size
                            ++ (codes ", \"addr\": \"0x" ++ (print_hex 0 ++ codes "\" }\n"))))))))

abbrev pub temp_pattern : Bytes
temp_pattern = codes "__*.tmp"

module _ (p : Platform) where
  open p use {
    Fs, invalid_fd, next_entry, entry_info, free_mem, delete_file, Nvs, nvs_open, nvs_erase_all,
    nvs_commit, nvs_close,
  }

  -- What cgiFileIdx sends for the entry behind `fd`. `idx` is the int in `cgiData`.
  unfoldable pub index_entry : ℤ → ℤ → Fs → Reply ℤ
  index_entry idx fd fs =
      let (name, size) = entry_info fd fs in
      if eqb_ℤ fd invalid_fd
      then record {
        returns = done;
        cgi_data = some idx;
        live = 0;
        out =
            send (codes "],\n\"free\": ")
            ∷ send (print_nat (free_mem fs))
            ∷ send (codes "}\n")
            ∷ [];
      }
      else record {
        returns = more;
        cgi_data = some (fd +ℤ pos 0x100);
        live = 0;
        out = send (index_row (eqb_ℤ idx (pos 0)) fd (json_esc name 128) size) ∷ [];
      }

  -- The call that finds 0 in `cgiData`.
  unfoldable pub start_index : ℕ → Fs → Reply ℤ
  start_index live fs =
      let first = index_entry (pos 0) (next_entry invalid_fd fs) fs in
      record first {
        live = live;
        out =
            response 200 (codes "Content-Type") (codes "text/json")
            ++ (send (codes "{\n\"files\": [\n") ∷ first.out);
      }

  -- cgiFileIdx. The null pointer in `cgiData` is the index 0; nothing is allocated.
  unfoldable pub cgi_file_idx : Option ℤ → ℕ → Fs → Reply ℤ
  cgi_file_idx none live fs = start_index live fs
  cgi_file_idx (some idx) live fs =
      let next = index_entry idx (next_entry (idx -ℤ pos 0x100) fs) fs in
      if eqb_ℤ idx (pos 0) then start_index live fs else record next { live = live }

  -- The store of the file's settings is erased, where it can be opened.
  unfoldable pub erase_settings : Bytes → Nvs → Nvs
  erase_settings name nvs =
      let (handle, nvs') = nvs_open name nvs in
      elim handle [ none ↦ nvs' | some h ↦ nvs_close h (nvs_commit h (nvs_erase_all h nvs')) ]

  -- cgiDelete. The argument is not checked to be a file's.
  unfoldable pub cgi_delete : Request → Fs → Nvs → List Output × Fs × Nvs
  cgi_delete req fs nvs =
      let arg = arg_or_empty (req.find_arg (codes "idx") 16) in
      let (name, size) = entry_info (atoi arg) fs in
      if ltb 0 (length arg)
      then (
        start_response 302
            ∷ header (codes "Content-Type") (codes "text/html")
            ∷ header (codes "Location") (codes "index.html")
            ∷ end_headers
            ∷ send (codes "Killed")
            ∷ [],
        delete_file name fs,
        erase_settings name nvs,
      )
      else (
        response 200 (codes "Content-Type") (codes "text/html")
            ++ send (codes "Invalid idx var\n") ∷ [],
        fs,
        nvs,
      )

  -- The loop of delete_temp_files behind the entry `h`, on fuel; `none` means that it ran out.
  unfoldable pub delete_temp_from : ℕ → ℤ → Fs → Option Fs
  delete_temp_from zero h fs = none
  delete_temp_from (suc fuel) h fs =
      let next = next_entry h fs in
      let name = (entry_info next fs).0 in
      let rest =
        delete_temp_from fuel next
          (if fnmatch temp_pattern name then delete_file name fs else fs) in
      if eqb_ℤ next invalid_fd then some fs else rest

  unfoldable pub delete_temp_files : ℕ → Fs → Option Fs
  delete_temp_files fuel fs = delete_temp_from fuel invalid_fd fs
