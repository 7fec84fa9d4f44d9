-- ===== src/Upload/Pages.antt =====
-- What appfs holds behind a page that cgiUploadFile writes.
use bkc_chooser.Base.{
  ℕ, ◌+◌, ◌%◌, ◌≤◌, ◌<◌, ◌≡◌, refl, ap, ◌∙◌, ◌⊎◌, ◌++◌, Bytes, arith, inl, inr, length, take, drop,
  length-append, length-take, length-drop,
}
use bkc_chooser.Platform.{Platform, Request}
use bkc_chooser.Upload.{
  Phase, done, UploadState, len_left, page_len, upload_temp_name, spi_flash_erase_size, top_up,
  flash_page, finish_page, erase_sector, write_page, finish_file,
}
use bkc_chooser.Upload.Buffer.{IsValid, take-memcpy}
use bkc_chooser.Upload.Appfs.{AppfsLaws}

module _ (p : Platform) (req : Request) (laws : AppfsLaws p) where
  open p use {Fs}
  open laws use {stored, erased, capacity, named, erase_lem, write_lem, create_lem, rename_lem}

  -- The erased space begins at the page, or ends behind it.
  abbrev pub Cleared : UploadState → Fs → Type 0
  Cleared s fs =
      ((s.address % spi_flash_erase_size ≡ 0) × (erased s.fd fs ≡ s.address))
      ⊎ ((s.address % spi_flash_erase_size ≡ page_len) × (erased s.fd fs ≡ s.address + page_len))

  -- Before a round that writes: pages of `page_len` bytes are in flash, the space is erased up to
  -- the next multiple of the erase size, and the rest of the body, of `n` bytes, fits.
  pub record IsWriting (s : UploadState) (n : ℕ) (fs : Fs) : Type 0 where
    pub writing : s.state ≡ Phase.write
    pub empty : s.page_pos ≡ 0
    pub rest : s.len ≡ n
    pub aligned : s.address % page_len ≡ 0
    pub address : s.address ≡ length (stored s.fd fs)
    pub room : s.address + n ≤ capacity s.fd fs
    pub paged : capacity s.fd fs % 0x10000 ≡ 0
    pub cleared : Cleared s fs
    pub temporary : named s.fd fs ≡ upload_temp_name

  -- Behind the erasing of a sector the page can be written.
  pub record IsErased (s : UploadState) (fs fs' : Fs) : Type 0 where
    pub same_bytes : stored s.fd fs' ≡ stored s.fd fs
    pub same_size : capacity s.fd fs' ≡ capacity s.fd fs
    pub same_name : named s.fd fs' ≡ named s.fd fs
    pub space :
        ((s.address % spi_flash_erase_size ≡ 0)
          × (erased s.fd fs' ≡ s.address + spi_flash_erase_size))
        ⊎ ((s.address % spi_flash_erase_size ≡ page_len) × (erased s.fd fs' ≡ s.address + page_len))

  erase_step :
      (s : UploadState) (fs : Fs)
      → Cleared s fs
      → s.address < capacity s.fd fs
      → capacity s.fd fs % 0x10000 ≡ 0
      → ((erase_sector p s fs).0 ≡ s) × IsErased s fs (erase_sector p s fs).1
  unfolding erase_sector
  erase_step s fs c h q = ground (arith, erase_lem s.fd s.address spi_flash_erase_size fs)

  -- A page in the buffer is written at the end of what is stored.
  write_step :
      (s : UploadState) (fs : Fs) (bytes : Bytes)
      → take s.page_pos s.page_data ≡ bytes
      → 0 < length bytes
      → s.address ≡ length (stored s.fd fs)
      → s.address + length bytes ≤ erased s.fd fs
      → s.address + length bytes ≤ capacity s.fd fs
      → let (t, fs') = write_page p s fs in
        (t ≡ record s { address = s.address + page_len; page_pos = 0 })
        × (stored s.fd fs' ≡ stored s.fd fs ++ bytes)
        × (erased s.fd fs' ≡ erased s.fd fs)
        × (capacity s.fd fs' ≡ capacity s.fd fs)
        × (named s.fd fs' ≡ named s.fd fs)
  unfolding write_page
  write_step s fs bytes e n a b c = rw e (ground (arith, write_lem s.fd s.address bytes fs n a b c))

  -- The file gets its name with the last byte, and only then.
  finish_step :
      (s : UploadState) (fs : Fs)
      → named s.fd fs ≡ upload_temp_name
      → 0 < capacity s.fd fs
      → let (t, fs') = finish_file p s fs in
        ((s.len ≡ 0)
          × (t ≡ record s { state = Phase.done })
          × (stored s.fd fs' ≡ stored s.fd fs)
          × (named s.fd fs' ≡ s.name))
        ⊎ ((0 < s.len) × (t ≡ s) × (fs' ≡ fs))
  unfolding finish_file
  finish_step s fs e c = ground (arith, rename_lem s.fd upload_temp_name s.name fs e c)

  top_up_bytes :
      (s : UploadState) (src : Bytes)
      → IsValid s
      → s.page_pos ≡ 0
      → len_left s ≤ length src
      → take (top_up s src).page_pos (top_up s src).page_data ≡ take (len_left s) src
  unfolding top_up
  top_up_bytes s src v e h =
      take-memcpy s.page_data s.page_pos (take (len_left s) src) (s.page_pos + len_left s)
        (omega (arith, v.sized)) (omega (arith, length-take (len_left s) src))
      ∙ rw e refl

  pub len_left_cases :
      (s : UploadState)
      → s.page_pos ≡ 0
      → ((len_left s ≡ s.len) × (s.len ≤ page_len)) ⊎ ((len_left s ≡ page_len) × (page_len < s.len))
  unfolding len_left
  len_left_cases s e = ground arith

  -- The three steps of a page in one: `f` is the state with the page filled, `bytes` its bytes.
  flash_page_step :
      (f : UploadState) (fs : Fs) (bytes : Bytes)
      → take f.page_pos f.page_data ≡ bytes
      → f.address ≡ length (stored f.fd fs)
      → f.address + length bytes ≤ capacity f.fd fs
      → 0 < length bytes
      → length bytes ≤ page_len
      → capacity f.fd fs % 0x10000 ≡ 0
      → Cleared f fs
      → named f.fd fs ≡ upload_temp_name
      → let (t, fs') = flash_page p f fs in
        let w = record f { address = f.address + page_len; page_pos = 0 } in
        (stored f.fd fs' ≡ stored f.fd fs ++ bytes)
        × (((f.len ≡ 0) × (t ≡ record w { state = Phase.done }) × (named f.fd fs' ≡ f.name))
            ⊎ ((0 < f.len)
                × (t ≡ w)
                × (capacity f.fd fs' ≡ capacity f.fd fs)
                × (named f.fd fs' ≡ upload_temp_name)
                × Cleared w fs'))
  unfolding flash_page
  flash_page_step f fs bytes e at fits some_bytes small paged clear temp =
      let (same, after) = erase_step f fs clear (omega arith) paged in
      let fs₁ = (erase_sector p f fs).1 in
      let fs₂ = (write_page p f fs₁).1 in
      let w = record f { address = f.address + page_len; page_pos = 0 } in
      let wr =
        write_step f fs₁ bytes e some_bytes (rw (after.same_bytes) at) (omega (arith, after.space))
          (rw (after.same_size) fits) in
      let fin =
        finish_step w fs₂ (wr.4 ∙ after.same_name ∙ temp) (omega (arith, wr.3, after.same_size)) in
      rw (same, wr.0) (ground (arith, fin, wr, after))

  -- A round that completes a page: the file grows by its bytes, and either it was the last page
  -- or the next round starts where this one ended.
  pub record PageWritten (s : UploadState) (src : Bytes) (fs : Fs) (t : UploadState) (fs' : Fs)
      : Type 0 where
    pub grown : stored s.fd fs' ≡ stored s.fd fs ++ take (len_left s) src
    pub same_fd : t.fd ≡ s.fd
    pub same_name : t.name ≡ s.name
    pub outcome :
        ((length src ≤ len_left s) × (t.state ≡ done) × (named s.fd fs' ≡ s.name))
        ⊎ ((len_left s < length src) × IsWriting t (length (drop (len_left s) src)) fs')

  pub page_written :
      (s : UploadState) (src : Bytes) (fs : Fs)
      → IsValid s
      → IsWriting s (length src) fs
      → 0 < length src
      → let (t, fs') = finish_page p s src fs in PageWritten s src fs t fs'
  unfolding finish_page top_up
  page_written s src fs v w h =
      let f = top_up s src in
      let cases = len_left_cases s w.empty in
      let bytes = take (len_left s) src in
      let l = length-take (len_left s) src in
      let d = length-drop (len_left s) src in
      let left : len_left s ≤ length src = omega (arith, cases, w.rest) in
      let st =
        flash_page_step f fs bytes (top_up_bytes s src v w.empty left) w.address
          (omega (arith, w.room)) (omega (arith, w.rest)) (omega (arith, cases)) w.paged w.cleared
          w.temporary in
      record {
        grown = st.0;
        same_fd = ground (arith, st);
        same_name = ground (arith, st);
        outcome = elim st.1 [
          | inl x ↦
              inl (omega (arith, cases, w.rest, x.0), ap (λ (q : UploadState). q.state) x.1, x.2)
          | inr x ↦ inr (
            omega (arith, cases, w.rest, x.0),
            rw (x.1) (record {
              writing = w.writing;
              empty = refl;
              rest = omega (arith, d, w.rest);
              aligned = omega (arith, w.aligned);
              address = omega (
                arith,
                ap length st.0,
                length-append (stored s.fd fs) bytes,
                l,
                cases,
                w.rest,
                w.address,
                x.0,
              );
              room = omega (arith, ap (λ (n : ℕ). n) x.2, w.room, d, cases, w.rest, x.0);
              paged = omega (arith, x.2, w.paged);
              cleared = x.4;
              temporary = x.3;
            }),
          )
        ];
      }
