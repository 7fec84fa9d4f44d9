-- ===== src/Upload.antt =====
-- cgiUploadFile of main/cgiappfs.c: a posted application goes through a page buffer into appfs.
pub mod Buffer
pub mod Runs
pub mod Rounds
pub mod Chunks
pub mod Appfs
pub mod Pages
pub mod Stored
pub mod Pending
pub mod Resume
pub mod Turns
pub mod Spared
pub mod Deletions
pub mod Interrupted
pub mod Replies
pub mod Session
pub mod Failures
use bkc_chooser.Base.{
  ℕ, zero, suc, ◌+◌, ◌-◌, ◌*◌, ◌%◌, Bool, true, false, not, Option, none, some, List, [], ◌∷◌, ◌++◌,
  Bytes, codes, ℤ, pos, ltb, ◌==◌, if◌then◌else◌, length, take, drop, replicate,
}
use bkc_chooser.Platform.{
  Platform, Request, Call, Reply, Output, CgiReturn, send, response, arg_or_empty,
}

abbrev pub page_len : ℕ
page_len = 4096 * 4

abbrev pub spi_flash_erase_size : ℕ
spi_flash_erase_size = 32768

abbrev pub upload_temp_name : Bytes
upload_temp_name = codes "__upload_temp_file__.tmp"

-- FLST_START, FLST_WRITE, FLST_DONE and FLST_ERROR.
pub data Phase : Type 0 where
  start write done error : Phase

pub record UploadState : Type 0 where
  pub fd : ℤ
  pub state : Phase
  pub filetype : ℕ
  pub flash_pos : ℕ
  pub page_data : Bytes
  pub page_pos : ℕ
  pub address : ℕ
  pub len : ℕ
  pub err : Bytes
  pub name : Bytes

unfoldable pub zero_page : Bytes
zero_page = replicate page_len 0

-- The state after `calloc` and the two assignments of the first call.
abbrev pub fresh_upload : UploadState
fresh_upload = record {
  fd = pos 0;
  state = start;
  filetype = 0;
  flash_pos = 0;
  page_data = zero_page;
  page_pos = 0;
  address = 0;
  len = 0;
  err = codes "Premature end";
  name = [];
}

-- `memcpy(&buf[at], data, length data)`.
unfoldable pub memcpy : Bytes → ℕ → Bytes → Bytes
memcpy buf at src = take at buf ++ (src ++ drop (at + length src) buf)

abbrev pub fail : Bytes → UploadState → UploadState
fail message s = record s { err = message; state = error }

-- The bytes that the page under way can still take: `lenLeft`.
unfoldable pub len_left : UploadState → ℕ
len_left s = let left = page_len - s.page_pos in if ltb s.len left then s.len else left

-- The branch that only fills the page buffer.
unfoldable pub fill_page : UploadState → Bytes → UploadState
fill_page s src = record s {
  page_data = memcpy s.page_data s.page_pos src;
  page_pos = s.page_pos + length src;
  len = s.len - length src;
}

-- `Finish page; take data we need from post buffer`.
unfoldable pub top_up : UploadState → Bytes → UploadState
top_up s src =
    let n = len_left s in
    record s {
      page_data = memcpy s.page_data s.page_pos (take n src);
      page_pos = s.page_pos + n;
      len = s.len - n;
    }

abbrev pub is_error : Phase → Bool
is_error error = true
is_error _ = false

abbrev pub is_done : Phase → Bool
is_done Phase.done = true
is_done _ = false

-- The response when the whole body was received.
unfoldable pub upload_response : UploadState → List Output
upload_response s =
    response (if is_error s.state then 400 else 200) (codes "Content-Type") (codes "text/plain")
    ++ (if is_done s.state
        then []
        else send (codes "Upload error:") ∷ send s.err ∷ send (codes "\n") ∷ [])

module _ (p : Platform) where
  open p use {Fs, create_file, erase, write as flash_write, rename}

  -- The body of the FLST_START branch. The error of a missing name does not end it.
  unfoldable pub upload_start : Request → UploadState → Fs → UploadState × Fs
  upload_start req s fs =
      let found = arg_or_empty (req.find_arg (codes "name") 512) in
      let named = record s { name = found } in
      let checked = if length found == 0 then fail (codes "No name") named else named in
      let (ok, fd, fs') = create_file upload_temp_name req.post_len fs in
      let opened = record checked { fd = fd } in
      (
        if ok
            then record opened { len = req.post_len; address = 0; state = Phase.write }
            else fail (codes "App too large for free space") opened,
        fs',
      )

  -- `Erase sector, if needed`.
  unfoldable pub erase_sector : UploadState → Fs → UploadState × Fs
  erase_sector s fs =
      let (ok, fs') = erase s.fd s.address spi_flash_erase_size fs in
      if s.address % spi_flash_erase_size == 0
      then (if ok then s else fail (codes "AppfsErase failed") s, fs')
      else (s, fs)

  -- `Write page`, with the reset of the page buffer.
  unfoldable pub write_page : UploadState → Fs → UploadState × Fs
  write_page s fs =
      let (ok, fs') = flash_write s.fd s.address (take s.page_pos s.page_data) fs in
      let written = if ok then s else fail (codes "AppfsWrite failed") s in
      (record written { address = s.address + page_len; page_pos = 0 }, fs')

  -- The renaming of the temporary file, when the last byte is written.
  unfoldable pub finish_file : UploadState → Fs → UploadState × Fs
  finish_file s fs =
      let (ok, fs') = rename upload_temp_name s.name fs in
      let finished = record s { state = Phase.done } in
      if s.len == 0
      then (if ok then finished else fail (codes "Rename failed") finished, fs')
      else (s, fs)

  -- The page goes to flash: erase, write, rename after the last one.
  unfoldable pub flash_page : UploadState → Fs → UploadState × Fs
  flash_page s fs =
      let (erased, fs₁) = erase_sector s fs in
      let (written, fs₂) = write_page erased fs₁ in finish_file written fs₂

  -- The branch that completes a page with `lenLeft` bytes of the data at hand.
  unfoldable pub finish_page : UploadState → Bytes → Fs → UploadState × Fs
  finish_page s src fs = flash_page (top_up s src) fs

  -- One round of `while (dataLen != 0)`: the new state, what is left of the data, the file system.
  unfoldable pub upload_round :
      Request → Phase → UploadState → Bytes → Fs → UploadState × Bytes × Fs
  upload_round req start s src fs = let (s', fs') = upload_start req s fs in (s', src, fs')
  upload_round req Phase.write s src fs =
      let (s', fs') = finish_page s src fs in
      if ltb (length src) (len_left s)
      then (fill_page s src, [], fs)
      else (s', drop (len_left s) src, fs')
  upload_round req Phase.done s src fs = (s, [], fs)
  upload_round req error s src fs = (s, [], fs)

  -- The loop, on fuel.
  unfoldable pub upload_loop : ℕ → Request → UploadState → Bytes → Fs → UploadState × Fs
  upload_loop fuel req s [] fs = (s, fs)
  upload_loop zero req s (b ∷ src) fs = (s, fs)
  upload_loop (suc fuel) req s (b ∷ src) fs =
      let (s', rest, fs') = upload_round req s.state s (b ∷ src) fs in
      upload_loop fuel req s' rest fs'

  -- Two rounds beyond the data: one to create the file, one for a write of no bytes.
  unfoldable pub upload_data : Request → UploadState → Bytes → Fs → UploadState × Fs
  upload_data req s buff fs = upload_loop (length buff + 3) req s buff fs

  -- The part of the handler behind the allocation.
  unfoldable pub upload_step : Request → Call → UploadState → ℕ → Fs → Reply UploadState × Fs
  upload_step req call s live fs =
      let (s', fs') = upload_data req s call.buff fs in
      (
        if req.post_len == call.received
            then record {
              returns = CgiReturn.done;
              cgi_data = some s';
              live = live - 1;
              out = upload_response s';
            }
            else record { returns = CgiReturn.more; cgi_data = some s'; live = live; out = [] },
        fs',
      )

  -- cgiUploadFile. `live` counts the allocated state structs.
  unfoldable pub cgi_upload_file :
      Request → Call → Option UploadState → ℕ → Fs → Reply UploadState × Fs
  cgi_upload_file req call none live fs =
      let first = upload_step req call fresh_upload (live + 1) fs in
      if not call.is_open
      then (record { returns = CgiReturn.done; cgi_data = none; live = live; out = [] }, fs)
      else if not call.has_memory
      then (record { returns = CgiReturn.done; cgi_data = none; live = live; out = [] }, fs)
      else first
  cgi_upload_file req call (some s) live fs =
      let next = upload_step req call s live fs in
      if not call.is_open
      then (record { returns = CgiReturn.done; cgi_data = some s; live = live - 1; out = [] }, fs)
      else next
