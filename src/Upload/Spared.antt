-- ===== src/Upload/Spared.antt =====
-- An upload that is under way, and a call of cgiDelete of main/cgiappfs.c.
use bkc_chooser.Base.{
  ℕ, ◌+◌, ◌≡◌, sym, ap, ◌∙◌, false, List, ◌++◌, Bytes, codes, ltb, length, bytes_eq, if_keeps,
}
use bkc_chooser.Platform.{Platform, Request, Output, arg_or_empty}
use bkc_chooser.FileIndex.{cgi_delete}
use bkc_chooser.Upload.{UploadState, upload_temp_name}
use bkc_chooser.Upload.Appfs.{AppfsLaws}
use bkc_chooser.Upload.Pages.{IsWriting}
use bkc_chooser.Upload.Pending.{Pending}
use bkc_chooser.Upload.Turns.{DeleteLaws, deleted_name, requested_name}

module _ (p : Platform) (req : Request) (laws : AppfsLaws p) (deletes : DeleteLaws p laws) where
  open p use {Fs, Nvs, create_file}
  open laws use {stored, erased, capacity, named}
  open deletes use {delete_lem}

  -- What an upload under way relies on is not touched by a deletion that spares its file.
  IsWriting-deleted :
      (s : UploadState) (n : ℕ) (name : Bytes) (fs : Fs)
      → bytes_eq name upload_temp_name ≡ false
      → IsWriting p req laws s n fs
      → IsWriting p req laws s n (p.delete_file name fs)
  IsWriting-deleted s n name fs h w =
      let (same, end, size, called) =
        delete_lem s.fd name fs (ap (bytes_eq name) w.temporary ∙ h) in
      record {
        writing = w.writing;
        empty = w.empty;
        rest = w.rest;
        aligned = w.aligned;
        address = w.address ∙ ap length (sym same);
        room = rw size w.room;
        paged = rw size w.paged;
        cleared = rw end w.cleared;
        temporary = called ∙ w.temporary;
      }

  Pending-deleted :
      (s : UploadState) (name : Bytes) (fs : Fs) (body : Bytes) (n : ℕ)
      → bytes_eq name upload_temp_name ≡ false
      → Pending p req laws s fs body n (requested_name p req)
      → Pending p req laws s (p.delete_file name fs) body n (requested_name p req)
  Pending-deleted s name fs body n h m =
      let w = m.writing in
      let (same, end, size, called) =
        delete_lem m.page_start.fd name fs (ap (bytes_eq name) w.temporary ∙ h) in
      record {
        page_start = m.page_start;
        page = m.page;
        filled = m.filled;
        short = m.short;
        valid = m.valid;
        writing = IsWriting-deleted m.page_start (length m.page + n) name fs h w;
        so_far = ap (λ (x : Bytes). x ++ m.page) same ∙ m.so_far;
        called = m.called;
      }

  -- cgiDelete deletes the file, or does nothing where the request has no index.
  pub Pending-cgi_delete :
      (q : Request) (s : UploadState) (fs : Fs) (nvs : Nvs) (body : Bytes) (n : ℕ)
      → bytes_eq (deleted_name p req q fs) upload_temp_name ≡ false
      → Pending p req laws s fs body n (requested_name p req)
      → Pending p req laws s (cgi_delete p q fs nvs).1 body n (requested_name p req)
  unfolding cgi_delete
  Pending-cgi_delete q s fs nvs body n h m =
      if_keeps
        (λ (o : List Output × Fs × Nvs). Pending p req laws s o.1 body n (requested_name p req))
        (ltb 0 (length (arg_or_empty (q.find_arg (codes "idx") 16)))) _ _
        (Pending-deleted s (deleted_name p req q fs) fs body n h m) m
