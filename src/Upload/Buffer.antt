-- ===== src/Upload/Buffer.antt =====
-- The page buffer of cgiUploadFile: the sizes that keep its `memcpy` in bounds, and what one copy
-- after another leaves in it.
use bkc_chooser.Base.{
  ℕ, zero, ◌+◌, ◌≤◌, ◌<◌, ◌≡◌, refl, sym, ap, ◌∙◌, ◌++◌, Bytes, arith, length, take, drop,
  length-append, length-take, length-drop, length-replicate, take-append_add, drop-append_add,
  drop-drop,
}
use mathlib.Core.List.{append_assoc, append-nil}
use bkc_chooser.Upload.{page_len, UploadState, fresh_upload, memcpy, len_left, zero_page}

pub length-memcpy :
    (buf : Bytes) (at : ℕ) (src : Bytes)
    → at + length src ≤ length buf
    → length (memcpy buf at src) ≡ length buf
unfolding memcpy
length-memcpy buf at src h = omega (
  arith,
  length-append (take at buf) (src ++ drop (at + length src) buf),
  length-append src (drop (at + length src) buf),
  length-take at buf,
  length-drop (at + length src) buf,
)

take_full : (at : ℕ) (buf : Bytes) → at ≤ length buf → length (take at buf) ≡ at
take_full at buf h = omega (arith, length-take at buf)

-- The bytes up to the end of a copy.
pub take-memcpy :
    (buf : Bytes) (at : ℕ) (src : Bytes) (n : ℕ)
    → at ≤ length buf
    → n ≡ at + length src
    → take n (memcpy buf at src) ≡ take at buf ++ src
unfolding memcpy
take-memcpy buf at src n h e =
    take-append_add (take at buf) (src ++ drop (at + length src) buf) n (length src)
      (omega (arith, take_full at buf h))
    ∙ ap (λ t. take at buf ++ t)
        (take-append_add src (drop (at + length src) buf) (length src) 0 (omega arith)
          ∙ append-nil src)

drop-memcpy :
    (buf : Bytes) (at : ℕ) (src : Bytes) (n k : ℕ)
    → at ≤ length buf
    → n ≡ at + length src + k
    → drop n (memcpy buf at src) ≡ drop n buf
unfolding memcpy
drop-memcpy buf at src n k h e =
    drop-append_add (take at buf) (src ++ drop (at + length src) buf) n (length src + k)
      (omega (arith, take_full at buf h))
    ∙ drop-append_add src (drop (at + length src) buf) (length src + k) k refl
    ∙ drop-drop k (at + length src) buf
    ∙ ap (λ m. drop m buf) (sym e)

memcpy_lem :
    (buf : Bytes) (at : ℕ) (src : Bytes)
    → memcpy buf at src ≡ take at buf ++ (src ++ drop (at + length src) buf)
unfolding memcpy
memcpy_lem buf at src = refl

-- Two copies, the second where the first ended, are one copy.
pub memcpy-memcpy :
    (buf : Bytes) (at : ℕ) (a b : Bytes) (mid : ℕ)
    → at ≤ length buf
    → mid ≡ at + length a
    → memcpy (memcpy buf at a) mid b ≡ memcpy buf at (a ++ b)
memcpy-memcpy buf at a b mid h e =
    let left = take-memcpy buf at a mid h e in
    let right = drop-memcpy buf at a (mid + length b) (length b) h (omega arith) in
    let ends : at + length (a ++ b) ≡ mid + length b = omega (arith, length-append a b) in
    memcpy_lem (memcpy buf at a) mid b
    ∙ rw (left, right) (simp append_assoc)
    ∙ ap (λ n. take at buf ++ ((a ++ b) ++ drop n buf)) (sym ends)
    ∙ sym (memcpy_lem buf at (a ++ b))

-- Between two rounds of the loop the page buffer has its size, and the page is not full.
pub record IsValid (s : UploadState) : Type 0 where
  pub sized : length s.page_data ≡ page_len
  pub room : s.page_pos < page_len

pub len_left_bounds :
    (s : UploadState) → IsValid s → (len_left s + s.page_pos ≤ page_len) × (len_left s ≤ s.len)
unfolding len_left
len_left_bounds s v = ground arith

pub length-zero_page : length zero_page ≡ page_len
unfolding zero_page
length-zero_page = length-replicate page_len zero

pub fresh-IsValid : IsValid fresh_upload
fresh-IsValid = record { sized = length-zero_page; room = omega arith }
