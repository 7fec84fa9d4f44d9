-- ===== src/FileIndex/Rows.antt =====
-- The line that cgiFileIdx prints for a file, in its buffer of 256 bytes, and the index in it.
use bkc_chooser.Base.{
  ℕ, ◌≤◌, ◌<◌, ◌≡◌, refl, Bool, true, false, some, [], ◌∷◌, ◌++◌, ap, ◌∙◌, ◌==◌, drop, Bytes, codes,
  pos, arith, length, length-append, lt→ltb, if◌then◌else◌,
}
use bkc_chooser.Platform.{Platform, Request}
use bkc_chooser.Libc.{print_int, print_nat, print_hex}
use bkc_chooser.Libc.Print.{
  length-print_nat, length-print_int, print_int_some, atoi-print_int, leading_digits,
  leading_digits-print_int,
}
use bkc_chooser.FileIndex.{json_esc, index_row}
use bkc_chooser.FileIndex.Escape.{length-json_esc}
use bkc_chooser.Download.{find_file}

length-print_hex_zero : length (print_hex 0) ≡ 1
unfolding print_hex
length-print_hex_zero = refl

length-comma : (is_first : Bool) → length {A = ℕ} (if is_first then [] else codes ",") ≤ 1
length-comma true = omega arith
length-comma false = omega arith

-- The line for a file whose handle is not negative, with its name as json_esc leaves it in 128
-- bytes, has at most 197 characters, whatever the name (an int has at most ten digits), so that
-- it fits the buffer of 256 bytes with its terminating NUL.
pub length-index_row :
    (is_first : Bool) (n size : ℕ) (name : Bytes)
    → length (index_row is_first (pos n) (json_esc name 128) size) ≤ 197
unfolding index_row
length-index_row is_first n size name = omega (
  arith,
  length-append {0},
  length-comma is_first,
  length-print_hex_zero,
  length-print_int n,
  length-print_nat size,
  length-json_esc name 128,
)

find_file-print_int :
    (p : Platform) (req : Request) (fs : p.Fs) (n : ℕ)
    → n < 0x80000000
    → p.fd_valid (pos n) fs ≡ true
    → req.find_arg (codes "idx") 16 ≡ some (print_int (pos n))
    → find_file p req fs ≡ some (pos n)
unfolding find_file
find_file-print_int p req fs n h v e =
    rw (e, atoi-print_int n h, lt→ltb 0 _ (print_int_some n), v) refl

-- What stands behind the first colon of a text and the byte that follows it.
abbrev behind_colon : Bytes → Bytes
behind_colon [] = []
behind_colon (c ∷ s) = let rest = behind_colon s in if c == b':' then drop 1 s else rest

-- The digits of the first number in a line of the list: the value of its first name, "index".
abbrev pub shown_index : Bytes → Bytes
shown_index s = leading_digits (behind_colon s)

-- The line from its index on.
abbrev index_rest : Bytes → ℕ → Bytes
index_rest name size =
    codes " \"name\": \""
    ++ (name
        ++ (codes "\", \"size\": "
            ++ (print_nat size ++ (codes ", \"addr\": \"0x" ++ (print_hex 0 ++ codes "\" }\n")))))

behind_colon-index_row :
    (is_first : Bool) (n size : ℕ) (name : Bytes)
    → behind_colon (index_row is_first (pos n) name size)
      ≡ print_int (pos n) ++ (b',' ∷ index_rest name size)
unfolding index_row
behind_colon-index_row true n size name = refl
behind_colon-index_row false n size name = refl

shown_index-index_row :
    (is_first : Bool) (n size : ℕ) (name : Bytes)
    → shown_index (index_row is_first (pos n) name size) ≡ print_int (pos n)
shown_index-index_row is_first n size name =
    ap leading_digits (behind_colon-index_row is_first n size name)
    ∙ leading_digits-print_int n b',' (index_rest name size) refl

-- A download whose argument is the number behind the first colon of the line that cgiFileIdx prints
-- for a file, a non-negative int, finds that file, whatever its name and size, if appfs knows the
-- handle.
pub find_file-index_row :
    (p : Platform) (req : Request) (fs : p.Fs) (is_first : Bool) (n size : ℕ) (name : Bytes)
    → n < 0x80000000
    → p.fd_valid (pos n) fs ≡ true
    → req.find_arg (codes "idx") 16 ≡ some (shown_index (index_row is_first (pos n) name size))
    → find_file p req fs ≡ some (pos n)
find_file-index_row p req fs is_first n size name h v e =
    find_file-print_int p req fs n h v (e ∙ ap some (shown_index-index_row is_first n size name))
