-- ===== src/FileIndex/Escape.antt =====
-- json_esc, and a reader for the text of a JSON string.
use bkc_chooser.Base.{
  ℕ, ◌+◌, ◌-◌, ◌*◌, ◌≤◌, Bool, true, false, Option, none, some, [], ◌∷◌, ◌++◌, ◌≡◌, refl, ap, ◌∙◌,
  ◌||◌, ltb, leb, Bytes, length, ◌==◌, if◌then◌else◌, length-append, arith,
}
use mathlib.Core.List.{append_assoc}
use bkc_chooser.FileIndex.{escape, escaped, json_esc_from, json_esc}

length-escaped : (c : ℕ) (e : Option ℕ) → 1 ≤ length (escaped c e) × length (escaped c e) ≤ 2
length-escaped c none = ground arith
length-escaped c (some e) = ground arith

length-json_esc_from :
    (j : ℕ) (s : Bytes) (bufsz : ℕ)
    → j ≤ bufsz - 2
    → j + length (json_esc_from j s bufsz) ≤ bufsz - 2
unfolding json_esc_from
length-json_esc_from j [] bufsz h = omega arith
length-json_esc_from j (c ∷ s) bufsz h =
    let out = escaped c (escape c) in
    let rest = json_esc_from (j + length out) s bufsz in
    ground (
      arith,
      length-json_esc_from (j + length out) s bufsz,
      length-append out rest,
      length-escaped c (escape c),
    )

-- With the terminating NUL, json_esc writes at most `bufsz - 1` bytes to a buffer of `bufsz`,
-- and nothing but the NUL to a buffer of at most three.
pub length-json_esc : (s : Bytes) (bufsz : ℕ) → length (json_esc s bufsz) ≤ bufsz - 2
unfolding json_esc
length-json_esc s bufsz = omega (arith, length-json_esc_from 0 s bufsz (omega arith))

-- The byte that a letter behind a backslash stands for in JSON, but for `\u`, which is not read.
abbrev pub unescape : ℕ → Option ℕ
unescape c =
    if c == b'"'
    then some b'"'
    else if c == 92
    then some 92
    else if c == b'/'
    then some b'/'
    else if c == b't'
    then some 9
    else if c == b'r'
    then some 13
    else if c == b'n'
    then some 10
    else if c == b'f'
    then some 12
    else if c == b'b'
    then some 8
    else none

-- A byte in front of a text that was read.
abbrev pub then_byte : Option ℕ → Option (Bytes × Bytes) → Option (Bytes × Bytes)
then_byte (some c) (some (s, rest)) = some (c ∷ s, rest)
then_byte _ _ = none

-- A reader of a JSON string from behind its opening quote: the text up to the closing quote, and
-- what follows that. It refuses a control byte, an unknown escape, and an end without a quote.
abbrev pub read_from : Bool → Bytes → Option (Bytes × Bytes)
read_from after [] = none
read_from true (c ∷ s) = then_byte (unescape c) (read_from false s)
read_from false (c ∷ s) =
    let plain = read_from false s in
    let behind = read_from true s in
    if c == b'"'
    then some ([], s)
    else if c == 92
    then behind
    else if ltb c 32
    then none
    else then_byte (some c) plain

abbrev pub read_json : Bytes → Option (Bytes × Bytes)
read_json = read_from false

-- The names whose control bytes are among those that JSON has a letter for.
abbrev pub is_nameable : ℕ → Bool
is_nameable c = leb 32 c || (c == 8 || (c == 9 || (c == 10 || (c == 12 || c == 13))))

abbrev pub AreNameable : Bytes → Type 0
AreNameable [] = Unit {0}
AreNameable (c ∷ s) = (is_nameable c ≡ true) × AreNameable s

read-escaped :
    (c : ℕ) (s : Bytes)
    → is_nameable c ≡ true
    → read_json (escaped c (escape c) ++ s) ≡ then_byte (some c) (read_json s)
read-escaped c s h = ground arith

read-json_esc_from :
    (j : ℕ) (s : Bytes) (bufsz : ℕ) (rest : Bytes)
    → AreNameable s
    → j + 2 * length s + 3 ≤ bufsz
    → read_json (json_esc_from j s bufsz ++ (34 ∷ rest)) ≡ some (s, rest)
unfolding json_esc_from
read-json_esc_from j [] bufsz rest n h = refl
read-json_esc_from j (c ∷ s) bufsz rest n h =
    let out = escaped c (escape c) in
    let more = json_esc_from (j + length out) s bufsz in
    let fits : leb (bufsz - 3) j ≡ false = ground (arith, h) in
    let l = length-escaped c (escape c) in
    rw fits (
      ap read_json (append_assoc out more (34 ∷ rest))
      ∙ read-escaped c (more ++ (34 ∷ rest)) n.0
      ∙ ap (then_byte (some c))
          (read-json_esc_from (j + length out) s bufsz rest n.1 (omega (arith, h, l))))

-- A name that fits with each byte escaped, and has no control bytes but those that JSON has a letter
-- for, is read back whole from what json_esc writes, up to the quote that is put behind it, and
-- nothing of what follows the quote is taken for a part of the name.
pub read-json_esc :
    (s : Bytes) (bufsz : ℕ) (rest : Bytes)
    → AreNameable s
    → 2 * length s + 3 ≤ bufsz
    → read_json (json_esc s bufsz ++ (34 ∷ rest)) ≡ some (s, rest)
unfolding json_esc
read-json_esc s bufsz rest n h = read-json_esc_from 0 s bufsz rest n (omega (arith, h))
