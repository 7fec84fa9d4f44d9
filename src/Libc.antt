-- ===== src/Libc.antt =====
-- What the sources use of the C library: atoi, strtol with base 0, "%d" and "%X" of sprintf, and
-- fnmatch on a pattern of plain characters and asterisks.
pub mod Print
use bkc_chooser.Base.{
  ℕ, zero, suc, ◌+◌, ◌-◌, ◌*◌, ◌/◌, ◌%◌, Bool, true, false, ◌&&◌, ◌||◌, [], ◌∷◌, Bytes, ℤ, pos,
  negsuc, ltb, leb, ◌==◌, if◌then◌else◌,
}

abbrev pub is_space : ℕ → Bool
is_space c = c == 32 || leb 9 c && leb c 13

-- The value of a character as a digit, 36 or more where it is none.
abbrev pub digit : ℕ → ℕ
digit c =
    if leb 48 c && leb c 57
    then c - 48
    else if leb 97 c && leb c 122
    then c - 87
    else if leb 65 c && leb c 90
    then c - 55
    else 99

-- The leading digits in a base.
unfoldable pub digits_value : ℕ → ℕ → Bytes → ℕ
digits_value base acc [] = acc
digits_value base acc (c ∷ s) =
    let rest = digits_value base (acc * base + digit c) s in
    if ltb (digit c) base then rest else acc

unfoldable pub skip_spaces : Bytes → Bytes
skip_spaces [] = []
skip_spaces (c ∷ s) = let rest = skip_spaces s in if is_space c then rest else c ∷ s

abbrev pub negate : ℕ → ℤ
negate zero = pos 0
negate (suc n) = negsuc n

-- A sign in front, then the number that `read` finds.
unfoldable pub signed : (Bytes → ℕ) → Bytes → ℤ
signed read [] = pos 0
signed read (c ∷ s) =
    if c == b'-' then negate (read s) else if c == b'+' then pos (read s) else pos (read (c ∷ s))

-- A number that a 32-bit long does not hold becomes the greatest or the least one.
unfoldable pub to_long : ℤ → ℤ
to_long (pos n) = if ltb n 0x80000000 then pos n else pos 0x7fffffff
to_long (negsuc n) = if ltb n 0x80000000 then negsuc n else negsuc 0x7fffffff

-- atoi, which is strtol with base 10.
unfoldable pub atoi : Bytes → ℤ
unfolding digits_value skip_spaces signed to_long
atoi s = to_long (signed (digits_value 10 0) (skip_spaces s))

-- A prefix 0x means base 16, another 0 base 8.
unfoldable pub any_base : Bytes → ℕ
unfolding digits_value
any_base (zero ∷ s) = 0
any_base (c ∷ d ∷ e ∷ s) =
    if c == b'0'
    then (if (d == b'x' || d == b'X') && ltb (digit e) 16
        then digits_value 16 0 (e ∷ s)
        else digits_value 8 0 (d ∷ e ∷ s))
    else digits_value 10 0 (c ∷ d ∷ e ∷ s)
any_base (c ∷ s) = if c == b'0' then digits_value 8 0 s else digits_value 10 0 (c ∷ s)
any_base [] = 0

-- strtol(s, NULL, 0).
unfoldable pub strtol : Bytes → ℤ
unfolding any_base skip_spaces signed to_long
strtol s = to_long (signed any_base (skip_spaces s))

abbrev pub hex_digit : ℕ → ℕ
hex_digit d = if ltb d 10 then 48 + d else 55 + d

-- The digits of a number in a base, most significant first, on fuel.
unfoldable pub print_base : ℕ → ℕ → ℕ → Bytes → Bytes
print_base base zero n acc = acc
print_base base (suc fuel) n acc =
    let more = print_base base fuel (n / base) (hex_digit (n % base) ∷ acc) in
    if ltb n base then hex_digit n ∷ acc else more

-- An int has at most ten decimal digits, and eight in base 16.
unfoldable pub print_nat : ℕ → Bytes
unfolding print_base
print_nat n = print_base 10 10 n []

unfoldable pub print_hex : ℕ → Bytes
unfolding print_base
print_hex n = print_base 16 8 n []

-- "%d".
unfoldable pub print_int : ℤ → Bytes
unfolding print_nat
print_int (pos n) = print_nat n
print_int (negsuc n) = b'-' ∷ print_nat (suc n)

-- A u32_t that "%d" reads as an int.
abbrev pub int_of_u32 : ℕ → ℤ
int_of_u32 n = if ltb n 0x80000000 then pos n else negsuc (0xffffffff - n)

-- An asterisk matches any characters; `rest` matches what stands behind it.
unfoldable pub star : (Bytes → Bool) → Bytes → Bool
star rest [] = rest []
star rest (c ∷ s) = rest (c ∷ s) || star rest s

abbrev pub one_char : ℕ → (Bytes → Bool) → Bytes → Bool
one_char c rest [] = false
one_char c rest (d ∷ s) = c == d && rest s

abbrev pub is_empty : Bytes → Bool
is_empty [] = true
is_empty (c ∷ s) = false

-- `fnmatch(pattern, s, 0) == 0`.
unfoldable pub fnmatch : Bytes → Bytes → Bool
unfolding star
fnmatch [] s = is_empty s
fnmatch (c ∷ p) s = if c == b'*' then star (fnmatch p) s else one_char c (fnmatch p) s
