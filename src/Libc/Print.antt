-- ===== src/Libc/Print.antt =====
-- Decimal numbers as the sources print them: their length, and reading them back.
use bkc_chooser.Base.{
  ℕ, zero, suc, ◌+◌, ◌*◌, ◌/◌, ◌%◌, ◌^◌, ◌≤◌, ◌<◌, ◌≡◌, refl, sym, ap, ◌∙◌, [], ◌∷◌, ◌++◌, Bytes,
  pos, true, false, ◌&&◌, leb, if◌then◌else◌, arith, length, if_keeps_by, ltb, ltb→lt,
}
use bkc_chooser.Libc.{
  hex_digit, digits_value, skip_spaces, signed, to_long, atoi, print_base, print_nat, print_int,
}

length-print_base :
    (base fuel n : ℕ) (acc : Bytes) → length (print_base base fuel n acc) ≤ fuel + length acc
unfolding print_base
length-print_base base zero n acc = omega arith
length-print_base base (suc fuel) n acc =
    ground (arith, length-print_base base fuel (n / base) (hex_digit (n % base) ∷ acc))

pub length-print_nat : (n : ℕ) → length (print_nat n) ≤ 10
unfolding print_nat
length-print_nat n = omega (arith, length-print_base 10 10 n [])

digits_value-hex_digit :
    (a n : ℕ) (s : Bytes)
    → n < 10
    → digits_value 10 a (hex_digit n ∷ s) ≡ digits_value 10 (a * 10 + n) s
unfolding digits_value
digits_value-hex_digit a n s h = ground (arith, h)

digits_value-print_base :
    (fuel n : ℕ) (acc : Bytes)
    → n < 10 ^ fuel
    → digits_value 10 0 (print_base 10 fuel n acc) ≡ digits_value 10 n acc
unfolding print_base
digits_value-print_base zero n acc h =
    let e : n ≡ 0 = omega (arith, h) in ap (λ (k : ℕ). digits_value 10 k acc) (sym e)
digits_value-print_base (suc fuel) n acc h =
    let ten : 10 ^ suc fuel ≡ 10 * 10 ^ fuel = omega arith in
    let value = λ (t : Bytes). digits_value 10 0 t ≡ digits_value 10 n acc in
    if_keeps_by value (ltb n 10) (hex_digit n ∷ acc)
      (print_base 10 fuel (n / 10) (hex_digit (n % 10) ∷ acc))
      (λ l.
        digits_value-hex_digit 0 n acc (ltb→lt n 10 l)
        ∙ ap (λ (k : ℕ). digits_value 10 k acc) (omega arith))
      (λ l.
        digits_value-print_base fuel (n / 10) (hex_digit (n % 10) ∷ acc) (omega (arith, h, ten))
        ∙ digits_value-hex_digit (n / 10) (n % 10) acc (omega arith)
        ∙ ap (λ (k : ℕ). digits_value 10 k acc) (omega arith))

-- The texts that begin with a digit.
abbrev StartsWithDigit : Bytes → Type 0
StartsWithDigit [] = ⊥
StartsWithDigit (c ∷ s) = (48 ≤ c) × (c ≤ 57)

StartsWithDigit-hex_digit : (n : ℕ) (s : Bytes) → n < 10 → StartsWithDigit (hex_digit n ∷ s)
StartsWithDigit-hex_digit n s h = (ground (arith, h), ground (arith, h))

StartsWithDigit-print_base :
    (fuel n : ℕ) (acc : Bytes) → StartsWithDigit acc → StartsWithDigit (print_base 10 fuel n acc)
unfolding print_base
StartsWithDigit-print_base zero n acc h = h
StartsWithDigit-print_base (suc fuel) n acc h =
    if_keeps_by StartsWithDigit (ltb n 10) (hex_digit n ∷ acc)
      (print_base 10 fuel (n / 10) (hex_digit (n % 10) ∷ acc))
      (λ l. StartsWithDigit-hex_digit n acc (ltb→lt n 10 l))
      (λ l.
        StartsWithDigit-print_base fuel (n / 10) (hex_digit (n % 10) ∷ acc)
          (StartsWithDigit-hex_digit (n % 10) acc (omega arith)))

StartsWithDigit-first :
    (fuel n : ℕ) (acc : Bytes) → StartsWithDigit (print_base 10 (suc fuel) n acc)
unfolding print_base
StartsWithDigit-first fuel n acc =
    if_keeps_by StartsWithDigit (ltb n 10) (hex_digit n ∷ acc)
      (print_base 10 fuel (n / 10) (hex_digit (n % 10) ∷ acc))
      (λ l. StartsWithDigit-hex_digit n acc (ltb→lt n 10 l))
      (λ l.
        StartsWithDigit-print_base fuel (n / 10) (hex_digit (n % 10) ∷ acc)
          (StartsWithDigit-hex_digit (n % 10) acc (omega arith)))

length-StartsWithDigit : (s : Bytes) → StartsWithDigit s → 0 < length s
length-StartsWithDigit [] h = absurd h
length-StartsWithDigit (c ∷ s) h = omega arith

print_int_lem : (n : ℕ) → print_int (pos n) ≡ print_base 10 10 n []
unfolding print_int print_nat print_base
print_int_lem n = refl

atoi-StartsWithDigit :
    (s : Bytes) → StartsWithDigit s → atoi s ≡ to_long (pos (digits_value 10 0 s))
unfolding atoi skip_spaces signed
atoi-StartsWithDigit [] h = absurd h
atoi-StartsWithDigit (c ∷ s) h = ground arith

digits_value-nil : (n : ℕ) → digits_value 10 n [] ≡ n
unfolding digits_value
digits_value-nil n = refl

to_long_small : (n : ℕ) → n < 0x80000000 → to_long (pos n) ≡ pos n
unfolding to_long
to_long_small n h = ground arith

-- An int is read back as it was printed.
pub atoi-print_int : (n : ℕ) → n < 0x80000000 → atoi (print_int (pos n)) ≡ pos n
atoi-print_int n h =
    ap atoi (print_int_lem n)
    ∙ atoi-StartsWithDigit (print_base 10 10 n []) (StartsWithDigit-first 9 n [])
    ∙ ap (λ (m : ℕ). to_long (pos m))
        (digits_value-print_base 10 n [] (omega (arith, h)) ∙ digits_value-nil n)
    ∙ to_long_small n h

pub length-print_int : (n : ℕ) → length (print_int (pos n)) ≤ 10
length-print_int n = omega (arith, ap length (print_int_lem n), length-print_base 10 10 n [])

-- A printed number is not the empty text.
pub print_int_some : (n : ℕ) → 0 < length (print_int (pos n))
print_int_some n = omega (
  arith,
  ap length (print_int_lem n),
  length-StartsWithDigit (print_base 10 10 n []) (StartsWithDigit-first 9 n []),
)

-- The digits that a text begins with.
abbrev pub leading_digits : Bytes → Bytes
leading_digits [] = []
leading_digits (c ∷ s) =
    let rest = leading_digits s in if leb 48 c && leb c 57 then c ∷ rest else []

-- Texts of which each byte is a digit.
abbrev AreDigits : Bytes → Type 0
AreDigits [] = Unit {0}
AreDigits (c ∷ s) = ((leb 48 c && leb c 57) ≡ true) × AreDigits s

leading_digits-append :
    (s : Bytes) (c : ℕ) (t : Bytes)
    → AreDigits s
    → (leb 48 c && leb c 57) ≡ false
    → leading_digits (s ++ (c ∷ t)) ≡ s
leading_digits-append [] c t d h = rw h refl
leading_digits-append (x ∷ s) c t d h =
    rw (d.0) (ap (λ (r : Bytes). x ∷ r) (leading_digits-append s c t d.1 h))

AreDigits-hex_digit : (n : ℕ) (s : Bytes) → n < 10 → AreDigits s → AreDigits (hex_digit n ∷ s)
AreDigits-hex_digit n s h d = (ground (arith, h), d)

AreDigits-print_base :
    (fuel n : ℕ) (acc : Bytes) → AreDigits acc → AreDigits (print_base 10 fuel n acc)
unfolding print_base
AreDigits-print_base zero n acc h = h
AreDigits-print_base (suc fuel) n acc h =
    if_keeps_by AreDigits (ltb n 10) (hex_digit n ∷ acc)
      (print_base 10 fuel (n / 10) (hex_digit (n % 10) ∷ acc))
      (λ l. AreDigits-hex_digit n acc (ltb→lt n 10 l) h)
      (λ l.
        AreDigits-print_base fuel (n / 10) (hex_digit (n % 10) ∷ acc)
          (AreDigits-hex_digit (n % 10) acc (omega arith) h))

-- The digits of a printed number end where another byte follows.
pub leading_digits-print_int :
    (n c : ℕ) (t : Bytes)
    → (leb 48 c && leb c 57) ≡ false
    → leading_digits (print_int (pos n) ++ (c ∷ t)) ≡ print_int (pos n)
leading_digits-print_int n c t h = leading_digits-append (print_int (pos n)) c t (go n) h
  where
    go : (n : ℕ) → AreDigits (print_int (pos n))
    go n = rw (print_int_lem n) (AreDigits-print_base 10 n [] tt)
