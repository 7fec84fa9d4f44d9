-- ===== src/Recovery/Ranges.antt =====
-- Which bytes do_recovery_mode erases.
use bkc_chooser.Base.{
  ℕ, zero, suc, ◌+◌, ◌*◌, ◌/◌, ◌%◌, ◌<◌, Bool, true, false, ◌&&◌, ◌||◌, List, [], ◌∷◌, ◌++◌, ◌≡◌,
  refl, ◌∙◌, ◌==◌, ℤ, pos, eqb_ℤ, ltb, leb, arith,
}
use bkc_chooser.Recovery.{
  Partition, appfs, nvs, Step, show, erase_range, Flash, erase_block, erase_blocks, failed,
  kill_appfs, kill_nvs, do_recovery_mode,
}

abbrev same_partition : Partition → Partition → Bool
same_partition appfs appfs = true
same_partition nvs nvs = true
same_partition _ _ = false

-- Whether a step erases the byte at `x` of a partition, and whether one of the steps does: a call
-- that is refused erases nothing.
abbrev pub erases : Flash → Partition → ℕ → Step → Bool
erases f p x (show t) = false
erases f p x (erase_range q o n) =
    same_partition p q && (f.erase_ok q o n && (leb o x && ltb x (o + n)))

abbrev pub covered : Flash → Partition → ℕ → List Step → Bool
covered f p x [] = false
covered f p x (s ∷ ss) = erases f p x s || covered f p x ss

-- What the SDK's documentation says of esp_partition_erase_range: offset and length are multiples
-- of 4096, and the range lies within the partition. The flash itself is taken to work.
abbrev pub AcceptsRanges : Flash → Type 0
AcceptsRanges f =
    (p : Partition) (o n : ℕ)
    → f.erase_ok p o n ≡ (o % 4096 == 0 && (n % 4096 == 0 && leb (o + n) (f.size_of p)))

covered-append :
    (f : Flash) (p : Partition) (x : ℕ) (ss ts : List Step)
    → covered f p x (ss ++ ts) ≡ (covered f p x ss || covered f p x ts)
covered-append f p x [] ts = refl
covered-append f p x (s ∷ ss) ts = ground (arith, covered-append f p x ss ts)

covered-failed : (f : Flash) (p : Partition) (x : ℕ) (ok : Bool) → covered f p x (failed ok) ≡ false
unfolding failed
covered-failed f p x true = refl
covered-failed f p x false = refl

-- The end of the block that holds a byte, and whether that block lies within the partition.
abbrev pub block_fits : Flash → Partition → ℕ → Bool
block_fits f appfs x = leb (x / 0x10000 * 0x10000 + 0x10000) (f.size_of appfs)
block_fits f nvs x = true

-- One call covers the bytes of its block, where it is granted.
block_lem :
    (f : Flash) (i k x : ℕ)
    → AcceptsRanges f
    → i ≡ k * 0x10000
    → (f.erase_ok appfs i 0x10000 && (leb i x && ltb x (i + 0x10000)))
      ≡ (x / 0x10000 == k && block_fits f appfs x)
block_lem f i k x g e =
    let granted = g appfs i 0x10000 in
    let low : i % 4096 == 0 ≡ true = ground (arith, e) in rw (granted, low) (ground (arith, e))

-- The blocks cover the whole blocks of the partition of the apps, and no byte of the settings.
covered-erase_blocks :
    (fuel i k x : ℕ) (f : Flash)
    → AcceptsRanges f
    → i ≡ k * 0x10000
    → x < f.size_of appfs
    → x < i + fuel * 0x10000
    → covered f appfs x (erase_blocks fuel i f).0 ≡ (leb i x && block_fits f appfs x)
unfolding erase_blocks
covered-erase_blocks zero i k x f g e b c = ground (arith, c)
covered-erase_blocks (suc fuel) i k x f g e b c =
    let next =
      covered-erase_blocks fuel (i + erase_block) (suc k) x f g (omega (arith, e)) b
        (omega (arith, c)) in
    ground (arith, next, block_lem f i k x g e, e, b)

spared-erase_blocks : (fuel i x : ℕ) (f : Flash) → covered f nvs x (erase_blocks fuel i f).0 ≡ false
unfolding erase_blocks
spared-erase_blocks zero i x f = refl
spared-erase_blocks (suc fuel) i x f =
    ground (arith, spared-erase_blocks fuel (i + erase_block) x f)

kill_appfs-covers :
    (f : Flash) (x : ℕ)
    → AcceptsRanges f
    → x < f.size_of appfs
    → covered f appfs x (kill_appfs f) ≡ block_fits f appfs x
unfolding kill_appfs
kill_appfs-covers f x g h =
    let (steps, ok) = erase_blocks (f.size_of appfs / erase_block + 2) 0 f in
    let all =
      covered-erase_blocks (f.size_of appfs / erase_block + 2) 0 0 x f g (omega arith) h
        (omega arith) in
    ground (arith, covered-append f appfs x steps (failed ok), all, covered-failed f appfs x ok)

kill_appfs-spares : (f : Flash) (x : ℕ) → covered f nvs x (kill_appfs f) ≡ false
unfolding kill_appfs
kill_appfs-spares f x =
    let (steps, ok) = erase_blocks (f.size_of appfs / erase_block + 2) 0 f in
    let none = spared-erase_blocks (f.size_of appfs / erase_block + 2) 0 x f in
    ground (arith, covered-append f nvs x steps (failed ok), none, covered-failed f nvs x ok)

kill_nvs-covers :
    (f : Flash) (x : ℕ)
    → AcceptsRanges f
    → f.size_of nvs % 4096 ≡ 0
    → x < f.size_of nvs
    → covered f nvs x (kill_nvs f) ≡ true
unfolding kill_nvs
kill_nvs-covers f x g al h =
    let granted : f.erase_ok nvs 0 (f.size_of nvs) ≡ true =
      g nvs 0 (f.size_of nvs) ∙ (ground (arith, al)) in
    rw granted (ground (arith, h))

kill_nvs-spares : (f : Flash) (x : ℕ) → covered f appfs x (kill_nvs f) ≡ false
unfolding kill_nvs
kill_nvs-spares f x = ground (arith, covered-failed f appfs x (f.erase_ok nvs 0 (f.size_of nvs)))

-- The choices of the menu that erase a partition.
abbrev pub chosen_for : Partition → ℤ → Bool
chosen_for appfs i = eqb_ℤ i (pos 1) || eqb_ℤ i (pos 3)
chosen_for nvs i = eqb_ℤ i (pos 2)

-- For the choices 1 and 3, do_recovery_mode erases the bytes of the partition of the apps whose
-- block of 64 KiB lies whole within the partition, and no others; for the choice 2, so not for the
-- entry Factory Rst, which is 3, every byte of the settings; and no byte of either for any other
-- choice. It is assumed that esp_partition_erase_range accepts the ranges that it is documented to
-- accept and refuses the others, and that the partition of the settings has whole sectors.
pub recovery_erases :
    (p : Partition) (i : ℤ) (f : Flash) (x : ℕ)
    → AcceptsRanges f
    → f.size_of nvs % 4096 ≡ 0
    → x < f.size_of p
    → covered f p x (do_recovery_mode i f) ≡ (chosen_for p i && block_fits f p x)
unfolding do_recovery_mode
recovery_erases appfs i f x g al h = ground (arith, kill_appfs-covers f x g h, kill_nvs-spares f x)
recovery_erases nvs i f x g al h = ground (arith, kill_appfs-spares f x, kill_nvs-covers f x g al h)
