-- ===== src/Boot/KeyLock.antt =====
-- When handleKeyLock unlocks, and what it leaves in the register.
use bkc_chooser.Base.{
  ℕ, zero, suc, ◌+◌, ◌/◌, ◌%◌, ◌^◌, ◌≤◌, ◌<◌, Bool, true, false, not, ◌&&◌, ◌||◌, ◌≡◌, ◌↔◌, refl,
  sym, ap, ◌∙◌, ◌==◌, inl, inr, Bool-cases, arith,
}
use bkc_chooser.Hardware.{Hardware, pressed}
use bkc_chooser.Boot.{
  LockEnd, unlocked, powered_down, unlock_value, presses_a, lock_loop, handle_key_lock,
}

-- The register that unlocking leaves has the mark of a device that is not locked, and the bits
-- below the mark as they were.
pub unlock_value_bits :
    (v : ℕ) → unlock_value v / 2 ^ 24 ≡ 0xa5 × unlock_value v % 2 ^ 24 ≡ v % 2 ^ 24
unfolding unlock_value
unlock_value_bits v = ground arith

module _ (hw : Hardware) (keys : ℕ → ℕ) (v : ℕ) where
  -- Whether A is pressed between two of the readings from `i` on, `n` pairs of them.
  abbrev pub pressed_in : ℕ → ℕ → Bool
  pressed_in zero i = false
  pressed_in (suc n) i = presses_a hw (keys i) (keys (suc i)) || pressed_in n (suc i)

  abbrev pub outcome : Bool → LockEnd
  outcome true = unlocked (unlock_value v)
  outcome false = powered_down

  lock_loop-outcome : (n i : ℕ) → lock_loop hw n (suc i) (keys i) keys v ≡ outcome (pressed_in n i)
  unfolding lock_loop
  lock_loop-outcome zero i = refl
  lock_loop-outcome (suc n) i = ground (arith, lock_loop-outcome n (suc i))

  pub handle_key_lock-outcome : handle_key_lock hw keys v ≡ outcome (pressed_in 15 0)
  unfolding handle_key_lock
  handle_key_lock-outcome = lock_loop-outcome 15 0

  -- A is newly down in the reading behind the reading `i`, and the power button is up in it.
  abbrev pub is_press : ℕ → Bool
  is_press i =
      pressed (keys (suc i)) hw.btn_a
      && (not (pressed (keys i) hw.btn_a) && not (pressed (keys (suc i)) hw.btn_power))

  presses_a_lem : (i : ℕ) → presses_a hw (keys i) (keys (suc i)) ≡ is_press i
  unfolding presses_a
  presses_a_lem i = ground arith

  pressed_in_some :
      (n i : ℕ) → pressed_in n i ≡ true → (j : ℕ) × (i ≤ j) × (j < i + n) × (is_press j ≡ true)
  pressed_in_some zero i h = absurd (cc h)
  pressed_in_some (suc n) i h = elim (Bool-cases (presses_a hw (keys i) (keys (suc i)))) [
    | inl e ↦ (i, omega arith, omega arith, sym (presses_a_lem i) ∙ e)
    | inr e ↦
        let (j, a, b, c) = pressed_in_some n (suc i) (rw e at h) in
        (j, omega (arith, a), omega (arith, b), c)
  ]

  pressed_in_none :
      (n i : ℕ) → pressed_in n i ≡ false → (j : ℕ) → i ≤ j → j < i + n → is_press j ≡ false
  pressed_in_none zero i h j a b = absurd (omega (arith, a, b))
  pressed_in_none (suc n) i h j a b = elim (Bool-cases (j == i)) [
    | inl e ↦
        let same : j ≡ i = ground (arith, e) in
        ap is_press same ∙ sym (presses_a_lem i) ∙ (ground (arith, h))
    | inr e ↦
        pressed_in_none n (suc i) (ground (arith, h)) j (ground (arith, e, a)) (omega (arith, b))
  ]

  -- Over its fifteen rounds handleKeyLock unlocks exactly where A is newly pressed between two
  -- successive readings of the keys, with the power button up in the second, and the register then
  -- has its lower 24 bits and the mark 0xa5; it takes the power away exactly where there is no such
  -- pair among the first sixteen readings.
  pub handle_key_lock-unlocks :
      ((handle_key_lock hw keys v ≡ unlocked (v % 2 ^ 24 + 0xa5000000))
        ↔ ((i : ℕ) × (i < 15) × (is_press i ≡ true)))
      × ((handle_key_lock hw keys v ≡ powered_down) ↔ ((i : ℕ) → i < 15 → is_press i ≡ false))
  unfolding unlock_value
  handle_key_lock-unlocks = elim (Bool-cases (pressed_in 15 0)) [
    | inl e ↦
        let at = handle_key_lock-outcome ∙ ap outcome e in
        let (j, _, b, c) = pressed_in_some 15 0 e in
        (
          (λ h. (j, omega (arith, b), c), λ h. at),
          (λ h. absurd (cc (h, at)), λ h. absurd (cc (h j (omega (arith, b)), c))),
        )
    | inr e ↦
        let at = handle_key_lock-outcome ∙ ap outcome e in
        let none = pressed_in_none 15 0 e in
        (
          (
            λ h. absurd (cc (h, at)),
            λ (i, b, c). absurd (cc (none i (omega arith) (omega (arith, b)), c)),
          ),
          (λ h i b. none i (omega arith) (omega (arith, b)), λ h. at),
        )
  ]
