-- ===== src/Charging/Calibration.antt =====
-- How often handleCharging calibrates.
use bkc_chooser.Base.{
  ℕ, ◌+◌, ◌≤◌, true, false, List, [], ◌∷◌, ◌++◌, ◌≡◌, refl, arith, ◌⊎◌, inl, inr,
}
use bkc_chooser.Hardware.{Hardware}
use bkc_chooser.Charging.{
  Sample, Action, cal_adc, cpu_freq_mhz, power_down, Charge, show_charge, calibrate, override,
  charge_loop, handle_charging,
}

abbrev pub is_cal : Action → ℕ
is_cal cal_adc = 1
is_cal _ = 0

-- How many calls calibrate.
abbrev pub calibrations : List Action → ℕ
calibrations [] = 0
calibrations (x ∷ xs) = is_cal x + calibrations xs

calibrations-append :
    (xs ys : List Action) → calibrations (xs ++ ys) ≡ calibrations xs + calibrations ys
calibrations-append [] ys = omega arith
calibrations-append (x ∷ xs) ys = omega (arith, calibrations-append xs ys)

calibrations-override : (x : Sample) → calibrations (override x) ≡ 0
unfolding override
calibrations-override x = refl

calibrations-calibrate : (c : Charge) → c.fix_full ≡ false → calibrations (calibrate c).1 ≤ 1
unfolding calibrate
calibrations-calibrate c f = ground arith

module _ (hw : Hardware) where
  calibrations-show_charge : (c : Charge) (x : Sample) → calibrations (show_charge hw c x).1 ≡ 0
  unfolding show_charge
  calibrations-show_charge c x = ground arith

  abbrev after : Charge → Sample → Charge
  after c x = (calibrate (show_charge hw c x).0).0

  -- The calls of a round and of the rounds behind it.
  round :
      (c : Charge) (x : Sample) (xs : List Sample)
      → calibrations (charge_loop hw c (x ∷ xs)).0
        ≤ calibrations (calibrate (show_charge hw c x).0).1
          + calibrations (charge_loop hw (after c x) xs).0
  unfolding charge_loop override
  round c x xs =
      let shown = (show_charge hw c x).1 in
      let acts = (calibrate (show_charge hw c x).0).1 in
      let later = (charge_loop hw (after c x) xs).0 in
      ground (
        arith,
        calibrations-append shown (override x),
        calibrations-append shown (acts ++ later),
        calibrations-append acts later,
        calibrations-append shown (acts ++ (cpu_freq_mhz 80 ∷ power_down ∷ [])),
        calibrations-append acts (cpu_freq_mhz 80 ∷ power_down ∷ []),
        calibrations-show_charge c x,
      )

  -- Once calibrated, the count is past 32 and only grows.
  grows :
      (c : Charge) (x : Sample)
      → c.fix_full ≡ true
      → 32 ≤ c.full_ctr
      → calibrations (calibrate (show_charge hw c x).0).1 ≡ 0
        × (after c x).fix_full ≡ true
        × 32 ≤ (after c x).full_ctr
  unfolding show_charge calibrate
  grows c x f h = ground arith

  -- Before, a round calibrates and the count is 32, or it does not.
  first :
      (c : Charge) (x : Sample)
      → c.fix_full ≡ false
      → ((after c x).fix_full ≡ true
          × 32 ≤ (after c x).full_ctr
          × calibrations (calibrate (show_charge hw c x).0).1 ≡ 1)
        ⊎ ((after c x).fix_full ≡ false × calibrations (calibrate (show_charge hw c x).0).1 ≡ 0)
  unfolding show_charge calibrate
  first c x f = ground arith

  none_left :
      (c : Charge) (xs : List Sample)
      → c.fix_full ≡ true
      → 32 ≤ c.full_ctr
      → calibrations (charge_loop hw c xs).0 ≤ 0
  unfolding charge_loop
  none_left c [] f h = omega arith
  none_left c (x ∷ xs) f h =
      let (a, b, d) = grows c x f h in omega (arith, round c x xs, none_left (after c x) xs b d)

  at_most_one :
      (c : Charge) (xs : List Sample)
      → c.fix_full ≡ false
      → calibrations (charge_loop hw c xs).0 ≤ 1
  unfolding charge_loop
  at_most_one c [] f = omega arith
  at_most_one c (x ∷ xs) f = elim (first c x f) [
    | inl (a, b, d) ↦ omega (arith, round c x xs, none_left (after c x) xs a b)
    | inr (a, b) ↦ omega (arith, round c x xs, at_most_one (after c x) xs a)
  ]

  -- Whatever the rounds read, handleCharging calibrates the battery's converter at most once.
  pub calibrates_once : (xs : List Sample) → calibrations (handle_charging hw xs).0 ≤ 1
  unfolding handle_charging
  calibrates_once xs =
      omega (arith, at_most_one (record { full_ctr = 0; fix_full = false }) xs refl)
