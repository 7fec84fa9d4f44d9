-- ===== src/Charging/Ends.antt =====
-- How handleCharging of main/main.c ends.
use bkc_chooser.Base.{
  ◌≤◌, Bool, true, false, not, ◌&&◌, Option, none, some, List, [], ◌∷◌, ◌++◌, ◌≡◌, refl, ◌∙◌,
  if◌then◌else◌, ◌==◌, arith, Bool-cases, inl, inr,
}
use bkc_chooser.Hardware.{Hardware, pressed}
use bkc_chooser.Charging.{
  Sample, Action, boot_new_app, power_down, cpu_freq_mhz, Charge, show_charge, calibrate, override,
  charge_loop, handle_charging,
}
use bkc_chooser.Charging.Calibration.{calibrations, calibrates_once}

abbrev is_end : Action → Bool
is_end boot_new_app = true
is_end power_down = true
is_end _ = false

-- The call that ends the program, where the last of the calls is one, and no call before it is.
abbrev pub ended_by : List Action → Option Action
ended_by [] = none
ended_by (a ∷ []) = if is_end a then some a else none
ended_by (a ∷ b ∷ acts) = if is_end a then none else ended_by (b ∷ acts)

abbrev pub goes_on : List Action → Bool
goes_on [] = true
goes_on (a ∷ acts) = not (is_end a) && goes_on acts

goes_on-append : (xs ys : List Action) → goes_on (xs ++ ys) ≡ (goes_on xs && goes_on ys)
goes_on-append [] ys = refl
goes_on-append (x ∷ xs) ys = ground (arith, goes_on-append xs ys)

ended_by-append : (xs ys : List Action) → goes_on xs ≡ true → ended_by (xs ++ ys) ≡ ended_by ys
ended_by-append [] ys h = refl
ended_by-append (x ∷ xs) ys h =
    one x (xs ++ ys) (ground (arith, h)) ∙ ended_by-append xs ys (ground (arith, h))
  where
    one : (a : Action) (acts : List Action) → is_end a ≡ false → ended_by (a ∷ acts) ≡ ended_by acts
    one a [] e = rw e refl
    one a (b ∷ acts) e = rw e refl

abbrev pub is_some {ℓ} : {A : Type ℓ} → Option A → Bool
is_some none = false
is_some (some a) = true

module _ (hw : Hardware) where
  open hw use {btn_power, chg_nocharger}

  -- The first round that ends the loop: a restart where the power button is pressed, and otherwise
  -- the power off where the charger is gone.
  abbrev pub end_of : List Sample → Option Action
  end_of [] = none
  end_of (x ∷ xs) =
      let rest = end_of xs in
      if pressed x.keys btn_power
      then some boot_new_app
      else if x.status == chg_nocharger
      then some power_down
      else rest

  goes_on-show_charge : (c : Charge) (x : Sample) → goes_on (show_charge hw c x).1 ≡ true
  unfolding show_charge
  goes_on-show_charge c x = ground arith

  goes_on-calibrate : (c : Charge) → goes_on (calibrate c).1 ≡ true
  unfolding calibrate
  goes_on-calibrate c = ground arith

  charge_loop-ends :
      (c : Charge) (xs : List Sample)
      → (ended_by (charge_loop hw c xs).0 ≡ end_of xs)
        × ((charge_loop hw c xs).1 ≡ is_some (end_of xs))
  unfolding charge_loop
  charge_loop-ends c [] = (refl, refl)
  charge_loop-ends c (x ∷ xs) =
      let (c₁, shown) = show_charge hw c x in
      let (c₂, calibrated) = calibrate c₁ in
      let (acts, ended) = charge_loop hw c₂ xs in
      let s = goes_on-show_charge c x in
      let k = goes_on-calibrate c₁ in
      let (a, b) = charge_loop-ends c₂ xs in
      elim (Bool-cases (pressed x.keys btn_power)) [
        | inl e ↦ rw e (ended_by-append shown (override x) s ∙ unfold override in refl, refl)
        | inr e ↦ elim (Bool-cases (x.status == chg_nocharger)) [
          | inl f ↦
              rw (e, f)
                (
                  ended_by-append shown (calibrated ++ (cpu_freq_mhz 80 ∷ power_down ∷ [])) s
                      ∙ ended_by-append calibrated (cpu_freq_mhz 80 ∷ power_down ∷ []) k,
                  refl,
                )
          | inr f ↦
              rw (e, f)
                (
                  ended_by-append shown (calibrated ++ acts) s
                      ∙ ended_by-append calibrated acts k
                      ∙ a,
                  b,
                )
        ]
      ]

  -- handleCharging ends exactly where some round reads the power button down or the charger gone,
  -- with a restart if the first such round reads the button, and the power off if not; that is its
  -- last call, no call before it ends the program, and it calibrates at most once.
  pub handle_charging-ends :
      (xs : List Sample)
      → (ended_by (handle_charging hw xs).0 ≡ end_of xs)
        × ((handle_charging hw xs).1 ≡ is_some (end_of xs))
        × calibrations (handle_charging hw xs).0 ≤ 1
  unfolding handle_charging
  handle_charging-ends xs =
      let c : Charge = record { full_ctr = 0; fix_full = false } in
      let (a, b) = charge_loop-ends c xs in
      (
        ended_by-append (cpu_freq_mhz 2 ∷ []) (charge_loop hw c xs).0 refl ∙ a,
        b,
        calibrates_once hw xs,
      )
