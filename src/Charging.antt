-- ===== src/Charging.antt =====
-- handleCharging of main/main.c, over the values that each round of its loop reads.
pub mod Calibration
pub mod Ends
use bkc_chooser.Base.{
  ℕ, ◌+◌, Bool, true, false, ◌||◌, Option, none, some, List, [], ◌∷◌, ◌++◌, ltb, ◌==◌,
  if◌then◌else◌,
}
use Prim.Native.Nat.{bit_or}
use bkc_chooser.Hardware.{Hardware, pressed}

-- What one round reads: the charger's state, the battery, the keys, and the RTC register.
pub record Sample : Type 0 where
  pub status : ℕ
  pub bat_mv : ℕ
  pub keys : ℕ
  pub rtc_reg : ℕ

-- The calls that show, store or end something. `gui_charging none` is the call of guiCharging with
-- no argument. Behind `boot_new_app` and `power_down` nothing runs.
pub data Action : Type 0 where
  set_brightness : ℕ → Action
  gui_init : Action
  gui_charging : Option Bool → Action
  gui_full : Action
  app_cpu_off : Action
  cpu_freq_mhz : ℕ → Action
  write_rtc : ℕ → Action
  cal_adc : Action
  boot_new_app : Action
  power_down : Action

-- The loop's variables `fullCtr` and `fixFull`.
pub record Charge : Type 0 where
  pub full_ctr : ℕ
  pub fix_full : Bool

-- The calibration of the battery's converter.
unfoldable pub calibrate : Charge → Charge × List Action
calibrate c = if c.full_ctr == 32 then (record c { fix_full = true }, cal_adc ∷ []) else (c, [])

-- The power button restarts with the override bit set.
unfoldable pub override : Sample → List Action
override x = cpu_freq_mhz 80 ∷ write_rtc (bit_or x.rtc_reg 0x100) ∷ boot_new_app ∷ []

module _ (hw : Hardware) where
  open hw use {chg_full, chg_charging, chg_nocharger, btn_power}

  -- The icon, and the count of rounds in which the battery was full.
  unfoldable pub show_charge : Charge → Sample → Charge × List Action
  show_charge c x =
      if x.status == chg_full || c.fix_full
      then (record c { full_ctr = c.full_ctr + 1 }, gui_full ∷ [])
      else if x.status == chg_charging
      then (record c { full_ctr = 0 }, gui_charging (some (ltb 4100 x.bat_mv)) ∷ [])
      else (c, [])

  -- The rounds over the samples: the calls, and whether the loop ended.
  unfoldable pub charge_loop : Charge → List Sample → List Action × Bool
  charge_loop c [] = ([], false)
  charge_loop c (x ∷ xs) =
      let (c₁, shown) = show_charge c x in
      let (c₂, calibrated) = calibrate c₁ in
      let (acts, ended) = charge_loop c₂ xs in
      if pressed x.keys btn_power
      then (shown ++ override x, true)
      else if x.status == chg_nocharger
      then (shown ++ (calibrated ++ (cpu_freq_mhz 80 ∷ power_down ∷ [])), true)
      else (shown ++ (calibrated ++ acts), ended)

  -- handleCharging.
  unfoldable pub handle_charging : List Sample → List Action × Bool
  handle_charging xs =
      let (acts, ended) = charge_loop (record { full_ctr = 0; fix_full = false }) xs in
      (
        set_brightness 32 ∷ gui_init ∷ gui_charging none ∷ app_cpu_off ∷ cpu_freq_mhz 2 ∷ acts,
        ended,
      )
