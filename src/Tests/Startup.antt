-- ===== src/Tests/Startup.antt =====
-- Concrete inputs to app_main's ends in main/main.c, and to guiMenu.
use bkc_chooser.Base.{
  ℕ, ◌*◌, ◌%◌, ℤ, Option, refl, ◌≡◌, true, false, none, some, List, [], ◌∷◌, pos, arith,
}
use bkc_chooser.Boot.{
  Inputs, unlocked, unlock_value, presses_a, lock_loop, handle_key_lock, wants_charging, app_main,
}
use bkc_chooser.Boot.Paths.{opens, serves, shows_menu}
use bkc_chooser.Charging.{Sample, calibrate, override, show_charge, charge_loop, handle_charging}
use bkc_chooser.Boot.Locked.{
  Written, here, there, Recharges, overridden, at_first, again, locked_through_restarts,
}
use bkc_chooser.Boot.Restart.{AllWrites, Restarts, unlocked_start, handle_charging-Restarts}
use bkc_chooser.Gui.Menu.{gui_menu, gui_menu-starts}
use bkc_chooser.Tests.Device.{device}

abbrev locked : Inputs
locked = record {
  keys = 0;
  rtc_reg = 0xA6000001;
  chg_status = 1;
  nvs_opens = true;
  nvs_channel = some 11;
  splash_opens = true;
  nvs_wifi = some 0;
  esp_ok = λ call. true;
}

-- A is pressed in the third reading.
abbrev presses : ℕ → ℕ
presses i = 4 * (i % 3)

unlocks : handle_key_lock device presses 0xA6000123 ≡ unlocked 0xA5000123
unfolding handle_key_lock lock_loop presses_a unlock_value
unlocks = refl

unlocked_start_example :
    (serves (app_main device (record locked { rtc_reg = 0xA5000123 })) ≡ true)
    × (shows_menu (app_main device (record locked { rtc_reg = 0xA5000123 })) ≡ true)
unlocked_start_example = unlocked_start device presses 0xA6000123 0xA5000123 locked unlocks

-- The power button in the second round.
abbrev rounds : List Sample
rounds =
    record { status = 1; bat_mv = 4000; keys = 0; rtc_reg = 0xA6000000 }
    ∷ record { status = 1; bat_mv = 4200; keys = 64; rtc_reg = 0xA6000000 }
    ∷ []

handle_charging-Restarts_example :
    AllWrites (Restarts device rounds locked) (handle_charging device rounds).0
handle_charging-Restarts_example = handle_charging-Restarts device rounds locked

-- The device is charged, and the charging screen overridden.
abbrev charged : Inputs
charged = record locked { rtc_reg = 0xA6000000; chg_status = 1 }

override-Written : Written 0xA6000100 (handle_charging device rounds).0
unfolding handle_charging charge_loop show_charge calibrate override
override-Written = there (there (there (there (there (there (there (there here)))))))

recharged : Recharges device 0xA6000000 0xA6000100
unfolding wants_charging
recharged = again at_first (overridden charged rounds refl refl (refl, (refl, tt)) override-Written)

locked_through_restarts_example :
    opens (app_main device (record locked { rtc_reg = 0xA6000100 })) ≡ false
locked_through_restarts_example =
    locked_through_restarts device 0xA6000000 0xA6000100 (record locked { rtc_reg = 0xA6000100 })
      refl recharged refl

-- The file chooser takes one press and returns the file 4.
abbrev choose : List ℕ → Option (ℤ × List ℕ)
choose [] = none
choose (k ∷ keys) = some (pos 4, keys)

gui_menu-starts_example : gui_menu choose (16 ∷ 0 ∷ 0 ∷ 0 ∷ 4 ∷ 4 ∷ 4 ∷ 0 ∷ []) ≡ some (pos 4)
gui_menu-starts_example =
    gui_menu-starts choose (pos 4) (16 ∷ []) (0 ∷ 0 ∷ []) (4 ∷ 4 ∷ 0 ∷ []) (4 ∷ []) [] 4
      (omega arith) (omega arith) (omega arith) refl (omega arith)
