-- ===== src/Tests/Device.antt =====
-- Concrete inputs to main/main.c and main/gui.c.
use bkc_chooser.Base.{
  ℕ, ◌+◌, ◌*◌, ◌%◌, ◌<◌, ◌≤◌, ◌==◌, leb, ◌↔◌, false, ◌≡◌, refl, true, ◌&&◌, none, some, List, [],
  ◌∷◌, pos, arith,
}
use bkc_chooser.Hardware.{Hardware}
use bkc_chooser.Recovery.{Partition, Flash, do_recovery_mode}
use bkc_chooser.Recovery.Ranges.{covered, recovery_erases}
use bkc_chooser.Options.{
  Event, press, chosen, Stored, Saved, show_options, option_menu_cb, menu_loop, open_menu,
  load_options, option_set_text, adjust, choose, step_channel, step_level, menu_user, save_options,
  is_exit,
}
use bkc_chooser.Options.Texts.{IsCurrent, MenuHolds, menu_stays-IsCurrent}
use bkc_chooser.Options.Saves.{show_options_returns, returns}
use bkc_chooser.Boot.Channel.{EndsWith, served, on_channel, saved_options_start}
use bkc_chooser.Boot.{
  unlocked, powered_down, unlock_value, Inputs, handle_key_lock, app_main, wants_charging,
  is_locked,
}
use bkc_chooser.Boot.KeyLock.{is_press, handle_key_lock-unlocks}
use bkc_chooser.Boot.Paths.{serves, shows_menu, app_main-opens}
use bkc_chooser.Charging.{Sample, power_down, handle_charging}
use bkc_chooser.Charging.Calibration.{calibrations}
use bkc_chooser.Charging.Ends.{ended_by, handle_charging-ends}

abbrev pub device : Hardware
device = record {
  btn_left = 1;
  btn_right = 2;
  btn_a = 4;
  btn_b = 8;
  btn_start = 16;
  btn_select = 32;
  btn_power = 64;
  chg_full = 0;
  chg_charging = 1;
  chg_nocharger = 2;
}

-- Partitions of two blocks and a half, and of six sectors.
abbrev size : Partition → ℕ
size Partition.appfs = 0x28000
size Partition.nvs = 0x6000

abbrev flash : Flash
flash = record {
  size_of = size;
  erase_ok = λ p o n. o % 4096 == 0 && (n % 4096 == 0 && leb (o + n) (size p));
}

recovery_erases_example :
    covered flash Partition.appfs 0x1ffff (do_recovery_mode (pos 3) flash) ≡ true
recovery_erases_example =
    recovery_erases Partition.appfs (pos 3) flash 0x1ffff (λ p o n. refl) refl (omega arith)

-- A stored channel that no access point has.
abbrev bad_channel : Stored
bad_channel = record { kl = some 1; wifi_set = none; channel_set = some 14 }

abbrev menu_events : List Event
menu_events = press 2 2 ∷ press 1 3 ∷ chosen (pos 1) ∷ chosen (pos 6) ∷ []

menu_stays-IsCurrent_example :
    MenuHolds IsCurrent (menu_loop device (open_menu (load_options bad_channel 250 5)) menu_events)
menu_stays-IsCurrent_example =
    menu_stays-IsCurrent device bad_channel 250 5 menu_events (omega arith) (omega arith)

show_options_returns_example :
    returns device (show_options device bad_channel 250 5 menu_events) ≡ true
show_options_returns_example = show_options_returns device bad_channel 250 5 menu_events refl

-- What these events save.
abbrev saved : Saved
saved = record {
  options = record { keylock_val = 1; wifi_en = 0; channel_val = 6; volume = 240; brightness = 5 };
  reboots = true;
}

saves : show_options device bad_channel 250 5 menu_events ≡ some saved
unfolding show_options menu_loop open_menu option_set_text load_options option_menu_cb adjust choose
    step_channel step_level menu_user save_options is_exit
saves = refl

-- A is pressed in the third reading.
abbrev presses : ℕ → ℕ
presses i = 4 * (i % 3)

handle_key_lock-unlocks_example :
    ((handle_key_lock device presses 0xA6000123 ≡ unlocked 0xA5000123)
      ↔ ((i : ℕ) × (i < 15) × (is_press device presses 0xA6000123 i ≡ true)))
    × ((handle_key_lock device presses 0xA6000123 ≡ powered_down)
        ↔ ((i : ℕ) → i < 15 → is_press device presses 0xA6000123 i ≡ false))
unfolding unlock_value
handle_key_lock-unlocks_example = handle_key_lock-unlocks device presses 0xA6000123

-- A device that neither charges nor is locked, with the WiFi off in its settings.
abbrev inputs : Inputs
inputs = record {
  keys = 48;
  rtc_reg = 0xA5000000;
  chg_status = 2;
  nvs_opens = true;
  nvs_channel = some 7;
  splash_opens = true;
  nvs_wifi = some 0;
  esp_ok = λ call. true;
}

app_main-opens_example :
    (serves (app_main device inputs) ≡ true) × (shows_menu (app_main device inputs) ≡ true)
app_main-opens_example = app_main-opens device inputs

-- A start that finds what the menu saved.
abbrev next_start : Inputs
next_start = record inputs { nvs_channel = some 6 }

saved_options_start_example :
    EndsWith (served (on_channel 6) 0) (app_main device next_start) × 1 ≤ 6 × 6 ≤ 13
unfolding wants_charging is_locked
saved_options_start_example =
    saved_options_start device bad_channel 250 5 menu_events saved next_start (omega arith)
      (omega arith) saves
      (record { opens = refl; channel = refl; splash_opens = refl; wifi = refl }) refl refl refl

-- Rounds with a full battery, until the charger is taken off.
abbrev samples : List Sample
samples =
    record { status = 0; bat_mv = 4200; keys = 0; rtc_reg = 0 }
    ∷ record { status = 1; bat_mv = 4150; keys = 0; rtc_reg = 0 }
    ∷ record { status = 2; bat_mv = 4100; keys = 0; rtc_reg = 0 }
    ∷ []

handle_charging-ends_example :
    (ended_by (handle_charging device samples).0 ≡ some power_down)
    × ((handle_charging device samples).1 ≡ true)
    × calibrations (handle_charging device samples).0 ≤ 1
handle_charging-ends_example = handle_charging-ends device samples
