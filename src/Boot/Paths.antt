-- ===== src/Boot/Paths.antt =====
-- Which parts app_main runs.
use bkc_chooser.Base.{
  ℕ, ◌/◌, ◌%◌, Bool, true, false, not, ◌&&◌, ◌||◌, List, [], ◌∷◌, ◌≡◌, refl, ◌∙◌, ◌==◌, arith,
  bit_and_top, bit_and_0x100,
}
use bkc_chooser.Hardware.{Hardware}
use bkc_chooser.Boot.{
  esp_event_loop_init, esp_wifi_init, wifi_storage_ram, wifi_mode_ap, esp_wifi_set_config,
  esp_wifi_start, Inputs, Stage, web_server, menu, ap_config, checked, start_up, wants_charging,
  is_locked, app_main,
}

abbrev pub is_open : Stage → Bool
is_open (web_server port) = true
is_open menu = true
is_open _ = false

-- Whether a stage gives a user the files: over the network or by the menu.
abbrev pub opens : List Stage → Bool
opens [] = false
opens (s ∷ ss) = is_open s || opens ss

-- Whether each of the SDK's calls that app_main checks succeeds.
abbrev pub sdk_ok : Inputs → Bool
sdk_ok s =
    s.esp_ok esp_event_loop_init
    && (s.esp_ok esp_wifi_init
        && (s.esp_ok wifi_storage_ram
            && (s.esp_ok wifi_mode_ap
                && (s.esp_ok (esp_wifi_set_config (ap_config s.nvs_opens s.nvs_channel))
                    && s.esp_ok esp_wifi_start))))

abbrev is_server : Stage → Bool
is_server (web_server port) = port == 80
is_server _ = false

abbrev is_menu : Stage → Bool
is_menu menu = true
is_menu _ = false

-- Whether the web server is started on the port 80, and whether the menu is shown.
abbrev pub serves : List Stage → Bool
serves [] = false
serves (s ∷ ss) = is_server s || serves ss

abbrev pub shows_menu : List Stage → Bool
shows_menu [] = false
shows_menu (s ∷ ss) = is_menu s || shows_menu ss

-- The mark of the key lock in a register, and the bit that skips the charging screen.
abbrev pub has_lock_mark : ℕ → Bool
has_lock_mark r = r / 0x1000000 % 256 == 0xA6

abbrev pub skips_charging : ℕ → Bool
skips_charging r = r / 256 % 2 == 1

-- Whether nothing but a call of the SDK that fails keeps a start from its end.
abbrev pub admits : Hardware → Inputs → Bool
admits hw s =
    (s.chg_status == hw.chg_nocharger || skips_charging s.rtc_reg) && not (has_lock_mark s.rtc_reg)

either_opens :
    (hw : Hardware) (s : Inputs)
    → opens (app_main hw s) ≡ (not (wants_charging hw s) && (not (is_locked s) && sdk_ok s))
unfolding app_main start_up checked
either_opens hw s = ground arith

pub is_locked_lem : (s : Inputs) → is_locked s ≡ has_lock_mark s.rtc_reg
unfolding is_locked
is_locked_lem s = ground (arith, bit_and_top s.rtc_reg)

-- A locked device opens neither.
pub locked_opens :
    (hw : Hardware) (s : Inputs) → has_lock_mark s.rtc_reg ≡ true → opens (app_main hw s) ≡ false
locked_opens hw s h = either_opens hw s ∙ rw (is_locked_lem s ∙ h) (ground arith)

wants_charging_lem :
    (hw : Hardware) (s : Inputs)
    → wants_charging hw s ≡ not (s.chg_status == hw.chg_nocharger || skips_charging s.rtc_reg)
unfolding wants_charging
wants_charging_lem hw s = ground (arith, bit_and_0x100 s.rtc_reg)

serves_lem :
    (hw : Hardware) (s : Inputs)
    → serves (app_main hw s) ≡ (not (wants_charging hw s) && (not (is_locked s) && sdk_ok s))
unfolding app_main start_up checked
serves_lem hw s = ground arith

shows_menu_lem :
    (hw : Hardware) (s : Inputs)
    → shows_menu (app_main hw s) ≡ (not (wants_charging hw s) && (not (is_locked s) && sdk_ok s))
unfolding app_main start_up checked
shows_menu_lem hw s = ground arith

open_condition :
    (hw : Hardware) (s : Inputs)
    → (not (wants_charging hw s) && (not (is_locked s) && sdk_ok s)) ≡ (admits hw s && sdk_ok s)
open_condition hw s =
    rw (wants_charging_lem hw s, is_locked_lem s)
      (conditions (s.chg_status == hw.chg_nocharger || skips_charging s.rtc_reg)
        (has_lock_mark s.rtc_reg) (sdk_ok s))
  where
    conditions : (a b c : Bool) → (not (not a) && (not b && c)) ≡ ((a && not b) && c)
    conditions true true c = refl
    conditions true false c = refl
    conditions false b c = refl

-- The web server is started on the port 80, and the menu is shown, each exactly where there is no
-- charger or the register has the bit that skips the charging screen, the key lock's mark is not
-- set, and the six calls of the SDK that app_main checks succeed; the recovery menu comes before
-- these tests, and the setting of the options menu for the WiFi is not among them.
pub app_main-opens :
    (hw : Hardware) (s : Inputs)
    → (serves (app_main hw s) ≡ (admits hw s && sdk_ok s))
      × (shows_menu (app_main hw s) ≡ (admits hw s && sdk_ok s))
app_main-opens hw s =
    (serves_lem hw s ∙ open_condition hw s, shows_menu_lem hw s ∙ open_condition hw s)
