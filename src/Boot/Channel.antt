-- ===== src/Boot/Channel.antt =====
-- What the next start of app_main in main/main.c makes of the settings that show_options of
-- main/gui.c saves.
use bkc_chooser.Base.{
  ℕ, ◌≤◌, true, false, some, List, [], ◌∷◌, ◌++◌, ◌≡◌, refl, sym, ap, ◌∙◌, codes, if◌then◌else◌,
  arith, ◌==◌,
}
use Prim.Native.Nat.{bit_or}
use mathlib.Core.Path.{subst}
use mathlib.Core.List.{append_assoc}
use bkc_chooser.Hardware.{Hardware}
use bkc_chooser.Gui.{gui_splash, wifi_setting}
use bkc_chooser.Options.{Event, Stored, Saved, show_options}
use bkc_chooser.Options.Saves.{show_options-IsValid}
use bkc_chooser.Boot.{
  esp_event_loop_init, esp_wifi_init, wifi_storage_ram, wifi_mode_ap, delete_temp_files,
  nvs_flash_init, tcpip_adapter_init, init_hw, init_sdk, recovery, wifi_auth_open, sdk,
  esp_wifi_set_config, esp_wifi_start, web_server, gui_init, splash, menu, Stage, Inputs, ApConfig,
  ap_channel, ap_config, checked, start_up, wants_charging, is_locked, app_main,
}
use bkc_chooser.Boot.Paths.{sdk_ok}

-- The start of the access point and what follows, to the menu.
abbrev pub served : ApConfig → ℕ → List Stage
served c wifi_en =
    sdk (esp_wifi_set_config c)
    ∷ sdk esp_wifi_start
    ∷ web_server 80
    ∷ gui_init
    ∷ splash (gui_splash wifi_en)
    ∷ menu
    ∷ []

-- What the stages end with.
abbrev pub EndsWith : List Stage → List Stage → Type 0
EndsWith tail stages = (before : List Stage) × (stages ≡ before ++ tail)

-- The store opens both times and holds what was saved.
pub record Finds (saved : Saved) (s : Inputs) : Type 0 where
  pub opens : s.nvs_opens ≡ true
  pub channel : s.nvs_channel ≡ some saved.options.channel_val
  pub splash_opens : s.splash_opens ≡ true
  pub wifi : s.nvs_wifi ≡ some saved.options.wifi_en

-- The access point's configuration with a channel.
abbrev pub on_channel : ℕ → ApConfig
on_channel c = record {
  ssid = codes "pkspr";
  authmode = wifi_auth_open;
  max_connection = 2;
  beacon_interval = 200;
  channel = c;
}

found :
    (saved : Saved) (s : Inputs)
    → Finds saved s
    → ◌≡◌ {A = ApConfig × ℕ}
        (ap_config s.nvs_opens s.nvs_channel, wifi_setting s.splash_opens s.nvs_wifi)
        (on_channel saved.options.channel_val, saved.options.wifi_en)
unfolding ap_config ap_channel wifi_setting
found saved s f = rw (f.opens, f.channel, f.splash_opens, f.wifi) refl

start_up-ends :
    (s : Inputs)
    → sdk_ok s ≡ true
    → EndsWith
        (served (ap_config s.nvs_opens s.nvs_channel) (wifi_setting s.splash_opens s.nvs_wifi))
        (start_up s)
unfolding start_up checked
start_up-ends s h =
    let event_loop : s.esp_ok esp_event_loop_init ≡ true = ground (arith, h) in
    let wifi_init : s.esp_ok esp_wifi_init ≡ true = ground (arith, h) in
    let storage : s.esp_ok wifi_storage_ram ≡ true = ground (arith, h) in
    let mode : s.esp_ok wifi_mode_ap ≡ true = ground (arith, h) in
    let config : s.esp_ok (esp_wifi_set_config (ap_config s.nvs_opens s.nvs_channel)) ≡ true =
      ground (arith, h) in
    let wifi_start : s.esp_ok esp_wifi_start ≡ true = ground (arith, h) in
    (
      delete_temp_files
          ∷ nvs_flash_init
          ∷ tcpip_adapter_init
          ∷ sdk esp_event_loop_init
          ∷ sdk esp_wifi_init
          ∷ sdk wifi_storage_ram
          ∷ sdk wifi_mode_ap
          ∷ [],
      rw (event_loop, wifi_init, storage, mode, config, wifi_start) refl,
    )

EndsWith-append :
    (tail stages before : List Stage) → EndsWith tail stages → EndsWith tail (before ++ stages)
EndsWith-append tail stages before (b, e) =
    (before ++ b, ap (λ (x : List Stage). before ++ x) e ∙ sym (append_assoc before b tail))

-- The start ends with the access point, the web server and the menu.
app_main-ends :
    (hw : Hardware) (s : Inputs)
    → wants_charging hw s ≡ false
    → is_locked s ≡ false
    → sdk_ok s ≡ true
    → EndsWith
        (served (ap_config s.nvs_opens s.nvs_channel) (wifi_setting s.splash_opens s.nvs_wifi))
        (app_main hw s)
unfolding app_main
app_main-ends hw s c l h =
    rw (c, l)
      (EndsWith-append _ _ (init_hw ∷ []) (
        EndsWith-append _ _
          (if s.keys == bit_or hw.btn_start hw.btn_select then recovery ∷ [] else [])
          (EndsWith-append _ _ (init_sdk ∷ []) (start_up-ends s h))))

-- A start that finds the settings that show_options has saved in the store ends with the access
-- point on the saved channel, one from 1 to 13, then the web server, the splash screen for the
-- saved WiFi setting, and the menu; the access point starts for either setting. The levels were at
-- most 255, the start neither charges nor is locked, and the SDK's calls succeed.
pub saved_options_start :
    (hw : Hardware) (st : Stored) (volume brightness : ℕ) (es : List Event) (saved : Saved)
    (s : Inputs)
    → volume ≤ 255
    → brightness ≤ 255
    → show_options hw st volume brightness es ≡ some saved
    → Finds saved s
    → wants_charging hw s ≡ false
    → is_locked s ≡ false
    → sdk_ok s ≡ true
    → EndsWith (served (on_channel saved.options.channel_val) saved.options.wifi_en) (app_main hw s)
      × 1 ≤ saved.options.channel_val
      × saved.options.channel_val ≤ 13
saved_options_start hw st volume brightness es saved s v b e f c l h =
    let valid = show_options-IsValid hw st volume brightness es saved v b e in
    (
      subst (λ (x : ApConfig × ℕ). EndsWith (served x.0 x.1) (app_main hw s)) (found saved s f)
          (app_main-ends hw s c l h),
      valid.channel_low,
      valid.channel_high,
    )
