-- ===== src/Boot.antt =====
-- handleKeyLock and app_main of main/main.c: what the chooser does from power-on to its menu.
pub mod KeyLock
pub mod Paths
pub mod Restart
pub mod Locked
pub mod Channel
use bkc_chooser.Base.{
  ℕ, zero, suc, ◌+◌, ◌%◌, ◌^◌, Bool, not, ◌&&◌, Option, none, some, List, [], ◌∷◌, ◌++◌, Bytes,
  codes, ◌==◌, if◌then◌else◌, bit_and,
}
use Prim.Native.Nat.{bit_or}
use bkc_chooser.Hardware.{Hardware, pressed}
use bkc_chooser.Gui.{Line, wifi_setting, gui_splash}

-- How handleKeyLock ends: with a value for the RTC register and a restart, or without power.
pub data LockEnd : Type 0 where
  unlocked : ℕ → LockEnd
  powered_down : LockEnd

-- The register with the key lock's mark taken off: `(v&0xffffff)|0xa5000000`. The two parts share
-- no bit, so the disjunction is the sum.
unfoldable pub unlock_value : ℕ → ℕ
unlock_value v = v % 2 ^ 24 + 0xa5000000

-- The value of wifi_auth_mode_t that the code names.
pub data AuthMode : Type 0 where
  wifi_auth_open : AuthMode

-- The fields of wifi_config_t that app_main sets.
pub record ApConfig : Type 0 where
  pub ssid : Bytes
  pub authmode : AuthMode
  pub max_connection : ℕ
  pub beacon_interval : ℕ
  pub channel : ℕ

-- The calls of the SDK whose result app_main hands to ESP_ERROR_CHECK.
pub data SdkCall : Type 0 where
  esp_event_loop_init esp_wifi_init : SdkCall
  wifi_storage_ram wifi_mode_ap : SdkCall
  esp_wifi_set_config : ApConfig → SdkCall
  esp_wifi_start : SdkCall

-- What app_main reads, with the answers of the settings store: whether it opens for the channel and
-- for the splash screen, and what it holds. `esp_ok` is which of the SDK's calls return ESP_OK.
pub record Inputs : Type 0 where
  pub keys : ℕ
  pub rtc_reg : ℕ
  pub chg_status : ℕ
  pub nvs_opens : Bool
  pub nvs_channel : Option ℕ
  pub splash_opens : Bool
  pub nvs_wifi : Option ℕ
  pub esp_ok : SdkCall → Bool

-- What app_main does in turn. handleCharging and handleKeyLock do not return. `web_server` is
-- httpdInit with builtInUrls on the port, behind espFsInit; appfsDump and the texts for the console
-- are left out.
pub data Stage : Type 0 where
  init_hw recovery init_sdk charging key_lock : Stage
  delete_temp_files nvs_flash_init tcpip_adapter_init : Stage
  sdk : SdkCall → Stage
  abort : Stage
  web_server : ℕ → Stage
  gui_init : Stage
  splash : List Line → Stage
  menu : Stage

unfoldable pub ap_channel : Bool → Option ℕ → ℕ
ap_channel opens none = 5
ap_channel opens (some c) = if opens then c else 5

unfoldable pub ap_config : Bool → Option ℕ → ApConfig
ap_config opens c = record {
  ssid = codes "pkspr";
  authmode = wifi_auth_open;
  max_connection = 2;
  beacon_interval = 200;
  channel = ap_channel opens c;
}

-- ESP_ERROR_CHECK: the program aborts where a call fails, and otherwise goes on with `rest`.
unfoldable pub checked : Inputs → SdkCall → List Stage → List Stage
checked s call rest = sdk call ∷ (if s.esp_ok call then rest else abort ∷ [])

-- From the file system on.
unfoldable pub start_up : Inputs → List Stage
start_up s =
    delete_temp_files
    ∷ nvs_flash_init
    ∷ tcpip_adapter_init
    ∷ checked s esp_event_loop_init (
        checked s esp_wifi_init (
          checked s wifi_storage_ram (
            checked s wifi_mode_ap (
              checked s (esp_wifi_set_config (ap_config s.nvs_opens s.nvs_channel)) (
                checked s esp_wifi_start (
                  web_server 80
                  ∷ gui_init
                  ∷ splash (gui_splash (wifi_setting s.splash_opens s.nvs_wifi))
                  ∷ menu
                  ∷ []))))))

unfoldable pub is_locked : Inputs → Bool
is_locked s = bit_and s.rtc_reg 0xff000000 == 0xA6000000

module _ (hw : Hardware) where
  open hw use {btn_a, btn_power, btn_start, btn_select, chg_nocharger}

  -- A is down, was not before, and the power button is not down.
  unfoldable pub presses_a : ℕ → ℕ → Bool
  presses_a oldbtn btn =
      not (pressed btn btn_power) && (not (pressed oldbtn btn_a) && pressed btn btn_a)

  -- The rounds that are left, from the reading with index `i` on.
  unfoldable pub lock_loop : ℕ → ℕ → ℕ → (ℕ → ℕ) → ℕ → LockEnd
  lock_loop zero i oldbtn keys v = powered_down
  lock_loop (suc n) i oldbtn keys v =
      let rest = lock_loop n (i + 1) (keys i) keys v in
      if presses_a oldbtn (keys i) then unlocked (unlock_value v) else rest

  -- handleKeyLock: `keys i` is what the call number `i` of kchal_get_keys returns, `v` the
  -- register's value at boot.
  unfoldable pub handle_key_lock : (ℕ → ℕ) → ℕ → LockEnd
  handle_key_lock keys v = lock_loop 15 1 (keys 0) keys v

  unfoldable pub wants_charging : Inputs → Bool
  wants_charging s = not (s.chg_status == chg_nocharger) && bit_and s.rtc_reg 0x100 == 0

  -- app_main.
  unfoldable pub app_main : Inputs → List Stage
  app_main s =
      init_hw
      ∷ ((if s.keys == bit_or btn_start btn_select then recovery ∷ [] else [])
          ++ (init_sdk
              ∷ (if wants_charging s
                  then charging ∷ []
                  else if is_locked s
                  then key_lock ∷ []
                  else start_up s)))
