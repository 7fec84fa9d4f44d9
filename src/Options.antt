-- ===== src/Options.antt =====
-- The options menu of main/gui.c, and the filter of the chooser's file list.
pub mod Bounds
pub mod Texts
pub mod Saves
use bkc_chooser.Base.{
  ℕ, zero, suc, ◌+◌, ◌-◌, ◌%◌, Bool, true, false, not, ◌&&◌, ◌||◌, Option, none, some, List, [],
  ◌∷◌, ◌++◌, Bytes, codes, ℤ, pos, negsuc, ltb, ◌==◌, eqb_ℤ, if◌then◌else◌, bytes_eq,
}
use bkc_chooser.Hardware.{Hardware, pressed}
use bkc_chooser.Libc.{print_nat}

-- OPT_KEYLOCK, OPT_WIFI, OPT_VOL, OPT_BRIGHT, OPT_CHANNEL: the ids of opt_data_t.
pub data OptId : Type 0 where
  keylock wifi vol bright channel : OptId

-- The variables of show_options that the entries of `odata` point to, and the two settings that
-- the hardware layer keeps.
pub record Options : Type 0 where
  pub keylock_val : ℕ
  pub wifi_en : ℕ
  pub channel_val : ℕ
  pub volume : ℕ
  pub brightness : ℕ

abbrev pub on_off : ℕ → Bytes
on_off v = if v == 0 then codes "OFF" else codes "ON"

-- The text that option_set_text prints for an option.
unfoldable pub option_text : OptId → Options → Bytes
option_text keylock o = codes "Keylock " ++ on_off o.keylock_val
option_text wifi o = codes "WiFi    " ++ on_off o.wifi_en
option_text channel o = codes "Channel " ++ print_nat o.channel_val
option_text vol o = codes "Volume " ++ print_nat o.volume
option_text bright o = codes "Bright " ++ print_nat o.brightness

-- The `user` pointer of each menu entry, in the order of the menu: the last two have none.
unfoldable pub menu_user : ℕ → Option OptId
menu_user zero = some keylock
menu_user (suc zero) = some wifi
menu_user (suc (suc zero)) = some channel
menu_user (suc (suc (suc zero))) = some vol
menu_user (suc (suc (suc (suc zero)))) = some bright
menu_user _ = none

abbrev pub same_id : OptId → OptId → Bool
same_id keylock keylock = true
same_id wifi wifi = true
same_id vol vol = true
same_id bright bright = true
same_id channel channel = true
same_id _ _ = false

-- What show_options keeps while the menu is shown: the values, the buffers `text` by option, and
-- how often debug_screen ran, which changes nothing else.
pub record Menu : Type 0 where
  pub options : Options
  pub texts : OptId → Bytes
  pub debug_shown : ℕ

-- option_set_text.
unfoldable pub option_set_text : OptId → Menu → Menu
option_set_text i m = record m {
  texts = λ j. if same_id i j then option_text i m.options else m.texts j;
}

-- `!v`.
abbrev pub negated : ℕ → ℕ
negated v = if v == 0 then 1 else 0

-- Ten down or up, kept within 0 and 255. `-` stops at 0, where the source sets 0.
unfoldable pub step_level : Bool → ℕ → ℕ
step_level left n =
    let moved = if left then n - 10 else n + 10 in if ltb 255 moved then 255 else moved

-- One down or up, kept within 1 and 13.
unfoldable pub step_channel : Bool → ℕ → ℕ
step_channel left n =
    let moved = if left then n - 1 else n + 1 in
    if ltb moved 1 then 1 else if ltb 13 moved then 13 else moved

-- What a press of left or right does to an entry's value.
unfoldable pub adjust : Bool → OptId → Options → Options
adjust left keylock o = record o { keylock_val = negated o.keylock_val }
adjust left wifi o = record o { wifi_en = negated o.wifi_en }
adjust left vol o = record o { volume = step_level left o.volume }
adjust left bright o = record o { brightness = step_level left o.brightness }
adjust left channel o = record o { channel_val = step_channel left o.channel_val }

-- KCUGUI_CB_CANCEL, 0 and KCUGUI_CB_REFRESH; `fault` is the use of a null pointer.
pub data CbResult : Type 0 where
  cancel ignore refresh fault : CbResult

abbrev pub adjust_at : Bool → Option OptId → Menu → CbResult × Menu
adjust_at left none m = (fault, m)
adjust_at left (some i) m =
    (refresh, option_set_text i (record m { options = adjust left i m.options }))

-- option_menu_cb.
unfoldable pub option_menu_cb : Hardware → ℕ → ℕ → Menu → CbResult × Menu
option_menu_cb hw button item m =
    if button == hw.btn_b
    then (cancel, m)
    else if not (button == hw.btn_left) && not (button == hw.btn_right)
    then (ignore, m)
    else adjust_at (button == hw.btn_left) (menu_user item) m

-- What the menu widget does in turn: it hands a press to the callback, or returns to show_options.
pub data Event : Type 0 where
  press : ℕ → ℕ → Event
  chosen : ℤ → Event

-- The body of the loop of show_options behind a choice.
unfoldable pub choose : ℤ → Menu → Menu
choose ch m =
    if eqb_ℤ ch (pos 0)
    then option_set_text keylock
        (record m { options = record m.options { keylock_val = negated m.options.keylock_val } })
    else if eqb_ℤ ch (pos 1)
    then option_set_text wifi
        (record m { options = record m.options { wifi_en = negated m.options.wifi_en } })
    else if eqb_ℤ ch (pos 5)
    then record m { debug_shown = m.debug_shown + 1 }
    else m

unfoldable pub is_exit : ℤ → Bool
is_exit ch = eqb_ℤ ch (pos 6) || eqb_ℤ ch (negsuc 0)

-- Where the loop stands behind the events: stopped by a null pointer, with the menu on the screen,
-- or left.
pub data MenuEnd : Type 0 where
  faulted : MenuEnd
  showing exited : Menu → MenuEnd

-- The loop.
unfoldable pub menu_loop : Hardware → Menu → List Event → MenuEnd
menu_loop hw m [] = showing m
menu_loop hw m (press button item ∷ es) =
    let (result, m') = option_menu_cb hw button item m in
    let rest = menu_loop hw m' es in elim result [ fault ↦ faulted | _ ↦ rest ]
menu_loop hw m (chosen ch ∷ es) =
    let rest = menu_loop hw (choose ch m) es in if is_exit ch then exited (choose ch m) else rest

-- The settings in the store; a missing one leaves the default.
pub record Stored : Type 0 where
  pub kl : Option ℕ
  pub wifi_set : Option ℕ
  pub channel_set : Option ℕ

abbrev pub or_default : Option ℕ → ℕ → ℕ
or_default none d = d
or_default (some v) d = v

-- The values before the menu is shown.
unfoldable pub load_options : Stored → ℕ → ℕ → Options
load_options st volume brightness =
    let c = or_default st.channel_set 5 in
    record {
      keylock_val = or_default st.kl 0 % 256;
      wifi_en = or_default st.wifi_set 1 % 256;
      channel_val = if ltb c 1 || ltb 13 c then 5 else c;
      volume = volume;
      brightness = brightness;
    }

-- The menu as it is first shown: option_set_text ran for each entry of `odata`.
unfoldable pub open_menu : Options → Menu
open_menu o = option_set_text channel (
    option_set_text bright (
      option_set_text vol (
        option_set_text wifi
          (option_set_text keylock (record { options = o; texts = λ i. []; debug_shown = 0 })))))

-- What show_options leaves: the settings written, and whether it restarts the system.
pub record Saved : Type 0 where
  pub options : Options
  pub reboots : Bool

unfoldable pub save_options : Stored → Options → Options → Saved
save_options st before o = record {
  options = o;
  reboots = not (before.wifi_en == o.wifi_en) || not (o.channel_val == or_default st.channel_set 5);
}

-- The part of show_options behind the loop.
abbrev pub saved_by : Stored → Options → MenuEnd → Option Saved
saved_by st before faulted = none
saved_by st before (showing m) = none
saved_by st before (exited m) = some (save_options st before m.options)

-- show_options, over the events of its menu.
unfoldable pub show_options : Hardware → Stored → ℕ → ℕ → List Event → Option Saved
show_options hw st volume brightness es =
    let before = load_options st volume brightness in
    saved_by st before (menu_loop hw (open_menu before) es)

-- fccallback: the screens that the buttons of the file list open, in turn. Behind `power_down`
-- nothing runs.
pub data Screen : Type 0 where
  power_down options_screen debug_screen : Screen

unfoldable pub fccallback : Hardware → ℕ → List Screen
fccallback hw button =
    (if pressed button hw.btn_power then power_down ∷ [] else [])
    ++ ((if pressed button hw.btn_start then options_screen ∷ [] else [])
        ++ (if pressed button hw.btn_select then debug_screen ∷ [] else []))

-- app_select_filter_fn, over the SDK's match of a name with the patterns of the list.
unfoldable pub app_select_filter_fn : (Bytes → Bytes → Bool) → Bytes → Bytes → Bool
app_select_filter_fn filter_glob name filterarg =
    if bytes_eq name (codes "chooser.app") then false else filter_glob name filterarg
