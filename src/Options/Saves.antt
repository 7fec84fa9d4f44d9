-- ===== src/Options/Saves.antt =====
-- Leaving the options menu of main/gui.c.
use bkc_chooser.Base.{
  ℕ, ◌≤◌, Bool, true, false, not, ◌&&◌, ◌||◌, List, [], ◌∷◌, ◌≡◌, refl, ap, ◌∙◌, ◌≢◌, ℤ, pos,
  negsuc, eqb_ℤ, if◌then◌else◌, Option, none, ◌==◌, ltb, some, arith,
}
use mathlib.Core.Path.{subst}
use bkc_chooser.Hardware.{Hardware}
use bkc_chooser.Options.{
  Options, Menu, CbResult, fault, cancel, ignore, refresh, option_menu_cb, Event, press, chosen,
  choose, is_exit, MenuEnd, faulted, showing, exited, menu_loop, Stored, or_default, load_options,
  open_menu, option_set_text, Saved, save_options, saved_by, show_options,
}
use bkc_chooser.Options.Bounds.{IsValid, callback_faults}
use bkc_chooser.Options.Texts.{IsCurrent, MenuHolds, menu_stays-IsCurrent}

module _ (hw : Hardware) where
  -- No press of left or right at an entry without data.
  abbrev pub is_safe : Event → Bool
  is_safe (press button item) =
      button == hw.btn_b
      || (not (button == hw.btn_left) && not (button == hw.btn_right) || ltb item 5)
  is_safe (chosen ch) = true

  abbrev pub all_safe : List Event → Bool
  all_safe [] = true
  all_safe (e ∷ es) = is_safe e && all_safe es

  -- Whether the entry Exit, the entry with the index 6, is chosen, or the menu is cancelled, which
  -- the widget answers with -1.
  abbrev pub has_exit : List Event → Bool
  has_exit [] = false
  has_exit (press button item ∷ es) = has_exit es
  has_exit (chosen ch ∷ es) = (eqb_ℤ ch (pos 6) || eqb_ℤ ch (negsuc 0)) || has_exit es

  safe_callback :
      (button item : ℕ) (m : Menu)
      → is_safe (press button item) ≡ true
      → (option_menu_cb hw button item m).0 ≢ fault
  safe_callback button item m h e =
      let (a, b, c) = (callback_faults hw button item m).0 e in ground (arith, h, a, b, c)

  goes_on :
      (result : CbResult) (rest : MenuEnd)
      → result ≢ fault
      → (elim result [ fault ↦ faulted | _ ↦ rest ]) ≡ rest
  goes_on cancel rest h = refl
  goes_on ignore rest h = refl
  goes_on refresh rest h = refl
  goes_on fault rest h = absurd (h refl)

  abbrev is_left : MenuEnd → Bool
  is_left (exited m) = true
  is_left _ = false

  is_exit_lem : (ch : ℤ) → is_exit ch ≡ (eqb_ℤ ch (pos 6) || eqb_ℤ ch (negsuc 0))
  unfolding is_exit
  is_exit_lem ch = refl

  menu_loop-left :
      (m : Menu) (es : List Event) → all_safe es ≡ true → is_left (menu_loop hw m es) ≡ has_exit es
  unfolding menu_loop
  menu_loop-left m [] s = refl
  menu_loop-left m (press button item ∷ es) s =
      let r = option_menu_cb hw button item m in
      ap is_left
        (goes_on r.0 (menu_loop hw r.1 es) (safe_callback button item m (ground (arith, s))))
      ∙ menu_loop-left r.1 es (ground (arith, s))
  menu_loop-left m (chosen ch ∷ es) s = rw (is_exit_lem ch) (
      left (eqb_ℤ ch (pos 6) || eqb_ℤ ch (negsuc 0)) (choose ch m) (menu_loop hw (choose ch m) es)
        (has_exit es) (menu_loop-left (choose ch m) es s))
    where
      left :
          (b : Bool) (t : Menu) (r : MenuEnd) (x : Bool)
          → is_left r ≡ x
          → is_left (if b then exited t else r) ≡ (b || x)
      left true t r x e = refl
      left false t r x e = e

  abbrev pub returns : Option Saved → Bool
  returns none = false
  returns (some saved) = true

  returns-saved_by :
      (st : Stored) (before : Options) (r : MenuEnd) → returns (saved_by st before r) ≡ is_left r
  returns-saved_by st before faulted = refl
  returns-saved_by st before (showing m) = refl
  returns-saved_by st before (exited m) = refl

  -- Where no press goes through a null pointer, show_options returns exactly where the entry Exit is
  -- chosen or the menu is cancelled at some point, whatever is stored and whatever else is pressed.
  pub show_options_returns :
      (st : Stored) (volume brightness : ℕ) (es : List Event)
      → all_safe es ≡ true
      → returns (show_options hw st volume brightness es) ≡ has_exit es
  unfolding show_options
  show_options_returns st volume brightness es s =
      let before = load_options st volume brightness in
      returns-saved_by st before (menu_loop hw (open_menu before) es)
      ∙ menu_loop-left (open_menu before) es s

  saved_by-IsValid :
      (st : Stored) (before : Options) (r : MenuEnd) (saved : Saved)
      → MenuHolds IsCurrent r
      → saved_by st before r ≡ some saved
      → IsValid saved.options
  unfolding save_options
  saved_by-IsValid st before faulted saved h e = absurd (cc e)
  saved_by-IsValid st before (showing m) saved h e = absurd (cc e)
  saved_by-IsValid st before (exited m) saved h e =
      let same : save_options st before m.options ≡ saved = cc e in
      subst (λ (x : Saved). IsValid x.options) same h.valid

  -- What show_options saves has its bounds, however the menu was left.
  pub show_options-IsValid :
      (st : Stored) (volume brightness : ℕ) (es : List Event) (saved : Saved)
      → volume ≤ 255
      → brightness ≤ 255
      → show_options hw st volume brightness es ≡ some saved
      → IsValid saved.options
  unfolding show_options
  show_options-IsValid st volume brightness es saved v b e =
      let before = load_options st volume brightness in
      saved_by-IsValid st before (menu_loop hw (open_menu before) es) saved
        (menu_stays-IsCurrent hw st volume brightness es v b) e

-- Leaving the menu at once restarts the system exactly where the stored channel is not one from 1
-- to 13, although nothing was changed.
leave_at_once :
    (hw : Hardware) (st : Stored) (volume brightness : ℕ)
    → show_options hw st volume brightness (chosen (pos 6) ∷ [])
      ≡ some (record {
        options = load_options st volume brightness;
        reboots = let c = or_default st.channel_set 5 in ltb c 1 || ltb 13 c;
      })
unfolding show_options save_options menu_loop open_menu option_set_text choose is_exit load_options
leave_at_once hw st volume brightness = ground arith
