-- ===== src/Options/Texts.antt =====
-- What the options menu of main/gui.c shows, over the presses and choices of a user.
use bkc_chooser.Base.{
  ℕ, ◌≤◌, Bool, true, false, not, ◌&&◌, List, [], ◌∷◌, ◌≡◌, refl, sym, ap, ◌∙◌, inl, inr,
  Bool-cases, ℤ, pos, eqb_ℤ, ◌==◌, if_keeps, Option, none, some,
}
use bkc_chooser.Hardware.{Hardware}
use bkc_chooser.Options.{
  OptId, keylock, wifi, vol, bright, channel, Options, Menu, same_id, option_text, option_set_text,
  menu_user, adjust, adjust_at, CbResult, fault, cancel, ignore, refresh, option_menu_cb, Event,
  press, chosen, choose, is_exit, MenuEnd, faulted, showing, exited, menu_loop, Stored,
  load_options, open_menu,
}
use bkc_chooser.Options.Bounds.{IsValid, adjust-IsValid, load_options-IsValid}

-- Each buffer holds the text of its option's value, and the values are within their bounds.
pub record IsCurrent (m : Menu) : Type 0 where
  pub text : (i : OptId) → m.texts i ≡ option_text i m.options
  pub valid : IsValid m.options

same_id_lem : (i j : OptId) → same_id i j ≡ true → i ≡ j
same_id_lem keylock keylock h = refl
same_id_lem keylock wifi h = absurd (cc h)
same_id_lem keylock vol h = absurd (cc h)
same_id_lem keylock bright h = absurd (cc h)
same_id_lem keylock channel h = absurd (cc h)
same_id_lem wifi keylock h = absurd (cc h)
same_id_lem wifi wifi h = refl
same_id_lem wifi vol h = absurd (cc h)
same_id_lem wifi bright h = absurd (cc h)
same_id_lem wifi channel h = absurd (cc h)
same_id_lem vol keylock h = absurd (cc h)
same_id_lem vol wifi h = absurd (cc h)
same_id_lem vol vol h = refl
same_id_lem vol bright h = absurd (cc h)
same_id_lem vol channel h = absurd (cc h)
same_id_lem bright keylock h = absurd (cc h)
same_id_lem bright wifi h = absurd (cc h)
same_id_lem bright vol h = absurd (cc h)
same_id_lem bright bright h = refl
same_id_lem bright channel h = absurd (cc h)
same_id_lem channel keylock h = absurd (cc h)
same_id_lem channel wifi h = absurd (cc h)
same_id_lem channel vol h = absurd (cc h)
same_id_lem channel bright h = absurd (cc h)
same_id_lem channel channel h = refl

-- A press changes the text of its own option only.
text-adjust :
    (left : Bool) (i j : OptId) (o : Options)
    → same_id i j ≡ false
    → option_text j (adjust left i o) ≡ option_text j o
unfolding option_text adjust
text-adjust left keylock keylock o h = absurd (cc h)
text-adjust left keylock wifi o h = refl
text-adjust left keylock vol o h = refl
text-adjust left keylock bright o h = refl
text-adjust left keylock channel o h = refl
text-adjust left wifi keylock o h = refl
text-adjust left wifi wifi o h = absurd (cc h)
text-adjust left wifi vol o h = refl
text-adjust left wifi bright o h = refl
text-adjust left wifi channel o h = refl
text-adjust left vol keylock o h = refl
text-adjust left vol wifi o h = refl
text-adjust left vol vol o h = absurd (cc h)
text-adjust left vol bright o h = refl
text-adjust left vol channel o h = refl
text-adjust left bright keylock o h = refl
text-adjust left bright wifi o h = refl
text-adjust left bright vol o h = refl
text-adjust left bright bright o h = absurd (cc h)
text-adjust left bright channel o h = refl
text-adjust left channel keylock o h = refl
text-adjust left channel wifi o h = refl
text-adjust left channel vol o h = refl
text-adjust left channel bright o h = refl
text-adjust left channel channel o h = absurd (cc h)

texts-option_set_text :
    (i j : OptId) (m : Menu)
    → (same_id i j ≡ false → m.texts j ≡ option_text j m.options)
    → (option_set_text i m).texts j ≡ option_text j (option_set_text i m).options
unfolding option_set_text
texts-option_set_text i j m h = elim (Bool-cases (same_id i j)) [
  | inl e ↦ rw e (ap (λ (k : OptId). option_text k m.options) (same_id_lem i j e))
  | inr e ↦ rw e (h e)
]

adjusted-IsCurrent :
    (left : Bool) (i : OptId) (m : Menu)
    → IsCurrent m
    → IsCurrent (option_set_text i (record m { options = adjust left i m.options }))
unfolding option_set_text
adjusted-IsCurrent left i m h = record {
  text = λ j.
      texts-option_set_text i j (record m { options = adjust left i m.options })
        (λ e. h.text j ∙ sym (text-adjust left i j m.options e));
  valid = adjust-IsValid left i m.options h.valid;
}

adjust_at-IsCurrent :
    (left : Bool) (user : Option OptId) (m : Menu)
    → IsCurrent m
    → IsCurrent (adjust_at left user m).1
adjust_at-IsCurrent left none m h = h
adjust_at-IsCurrent left (some i) m h = adjusted-IsCurrent left i m h

pub option_menu_cb-IsCurrent :
    (hw : Hardware) (button item : ℕ) (m : Menu)
    → IsCurrent m
    → IsCurrent (option_menu_cb hw button item m).1
unfolding option_menu_cb
option_menu_cb-IsCurrent hw button item m h =
    if_keeps Kept (button == hw.btn_b) (cancel, m) _ h
      (if_keeps Kept (not (button == hw.btn_left) && not (button == hw.btn_right)) (ignore, m) _ h
        (adjust_at-IsCurrent (button == hw.btn_left) (menu_user item) m h))
  where
    Kept : CbResult × Menu → Type 0
    Kept r = IsCurrent r.1

pub choose-IsCurrent : (ch : ℤ) (m : Menu) → IsCurrent m → IsCurrent (choose ch m)
unfolding choose adjust
choose-IsCurrent ch m h =
    if_keeps IsCurrent (eqb_ℤ ch (pos 0)) _ _ (adjusted-IsCurrent true keylock m h) (
      if_keeps IsCurrent (eqb_ℤ ch (pos 1)) _ _ (adjusted-IsCurrent true wifi m h)
        (if_keeps IsCurrent (eqb_ℤ ch (pos 5)) _ _ (record { text = h.text; valid = h.valid }) h))

-- What holds of the menu behind the events, left or not.
abbrev pub MenuHolds : (Menu → Type 0) → MenuEnd → Type 0
MenuHolds P faulted = Unit {0}
MenuHolds P (showing m) = P m
MenuHolds P (exited m) = P m

after_press :
    (result : CbResult) (rest : MenuEnd)
    → MenuHolds IsCurrent rest
    → MenuHolds IsCurrent (elim result [ fault ↦ faulted | _ ↦ rest ])
after_press cancel rest h = h
after_press ignore rest h = h
after_press refresh rest h = h
after_press fault rest h = tt

menu_loop-IsCurrent :
    (hw : Hardware) (m : Menu) (es : List Event)
    → IsCurrent m
    → MenuHolds IsCurrent (menu_loop hw m es)
unfolding menu_loop
menu_loop-IsCurrent hw m [] h = h
menu_loop-IsCurrent hw m (press button item ∷ es) h = after_press _ _ (
    menu_loop-IsCurrent hw (option_menu_cb hw button item m).1 es
      (option_menu_cb-IsCurrent hw button item m h))
menu_loop-IsCurrent hw m (chosen ch ∷ es) h =
    if_keeps (MenuHolds IsCurrent) (is_exit ch) _ _ (choose-IsCurrent ch m h)
      (menu_loop-IsCurrent hw (choose ch m) es (choose-IsCurrent ch m h))

pub open_menu-IsCurrent : (o : Options) → IsValid o → IsCurrent (open_menu o)
unfolding open_menu option_set_text
open_menu-IsCurrent o h = record { text = shown; valid = h }
  where
    shown : (i : OptId) → (open_menu o).texts i ≡ option_text i o
    shown keylock = refl
    shown wifi = refl
    shown vol = refl
    shown bright = refl
    shown channel = refl

-- After any presses and choices on the options menu, whether it is left by then or not, the text of
-- each option is that of its value, the channel is one from 1 to 13 whatever was stored, and the
-- levels are at most 255, if they were so when the menu was opened. A press that goes through a
-- null pointer ends the program.
pub menu_stays-IsCurrent :
    (hw : Hardware) (st : Stored) (volume brightness : ℕ) (es : List Event)
    → volume ≤ 255
    → brightness ≤ 255
    → MenuHolds IsCurrent (menu_loop hw (open_menu (load_options st volume brightness)) es)
menu_stays-IsCurrent hw st volume brightness es v b =
    menu_loop-IsCurrent hw (open_menu (load_options st volume brightness)) es (
      open_menu-IsCurrent (load_options st volume brightness)
        (load_options-IsValid st volume brightness v b))
