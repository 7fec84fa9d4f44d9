-- ===== src/Options/Bounds.antt =====
-- The bounds on the values of the options menu, and where option_menu_cb fails.
use bkc_chooser.Base.{
  ℕ, zero, suc, ◌≤◌, ◌<◌, Bool, false, none, some, ◌≡◌, refl, ◌↔◌, ◌⊎◌, inl, inr, ◌==◌, arith,
}
use bkc_chooser.Hardware.{Hardware}
use bkc_chooser.Options.{
  Menu, OptId, keylock, wifi, vol, bright, channel, Options, menu_user, step_level, step_channel,
  adjust, fault, option_menu_cb, Stored, load_options,
}

-- A channel of the access point, and levels that fit a byte.
pub record IsValid (o : Options) : Type 0 where
  pub channel_low : 1 ≤ o.channel_val
  pub channel_high : o.channel_val ≤ 13
  pub volume_fits : o.volume ≤ 255
  pub brightness_fits : o.brightness ≤ 255

step_level_bound : (left : Bool) (n : ℕ) → step_level left n ≤ 255
unfolding step_level
step_level_bound left n = ground arith

step_channel_bounds : (left : Bool) (n : ℕ) → 1 ≤ step_channel left n × step_channel left n ≤ 13
unfolding step_channel
step_channel_bounds left n = ground arith

pub adjust-IsValid : (left : Bool) (i : OptId) (o : Options) → IsValid o → IsValid (adjust left i o)
unfolding adjust
adjust-IsValid left keylock o h = record {
  channel_low = h.channel_low;
  channel_high = h.channel_high;
  volume_fits = h.volume_fits;
  brightness_fits = h.brightness_fits;
}
adjust-IsValid left wifi o h = record {
  channel_low = h.channel_low;
  channel_high = h.channel_high;
  volume_fits = h.volume_fits;
  brightness_fits = h.brightness_fits;
}
adjust-IsValid left vol o h = record {
  channel_low = h.channel_low;
  channel_high = h.channel_high;
  volume_fits = step_level_bound left o.volume;
  brightness_fits = h.brightness_fits;
}
adjust-IsValid left bright o h = record {
  channel_low = h.channel_low;
  channel_high = h.channel_high;
  volume_fits = h.volume_fits;
  brightness_fits = step_level_bound left o.brightness;
}
adjust-IsValid left channel o h = record {
  channel_low = (step_channel_bounds left o.channel_val).0;
  channel_high = (step_channel_bounds left o.channel_val).1;
  volume_fits = h.volume_fits;
  brightness_fits = h.brightness_fits;
}

menu_user-cases :
    (item : ℕ)
    → (5 ≤ item × menu_user item ≡ none) ⊎ (item < 5 × (i : OptId) × menu_user item ≡ some i)
unfolding menu_user
menu_user-cases zero = inr (omega arith, keylock, refl)
menu_user-cases (suc zero) = inr (omega arith, wifi, refl)
menu_user-cases (suc (suc zero)) = inr (omega arith, channel, refl)
menu_user-cases (suc (suc (suc zero))) = inr (omega arith, vol, refl)
menu_user-cases (suc (suc (suc (suc zero)))) = inr (omega arith, bright, refl)
menu_user-cases (suc (suc (suc (suc (suc n))))) = inl (omega arith, refl)

-- A press of left or right on an entry without data makes the callback read through a null
-- pointer: it fails exactly there, on the entries from the sixth on.
pub callback_faults :
    (hw : Hardware) (button item : ℕ) (m : Menu)
    → ((option_menu_cb hw button item m).0 ≡ fault) ↔ (
        ((button == hw.btn_b) ≡ false)
        × ((button ≡ hw.btn_left) ⊎ (button ≡ hw.btn_right))
        × 5 ≤ item)
unfolding option_menu_cb
callback_faults hw button item m = elim (menu_user-cases item) [
  | inl (a, e) ↦ ground arith
  | inr (a, i, e) ↦ ground arith
]

pub load_options-IsValid :
    (st : Stored) (volume brightness : ℕ)
    → volume ≤ 255
    → brightness ≤ 255
    → IsValid (load_options st volume brightness)
unfolding load_options
load_options-IsValid st volume brightness v b = record {
  channel_low = ground arith;
  channel_high = ground arith;
  volume_fits = v;
  brightness_fits = b;
}
