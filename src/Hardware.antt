-- ===== src/Hardware.antt =====
-- What the sources under main/ take from 8bkc-hal.h: the codes of buttons and of the charger's
-- state. They are parameters of the model.
use bkc_chooser.Base.{ℕ, Bool, not, ◌==◌, bit_and}

pub record Hardware : Type 0 where
  pub btn_left : ℕ
  pub btn_right : ℕ
  pub btn_a : ℕ
  pub btn_b : ℕ
  pub btn_start : ℕ
  pub btn_select : ℕ
  pub btn_power : ℕ
  pub chg_full : ℕ
  pub chg_charging : ℕ
  pub chg_nocharger : ℕ

-- `keys & mask` as a test.
abbrev pub pressed : ℕ → ℕ → Bool
pressed keys mask = not (bit_and keys mask == 0)
