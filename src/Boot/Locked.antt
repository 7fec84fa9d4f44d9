-- ===== src/Boot/Locked.antt =====
-- The key lock over several starts of main/main.c: app_main, handleCharging, which restarts with
-- the charging screen overridden, and app_main again.
use bkc_chooser.Base.{ℕ, ◌≡◌, refl, sym, ap, ◌∙◌, true, false, inl, inr, List, [], ◌∷◌}
use bkc_chooser.Hardware.{Hardware}
use bkc_chooser.Charging.{
  Sample, Action, set_brightness, gui_init, gui_charging, gui_full, app_cpu_off, cpu_freq_mhz,
  write_rtc, cal_adc, boot_new_app, power_down, handle_charging,
}
use bkc_chooser.Boot.{Inputs, wants_charging, app_main}
use bkc_chooser.Boot.Paths.{opens, has_lock_mark, is_locked_lem, locked_opens}
use bkc_chooser.Boot.Restart.{AllWrites, In, Restarts, handle_charging-Restarts}

-- A value that one of the calls writes to the register.
pub data Written (r : ℕ) : List Action → Type 0 where
  here : {acts : List Action} → Written r (write_rtc r ∷ acts)
  there : {act : Action} {acts : List Action} → Written r acts → Written r (act ∷ acts)

written_value :
    (P : ℕ → Type 0) (r : ℕ) (acts : List Action) → AllWrites P acts → Written r acts → P r
written_value P r _ h here = h.0
written_value P r (write_rtc q ∷ acts) h (there w) = written_value P r acts h.1 w
written_value P r (set_brightness n ∷ acts) h (there w) = written_value P r acts h w
written_value P r (gui_init ∷ acts) h (there w) = written_value P r acts h w
written_value P r (gui_charging b ∷ acts) h (there w) = written_value P r acts h w
written_value P r (gui_full ∷ acts) h (there w) = written_value P r acts h w
written_value P r (app_cpu_off ∷ acts) h (there w) = written_value P r acts h w
written_value P r (cpu_freq_mhz n ∷ acts) h (there w) = written_value P r acts h w
written_value P r (cal_adc ∷ acts) h (there w) = written_value P r acts h w
written_value P r (boot_new_app ∷ acts) h (there w) = written_value P r acts h w
written_value P r (power_down ∷ acts) h (there w) = written_value P r acts h w

-- Every round reads the same register.
abbrev pub Reads : ℕ → List Sample → Type 0
Reads r [] = Unit {0}
Reads r (x ∷ xs) = (x.rtc_reg ≡ r) × Reads r xs

read_value : (r : ℕ) (x : Sample) (xs : List Sample) → Reads r xs → In x xs → x.rtc_reg ≡ r
read_value r x [] h i = absurd i
read_value r x (y ∷ ys) h (inl e) = ap (λ (z : Sample). z.rtc_reg) e ∙ h.0
read_value r x (y ∷ ys) h (inr i) = read_value r x ys h.1 i

module _ (hw : Hardware) where
  -- A start with the register `r` that shows the charging screen and restarts with `q` in it.
  pub data Recharge (r q : ℕ) : Type 0 where
    overridden :
        (s : Inputs) (xs : List Sample)
        → s.rtc_reg ≡ r
        → wants_charging hw s ≡ true
        → Reads r xs
        → Written q (handle_charging hw xs).0
        → Recharge r q

  -- Any number of such starts, one after the other.
  pub data Recharges (r : ℕ) : ℕ → Type 0 where
    at_first : Recharges r r
    again : {q t : ℕ} → Recharges r q → Recharge q t → Recharges r t

  mark-Recharge : (r q : ℕ) → Recharge r q → has_lock_mark q ≡ has_lock_mark r
  mark-Recharge r q (overridden s xs e c reads w) =
      let (x, i, skips, mark) =
        written_value (Restarts hw xs s) q (handle_charging hw xs).0
          (handle_charging-Restarts hw xs s) w in
      sym (is_locked_lem (record s { rtc_reg = q }))
      ∙ mark
      ∙ ap has_lock_mark (read_value r x xs reads i)

  mark-Recharges : (r q : ℕ) → Recharges r q → has_lock_mark q ≡ has_lock_mark r
  mark-Recharges r _ at_first = refl
  mark-Recharges r t (again {q = q} h m) = mark-Recharge q t m ∙ mark-Recharges r q h

  -- From a register with the key lock's mark on, and through any number of starts that show the
  -- charging screen and restart from it, app_main reaches neither the web server nor the menu.
  pub locked_through_restarts :
      (r q : ℕ) (s : Inputs)
      → has_lock_mark r ≡ true
      → Recharges r q
      → s.rtc_reg ≡ q
      → opens (app_main hw s) ≡ false
  locked_through_restarts r q s mark h e =
      locked_opens hw s (ap has_lock_mark e ∙ mark-Recharges r q h ∙ mark)
