-- ===== src/Boot/Restart.antt =====
-- What the next start makes of the RTC register that handleCharging and handleKeyLock leave.
use bkc_chooser.Base.{
  ℕ, ◌/◌, ◌%◌, ◌≡◌, ◌⊎◌, inl, inr, refl, sym, ap, ◌∙◌, ◌+◌, ◌^◌, Bool, true, false, ◌&&◌, ◌||◌,
  List, [], ◌∷◌, ◌++◌, arith, ◌==◌, bit_or, bit_and_0x100, bit_or_0x100,
}
use bkc_chooser.Hardware.{Hardware}
use bkc_chooser.Charging.{
  Sample, Action, set_brightness, gui_init, gui_charging, gui_full, app_cpu_off, cpu_freq_mhz,
  write_rtc, cal_adc, boot_new_app, power_down, Charge, show_charge, calibrate, override,
  charge_loop, handle_charging,
}
use bkc_chooser.Boot.{
  Inputs, unlocked, wants_charging, is_locked, unlock_value, handle_key_lock, app_main,
}
use bkc_chooser.Boot.KeyLock.{pressed_in, outcome, handle_key_lock-outcome}
use bkc_chooser.Boot.Paths.{
  serves, shows_menu, has_lock_mark, skips_charging, admits, sdk_ok, is_locked_lem, app_main-opens,
}

-- The values that the calls write to the register, and what holds of all of them.
abbrev pub AllWrites : (ℕ → Type 0) → List Action → Type 0
AllWrites P [] = Unit {0}
AllWrites P (write_rtc r ∷ acts) = P r × AllWrites P acts
AllWrites P (_ ∷ acts) = AllWrites P acts

AllWrites-append :
    (P : ℕ → Type 0) (xs ys : List Action)
    → AllWrites P xs
    → AllWrites P ys
    → AllWrites P (xs ++ ys)
AllWrites-append P [] ys h k = k
AllWrites-append P (write_rtc r ∷ xs) ys h k = (h.0, AllWrites-append P xs ys h.1 k)
AllWrites-append P (set_brightness n ∷ xs) ys h k = AllWrites-append P xs ys h k
AllWrites-append P (gui_init ∷ xs) ys h k = AllWrites-append P xs ys h k
AllWrites-append P (gui_charging b ∷ xs) ys h k = AllWrites-append P xs ys h k
AllWrites-append P (gui_full ∷ xs) ys h k = AllWrites-append P xs ys h k
AllWrites-append P (app_cpu_off ∷ xs) ys h k = AllWrites-append P xs ys h k
AllWrites-append P (cpu_freq_mhz n ∷ xs) ys h k = AllWrites-append P xs ys h k
AllWrites-append P (cal_adc ∷ xs) ys h k = AllWrites-append P xs ys h k
AllWrites-append P (boot_new_app ∷ xs) ys h k = AllWrites-append P xs ys h k
AllWrites-append P (power_down ∷ xs) ys h k = AllWrites-append P xs ys h k

-- One of the rounds.
abbrev pub In : Sample → List Sample → Type 0
In x [] = ⊥
In x (y ∷ ys) = (x ≡ y) ⊎ In x ys

AllWrites-mono :
    (P Q : ℕ → Type 0)
    → ((r : ℕ) → P r → Q r)
    → (acts : List Action) → AllWrites P acts
    → AllWrites Q acts
AllWrites-mono P Q f [] h = tt
AllWrites-mono P Q f (write_rtc r ∷ acts) h = (f r h.0, AllWrites-mono P Q f acts h.1)
AllWrites-mono P Q f (set_brightness n ∷ acts) h = AllWrites-mono P Q f acts h
AllWrites-mono P Q f (gui_init ∷ acts) h = AllWrites-mono P Q f acts h
AllWrites-mono P Q f (gui_charging b ∷ acts) h = AllWrites-mono P Q f acts h
AllWrites-mono P Q f (gui_full ∷ acts) h = AllWrites-mono P Q f acts h
AllWrites-mono P Q f (app_cpu_off ∷ acts) h = AllWrites-mono P Q f acts h
AllWrites-mono P Q f (cpu_freq_mhz n ∷ acts) h = AllWrites-mono P Q f acts h
AllWrites-mono P Q f (cal_adc ∷ acts) h = AllWrites-mono P Q f acts h
AllWrites-mono P Q f (boot_new_app ∷ acts) h = AllWrites-mono P Q f acts h
AllWrites-mono P Q f (power_down ∷ acts) h = AllWrites-mono P Q f acts h

wants_charging_override :
    (hw : Hardware) (s : Inputs) (old : ℕ)
    → wants_charging hw (record s { rtc_reg = bit_or old 0x100 }) ≡ false
unfolding wants_charging
wants_charging_override hw s old =
    ground (arith, bit_and_0x100 (bit_or old 0x100), bit_or_0x100 old)

has_lock_mark_override : (old : ℕ) → has_lock_mark (bit_or old 0x100) ≡ has_lock_mark old
has_lock_mark_override old = ground (arith, bit_or_0x100 old)

-- After handleKeyLock has unlocked, the next start finds no mark of the key lock.
pub unlock_value_opens :
    (s : Inputs) (v : ℕ) → is_locked (record s { rtc_reg = unlock_value v }) ≡ false
unfolding unlock_value
unlock_value_opens s v = is_locked_lem (record s { rtc_reg = unlock_value v }) ∙ (ground arith)

admits_unlock :
    (hw : Hardware) (s : Inputs) (v : ℕ)
    → admits hw (record s { rtc_reg = unlock_value v })
      ≡ (s.chg_status == hw.chg_nocharger || skips_charging v)
unfolding unlock_value
admits_unlock hw s v =
    let kept : (v % 2 ^ 24 + 0xa5000000) / 256 % 2 ≡ v / 256 % 2 = omega arith in
    let mark : has_lock_mark (v % 2 ^ 24 + 0xa5000000) ≡ false = ground arith in
    rw (kept, mark) (ground arith)

left_by :
    (hw : Hardware) (keys : ℕ → ℕ) (v r : ℕ)
    → handle_key_lock hw keys v ≡ unlocked r
    → r ≡ unlock_value v
left_by hw keys v r h = go (pressed_in hw keys v 15 0) (sym (handle_key_lock-outcome hw keys v) ∙ h)
  where
    go : (b : Bool) → outcome hw keys v b ≡ unlocked r → r ≡ unlock_value v
    go true e = cc e
    go false e = absurd (cc e)

-- Where handleKeyLock unlocks, the start after it starts the web server and shows the menu, each
-- exactly where the SDK's calls succeed, and there is no charger or the register that handleKeyLock
-- was given has the bit that skips the charging screen.
pub unlocked_start :
    (hw : Hardware) (keys : ℕ → ℕ) (v r : ℕ) (s : Inputs)
    → handle_key_lock hw keys v ≡ unlocked r
    → let goes_on = (s.chg_status == hw.chg_nocharger || skips_charging v) && sdk_ok s in
      (serves (app_main hw (record s { rtc_reg = r })) ≡ goes_on)
      × (shows_menu (app_main hw (record s { rtc_reg = r })) ≡ goes_on)
unlocked_start hw keys v r s h = rw (left_by hw keys v r h) (
    let (a, b) = app_main-opens hw (record s { rtc_reg = unlock_value v }) in
    let e = ap (λ (x : Bool). x && sdk_ok s) (admits_unlock hw s v) in (a ∙ e, b ∙ e))

module _ (hw : Hardware) where
  -- A register value that a round of `xs` leaves for the next start.
  abbrev Left : List Sample → ℕ → Type 0
  Left xs r = (x : Sample) × In x xs × (r ≡ bit_or x.rtc_reg 0x100)

  AllWrites-show_charge :
      (P : ℕ → Type 0) (c : Charge) (x : Sample) → AllWrites P (show_charge hw c x).1
  unfolding show_charge
  AllWrites-show_charge P c x = ground arith

  AllWrites-calibrate : (P : ℕ → Type 0) (c : Charge) → AllWrites P (calibrate c).1
  unfolding calibrate
  AllWrites-calibrate P c = ground arith

  AllWrites-override : (x : Sample) (xs : List Sample) → AllWrites (Left (x ∷ xs)) (override x)
  unfolding override
  AllWrites-override x xs = ((x, inl refl, refl), tt)

  AllWrites-charge_loop :
      (c : Charge) (xs : List Sample) → AllWrites (Left xs) (charge_loop hw c xs).0
  unfolding charge_loop
  AllWrites-charge_loop c [] = tt
  AllWrites-charge_loop c (x ∷ xs) =
      let P = Left (x ∷ xs) in
      let c₁ = (show_charge hw c x).0 in
      let c₂ = (calibrate c₁).0 in
      let shown = AllWrites-show_charge P c x in
      let later : AllWrites P (charge_loop hw c₂ xs).0 =
        AllWrites-mono (Left xs) P (λ r (y, i, e). (y, inr i, e)) (charge_loop hw c₂ xs).0
          (AllWrites-charge_loop c₂ xs) in
      let calibrated = AllWrites-calibrate P c₁ in
      let acts = (calibrate c₁).1 in
      let shows = (show_charge hw c x).1 in
      ground (
        arith,
        AllWrites-append P shows (override x) shown (AllWrites-override x xs),
        AllWrites-append P shows (acts ++ (cpu_freq_mhz 80 ∷ power_down ∷ [])) shown
            (AllWrites-append P acts (cpu_freq_mhz 80 ∷ power_down ∷ []) calibrated tt),
        AllWrites-append P shows (acts ++ (charge_loop hw c₂ xs).0) shown
            (AllWrites-append P acts (charge_loop hw c₂ xs).0 calibrated later),
      )

  -- What the next start does with the value `r`.
  abbrev pub Restarts : List Sample → Inputs → ℕ → Type 0
  Restarts xs s r =
      (x : Sample) × In x xs
      × (wants_charging hw (record s { rtc_reg = r }) ≡ false)
      × (is_locked (record s { rtc_reg = r }) ≡ has_lock_mark x.rtc_reg)

  Left-Restarts : (xs : List Sample) (s : Inputs) (r : ℕ) → Left xs r → Restarts xs s r
  Left-Restarts xs s r (x, i, e) = rw e (
    x,
    i,
    wants_charging_override hw s x.rtc_reg,
    is_locked_lem (record s { rtc_reg = bit_or x.rtc_reg 0x100 })
        ∙ has_lock_mark_override x.rtc_reg,
  )

  -- Every value that handleCharging writes to the register makes the next start skip the charging
  -- screen, and show the key lock exactly where the register that it read in one of its rounds had
  -- the key lock's mark.
  pub handle_charging-Restarts :
      (xs : List Sample) (s : Inputs) → AllWrites (Restarts xs s) (handle_charging hw xs).0
  unfolding handle_charging
  handle_charging-Restarts xs s =
      let start : Charge = record { full_ctr = 0; fix_full = false } in
      AllWrites-mono (Left xs) (Restarts xs s) (Left-Restarts xs s) (charge_loop hw start xs).0
        (AllWrites-charge_loop start xs)
