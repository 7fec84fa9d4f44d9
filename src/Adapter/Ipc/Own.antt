-- ===== src/Adapter/Ipc/Own.antt =====
-- The access point's address while several tasks call the adapter, and the one that guiSplash of
-- main/gui.c shows.
use bkc_chooser.Base.{
  ℕ, ◌/◌, ◌%◌, Bool, true, false, ◌||◌, Option, some, List, [], ◌∷◌, ◌++◌, Bytes, codes, bytes_eq,
  ◌≡◌, refl, sym, ap, ◌∙◌, if◌then◌else◌, if_keeps_by, ◌==◌,
}
use mathlib.Core.Path.{subst}
use bkc_chooser.Libc.{print_nat, print_base}
use bkc_chooser.Gui.{Line, gui_splash}
use bkc_chooser.Adapter.{If, IpInfo, Lwip, Adapter, Err, ok, up, ap_default, adapter_init}
use bkc_chooser.Adapter.Address.{current_info, get_ip_info}
use bkc_chooser.Adapter.Names.{get_dns_info}
use bkc_chooser.Adapter.Ready.{state_after}
use bkc_chooser.Adapter.Own.{own, Keeps, own-timer, own-dhcpc_cb, own-init}
use bkc_chooser.Adapter.Own.Calls.{
  sets_own, Keeps-start, Keeps-stop, Keeps-up, Keeps-down, Keeps-set_old, Keeps-set_ip,
  Keeps-dhcps_start, Keeps-dhcps_stop, Keeps-dhcpc_start, Keeps-dhcpc_stop, Keeps-set_dns,
  Keeps-set_host,
}
use bkc_chooser.Adapter.Ipc.{Api, Tasks, Reachable}
use bkc_chooser.Adapter.Ipc.Serial.{Reachable_keeps}
use bkc_chooser.Adapter.Ipc.Ready.{
  Message, start, stop, up as take_up, down, set_old_ip, set_ip, dhcps_start, dhcps_stop,
  dhcpc_start, dhcpc_stop, set_dns, set_host, get_dns, state_after-unchanged, body, result, Beside,
  sets_init_fn, init_again, local_call, client_event, timer_expires, stack_moves, beside,
  initialised,
}

-- Whether a message sets the access point's address.
abbrev pub moves_own : Message → Bool
moves_own (set_ip i info) = sets_own i
moves_own _ = false

abbrev pub Steady : Type 0
Steady = (f : Message) × (moves_own f ≡ false)

-- An address in dotted notation, in an URL.
abbrev pub dotted : ℕ → Bytes
dotted a =
    print_nat (a % 0x100)
    ++ (codes "."
        ++ (print_nat (a / 0x100 % 0x100)
            ++ (codes "."
                ++ (print_nat (a / 0x10000 % 0x100) ++ (codes "." ++ print_nat (a / 0x1000000))))))

abbrev pub url_of : ℕ → Bytes
url_of a = codes "HTTP://" ++ (dotted a ++ codes "/")

abbrev pub shows : Bytes → List Line → Bool
shows t [] = false
shows t (l ∷ ls) = bytes_eq l.text t || shows t ls

module _ (lw : Lwip) where
  open lw use {Stack}

  -- lwIP's own task leaves the access point's address alone, too.
  abbrev pub beside_steady : Beside lw → Adapter Stack → Adapter Stack
  beside_steady (local_call f) a =
      let b = beside lw (local_call f) a in if moves_own f then a else b
  beside_steady o a = beside lw o a

  abbrev pub steady_messages : Api Steady (Beside lw) (Adapter Stack) (Option Err)
  steady_messages = record {
    api_fn = λ f a. (result lw (body lw f.0 a), state_after a (body lw f.0 a));
    own = beside_steady;
  }

  body-Keeps : (f : Message) (a : Adapter Stack) → moves_own f ≡ false → Keeps lw a (body lw f a)
  unfolding body
  body-Keeps (start i mac info) a h = Keeps-start lw i mac info a
  body-Keeps (stop i) a h = Keeps-stop lw i a
  body-Keeps (take_up i) a h = Keeps-up lw i a
  body-Keeps (down i) a h = Keeps-down lw i a
  body-Keeps (set_old_ip i info) a h = Keeps-set_old lw i info a
  body-Keeps (set_ip i info) a h = Keeps-set_ip lw i info a h
  body-Keeps (dhcps_start i) a h = Keeps-dhcps_start lw i a
  body-Keeps (dhcps_stop i) a h = Keeps-dhcps_stop lw i a
  body-Keeps (dhcpc_start i) a h = Keeps-dhcpc_start lw i a
  body-Keeps (dhcpc_stop i) a h = Keeps-dhcpc_stop lw i a
  body-Keeps (set_dns i type ip) a h = Keeps-set_dns lw i type ip a
  body-Keeps (set_host i name) a h = Keeps-set_host lw i name a
  body-Keeps (get_dns i type) a h = ap (own lw) (state_after-unchanged a (get_dns_info lw i type a))

  abbrev IsDefault : Adapter Stack → Type 0
  IsDefault a = own lw a ≡ ap_default

  beside-IsDefault :
      (o : Beside lw) (a : Adapter Stack) → IsDefault a → IsDefault (beside_steady o a)
  unfolding beside
  beside-IsDefault (sets_init_fn i) a h = h
  beside-IsDefault init_again a h = own-init lw a h
  beside-IsDefault (local_call f) a h =
      if_keeps_by IsDefault (moves_own f) _ _ (λ e. h) (λ e. body-Keeps f a e ∙ h)
  beside-IsDefault (client_event i) a h = own-dhcpc_cb lw i a ∙ h
  beside-IsDefault (timer_expires i) a h = own-timer lw i a ∙ h
  beside-IsDefault (stack_moves s) a h = h

  initialised-IsDefault : (s : Stack) → IsDefault (initialised lw s)
  unfolding adapter_init
  initialised-IsDefault s = refl

  splash_names :
      (wifi_en : ℕ)
      → (wifi_en == 0) ≡ false
      → shows (url_of ap_default.ip) (gui_splash wifi_en) ≡ true
  unfolding gui_splash print_nat print_base
  splash_names wifi_en h = rw h refl

  -- However the calls of any number of tasks interleave with lwIP's callbacks, of which none sets
  -- the access point's address: as long as the access point is not up, the address that
  -- tcpip_adapter_get_ip_info gives for it is the one in the URL that the splash screen shows where
  -- the WiFi is on.
  pub splash_shows_address :
      (s : Stack) (t : Tasks Steady (Adapter Stack) (Option Err)) (wifi_en : ℕ) (info : IpInfo)
      → Reachable steady_messages (initialised lw s) t
      → up lw If.ap t.adapter ≡ false
      → get_ip_info lw (some If.ap) t.adapter ≡ (ok, some info)
      → (wifi_en == 0) ≡ false
      → shows (url_of info.ip) (gui_splash wifi_en) ≡ true
  unfolding get_ip_info current_info
  splash_shows_address s t wifi_en info h idle e w =
      let kept : IsDefault t.adapter =
        Reachable_keeps steady_messages IsDefault (λ f a k. body-Keeps f.0 a f.1 ∙ k)
          beside-IsDefault (initialised lw s) t h (initialised-IsDefault s) in
      let given : ap_default ≡ info = sym kept ∙ cc (rw idle at e) in
      subst (λ (x : IpInfo). shows (url_of x.ip) (gui_splash wifi_en) ≡ true) given
        (splash_names wifi_en w)
