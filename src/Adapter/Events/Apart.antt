-- ===== src/Adapter/Events/Apart.antt =====
-- Every call, callback and timer of the adapter is a step of the machine of events, and what
-- follows for the losses that are announced.
use bkc_chooser.Base.{Bool, true, false, none, some, List, [], ◌∷◌, ◌≡◌, refl, arith, if_keeps}
use bkc_chooser.Adapter.{
  If, sta, eth, get, put, Err, ok, invalid_params, Lwip, Adapter, boot_state, Outcome, ipc,
  update_default_netif,
}
use bkc_chooser.Adapter.Iface.{
  start_valid, init_fn_of, adapter_start, adapter_if_start, stop_valid, adapter_stop, up_valid,
  adapter_up, down_valid, adapter_down,
}
use bkc_chooser.Adapter.Address.{set_old_ip_info, set_ip_valid, set_ip_info}
use bkc_chooser.Adapter.Dhcp.{
  server_start, adapter_dhcps_start, server_stop, adapter_dhcps_stop, client_start,
  adapter_dhcpc_start, client_stop, adapter_dhcpc_stop,
}
use bkc_chooser.Adapter.Names.{
  set_dns_valid, set_dns_info, set_hostname_valid, adapter_set_hostname,
}
use bkc_chooser.Adapter.Ready.{state_after}
use bkc_chooser.Adapter.Invariant.{
  Call, initialise, if_start, if_stop, if_up, if_down, old_ip, static_ip, server_on, server_off,
  client_on, client_off, dns_server, host_name, client_event, timer_expires, stack_moves, run,
  run_all,
}
use bkc_chooser.Adapter.Events.{View, view, Move, stay, assign, apart, settled, settled-Move}
use bkc_chooser.Adapter.Events.Calls.{
  Moves, view-default, Moves-init, Moves-timer, Moves-dhcpc_cb, view-server_start, view-server_stop,
  Moves-client_start, Moves-client_stop,
}
use bkc_chooser.Adapter.Events.Netif.{
  Moves-down, view-up, Moves-stop, view-start, Moves-set_ip, view-set_dns, view-set_hostname,
}

module _ (lw : Lwip) where
  open lw use {Stack}

  -- A timer runs out only where it was started.
  abbrev pub permits : Call lw → Adapter Stack → Bool
  permits (timer_expires i) a = get i a.timer_running
  permits _ a = true

  -- The call that overwrites the station's last announced address.
  abbrev pub sets_old : Call lw → Bool
  sets_old (old_ip (some sta) (some info)) = true
  sets_old _ = false

  module _ (free : Bool) where
    abbrev pub After : Adapter Stack → Outcome Stack → Type 0
    After a r = Moves lw free a (state_after a (ipc a r))

    moves : (a : Adapter Stack) (r : Err × Adapter Stack) → Moves lw free a r.1 → After a (some r)
    moves a r m =
        if_keeps (λ (o : Outcome Stack). Moves lw free a (state_after a o)) a.tcpip_inited (some r)
          none m (stay refl)

    pub stays : (a : Adapter Stack) (r : Err × Adapter Stack) → view r.1 ≡ view a → After a (some r)
    stays a r e = moves a r (stay e)

    pub leads :
        (a : Adapter Stack) (r : Outcome Stack) → view (state_after a r) ≡ view a → After a r
    leads a r e =
        if_keeps (λ (o : Outcome Stack). Moves lw free a (state_after a o)) a.tcpip_inited r none
          (stay e) (stay refl)

    leads_by :
        (a : Adapter Stack) (r : Outcome Stack) → Moves lw free a (state_after a r) → After a r
    leads_by a r m =
        if_keeps (λ (o : Outcome Stack). Moves lw free a (state_after a o)) a.tcpip_inited r none m
          (stay refl)

  abbrev with_init : If → Adapter Stack → Adapter Stack
  with_init i a = record a {
    esp_netif_init_fn = put i (some (init_fn_of lw i)) a.esp_netif_init_fn;
  }

  started_on :
      (a b : Adapter Stack) (r : Outcome Stack)
      → view b ≡ view a
      → view (state_after b r) ≡ view b
      → view (state_after a (ipc b r)) ≡ view a
  started_on a b none e k = ground arith
  started_on a b (some (err, c)) e k = ground (arith, e, k)

  -- The refinement: every call, callback and timer that has been started takes what a listener
  -- sees of the adapter one step of the machine `Move` on; its step `assign` is taken by
  -- tcpip_adapter_set_old_ip_info for the station only.
  pub run-Move :
      (c : Call lw) (a : Adapter Stack)
      → permits c a ≡ true
      → Move (sets_old c) (view a) (view (run lw c a))
  unfolding run adapter_if_start adapter_start adapter_stop adapter_up adapter_down set_old_ip_info
      set_ip_info adapter_dhcps_start adapter_dhcps_stop adapter_dhcpc_start adapter_dhcpc_stop
      set_dns_info adapter_set_hostname
  run-Move initialise a h = Moves-init lw false a
  run-Move (if_start i none info) a h =
      stay (started_on a (with_init i a) (some (invalid_params, with_init i a)) refl refl)
  run-Move (if_start i (some mac) none) a h =
      stay (started_on a (with_init i a) (some (invalid_params, with_init i a)) refl refl)
  run-Move (if_start i (some mac) (some info)) a h =
      let b = with_init i a in
      stay (started_on a b (start_valid lw i mac info b) refl (view-start lw false i mac info b))
  run-Move (if_stop none) a h = stays false a (invalid_params, a) refl
  run-Move (if_stop (some i)) a h = leads_by false a (stop_valid lw i a) (Moves-stop lw false i a)
  run-Move (if_up none) a h =
      stays false a (ok, update_default_netif lw a) (view-default lw false a)
  run-Move (if_up (some If.ap)) a h =
      stays false a (ok, update_default_netif lw a) (view-default lw false a)
  run-Move (if_up (some sta)) a h = leads false a (up_valid lw sta a) (view-up lw false sta a)
  run-Move (if_up (some eth)) a h = leads false a (up_valid lw eth a) (view-up lw false eth a)
  run-Move (if_down none) a h =
      stays false a (ok, update_default_netif lw a) (view-default lw false a)
  run-Move (if_down (some If.ap)) a h =
      stays false a (ok, update_default_netif lw a) (view-default lw false a)
  run-Move (if_down (some sta)) a h =
      leads_by false a (down_valid lw sta a) (Moves-down lw false sta a)
  run-Move (if_down (some eth)) a h =
      leads_by false a (down_valid lw eth a) (Moves-down lw false eth a)
  run-Move (old_ip none info) a h = stay refl
  run-Move (old_ip (some sta) none) a h = stay refl
  run-Move (old_ip (some If.ap) none) a h = stay refl
  run-Move (old_ip (some eth) none) a h = stay refl
  run-Move (old_ip (some sta) (some info)) a h =
      moves true a (ok, record a { esp_ip_old = put sta info a.esp_ip_old }) (assign info refl refl)
  run-Move (old_ip (some If.ap) (some info)) a h =
      stays false a (ok, record a { esp_ip_old = put If.ap info a.esp_ip_old }) refl
  run-Move (old_ip (some eth) (some info)) a h =
      stays false a (ok, record a { esp_ip_old = put eth info a.esp_ip_old }) refl
  run-Move (static_ip none info) a h = stays false a (invalid_params, a) refl
  run-Move (static_ip (some i) none) a h = stays false a (invalid_params, a) refl
  run-Move (static_ip (some i) (some info)) a h =
      moves false a (set_ip_valid lw i info a) (Moves-set_ip lw false i info a)
  run-Move (server_on none) a h = stays false a (invalid_params, a) refl
  run-Move (server_on (some sta)) a h = stays false a (invalid_params, a) refl
  run-Move (server_on (some eth)) a h = stays false a (invalid_params, a) refl
  run-Move (server_on (some If.ap)) a h =
      stays false a (server_start lw a) (view-server_start lw false a)
  run-Move (server_off none) a h = stays false a (invalid_params, a) refl
  run-Move (server_off (some sta)) a h = stays false a (invalid_params, a) refl
  run-Move (server_off (some eth)) a h = stays false a (invalid_params, a) refl
  run-Move (server_off (some If.ap)) a h =
      stays false a (server_stop lw a) (view-server_stop lw false a)
  run-Move (client_on none) a h = stays false a (invalid_params, a) refl
  run-Move (client_on (some If.ap)) a h = stays false a (invalid_params, a) refl
  run-Move (client_on (some sta)) a h =
      moves false a (client_start lw sta a) (Moves-client_start lw false sta a)
  run-Move (client_on (some eth)) a h =
      moves false a (client_start lw eth a) (Moves-client_start lw false eth a)
  run-Move (client_off none) a h = stays false a (invalid_params, a) refl
  run-Move (client_off (some If.ap)) a h = stays false a (invalid_params, a) refl
  run-Move (client_off (some sta)) a h =
      moves false a (client_stop lw sta a) (Moves-client_stop lw false sta a)
  run-Move (client_off (some eth)) a h =
      moves false a (client_stop lw eth a) (Moves-client_stop lw false eth a)
  run-Move (dns_server none type ip) a h = stays false a (invalid_params, a) refl
  run-Move (dns_server (some i) type none) a h = stays false a (invalid_params, a) refl
  run-Move (dns_server (some i) type (some ip)) a h =
      stays false a (set_dns_valid lw i type ip a) (view-set_dns lw false i type ip a)
  run-Move (host_name none name) a h = stays false a (invalid_params, a) refl
  run-Move (host_name (some i) none) a h = stays false a (invalid_params, a) refl
  run-Move (host_name (some i) (some name)) a h =
      stays false a (set_hostname_valid lw i name a) (view-set_hostname lw false i name a)
  run-Move (client_event i) a h = Moves-dhcpc_cb lw false i a
  run-Move (timer_expires i) a h = Moves-timer lw false i a h
  run-Move (stack_moves s) a h = stay refl

  -- A sequence of calls in which timers run out only where they were started and nobody overwrites
  -- the station's last announced address.
  abbrev pub Permitted : List (Call lw) → Adapter Stack → Type 0
  Permitted [] a = Unit {0}
  Permitted (c ∷ cs) a = (permits c a ≡ true) × (sets_old c ≡ false) × Permitted cs (run lw c a)

  settled-run_all :
      (cs : List (Call lw)) (a : Adapter Stack)
      → Permitted cs a
      → settled (view a) ≡ true
      → settled (view (run_all lw cs a)) ≡ true
  unfolding run_all
  settled-run_all [] a p h = h
  settled-run_all (c ∷ cs) a (t, o, p) h =
      settled-run_all cs (run lw c a) p
        (settled-Move (view a) (view (run lw c a)) h (rw o at (run-Move c a t)))

  pub settled-apart : (v : View) → settled v ≡ true → apart v.events ≡ true
  settled-apart v h = ground (arith, h)

  -- In a run of calls, callbacks and timers from the program's start on, in which timers run out
  -- only where they were started and nobody calls tcpip_adapter_set_old_ip_info for the station,
  -- no loss of the station's address is announced right after another: between two losses an
  -- address of some interface is announced.
  pub losses_apart :
      (cs : List (Call lw)) (s : Stack)
      → Permitted cs (boot_state s)
      → apart (run_all lw cs (boot_state s)).events ≡ true
  losses_apart cs s p =
      settled-apart (view (run_all lw cs (boot_state s))) (settled-run_all cs (boot_state s) p refl)
