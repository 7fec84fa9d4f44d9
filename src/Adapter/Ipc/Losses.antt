-- ===== src/Adapter/Ipc/Losses.antt =====
-- The losses of the station's address that are announced while several tasks call the adapter.
use bkc_chooser.Base.{
  Bool, true, false, Option, none, some, ◌≡◌, refl, ap, if◌then◌else◌, if_keeps_by,
}
use bkc_chooser.Adapter.{If, sta, eth, get, invalid_params, Lwip, Adapter, Err, adapter_init}
use bkc_chooser.Adapter.Iface.{start_valid, adapter_start}
use bkc_chooser.Adapter.Ready.{state_after}
use bkc_chooser.Adapter.Invariant.{
  Call, initialise, if_stop, if_up, if_down, old_ip, static_ip, server_on, server_off, client_on,
  client_off, dns_server, host_name, run,
}
use bkc_chooser.Adapter.Events.{view, Move, stay, apart, settled, settled-Move}
use bkc_chooser.Adapter.Events.Apart.{stays, leads, run-Move, settled-apart}
use bkc_chooser.Adapter.Events.Netif.{view-start}
use bkc_chooser.Adapter.Address.{set_old_ip_info}
use bkc_chooser.Adapter.Names.{get_dns_info}
use bkc_chooser.Adapter.Ipc.{Api, Tasks, Reachable}
use bkc_chooser.Adapter.Ipc.Serial.{Reachable_keeps}
use bkc_chooser.Adapter.Ipc.Ready.{
  Message, start, stop, up, down, set_old_ip, set_ip, dhcps_start, dhcps_stop, dhcpc_start,
  dhcpc_stop, set_dns, set_host, get_dns, state_after-unchanged, body, result, Beside, sets_init_fn,
  init_again, local_call, client_event, timer_expires, stack_moves, beside, initialised,
}

-- Whether a message overwrites the station's last announced address.
abbrev pub sets_old : Message → Bool
sets_old (set_old_ip (some sta) (some info)) = true
sets_old _ = false

-- The messages of tasks that leave it alone.
abbrev pub Plain : Type 0
Plain = (f : Message) × (sets_old f ≡ false)

module _ (lw : Lwip) where
  open lw use {Stack}

  -- A timer runs out only where it was started, and lwIP's own task leaves the address alone, too.
  abbrev pub beside_started : Beside lw → Adapter Stack → Adapter Stack
  beside_started (timer_expires i) a =
      let b = beside lw (timer_expires i) a in if get i a.timer_running then b else a
  beside_started (local_call f) a =
      let b = beside lw (local_call f) a in if sets_old f then a else b
  beside_started o a = beside lw o a

  abbrev pub plain_messages : Api Plain (Beside lw) (Adapter Stack) (Option Err)
  plain_messages = record {
    api_fn = λ f a. (result lw (body lw f.0 a), state_after a (body lw f.0 a));
    own = beside_started;
  }

  body-Move :
      (f : Message) (a : Adapter Stack)
      → sets_old f ≡ false
      → Move false (view a) (view (state_after a (body lw f a)))
  unfolding body run adapter_start set_old_ip_info
  body-Move (start none mac info) a h = stays lw false a (invalid_params, a) refl
  body-Move (start (some i) none info) a h = stays lw false a (invalid_params, a) refl
  body-Move (start (some i) (some mac) none) a h = stays lw false a (invalid_params, a) refl
  body-Move (start (some i) (some mac) (some info)) a h =
      leads lw false a (start_valid lw i mac info a) (view-start lw false i mac info a)
  body-Move (stop i) a h = run-Move lw (if_stop i) a refl
  body-Move (up i) a h = run-Move lw (if_up i) a refl
  body-Move (down i) a h = run-Move lw (if_down i) a refl
  body-Move (set_old_ip (some sta) (some info)) a h = absurd (cc h)
  body-Move (set_old_ip none info) a h = run-Move lw (old_ip none info) a refl
  body-Move (set_old_ip (some i) none) a h = stay refl
  body-Move (set_old_ip (some If.ap) (some info)) a h =
      run-Move lw (old_ip (some If.ap) (some info)) a refl
  body-Move (set_old_ip (some eth) (some info)) a h =
      run-Move lw (old_ip (some eth) (some info)) a refl
  body-Move (set_ip i info) a h = run-Move lw (static_ip i info) a refl
  body-Move (dhcps_start i) a h = run-Move lw (server_on i) a refl
  body-Move (dhcps_stop i) a h = run-Move lw (server_off i) a refl
  body-Move (dhcpc_start i) a h = run-Move lw (client_on i) a refl
  body-Move (dhcpc_stop i) a h = run-Move lw (client_off i) a refl
  body-Move (set_dns i type ip) a h = run-Move lw (dns_server i type ip) a refl
  body-Move (set_host i name) a h = run-Move lw (host_name i name) a refl
  body-Move (get_dns i type) a h =
      stay (ap view (state_after-unchanged a (get_dns_info lw i type a)))

  beside-Move :
      (o : Beside lw) (a : Adapter Stack) → Move false (view a) (view (beside_started o a))
  unfolding beside run
  beside-Move (sets_init_fn i) a = stay refl
  beside-Move init_again a = run-Move lw initialise a refl
  beside-Move (local_call f) a =
      if_keeps_by (λ (b : Adapter Stack). Move false (view a) (view b)) (sets_old f) _ _
        (λ e. stay refl) (λ e. body-Move f a e)
  beside-Move (client_event i) a = run-Move lw (Call.client_event i) a refl
  beside-Move (timer_expires i) a =
      if_keeps_by (λ (b : Adapter Stack). Move false (view a) (view b)) (get i a.timer_running) _ _
        (λ e. run-Move lw (Call.timer_expires i) a e) (λ e. stay refl)
  beside-Move (stack_moves s) a = stay refl

  initialised-settled : (s : Stack) → settled (view (initialised lw s)) ≡ true
  unfolding adapter_init
  initialised-settled s = refl

  -- However the calls of any number of tasks interleave with lwIP's callbacks, where a timer runs
  -- out only where it was started, and no task calls tcpip_adapter_set_old_ip_info for the station:
  -- no loss of the station's address is announced right after another, so between two losses an
  -- address of some interface is announced.
  pub tasks_losses_apart :
      (s : Stack) (t : Tasks Plain (Adapter Stack) (Option Err))
      → Reachable plain_messages (initialised lw s) t
      → apart t.adapter.events ≡ true
  tasks_losses_apart s t h = settled-apart lw (view t.adapter) (
      Reachable_keeps plain_messages (λ (a : Adapter Stack). settled (view a) ≡ true)
        (λ f a k. settled-Move (view a) _ k (body-Move f.0 a f.1))
        (λ o a k. settled-Move (view a) _ k (beside-Move o a)) (initialised lw s) t h
        (initialised-settled s))
