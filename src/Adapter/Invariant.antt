-- ===== src/Adapter/Invariant.antt =====
-- What holds of the adapter's variables after any sequence of calls and callbacks.
pub mod Stops
use bkc_chooser.Base.{ℕ, true, Option, none, some, List, [], ◌∷◌, Bytes, ◌≡◌, refl, ◌∙◌, arith}
use bkc_chooser.Adapter.{
  If, sta, eth, IpInfo, put, Err, Lwip, Adapter, boot_state, Outcome, ipc, adapter_init,
  update_default_netif,
}
use bkc_chooser.Adapter.Lost.{ip_lost_timer, dhcpc_cb}
use bkc_chooser.Adapter.Iface.{
  start_valid, init_fn_of, adapter_start, adapter_if_start, stop_valid, adapter_stop, up_valid,
  adapter_up, down_valid, adapter_down,
}
use bkc_chooser.Adapter.Address.{set_old_ip_info, set_ip_valid, set_ip_info}
use bkc_chooser.Adapter.Dhcp.{
  server_start, adapter_dhcps_start, server_stop, adapter_dhcps_stop, client_start,
  adapter_dhcpc_start, client_stop, adapter_dhcpc_stop,
}
use bkc_chooser.Adapter.Names.{
  set_dns_valid, set_dns_info, set_hostname_valid, adapter_set_hostname,
}
use bkc_chooser.Adapter.{ok, invalid_params}
use bkc_chooser.Adapter.Ready.{
  ready, state_after, ready-default, ready-timer, ready-server_stop, ready-server_start, ready-ipc,
  ready-dhcpc_cb, ready-set_ip,
}
use bkc_chooser.Adapter.Ready.Client.{ready-client_start, ready-client_stop}
use bkc_chooser.Adapter.Ready.Netif.{
  ready-start_valid, ready-stop_valid, ready-up_valid, ready-down_valid,
}

module _ (lw : Lwip) where
  open lw use {
    Stack, addr, is_up, dhcp_stop, netif_set_down, netif_set_addr, netif_remove, netif_set_up,
    set_hwaddr, netif_add, zero_addr, dns_clear_servers,
  }

  -- The calls and callbacks that change the state, and what the stack does by itself.
  pub data Call : Type 0 where
    initialise : Call
    if_start : If → Option Bytes → Option IpInfo → Call
    if_stop if_up if_down : Option If → Call
    old_ip static_ip : Option If → Option IpInfo → Call
    server_on server_off client_on client_off : Option If → Call
    dns_server : Option If → ℕ → Option ℕ → Call
    host_name : Option If → Option Bytes → Call
    client_event : Option If → Call
    timer_expires : If → Call
    stack_moves : Stack → Call

  unfoldable pub run : Call → Adapter Stack → Adapter Stack
  run initialise a = adapter_init lw a
  run (if_start i mac info) a = state_after a (adapter_if_start lw i mac info a)
  run (if_stop i) a = state_after a (adapter_stop lw i a)
  run (if_up i) a = state_after a (adapter_up lw i a)
  run (if_down i) a = state_after a (adapter_down lw i a)
  run (old_ip i info) a = state_after a (set_old_ip_info lw i info a)
  run (static_ip i info) a = state_after a (set_ip_info lw i info a)
  run (server_on i) a = state_after a (adapter_dhcps_start lw i a)
  run (server_off i) a = state_after a (adapter_dhcps_stop lw i a)
  run (client_on i) a = state_after a (adapter_dhcpc_start lw i a)
  run (client_off i) a = state_after a (adapter_dhcpc_stop lw i a)
  run (dns_server i type ip) a = state_after a (set_dns_info lw i type ip a)
  run (host_name i name) a = state_after a (adapter_set_hostname lw i name a)
  run (client_event i) a = dhcpc_cb lw i a
  run (timer_expires i) a = ip_lost_timer lw i a
  run (stack_moves s) a = record a { stack = s }

  unfoldable pub run_all : List Call → Adapter Stack → Adapter Stack
  run_all [] a = a
  run_all (c ∷ cs) a = run_all cs (run c a)

  abbrev with_init : If → Adapter Stack → Adapter Stack
  with_init i a = record a {
    esp_netif_init_fn = put i (some (init_fn_of lw i)) a.esp_netif_init_fn;
  }

  -- A call whose body runs on `b`, a state that differs from `a` in nothing that `ready` reads.
  call :
      (a b : Adapter Stack) (r : Outcome Stack)
      → ready a ≡ true
      → ready b ≡ true
      → ready (state_after b r) ≡ true
      → ready (state_after a (ipc b r)) ≡ true
  call a b none h k l = ground arith
  call a b (some (e, c)) h k l = ground arith

  called :
      (a : Adapter Stack) (r : Err × Adapter Stack)
      → ready a ≡ true
      → ready r.1 ≡ true
      → ready (state_after a (ipc a (some r))) ≡ true
  called a r h k = call a a (some r) h h k

  ready-set_dns :
      (i : If) (type ip : ℕ) (a : Adapter Stack)
      → ready a ≡ true
      → ready (set_dns_valid lw i type ip a).1 ≡ true
  unfolding set_dns_valid
  ready-set_dns If.ap type ip a h = ground arith
  ready-set_dns sta type ip a h = ground arith
  ready-set_dns eth type ip a h = ground arith

  ready-set_hostname :
      (i : If) (name : Bytes) (a : Adapter Stack)
      → ready a ≡ true
      → ready (set_hostname_valid lw i name a).1 ≡ true
  unfolding set_hostname_valid
  ready-set_hostname i name a h = ground arith

  ready-init : (a : Adapter Stack) → ready a ≡ true → ready (adapter_init lw a) ≡ true
  unfolding adapter_init
  ready-init a h = ground arith

  pub run-ready : (c : Call) (a : Adapter Stack) → ready a ≡ true → ready (run c a) ≡ true
  unfolding run adapter_if_start adapter_start adapter_stop adapter_up adapter_down set_old_ip_info
      set_ip_info adapter_dhcps_start adapter_dhcps_stop adapter_dhcpc_start adapter_dhcpc_stop
      set_dns_info adapter_set_hostname
  run-ready initialise a h = ready-init a h
  run-ready (if_start i none info) a h =
      call a (with_init i a) (some (invalid_params, with_init i a)) h h h
  run-ready (if_start i (some mac) none) a h =
      call a (with_init i a) (some (invalid_params, with_init i a)) h h h
  run-ready (if_start i (some mac) (some info)) a h =
      let b = with_init i a in
      call a b (start_valid lw i mac info b) h h (ready-start_valid lw i mac info b h)
  run-ready (if_stop none) a h = called a (invalid_params, a) h h
  run-ready (if_stop (some i)) a h =
      ready-ipc lw a (stop_valid lw i a) h (ready-stop_valid lw i a h)
  run-ready (if_up none) a h = called a (ok, update_default_netif lw a) h (ready-default lw a ∙ h)
  run-ready (if_up (some If.ap)) a h =
      called a (ok, update_default_netif lw a) h (ready-default lw a ∙ h)
  run-ready (if_up (some sta)) a h =
      ready-ipc lw a (up_valid lw sta a) h (ready-up_valid lw sta a h)
  run-ready (if_up (some eth)) a h =
      ready-ipc lw a (up_valid lw eth a) h (ready-up_valid lw eth a h)
  run-ready (if_down none) a h = called a (ok, update_default_netif lw a) h (ready-default lw a ∙ h)
  run-ready (if_down (some If.ap)) a h =
      called a (ok, update_default_netif lw a) h (ready-default lw a ∙ h)
  run-ready (if_down (some sta)) a h =
      ready-ipc lw a (down_valid lw sta a) h (ready-down_valid lw sta a h)
  run-ready (if_down (some eth)) a h =
      ready-ipc lw a (down_valid lw eth a) h (ready-down_valid lw eth a h)
  run-ready (old_ip none info) a h = h
  run-ready (old_ip (some i) none) a h = h
  run-ready (old_ip (some i) (some info)) a h =
      called a (ok, record a { esp_ip_old = put i info a.esp_ip_old }) h h
  run-ready (static_ip none info) a h = called a (invalid_params, a) h h
  run-ready (static_ip (some i) none) a h = called a (invalid_params, a) h h
  run-ready (static_ip (some i) (some info)) a h =
      called a (set_ip_valid lw i info a) h (ready-set_ip lw i info a h)
  run-ready (server_on none) a h = called a (invalid_params, a) h h
  run-ready (server_on (some sta)) a h = called a (invalid_params, a) h h
  run-ready (server_on (some eth)) a h = called a (invalid_params, a) h h
  run-ready (server_on (some If.ap)) a h =
      called a (server_start lw a) h (ready-server_start lw a h)
  run-ready (server_off none) a h = called a (invalid_params, a) h h
  run-ready (server_off (some sta)) a h = called a (invalid_params, a) h h
  run-ready (server_off (some eth)) a h = called a (invalid_params, a) h h
  run-ready (server_off (some If.ap)) a h = called a (server_stop lw a) h (ready-server_stop lw a h)
  run-ready (client_on none) a h = called a (invalid_params, a) h h
  run-ready (client_on (some If.ap)) a h = called a (invalid_params, a) h h
  run-ready (client_on (some sta)) a h =
      called a (client_start lw sta a) h (ready-client_start lw sta a refl h)
  run-ready (client_on (some eth)) a h =
      called a (client_start lw eth a) h (ready-client_start lw eth a refl h)
  run-ready (client_off none) a h = called a (invalid_params, a) h h
  run-ready (client_off (some If.ap)) a h = called a (invalid_params, a) h h
  run-ready (client_off (some sta)) a h =
      called a (client_stop lw sta a) h (ready-client_stop lw sta a refl h)
  run-ready (client_off (some eth)) a h =
      called a (client_stop lw eth a) h (ready-client_stop lw eth a refl h)
  run-ready (dns_server none type ip) a h = called a (invalid_params, a) h h
  run-ready (dns_server (some i) type none) a h = called a (invalid_params, a) h h
  run-ready (dns_server (some i) type (some ip)) a h =
      called a (set_dns_valid lw i type ip a) h (ready-set_dns i type ip a h)
  run-ready (host_name none name) a h = called a (invalid_params, a) h h
  run-ready (host_name (some i) none) a h = called a (invalid_params, a) h h
  run-ready (host_name (some i) (some name)) a h =
      called a (set_hostname_valid lw i name a) h (ready-set_hostname i name a h)
  run-ready (client_event i) a h = ready-dhcpc_cb lw i a h
  run-ready (timer_expires i) a h = ready-timer lw i a h
  run-ready (stack_moves s) a h = h

  run_all-ready :
      (cs : List Call) (a : Adapter Stack) → ready a ≡ true → ready (run_all cs a) ≡ true
  unfolding run_all
  run_all-ready [] a h = h
  run_all-ready (c ∷ cs) a h = run_all-ready cs (run c a) (run-ready c a h)

  -- After any sequence of calls, callbacks and moves of the stack from the program's start on: a
  -- DHCP server or client that is started has its struct netif, the access point has no client,
  -- and no lost-address timer runs but the station's.
  pub always_ready : (cs : List Call) (s : Stack) → ready (run_all cs (boot_state s)) ≡ true
  always_ready cs s = run_all-ready cs (boot_state s) refl
