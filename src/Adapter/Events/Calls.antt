-- ===== src/Adapter/Events/Calls.antt =====
-- The calls and callbacks of the adapter as steps of the machine of events.
use bkc_chooser.Base.{
  ◌*◌, Bool, true, not, ◌&&◌, Option, none, some, ◌≡◌, refl, arith, ◌==◌, if◌then◌else◌, if_keeps,
  if_keeps_by,
}
use bkc_chooser.Adapter.{
  If, sta, eth, get, put, is_started, Lwip, Adapter, up, adapter_init, update_default_netif,
  reset_ip_info,
}
use bkc_chooser.Adapter.Ready.{took}
use bkc_chooser.Adapter.Lost.{
  start_ip_lost_timer, ip_lost_timer, dhcpc_cb, dhcpc_cb_at, same_info, ip_lost_timer_interval,
}
use bkc_chooser.Adapter.Dhcp.{server_start, server_stop, launch_client, client_start, client_stop}
use bkc_chooser.Adapter.Events.{View, view, Move, stay, forget, announce, watch, expire, report}

module _ (lw : Lwip) (free : Bool) where
  open lw use {
    Stack, addr, is_up, dhcp_stop, netif_set_down, netif_set_addr, netif_remove, netif_set_up,
    set_hwaddr, netif_add, zero_addr, dns_clear_servers, sys_timeout,
  }

  -- The adapter's step from `a` to `b` is one of the machine.
  abbrev pub Moves : Adapter Stack → Adapter Stack → Type 0
  Moves a b = Move free (view a) (view b)

  pub view-default : (a : Adapter Stack) → view (update_default_netif lw a) ≡ view a
  unfolding update_default_netif
  view-default a = ground arith

  pub Moves-init : (a : Adapter Stack) → Moves a (adapter_init lw a)
  unfolding adapter_init
  Moves-init a = if_keeps (Moves a) a.tcpip_inited _ _ (stay refl) (forget refl)

  -- The station with its timer set.
  abbrev armed_by_loss : Adapter Stack → Adapter Stack
  armed_by_loss a = record a {
    timer_running = put sta true a.timer_running;
    stack = sys_timeout (ip_lost_timer_interval * 1000) sta a.stack;
  }

  pub Moves-lost : (i : If) (a : Adapter Stack) → Moves a (start_ip_lost_timer lw i a)
  unfolding start_ip_lost_timer
  Moves-lost If.ap a = stay refl
  Moves-lost eth a = stay refl
  Moves-lost sta a =
      let armed = armed_by_loss a in
      let loses = a.esp_netif.at_sta && not (a.esp_ip_old.at_sta.ip == 0) in
      if_keeps_by (Moves a) a.timer_running.at_sta a (if loses then armed else a) (λ t. stay refl)
        (λ t.
          if_keeps_by (Moves a) loses armed a (λ l. watch t (ground (arith, l)) refl)
            (λ l. stay refl))

  pub Moves-timer :
      (i : If) (a : Adapter Stack) → get i a.timer_running ≡ true → Moves a (ip_lost_timer lw i a)
  unfolding ip_lost_timer
  Moves-timer If.ap a h = stay refl
  Moves-timer eth a h = stay refl
  Moves-timer sta a h = if_keeps (Moves a) _ _ _ (report h refl) (expire h refl)

  Moves-took : (i : If) (a : Adapter Stack) → Moves a (took lw i a)
  Moves-took sta a = announce _ _ refl refl
  Moves-took If.ap a = announce _ _ refl refl
  Moves-took eth a = announce _ _ refl refl

  Moves-dhcpc_cb_at : (i : If) (a : Adapter Stack) → Moves a (dhcpc_cb_at lw i a)
  unfolding dhcpc_cb_at
  Moves-dhcpc_cb_at i a =
      let same = same_info (addr i a.stack) (get i a.esp_ip) in
      let lost = start_ip_lost_timer lw i a in
      let idle = (get i a.esp_ip).ip == 0 in
      if_keeps (Moves a) (not ((addr i a.stack).ip == 0)) (if same then a else took lw i a)
        (if not idle then lost else a)
        (if_keeps (Moves a) same a (took lw i a) (stay refl) (Moves-took i a))
        (if_keeps (Moves a) (not idle) lost a (Moves-lost i a) (stay refl))

  pub Moves-dhcpc_cb : (i : Option If) (a : Adapter Stack) → Moves a (dhcpc_cb lw i a)
  unfolding dhcpc_cb
  Moves-dhcpc_cb none a = stay refl
  Moves-dhcpc_cb (some If.ap) a = stay refl
  Moves-dhcpc_cb (some sta) a =
      if_keeps (Moves a) a.esp_netif.at_sta _ _ (Moves-dhcpc_cb_at sta a) (stay refl)
  Moves-dhcpc_cb (some eth) a =
      if_keeps (Moves a) a.esp_netif.at_eth _ _ (Moves-dhcpc_cb_at eth a) (stay refl)

  -- A state that shows one of two views, each of them a step away.
  pub Moves-either :
      (a b : Adapter Stack) (c : Bool) (v w : View)
      → view b ≡ (if c then v else w)
      → Move free (view a) v
      → Move free (view a) w
      → Moves a b
  Moves-either a b c v w e m n = rw e (if_keeps (Move free (view a)) c v w m n)

  pub view-server_start : (a : Adapter Stack) → view (server_start lw a).1 ≡ view a
  unfolding server_start
  view-server_start a = ground arith

  pub view-server_stop : (a : Adapter Stack) → view (server_stop lw a).1 ≡ view a
  unfolding server_stop
  view-server_stop a = ground arith

  view-launch : (i : If) (a : Adapter Stack) → view (launch_client lw i a).1 ≡ view a
  unfolding launch_client
  view-launch i a = ground arith

  -- The state in which client_start starts the timer.
  abbrev cleared : If → Adapter Stack → Adapter Stack
  cleared i a = record (reset_ip_info lw i a) { stack = dns_clear_servers a.stack }

  abbrev silent : If → Adapter Stack → Adapter Stack
  silent i a = record (cleared i a) { stack = zero_addr i (cleared i a).stack }

  pub Moves-client_start : (i : If) (a : Adapter Stack) → Moves a (client_start lw i a).1
  unfolding client_start reset_ip_info
  Moves-client_start i a =
      let c = start_ip_lost_timer lw i (silent i a) in
      Moves-either a (client_start lw i a).1
        (not (is_started (get i a.dhcpc_status)) && up lw i (cleared i a)) (view c) (view a)
        (ground (arith, view-launch i c)) (Moves-lost i (silent i a)) (stay refl)

  abbrev forgotten : If → Adapter Stack → Adapter Stack
  forgotten i a = reset_ip_info lw i (record a { stack = dhcp_stop i a.stack })

  pub Moves-client_stop : (i : If) (a : Adapter Stack) → Moves a (client_stop lw i a).1
  unfolding client_stop reset_ip_info
  Moves-client_stop i a =
      Moves-either a (client_stop lw i a).1 (is_started (get i a.dhcpc_status) && get i a.esp_netif)
        (view (start_ip_lost_timer lw i (forgotten i a))) (view a) (ground arith)
        (Moves-lost i (forgotten i a)) (stay refl)
