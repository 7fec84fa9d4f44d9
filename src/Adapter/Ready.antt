-- ===== src/Adapter/Ready.antt =====
-- A condition on the adapter's variables, and lemmas for the callbacks and for the calls about
-- DHCP and addresses.
pub mod Client
pub mod Netif
use bkc_chooser.Base.{
  Bool, true, false, not, ◌&&◌, ◌||◌, Option, none, some, [], ◌∷◌, ◌++◌, ◌==◌, if◌then◌else◌, ◌≡◌,
  refl, ap, ◌∙◌, if_keeps, arith,
}
use bkc_chooser.Adapter.{
  If, sta, eth, IpInfo, get, put, is_started, Lwip, Adapter, Outcome, ipc, update_default_netif,
  reset_ip_info,
}
use bkc_chooser.Adapter.Lost.{
  start_ip_lost_timer, ip_lost_timer, dhcpc_cb, dhcpc_cb_at, same_info, got_ip,
}
use bkc_chooser.Adapter.Iface.{alloc_netif, release_client, stop_dhcp, drop_client}
use bkc_chooser.Adapter.Address.{set_static, set_ip_valid}
use bkc_chooser.Adapter.Dhcp.{server_start, server_stop}

abbrev pub implies : Bool → Bool → Bool
implies a b = not a || b

-- A server or client that runs has its struct netif, the access point has no client, and no timer
-- runs but the station's.
abbrev pub ready : {S : Type 0} → Adapter S → Bool
ready a =
    implies (is_started a.dhcps_status) a.esp_netif.at_ap
    && (implies (is_started a.dhcpc_status.at_sta) a.esp_netif.at_sta
        && (implies (is_started a.dhcpc_status.at_eth) a.esp_netif.at_eth
            && (not (is_started a.dhcpc_status.at_ap)
                && (not a.timer_running.at_ap && not a.timer_running.at_eth))))

-- The state that a call leaves: as it was, where it aborts.
abbrev pub state_after : {S : Type 0} → Adapter S → Outcome S → Adapter S
state_after a none = a
state_after a (some (e, b)) = b

-- The interfaces that have a DHCP client.
abbrev pub has_client : If → Bool
has_client If.ap = false
has_client _ = true

module _ (lw : Lwip) where
  open lw use {
    Stack, addr, is_up, dhcp_stop, netif_set_down, netif_set_addr, netif_remove, netif_set_up,
    set_hwaddr, netif_add, zero_addr, dns_clear_servers,
  }

  pub ready-default : (a : Adapter Stack) → ready (update_default_netif lw a) ≡ ready a
  unfolding update_default_netif
  ready-default a = ground arith

  pub ready-lost : (i : If) (a : Adapter Stack) → ready (start_ip_lost_timer lw i a) ≡ ready a
  unfolding start_ip_lost_timer
  ready-lost sta a = ground arith
  ready-lost If.ap a = refl
  ready-lost eth a = refl

  pub ready-timer :
      (i : If) (a : Adapter Stack) → ready a ≡ true → ready (ip_lost_timer lw i a) ≡ true
  unfolding ip_lost_timer
  ready-timer sta a h = ground arith
  ready-timer If.ap a h = ground arith
  ready-timer eth a h = ground arith

  pub ready-server_stop : (a : Adapter Stack) → ready a ≡ true → ready (server_stop lw a).1 ≡ true
  unfolding server_stop
  ready-server_stop a h = ground arith

  pub ready-server_start : (a : Adapter Stack) → ready a ≡ true → ready (server_start lw a).1 ≡ true
  unfolding server_start
  ready-server_start a h = ground arith

  pub ready-ipc :
      (a : Adapter Stack) (r : Outcome Stack)
      → ready a ≡ true
      → ready (state_after a r) ≡ true
      → ready (state_after a (ipc a r)) ≡ true
  ready-ipc a r h k = ground arith

  pub and_left : (a b : Bool) → (a && b) ≡ true → a ≡ true
  and_left true b h = refl
  and_left false b h = h

  abbrev Ready : Adapter Stack → Type 0
  Ready a = ready a ≡ true

  abbrev pub took : If → Adapter Stack → Adapter Stack
  took i a =
      let new = addr i a.stack in
      record a {
        esp_ip = put i new a.esp_ip;
        esp_ip_old = put i new a.esp_ip_old;
        events = a.events ++ got_ip lw i (not (same_info new (get i a.esp_ip_old))) new ∷ [];
      }

  pub ready-dhcpc_cb_at :
      (i : If) (a : Adapter Stack) → ready a ≡ true → ready (dhcpc_cb_at lw i a) ≡ true
  unfolding dhcpc_cb_at
  ready-dhcpc_cb_at i a h =
      let same = same_info (addr i a.stack) (get i a.esp_ip) in
      let lost = start_ip_lost_timer lw i a in
      let idle = (get i a.esp_ip).ip == 0 in
      if_keeps Ready (not ((addr i a.stack).ip == 0)) (if same then a else took i a)
        (if not idle then lost else a) (if_keeps Ready same a (took i a) h h)
        (if_keeps Ready (not idle) lost a (ready-lost i a ∙ h) h)

  pub ready-dhcpc_cb :
      (i : Option If) (a : Adapter Stack) → ready a ≡ true → ready (dhcpc_cb lw i a) ≡ true
  unfolding dhcpc_cb
  ready-dhcpc_cb none a h = h
  ready-dhcpc_cb (some If.ap) a h = h
  ready-dhcpc_cb (some sta) a h = ground (arith, ready-dhcpc_cb_at sta a)
  ready-dhcpc_cb (some eth) a h = ground (arith, ready-dhcpc_cb_at eth a)

  pub ready-set_ip :
      (i : If) (info : IpInfo) (a : Adapter Stack)
      → ready a ≡ true
      → ready (set_ip_valid lw i info a).1 ≡ true
  unfolding set_ip_valid set_static
  ready-set_ip i info a h = ground arith

  pub ready-drop_client :
      (i : If) (a : Adapter Stack) → ready a ≡ true → ready (drop_client lw i a) ≡ true
  unfolding drop_client reset_ip_info
  ready-drop_client sta a h = ground arith
  ready-drop_client If.ap a h = ground arith
  ready-drop_client eth a h = ground arith

  ready-release :
      (i : If) (a : Adapter Stack) → ready a ≡ true → ready (release_client lw i a) ≡ true
  unfolding release_client
  ready-release i a h =
      let (calls, s) = lw.dhcp_release i a.stack in
      if_keeps Ready calls _ _ (ready-dhcpc_cb (some i) (record a { stack = s }) h) h

  pub ready-stop_dhcp :
      (i : If) (a : Adapter Stack) → ready a ≡ true → ready (stop_dhcp lw i a) ≡ true
  unfolding stop_dhcp reset_ip_info
  ready-stop_dhcp sta a h = ground (arith, ready-release sta a h)
  ready-stop_dhcp If.ap a h = ground arith
  ready-stop_dhcp eth a h = ground (arith, ready-release eth a h)

  pub ready-alloc :
      (i : If) (a : Adapter Stack) → ready a ≡ true → ready (alloc_netif lw i a) ≡ true
  unfolding alloc_netif
  ready-alloc sta a h = ground arith
  ready-alloc If.ap a h = ground arith
  ready-alloc eth a h = ground arith
