-- ===== src/Adapter/Own.antt =====
-- The address of the access point, which no call but tcpip_adapter_set_ip_info for the access point
-- changes.
pub mod Calls
use bkc_chooser.Base.{ℕ, true, not, Option, none, some, Bytes, ◌≡◌, refl, ap, ◌∙◌, if_keeps, arith}
use bkc_chooser.Adapter.{
  If, sta, eth, IpInfo, zero_info, InitFn, get, is_started, is_stopped, Err, Lwip, Adapter, Outcome,
  ipc, up, adapter_init, ap_default, update_default_netif, reset_ip_info,
}
use bkc_chooser.Adapter.Lost.{start_ip_lost_timer, ip_lost_timer, dhcpc_cb, dhcpc_cb_at}
use bkc_chooser.Adapter.Iface.{
  add_netif, alloc_netif, start_server, started_netif, start_valid, release_client, stop_dhcp,
  stop_valid, up_valid, drop_client, down_valid,
}
use bkc_chooser.Adapter.Address.{set_static, set_ip_valid}
use bkc_chooser.Adapter.Dhcp.{server_start, server_stop, launch_client, client_start, client_stop}
use bkc_chooser.Adapter.Names.{set_dns_valid, set_hostname_valid}
use bkc_chooser.Adapter.Ready.{state_after, has_client}

module _ (lw : Lwip) where
  open lw use {
    Stack, addr, is_up, dhcp_stop, netif_set_down, netif_set_addr, netif_remove, netif_set_up,
    set_hwaddr, netif_add, zero_addr, dns_clear_servers,
  }

  -- The access point's entry of esp_ip, and that a call leaves it as it was.
  abbrev pub own : Adapter Stack → IpInfo
  own a = a.esp_ip.at_ap

  abbrev pub Keeps : Adapter Stack → Outcome Stack → Type 0
  Keeps a r = own (state_after a r) ≡ own a

  pub own-default : (a : Adapter Stack) → own (update_default_netif lw a) ≡ own a
  unfolding update_default_netif
  own-default a = ground arith

  own-lost : (i : If) (a : Adapter Stack) → own (start_ip_lost_timer lw i a) ≡ own a
  unfolding start_ip_lost_timer
  own-lost sta a = ground arith
  own-lost If.ap a = refl
  own-lost eth a = refl

  pub own-timer : (i : If) (a : Adapter Stack) → own (ip_lost_timer lw i a) ≡ own a
  unfolding ip_lost_timer
  own-timer sta a = ground arith
  own-timer If.ap a = refl
  own-timer eth a = refl

  own-dhcpc_cb_at :
      (i : If) (a : Adapter Stack) → has_client i ≡ true → own (dhcpc_cb_at lw i a) ≡ own a
  unfolding dhcpc_cb_at
  own-dhcpc_cb_at sta a c = ground (arith, own-lost sta a)
  own-dhcpc_cb_at eth a c = ground (arith, own-lost eth a)
  own-dhcpc_cb_at If.ap a c = absurd (cc c)

  pub own-dhcpc_cb : (i : Option If) (a : Adapter Stack) → own (dhcpc_cb lw i a) ≡ own a
  unfolding dhcpc_cb
  own-dhcpc_cb none a = refl
  own-dhcpc_cb (some If.ap) a = refl
  own-dhcpc_cb (some sta) a = ground (arith, own-dhcpc_cb_at sta a refl)
  own-dhcpc_cb (some eth) a = ground (arith, own-dhcpc_cb_at eth a refl)

  own-drop_client :
      (i : If) (a : Adapter Stack) → has_client i ≡ true → own (drop_client lw i a) ≡ own a
  unfolding drop_client reset_ip_info
  own-drop_client sta a c = ground arith
  own-drop_client eth a c = ground arith
  own-drop_client If.ap a c = absurd (cc c)

  own-release : (i : If) (a : Adapter Stack) → own (release_client lw i a) ≡ own a
  unfolding release_client
  own-release i a =
      let (calls, s) = lw.dhcp_release i a.stack in
      if_keeps (λ (b : Adapter Stack). own b ≡ own a) calls _ _
        (own-dhcpc_cb (some i) (record a { stack = s })) refl

  own-stop_dhcp : (i : If) (a : Adapter Stack) → own (stop_dhcp lw i a) ≡ own a
  unfolding stop_dhcp reset_ip_info
  own-stop_dhcp sta a = own-release sta a
  own-stop_dhcp If.ap a = refl
  own-stop_dhcp eth a = own-release eth a

  own-alloc : (i : If) (a : Adapter Stack) → own (alloc_netif lw i a) ≡ own a
  unfolding alloc_netif
  own-alloc i a = ground arith

  own-start_server :
      (i : If) (info : IpInfo) (a : Adapter Stack) → own (start_server lw i info a) ≡ own a
  unfolding start_server
  own-start_server sta info a = refl
  own-start_server eth info a = refl
  own-start_server If.ap info a = ground arith

  pub own-server_start : (a : Adapter Stack) → own (server_start lw a).1 ≡ own a
  unfolding server_start
  own-server_start a = ground arith

  pub own-server_stop : (a : Adapter Stack) → own (server_stop lw a).1 ≡ own a
  unfolding server_stop
  own-server_stop a = ground arith

  own-launch : (i : If) (a : Adapter Stack) → own (launch_client lw i a).1 ≡ own a
  unfolding launch_client
  own-launch i a = ground arith

  pub own-set_dns :
      (i : If) (type ip : ℕ) (a : Adapter Stack) → own (set_dns_valid lw i type ip a).1 ≡ own a
  unfolding set_dns_valid
  own-set_dns If.ap type ip a = ground arith
  own-set_dns sta type ip a = ground arith
  own-set_dns eth type ip a = ground arith

  pub own-set_hostname :
      (i : If) (name : Bytes) (a : Adapter Stack) → own (set_hostname_valid lw i name a).1 ≡ own a
  unfolding set_hostname_valid
  own-set_hostname i name a = ground arith

  pub own-set_ip :
      (i : If) (info : IpInfo) (a : Adapter Stack)
      → has_client i ≡ true
      → own (set_ip_valid lw i info a).1 ≡ own a
  unfolding set_ip_valid set_static
  own-set_ip sta info a c = ground arith
  own-set_ip eth info a c = ground arith
  own-set_ip If.ap info a c = absurd (cc c)

  pub own-init : (a : Adapter Stack) → own a ≡ ap_default → own (adapter_init lw a) ≡ ap_default
  unfolding adapter_init
  own-init a h = ground arith

  own-reset :
      (i : If) (a : Adapter Stack) → has_client i ≡ true → own (reset_ip_info lw i a) ≡ own a
  unfolding reset_ip_info
  own-reset sta a c = refl
  own-reset eth a c = refl
  own-reset If.ap a c = absurd (cc c)

  pub own-client_start :
      (i : If) (a : Adapter Stack) → has_client i ≡ true → own (client_start lw i a).1 ≡ own a
  unfolding client_start
  own-client_start i a c =
      let b = record (reset_ip_info lw i a) { stack = dns_clear_servers a.stack } in
      let z = record b { stack = zero_addr i b.stack } in
      if_keeps Same (is_started (get i a.dhcpc_status)) _ _ refl (
        if_keeps Same (up lw i b) _ _
          (own-launch i (start_ip_lost_timer lw i z) ∙ own-lost i z ∙ own-reset i a c)
          (own-reset i a c))
    where
      Same : Err × Adapter Stack → Type 0
      Same r = own r.1 ≡ own a

  pub own-client_stop :
      (i : If) (a : Adapter Stack) → has_client i ≡ true → own (client_stop lw i a).1 ≡ own a
  unfolding client_stop
  own-client_stop i a c =
      let b = record a { stack = dhcp_stop i a.stack } in
      if_keeps Same (is_started (get i a.dhcpc_status)) _ _
        (if_keeps Same (get i a.esp_netif) _ _ (own-lost i (reset_ip_info lw i b) ∙ own-reset i b c)
          refl)
        (if_keeps Same (is_stopped (get i a.dhcpc_status)) _ _ refl refl)
    where
      Same : Err × Adapter Stack → Type 0
      Same r = own r.1 ≡ own a

  pub Keeps-ipc : (a : Adapter Stack) (r : Outcome Stack) → Keeps a r → Keeps a (ipc a r)
  Keeps-ipc a r h = ground arith

  Keeps-started :
      (i : If) (mac : Bytes) (info : IpInfo) (a b : Adapter Stack)
      → own b ≡ own a
      → Keeps a (started_netif lw i info (add_netif lw i mac info b))
  unfolding add_netif
  Keeps-started i mac info a b e = added (get i b.esp_netif_init_fn)
    where
      added :
          (f : Option InitFn)
          → Keeps a (
              started_netif lw i info (elim f [
                | none ↦ none
                | some f ↦ some (record b { stack = netif_add i info f (set_hwaddr i mac b.stack) })
              ]))
      added none = refl
      added (some f) =
          let c = record b { stack = netif_add i info f (set_hwaddr i mac b.stack) } in
          own-default (start_server lw i info c) ∙ own-start_server i info c ∙ e

  pub Keeps-start_valid :
      (i : If) (mac : Bytes) (info : IpInfo) (a : Adapter Stack)
      → Keeps a (start_valid lw i mac info a)
  unfolding start_valid
  Keeps-start_valid i mac info a =
      if_keeps (Keeps a) (up lw i a) _ _
        (own-default (start_server lw i info a) ∙ own-start_server i info a)
        (if_keeps (Keeps a) (get i (alloc_netif lw i a).esp_netif) _ _
          (Keeps-started i mac info a (alloc_netif lw i a) (own-alloc i a)) (own-alloc i a))

  pub Keeps-stop_valid : (i : If) (a : Adapter Stack) → Keeps a (stop_valid lw i a)
  unfolding stop_valid
  Keeps-stop_valid i a =
      let b = stop_dhcp lw i a in
      if_keeps (Keeps a) (not (get i a.esp_netif)) _ _ refl (
        if_keeps (Keeps a) (not (up lw i a)) _ _ refl (
          own-default (record b { stack = netif_remove i (netif_set_down i b.stack) })
          ∙ own-stop_dhcp i a))

  pub Keeps-up_valid : (i : If) (a : Adapter Stack) → Keeps a (up_valid lw i a)
  unfolding up_valid
  Keeps-up_valid i a =
      if_keeps (Keeps a) (get i a.esp_netif) _ _
        (own-default
          (record a { stack = netif_set_up i (netif_set_addr i (get i a.esp_ip) a.stack) }))
        refl

  pub Keeps-down_valid :
      (i : If) (a : Adapter Stack) → has_client i ≡ true → Keeps a (down_valid lw i a)
  unfolding down_valid
  Keeps-down_valid i a c =
      let b = drop_client lw i a in
      let z = record b { stack = netif_set_down i (netif_set_addr i zero_info b.stack) } in
      if_keeps (Keeps a) (get i a.esp_netif) _ _
        (own-default (start_ip_lost_timer lw i z) ∙ own-lost i z ∙ own-drop_client i a c) refl
