-- ===== src/Adapter/Own/Calls.antt =====
-- The calls of the adapter, whatever their parameters, and the access point's address.
use bkc_chooser.Base.{ℕ, Bool, true, false, Option, none, some, Bytes, ◌≡◌, refl}
use bkc_chooser.Adapter.{
  If, sta, eth, IpInfo, put, Err, Lwip, Adapter, ok, invalid_params, ipc, update_default_netif,
}
use bkc_chooser.Adapter.Iface.{
  start_valid, adapter_start, stop_valid, adapter_stop, up_valid, adapter_up, down_valid,
  adapter_down,
}
use bkc_chooser.Adapter.Address.{set_old_ip_info, set_ip_valid, set_ip_info}
use bkc_chooser.Adapter.Dhcp.{
  server_start, adapter_dhcps_start, server_stop, adapter_dhcps_stop, client_start,
  adapter_dhcpc_start, client_stop, adapter_dhcpc_stop,
}
use bkc_chooser.Adapter.Names.{
  set_dns_valid, set_dns_info, set_hostname_valid, adapter_set_hostname,
}
use bkc_chooser.Adapter.Own.{
  own, own-default, own-set_dns, own-set_hostname, own-set_ip, own-server_start, own-server_stop,
  own-client_start, own-client_stop, Keeps-ipc, Keeps-start_valid, Keeps-stop_valid, Keeps-up_valid,
  Keeps-down_valid, Keeps,
}

-- Whether tcpip_adapter_set_ip_info is called for the access point.
abbrev pub sets_own : Option If → Bool
sets_own (some If.ap) = true
sets_own _ = false

module _ (lw : Lwip) where
  open lw use {
    Stack, addr, is_up, dhcp_stop, netif_set_down, netif_set_addr, netif_remove, netif_set_up,
    set_hwaddr, netif_add, zero_addr, dns_clear_servers,
  }

  -- The calls, with parameters of any kind.
  pub Keeps-start :
      (i : Option If) (mac : Option Bytes) (info : Option IpInfo) (a : Adapter Stack)
      → Keeps lw a (adapter_start lw i mac info a)
  unfolding adapter_start
  Keeps-start (some i) (some mac) (some info) a =
      Keeps-ipc lw a (start_valid lw i mac info a) (Keeps-start_valid lw i mac info a)
  Keeps-start none mac info a = Keeps-ipc lw a (some (invalid_params, a)) refl
  Keeps-start (some i) none info a = Keeps-ipc lw a (some (invalid_params, a)) refl
  Keeps-start (some i) (some mac) none a = Keeps-ipc lw a (some (invalid_params, a)) refl

  pub Keeps-stop : (i : Option If) (a : Adapter Stack) → Keeps lw a (adapter_stop lw i a)
  unfolding adapter_stop
  Keeps-stop none a = Keeps-ipc lw a (some (invalid_params, a)) refl
  Keeps-stop (some i) a = Keeps-ipc lw a (stop_valid lw i a) (Keeps-stop_valid lw i a)

  Keeps-idle : (a : Adapter Stack) → Keeps lw a (ipc a (some (ok, update_default_netif lw a)))
  Keeps-idle a = Keeps-ipc lw a (some (ok, update_default_netif lw a)) (own-default lw a)

  pub Keeps-up : (i : Option If) (a : Adapter Stack) → Keeps lw a (adapter_up lw i a)
  unfolding adapter_up
  Keeps-up none a = Keeps-idle a
  Keeps-up (some If.ap) a = Keeps-idle a
  Keeps-up (some sta) a = Keeps-ipc lw a (up_valid lw sta a) (Keeps-up_valid lw sta a)
  Keeps-up (some eth) a = Keeps-ipc lw a (up_valid lw eth a) (Keeps-up_valid lw eth a)

  pub Keeps-down : (i : Option If) (a : Adapter Stack) → Keeps lw a (adapter_down lw i a)
  unfolding adapter_down
  Keeps-down none a = Keeps-idle a
  Keeps-down (some If.ap) a = Keeps-idle a
  Keeps-down (some sta) a = Keeps-ipc lw a (down_valid lw sta a) (Keeps-down_valid lw sta a refl)
  Keeps-down (some eth) a = Keeps-ipc lw a (down_valid lw eth a) (Keeps-down_valid lw eth a refl)

  -- A call that answers with a result and a state.
  Keeps-answer :
      (a : Adapter Stack) (r : Err × Adapter Stack)
      → own lw r.1 ≡ own lw a
      → Keeps lw a (ipc a (some r))
  Keeps-answer a r h = Keeps-ipc lw a (some r) h

  Keeps-refusal : (a : Adapter Stack) → Keeps lw a (ipc a (some (invalid_params, a)))
  Keeps-refusal a = Keeps-answer a (invalid_params, a) refl

  pub Keeps-set_old :
      (i : Option If) (info : Option IpInfo) (a : Adapter Stack)
      → Keeps lw a (set_old_ip_info lw i info a)
  unfolding set_old_ip_info
  Keeps-set_old none info a = refl
  Keeps-set_old (some i) none a = refl
  Keeps-set_old (some i) (some info) a =
      Keeps-answer a (ok, record a { esp_ip_old = put i info a.esp_ip_old }) refl

  pub Keeps-set_ip :
      (i : Option If) (info : Option IpInfo) (a : Adapter Stack)
      → sets_own i ≡ false
      → Keeps lw a (set_ip_info lw i info a)
  unfolding set_ip_info
  Keeps-set_ip none info a c = Keeps-refusal a
  Keeps-set_ip (some i) none a c = Keeps-refusal a
  Keeps-set_ip (some If.ap) (some info) a c = absurd (cc c)
  Keeps-set_ip (some sta) (some info) a c =
      Keeps-answer a (set_ip_valid lw sta info a) (own-set_ip lw sta info a refl)
  Keeps-set_ip (some eth) (some info) a c =
      Keeps-answer a (set_ip_valid lw eth info a) (own-set_ip lw eth info a refl)

  pub Keeps-dhcps_start :
      (i : Option If) (a : Adapter Stack) → Keeps lw a (adapter_dhcps_start lw i a)
  unfolding adapter_dhcps_start
  Keeps-dhcps_start none a = Keeps-refusal a
  Keeps-dhcps_start (some sta) a = Keeps-refusal a
  Keeps-dhcps_start (some eth) a = Keeps-refusal a
  Keeps-dhcps_start (some If.ap) a = Keeps-answer a (server_start lw a) (own-server_start lw a)

  pub Keeps-dhcps_stop :
      (i : Option If) (a : Adapter Stack) → Keeps lw a (adapter_dhcps_stop lw i a)
  unfolding adapter_dhcps_stop
  Keeps-dhcps_stop none a = Keeps-refusal a
  Keeps-dhcps_stop (some sta) a = Keeps-refusal a
  Keeps-dhcps_stop (some eth) a = Keeps-refusal a
  Keeps-dhcps_stop (some If.ap) a = Keeps-answer a (server_stop lw a) (own-server_stop lw a)

  pub Keeps-dhcpc_start :
      (i : Option If) (a : Adapter Stack) → Keeps lw a (adapter_dhcpc_start lw i a)
  unfolding adapter_dhcpc_start
  Keeps-dhcpc_start none a = Keeps-refusal a
  Keeps-dhcpc_start (some If.ap) a = Keeps-refusal a
  Keeps-dhcpc_start (some sta) a =
      Keeps-answer a (client_start lw sta a) (own-client_start lw sta a refl)
  Keeps-dhcpc_start (some eth) a =
      Keeps-answer a (client_start lw eth a) (own-client_start lw eth a refl)

  pub Keeps-dhcpc_stop :
      (i : Option If) (a : Adapter Stack) → Keeps lw a (adapter_dhcpc_stop lw i a)
  unfolding adapter_dhcpc_stop
  Keeps-dhcpc_stop none a = Keeps-refusal a
  Keeps-dhcpc_stop (some If.ap) a = Keeps-refusal a
  Keeps-dhcpc_stop (some sta) a =
      Keeps-answer a (client_stop lw sta a) (own-client_stop lw sta a refl)
  Keeps-dhcpc_stop (some eth) a =
      Keeps-answer a (client_stop lw eth a) (own-client_stop lw eth a refl)

  pub Keeps-set_dns :
      (i : Option If) (type : ℕ) (ip : Option ℕ) (a : Adapter Stack)
      → Keeps lw a (set_dns_info lw i type ip a)
  unfolding set_dns_info
  Keeps-set_dns none type ip a = Keeps-refusal a
  Keeps-set_dns (some i) type none a = Keeps-refusal a
  Keeps-set_dns (some i) type (some ip) a =
      Keeps-answer a (set_dns_valid lw i type ip a) (own-set_dns lw i type ip a)

  pub Keeps-set_host :
      (i : Option If) (name : Option Bytes) (a : Adapter Stack)
      → Keeps lw a (adapter_set_hostname lw i name a)
  unfolding adapter_set_hostname
  Keeps-set_host none name a = Keeps-refusal a
  Keeps-set_host (some i) none a = Keeps-refusal a
  Keeps-set_host (some i) (some name) a =
      Keeps-answer a (set_hostname_valid lw i name a) (own-set_hostname lw i name a)
