-- ===== src/Adapter/Iface.antt =====
-- Starting and stopping an interface, and taking it up and down.
use bkc_chooser.Base.{not, Option, none, some, Bytes, if◌then◌else◌}
use bkc_chooser.Adapter.{
  If, sta, ap, eth, IpInfo, zero_info, get, put, init, started, is_init, is_started, is_stopped, ok,
  invalid_params, if_not_ready, no_mem, InitFn, wlanif_init_sta, wlanif_init_ap, ethernetif_init,
  Lwip, Adapter, Outcome, ipc, up, update_default_netif, reset_ip_info,
}
use bkc_chooser.Adapter.Lost.{start_ip_lost_timer, dhcpc_cb}

module _ (lw : Lwip) where
  open lw use {
    Stack, calloc, set_hwaddr, netif_add, netif_remove, netif_set_up, netif_set_down,
    netif_set_addr, dhcps_start, dhcps_stop, dhcp_release, dhcp_stop, dhcp_cleanup,
  }

  -- netif_add, behind the assertion that the interface has an init function.
  unfoldable pub add_netif : If → Bytes → IpInfo → Adapter Stack → Option (Adapter Stack)
  add_netif i mac info a = elim (get i a.esp_netif_init_fn) [
    | none ↦ none
    | some f ↦ some (record a { stack = netif_add i info f (set_hwaddr i mac a.stack) })
  ]

  -- The allocation of the struct, where there is none.
  unfoldable pub alloc_netif : If → Adapter Stack → Adapter Stack
  alloc_netif i a =
      let (granted, s) = calloc i a.stack in
      if get i a.esp_netif then a else record a { esp_netif = put i granted a.esp_netif; stack = s }

  -- The access point's DHCP server starts with the interface, unless it was stopped.
  unfoldable pub start_server : If → IpInfo → Adapter Stack → Adapter Stack
  start_server sta info a = a
  start_server eth info a = a
  start_server ap info a =
      let b = record a { stack = netif_set_up ap a.stack } in
      if is_init a.dhcps_status
      then record b { stack = dhcps_start ap info.ip b.stack; dhcps_status = started }
      else b

  abbrev pub started_netif : If → IpInfo → Option (Adapter Stack) → Outcome Stack
  started_netif i info none = none
  started_netif i info (some a) = some (ok, update_default_netif lw (start_server i info a))

  -- The body of tcpip_adapter_start for a valid interface and pointers that are set.
  unfoldable pub start_valid : If → Bytes → IpInfo → Adapter Stack → Outcome Stack
  start_valid i mac info a =
      let b = alloc_netif i a in
      let added = started_netif i info (add_netif i mac info b) in
      if up lw i a
      then started_netif i info (some a)
      else if get i b.esp_netif
      then added
      else some (no_mem, b)

  -- tcpip_adapter_start.
  unfoldable pub adapter_start :
      Option If → Option Bytes → Option IpInfo → Adapter Stack → Outcome Stack
  adapter_start (some i) (some mac) (some info) a = ipc a (start_valid i mac info a)
  adapter_start _ _ _ a = ipc a (some (invalid_params, a))

  -- tcpip_adapter_sta_start, _ap_start and _eth_start: the init function of each interface.
  abbrev pub init_fn_of : If → InitFn
  init_fn_of sta = wlanif_init_sta
  init_fn_of ap = wlanif_init_ap
  init_fn_of eth = ethernetif_init

  unfoldable pub adapter_if_start :
      If → Option Bytes → Option IpInfo → Adapter Stack → Outcome Stack
  adapter_if_start i mac info a =
      adapter_start (some i) mac info
        (record a { esp_netif_init_fn = put i (some (init_fn_of i)) a.esp_netif_init_fn })

  -- dhcp_release, which runs tcpip_adapter_dhcpc_cb where the client had an address.
  unfoldable pub release_client : If → Adapter Stack → Adapter Stack
  release_client i a =
      let (calls, s) = dhcp_release i a.stack in
      let b = record a { stack = s } in if calls then dhcpc_cb lw (some i) b else b

  -- The DHCP server or client of an interface that is stopped.
  unfoldable pub stop_dhcp : If → Adapter Stack → Adapter Stack
  stop_dhcp ap a = record a {
    stack = dhcps_stop ap a.stack;
    dhcps_status = if is_stopped a.dhcps_status then a.dhcps_status else init;
  }
  stop_dhcp i a =
      let b = release_client i a in
      reset_ip_info lw i (record b {
        stack = dhcp_cleanup i (dhcp_stop i b.stack);
        dhcpc_status = put i init b.dhcpc_status;
      })

  unfoldable pub stop_valid : If → Adapter Stack → Outcome Stack
  stop_valid i a =
      let b = stop_dhcp i a in
      if not (get i a.esp_netif)
      then some (if_not_ready, a)
      else if not (up lw i a)
      then some (if_not_ready, record a { stack = netif_remove i a.stack })
      else some (
        ok,
        update_default_netif lw (record b { stack = netif_remove i (netif_set_down i b.stack) }),
      )

  -- tcpip_adapter_stop.
  unfoldable pub adapter_stop : Option If → Adapter Stack → Outcome Stack
  adapter_stop none a = ipc a (some (invalid_params, a))
  adapter_stop (some i) a = ipc a (stop_valid i a)

  unfoldable pub up_valid : If → Adapter Stack → Outcome Stack
  up_valid i a =
      if get i a.esp_netif
      then some (
        ok,
        update_default_netif lw
            (record a { stack = netif_set_up i (netif_set_addr i (get i a.esp_ip) a.stack) }),
      )
      else some (if_not_ready, a)

  -- tcpip_adapter_up. Only the interfaces with a client are taken up.
  unfoldable pub adapter_up : Option If → Adapter Stack → Outcome Stack
  adapter_up (some sta) a = ipc a (up_valid sta a)
  adapter_up (some eth) a = ipc a (up_valid eth a)
  adapter_up _ a = ipc a (some (ok, update_default_netif lw a))

  -- A client that runs is stopped, and its address forgotten.
  unfoldable pub drop_client : If → Adapter Stack → Adapter Stack
  drop_client i a =
      if is_started (get i a.dhcpc_status)
      then reset_ip_info lw i
          (record a { stack = dhcp_stop i a.stack; dhcpc_status = put i init a.dhcpc_status })
      else a

  unfoldable pub down_valid : If → Adapter Stack → Outcome Stack
  down_valid i a =
      let b = drop_client i a in
      let c = record b { stack = netif_set_down i (netif_set_addr i zero_info b.stack) } in
      if get i a.esp_netif
      then some (ok, update_default_netif lw (start_ip_lost_timer lw i c))
      else some (if_not_ready, a)

  -- tcpip_adapter_down.
  unfoldable pub adapter_down : Option If → Adapter Stack → Outcome Stack
  adapter_down (some sta) a = ipc a (down_valid sta a)
  adapter_down (some eth) a = ipc a (down_valid eth a)
  adapter_down _ a = ipc a (some (ok, update_default_netif lw a))
