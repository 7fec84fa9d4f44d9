-- ===== src/Adapter/Dhcp.antt =====
-- The DHCP server and the DHCP clients: tcpip_adapter_dhcps_* and tcpip_adapter_dhcpc_* of
-- components/tcpip_adapter/tcpip_adapter_lwip.c.
use bkc_chooser.Base.{Option, none, some, if◌then◌else◌}
use bkc_chooser.Adapter.{
  If, sta, ap, eth, get, put, DhcpStatus, init, started, stopped, is_started, is_stopped, Err, ok,
  invalid_params, if_not_ready, dhcpc_start_failed, already_started, already_stopped, Lwip, Adapter,
  Outcome, ipc, up, reset_ip_info,
}
use bkc_chooser.Adapter.Lost.{start_ip_lost_timer}
use bkc_chooser.Adapter.Address.{current_info}

module _ (lw : Lwip) where
  open lw use {
    Stack, dhcps_start, dhcps_stop, dhcp_start, dhcp_set_cb, dhcp_stop, zero_addr,
    dns_clear_servers,
  }

  -- tcpip_adapter_dhcps_get_status.
  unfoldable pub dhcps_get_status : Adapter Stack → Err × DhcpStatus
  dhcps_get_status a = (ok, a.dhcps_status)

  -- tcpip_adapter_dhcpc_get_status, which does not test its index: `none` where it reads past the
  -- array.
  unfoldable pub dhcpc_get_status : Option If → Adapter Stack → Option (Err × DhcpStatus)
  dhcpc_get_status none a = none
  dhcpc_get_status (some i) a = some (ok, get i a.dhcpc_status)

  unfoldable pub server_start : Adapter Stack → Err × Adapter Stack
  server_start a =
      if is_started a.dhcps_status
      then (already_started, a)
      else if up lw ap a
      then (
        ok,
        record a {
          stack = dhcps_start ap (current_info lw ap a).ip a.stack;
          dhcps_status = started;
        },
      )
      else (ok, record a { dhcps_status = init })

  -- tcpip_adapter_dhcps_start.
  unfoldable pub adapter_dhcps_start : Option If → Adapter Stack → Outcome Stack
  adapter_dhcps_start (some ap) a = ipc a (some (server_start a))
  adapter_dhcps_start _ a = ipc a (some (invalid_params, a))

  unfoldable pub server_stop : Adapter Stack → Err × Adapter Stack
  server_stop a =
      if is_started a.dhcps_status
      then (if get ap a.esp_netif
          then (ok, record a { stack = dhcps_stop ap a.stack; dhcps_status = stopped })
          else (if_not_ready, a))
      else if is_stopped a.dhcps_status
      then (already_stopped, a)
      else (ok, record a { dhcps_status = stopped })

  -- tcpip_adapter_dhcps_stop.
  unfoldable pub adapter_dhcps_stop : Option If → Adapter Stack → Outcome Stack
  adapter_dhcps_stop (some ap) a = ipc a (some (server_stop a))
  adapter_dhcps_stop _ a = ipc a (some (invalid_params, a))

  -- dhcp_start on an interface that is up, and what follows.
  unfoldable pub launch_client : If → Adapter Stack → Err × Adapter Stack
  launch_client i a =
      let (launched, s) = dhcp_start i a.stack in
      if launched
      then (ok, record a { stack = dhcp_set_cb i s; dhcpc_status = put i started a.dhcpc_status })
      else (dhcpc_start_failed, record a { stack = s })

  -- tcpip_adapter_dhcpc_start for an interface that has a client.
  unfoldable pub client_start : If → Adapter Stack → Err × Adapter Stack
  client_start i a =
      let b = record (reset_ip_info lw i a) { stack = dns_clear_servers a.stack } in
      let c = start_ip_lost_timer lw i (record b { stack = zero_addr i b.stack }) in
      if is_started (get i a.dhcpc_status)
      then (already_started, a)
      else if up lw i b
      then launch_client i c
      else (ok, record b { dhcpc_status = put i init a.dhcpc_status })

  -- tcpip_adapter_dhcpc_start.
  unfoldable pub adapter_dhcpc_start : Option If → Adapter Stack → Outcome Stack
  adapter_dhcpc_start (some sta) a = ipc a (some (client_start sta a))
  adapter_dhcpc_start (some eth) a = ipc a (some (client_start eth a))
  adapter_dhcpc_start _ a = ipc a (some (invalid_params, a))

  -- tcpip_adapter_dhcpc_stop for an interface that has a client.
  unfoldable pub client_stop : If → Adapter Stack → Err × Adapter Stack
  client_stop i a =
      let b =
        start_ip_lost_timer lw i (reset_ip_info lw i (record a { stack = dhcp_stop i a.stack })) in
      if is_started (get i a.dhcpc_status)
      then (if get i a.esp_netif
          then (ok, record b { dhcpc_status = put i stopped b.dhcpc_status })
          else (if_not_ready, a))
      else if is_stopped (get i a.dhcpc_status)
      then (already_stopped, a)
      else (ok, record a { dhcpc_status = put i stopped a.dhcpc_status })

  -- tcpip_adapter_dhcpc_stop.
  unfoldable pub adapter_dhcpc_stop : Option If → Adapter Stack → Outcome Stack
  adapter_dhcpc_stop (some sta) a = ipc a (some (client_stop sta a))
  adapter_dhcpc_stop (some eth) a = ipc a (some (client_stop eth a))
  adapter_dhcpc_stop _ a = ipc a (some (invalid_params, a))
