-- ===== src/Adapter/Address.antt =====
-- The addresses of an interface: tcpip_adapter_set_old_ip_info, _get_old_ip_info, _get_ip_info and
-- _set_ip_info of components/tcpip_adapter/tcpip_adapter_lwip.c.
use bkc_chooser.Base.{not, ◌||◌, Option, none, some, [], ◌∷◌, ◌++◌, ◌==◌, if◌then◌else◌}
use bkc_chooser.Adapter.{
  If, sta, ap, eth, IpInfo, get, put, DhcpStatus, is_stopped, Err, ok, invalid_params,
  dhcp_not_stopped, sta_got_ip, Lwip, Adapter, Outcome, ipc, up,
}
use bkc_chooser.Adapter.Lost.{same_info}

module _ (lw : Lwip) where
  open lw use {Stack, addr, netif_set_addr, dns_clear_servers}

  -- tcpip_adapter_set_old_ip_info. Its parameters are tested before the call is handed over.
  unfoldable pub set_old_ip_info : Option If → Option IpInfo → Adapter Stack → Outcome Stack
  set_old_ip_info (some i) (some info) a =
      ipc a (some (ok, record a { esp_ip_old = put i info a.esp_ip_old }))
  set_old_ip_info _ _ a = some (invalid_params, a)

  -- tcpip_adapter_get_old_ip_info, which writes the address to a pointer that is set.
  unfoldable pub get_old_ip_info : Option If → Adapter Stack → Err × Option IpInfo
  get_old_ip_info (some i) a = (ok, some (get i a.esp_ip_old))
  get_old_ip_info none a = (invalid_params, none)

  unfoldable pub current_info : If → Adapter Stack → IpInfo
  current_info i a = if up lw i a then addr i a.stack else get i a.esp_ip

  -- tcpip_adapter_get_ip_info.
  unfoldable pub get_ip_info : Option If → Adapter Stack → Err × Option IpInfo
  get_ip_info (some i) a = (ok, some (current_info i a))
  get_ip_info none a = (invalid_params, none)

  -- The DHCP status that has to be `stopped` for a static address.
  unfoldable pub status_of : If → Adapter Stack → DhcpStatus
  status_of ap a = a.dhcps_status
  status_of sta a = get sta a.dhcpc_status
  status_of eth a = get eth a.dhcpc_status

  -- The DNS servers are forgotten where the interface has a DHCP client.
  unfoldable pub clear_dns : If → Stack → Stack
  clear_dns ap s = s
  clear_dns _ s = dns_clear_servers s

  -- The part of tcpip_adapter_set_ip_info behind its tests.
  unfoldable pub set_static : If → IpInfo → Adapter Stack → Adapter Stack
  set_static i info a =
      let b = record a { esp_ip = put i info a.esp_ip; stack = clear_dns i a.stack } in
      let c = record b { stack = netif_set_addr i info b.stack } in
      if up lw i b
      then (if info.ip == 0 || (info.netmask == 0 || info.gw == 0) then c else record c {
        esp_ip_old = put i info a.esp_ip_old;
        events = a.events ++ sta_got_ip (not (same_info info (get i a.esp_ip_old))) info ∷ [];
      })
      else b

  unfoldable pub set_ip_valid : If → IpInfo → Adapter Stack → Err × Adapter Stack
  set_ip_valid i info a =
      if is_stopped (status_of i a) then (ok, set_static i info a) else (dhcp_not_stopped, a)

  -- tcpip_adapter_set_ip_info.
  unfoldable pub set_ip_info : Option If → Option IpInfo → Adapter Stack → Outcome Stack
  set_ip_info (some i) (some info) a = ipc a (some (set_ip_valid i info a))
  set_ip_info _ _ a = ipc a (some (invalid_params, a))
