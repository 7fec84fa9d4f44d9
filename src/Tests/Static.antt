-- ===== src/Tests/Static.antt =====
-- A static address for the station, over a stack that keeps the addresses of its interfaces.
use bkc_chooser.Base.{◌≡◌, refl, true, false, not, ◌&&◌, some, [], ◌∷◌, ◌++◌, if◌then◌else◌}
use bkc_chooser.Adapter.{
  sta, IpInfo, PerIf, get, put, everywhere, zero_info, ap_default, sta_got_ip, ok, Lwip, Adapter,
  boot_state, up,
}
use bkc_chooser.Adapter.Lost.{same_info}
use bkc_chooser.Adapter.Address.{get_ip_info, set_ip_info}
use bkc_chooser.Adapter.Ready.{state_after}
use bkc_chooser.Adapter.Static.{AddrLaws, dhcp_off, is_complete, cleared, get-put, static_address}

abbrev addressing : Lwip
addressing = record {
  Stack = PerIf IpInfo;
  tcpip_init = λ s. s;
  calloc = λ i s. (true, s);
  set_hwaddr = λ i m s. s;
  is_up = λ i s. true;
  addr = λ i s. get i s;
  netif_add = λ i a f s. put i a s;
  netif_remove = λ i s. s;
  netif_set_up = λ i s. s;
  netif_set_down = λ i s. s;
  netif_set_addr = λ i a s. put i a s;
  netif_set_default = λ i s. s;
  zero_addr = λ i s. put i zero_info s;
  dhcps_start = λ i a s. s;
  dhcps_stop = λ i s. s;
  dhcp_start = λ i s. (true, s);
  dhcp_set_cb = λ i s. s;
  dhcp_release = λ i s. (false, s);
  dhcp_stop = λ i s. s;
  dhcp_cleanup = λ i s. s;
  dns_clear_servers = λ s. s;
  dns_setserver = λ n a s. s;
  dns_getserver = λ n s. 0;
  dhcps_dns_setserver = λ a s. s;
  dhcps_dns_getserver = λ s. 0;
  set_hostname = λ i n s. s;
  hostname = λ i s. [];
  sys_timeout = λ n i s. s;
  ethernetif_input = λ set b n s. s;
  wlanif_input = λ i set b n eb s. s;
}

abbrev keeps_addresses : AddrLaws addressing
keeps_addresses = record { addr_set = λ i info s. get-put i info s; is_up_set = λ i info s. refl }

-- The station is up.
abbrev up_state : Adapter (PerIf IpInfo)
up_state = record (boot_state (everywhere zero_info)) {
  tcpip_inited = true;
  esp_netif = record { at_sta = true; at_ap = false; at_eth = false };
}

static_address_example :
    let b = state_after up_state (dhcp_off addressing keeps_addresses sta up_state) in
    (c : Adapter (PerIf IpInfo)) × (set_ip_info addressing (some sta) (some ap_default) b
      ≡ some (ok, c))
    × (get_ip_info addressing (some sta) c ≡ (ok, some ap_default))
    × (c.events ≡ (
        if up addressing sta (cleared addressing keeps_addresses sta b)
          && is_complete addressing keeps_addresses ap_default
        then b.events ++ sta_got_ip (not (same_info ap_default b.esp_ip_old.at_sta)) ap_default ∷ []
        else b.events))
static_address_example = static_address addressing keeps_addresses sta ap_default up_state refl refl
