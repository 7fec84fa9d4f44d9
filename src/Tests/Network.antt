-- ===== src/Tests/Network.antt =====
-- Concrete calls of components/tcpip_adapter.
use bkc_chooser.Base.{refl, ℕ, ◌+◌, ◌/◌, ◌<◌, ◌≤◌, ◌≡◌, ◌↔◌, ◌⊎◌, true, false, some, [], arith}
use bkc_chooser.Adapter.{Adapter, ok, ap_default, Lwip, boot_state}
use bkc_chooser.Adapter.Server.{range_fits, Lease, ServerOptions, requested, option_set, option_get}
use bkc_chooser.Adapter.Lease.{range_fits_iff, read_back, option_get-set}

-- A stack that counts its calls, with every interface up.
abbrev pub counting : Lwip
counting = record {
  Stack = ℕ;
  tcpip_init = λ s. s + 1;
  calloc = λ i s. (true, s + 1);
  set_hwaddr = λ i m s. s + 1;
  is_up = λ i s. true;
  addr = λ i s. ap_default;
  netif_add = λ i a f s. s + 1;
  netif_remove = λ i s. s + 1;
  netif_set_up = λ i s. s + 1;
  netif_set_down = λ i s. s + 1;
  netif_set_addr = λ i a s. s + 1;
  netif_set_default = λ i s. s + 1;
  zero_addr = λ i s. s + 1;
  dhcps_start = λ i a s. s + 1;
  dhcps_stop = λ i s. s + 1;
  dhcp_start = λ i s. (true, s + 1);
  dhcp_set_cb = λ i s. s + 1;
  dhcp_release = λ i s. (true, s + 1);
  dhcp_stop = λ i s. s + 1;
  dhcp_cleanup = λ i s. s + 1;
  dns_clear_servers = λ s. s + 1;
  dns_setserver = λ n a s. s + 1;
  dns_getserver = λ n s. 0;
  dhcps_dns_setserver = λ a s. s + 1;
  dhcps_dns_getserver = λ s. 0;
  set_hostname = λ i n s. s + 1;
  hostname = λ i s. [];
  sys_timeout = λ n i s. s + 1;
  ethernetif_input = λ set b n s. s + 1;
  wlanif_input = λ i set b n eb s. s + 1;
}

-- 192.168.4.2 to 192.168.4.102, for an access point at 192.168.4.1.
range_fits_iff_example : (range_fits 0xc0a80401 0xc0a80402 0xc0a80466 ≡ true) ↔ (
    0xc0a80402 ≤ 0xc0a80466
    × 0xc0a80466 ≤ 0xc0a80402 + 100
    × 0xc0a80402 / 0x100 ≡ 0xc0a80401 / 0x100
    × 0xc0a80466 / 0x100 ≡ 0xc0a80401 / 0x100
    × (0xc0a80401 < 0xc0a80402 ⊎ 0xc0a80466 < 0xc0a80401))
range_fits_iff_example = range_fits_iff 0xc0a80401 0xc0a80402 0xc0a80466 (omega arith) (omega arith)

-- The station is up and has the address of the stack, which the adapter does not know yet.
abbrev fresh_state : Adapter ℕ
fresh_state = boot_state 0

-- Options with a lease range of the default segment, and a range that reaches the own address.
abbrev no_lease : Lease
no_lease = record { enable = false; start_ip = 0; end_ip = 0 }

abbrev server_options : ServerOptions
server_options = record {
  dhcps_lease_time = 120;
  dhcps_poll = no_lease;
  dhcps_offer = 1;
  dhcps_dns = 0;
}

abbrev own_range : Lease
own_range = record { enable = true; start_ip = 0x0104a8c0; end_ip = 0x0904a8c0 }

option_get-set_example :
    option_get counting true
      (some (requested own_range))
      fresh_state
      (option_set counting true (some (requested own_range)) fresh_state server_options).1
    ≡ (ok, some (read_back counting (requested own_range) fresh_state server_options))
option_get-set_example =
    option_get-set counting (requested own_range) fresh_state server_options refl
