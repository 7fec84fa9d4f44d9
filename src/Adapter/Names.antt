-- ===== src/Adapter/Names.antt =====
-- The DNS servers, the host name and the interface of a struct netif: tcpip_adapter_set_dns_info,
-- _get_dns_info, _set_hostname, _get_hostname, _get_esp_if and _get_sta_list of
-- components/tcpip_adapter/tcpip_adapter_lwip.c.
use bkc_chooser.Base.{
  ℕ, not, Option, none, some, List, [], ◌∷◌, Bytes, length, ltb, ◌==◌, if◌then◌else◌, Bool, true,
  false,
}
use bkc_chooser.Adapter.{
  If, sta, ap, eth, get, Err, ok, invalid_params, if_not_ready, Lwip, Adapter, Outcome, ipc,
}

-- TCPIP_HOSTNAME_MAX_SIZE.
abbrev pub hostname_max : ℕ
hostname_max = 32

-- A struct netif that a caller hands in: no struct, the one allocated for an interface, or another.
pub data Netif : Type 0 where
  null another : Netif
  netif_of : If → Netif

-- The entry of esp_netif.
abbrev pub entry : If → Bool → Netif
entry i set = if set then netif_of i else null

abbrev same_if : If → If → Bool
same_if sta sta = true
same_if ap ap = true
same_if eth eth = true
same_if _ _ = false

abbrev pub same_netif : Netif → Netif → Bool
same_netif null null = true
same_netif (netif_of i) (netif_of j) = same_if i j
same_netif _ _ = false

module _ (lw : Lwip) where
  open lw use {
    Stack, dns_setserver, dns_getserver, dhcps_dns_setserver, dhcps_dns_getserver, set_hostname,
    hostname,
  }

  -- tcpip_adapter_set_dns_info: a type from 3 on is TCPIP_ADAPTER_DNS_MAX or more.
  unfoldable pub set_dns_valid : If → ℕ → ℕ → Adapter Stack → Err × Adapter Stack
  set_dns_valid ap type ip a =
      if not (ltb type 3)
      then (invalid_params, a)
      else if ip == 0
      then (invalid_params, a)
      else if type == 0
      then (ok, record a { stack = dhcps_dns_setserver ip a.stack })
      else (invalid_params, a)
  set_dns_valid i type ip a =
      if not (ltb type 3)
      then (invalid_params, a)
      else if ip == 0
      then (invalid_params, a)
      else (ok, record a { stack = dns_setserver type ip a.stack })

  unfoldable pub set_dns_info : Option If → ℕ → Option ℕ → Adapter Stack → Outcome Stack
  set_dns_info (some i) type (some ip) a = ipc a (some (set_dns_valid i type ip a))
  set_dns_info _ type _ a = ipc a (some (invalid_params, a))

  abbrev server_of : If → ℕ → Stack → ℕ
  server_of ap type s = dhcps_dns_getserver s
  server_of i type s = dns_getserver type s

  -- tcpip_adapter_get_dns_info, with a pointer that is set: the result, and what is written there.
  unfoldable pub get_dns_info : Option If → ℕ → Adapter Stack → Option (Err × Option ℕ)
  get_dns_info i type a =
      if a.tcpip_inited
      then (if ltb type 3
          then elim i [
            | none ↦ some (invalid_params, none)
            | some i ↦ some (ok, some (server_of i type a.stack))
          ]
          else some (invalid_params, none))
      else none

  -- tcpip_adapter_set_hostname: the name is copied, so it is kept whole.
  unfoldable pub set_hostname_valid : If → Bytes → Adapter Stack → Err × Adapter Stack
  set_hostname_valid i name a =
      if ltb hostname_max (length name)
      then (invalid_params, a)
      else if get i a.esp_netif
      then (ok, record a { stack = set_hostname i name a.stack })
      else (if_not_ready, a)

  unfoldable pub adapter_set_hostname : Option If → Option Bytes → Adapter Stack → Outcome Stack
  adapter_set_hostname (some i) (some name) a = ipc a (some (set_hostname_valid i name a))
  adapter_set_hostname _ _ a = ipc a (some (invalid_params, a))

  -- tcpip_adapter_get_hostname, with a pointer that is set.
  unfoldable pub get_hostname : Option If → Adapter Stack → Err × Option Bytes
  get_hostname none a = (invalid_params, none)
  get_hostname (some i) a =
      if get i a.esp_netif then (ok, some (hostname i a.stack)) else (invalid_params, none)

  -- tcpip_adapter_get_esp_if: `none` is ESP_IF_MAX.
  unfoldable pub get_esp_if : Netif → Adapter Stack → Option If
  get_esp_if dev a =
      if same_netif dev (entry sta (get sta a.esp_netif))
      then some sta
      else if same_netif dev (entry ap (get ap a.esp_netif))
      then some ap
      else if same_netif dev (entry eth (get eth a.esp_netif))
      then some eth
      else none

-- tcpip_adapter_get_sta_list: the address that the DHCP server leased to each station, and 0 where
-- dhcp_search_ip_on_mac finds none.
unfoldable pub get_sta_list : (Bytes → Option ℕ) → List Bytes → List (Bytes × ℕ)
get_sta_list search [] = []
get_sta_list search (mac ∷ macs) =
    (mac, elim (search mac) [ none ↦ 0 | some ip ↦ ip ]) ∷ get_sta_list search macs
