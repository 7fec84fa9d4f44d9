-- ===== src/Adapter.antt =====
-- components/tcpip_adapter: the state behind the tcpip_adapter_* calls, and the calls of lwIP,
-- which are a parameter.
pub mod Iface
pub mod Address
pub mod Lost
pub mod Dhcp
pub mod Server
pub mod Names
pub mod Input
pub mod Lease
pub mod Announced
pub mod Ready
pub mod Invariant
pub mod Events
pub mod Own
pub mod Static
pub mod Ipc
use bkc_chooser.Base.{
  ℕ, ◌*◌, ◌+◌, Bool, true, false, ◌&&◌, Option, none, List, [], Bytes, if◌then◌else◌,
}

-- The interfaces of tcpip_adapter_if_t. A parameter of that type is an `Option If`: `none` stands
-- for any value from TCPIP_ADAPTER_IF_MAX on.
pub data If : Type 0 where
  sta ap eth : If

-- tcpip_adapter_ip_info_t, in network byte order.
pub record IpInfo : Type 0 where
  pub ip : ℕ
  pub netmask : ℕ
  pub gw : ℕ

abbrev pub zero_info : IpInfo
zero_info = record { ip = 0; netmask = 0; gw = 0 }

-- An array with an entry for each interface.
pub record PerIf {ℓ} (A : Type ℓ) : Type ℓ where
  pub at_sta : A
  pub at_ap : A
  pub at_eth : A

abbrev pub get {ℓ} : {A : Type ℓ} → If → PerIf A → A
get sta r = r.at_sta
get ap r = r.at_ap
get eth r = r.at_eth

abbrev pub put {ℓ} : {A : Type ℓ} → If → A → PerIf A → PerIf A
put sta x r = record r { at_sta = x }
put ap x r = record r { at_ap = x }
put eth x r = record r { at_eth = x }

abbrev pub everywhere {ℓ} : {A : Type ℓ} → A → PerIf A
everywhere x = record { at_sta = x; at_ap = x; at_eth = x }

-- tcpip_adapter_dhcp_status_t.
pub data DhcpStatus : Type 0 where
  init started stopped : DhcpStatus

abbrev pub is_started : DhcpStatus → Bool
is_started started = true
is_started _ = false

abbrev pub is_stopped : DhcpStatus → Bool
is_stopped stopped = true
is_stopped _ = false

abbrev pub is_init : DhcpStatus → Bool
is_init init = true
is_init _ = false

-- The results of the calls.
pub data Err : Type 0 where
  ok invalid_params if_not_ready dhcpc_start_failed already_started already_stopped : Err
  no_mem dhcp_not_stopped : Err

-- The functions that bring an interface up: wlanif_init_sta, wlanif_init_ap, ethernetif_init.
pub data InitFn : Type 0 where
  wlanif_init_sta wlanif_init_ap ethernetif_init : InitFn

-- The events that are sent to the event loop.
pub data Event : Type 0 where
  sta_got_ip eth_got_ip : Bool → IpInfo → Event
  sta_lost_ip : Event

-- What the adapter calls of lwIP, over the stack's state. `is_up`, `addr` and `hostname` read the
-- struct netif of an interface, whose address the adapter keeps once it is allocated; `calloc`
-- answers whether there is memory for it. The input functions take whether the struct is allocated, a
-- buffer and its length, and for the wireless interfaces the driver's own handle of the buffer.
-- `dhcp_release` says whether it called the client's callback, as its last step.
pub record Lwip : Type 1 where
  pub Stack : Type 0
  pub tcpip_init : Stack → Stack
  pub calloc : If → Stack → Bool × Stack
  pub set_hwaddr : If → Bytes → Stack → Stack
  pub is_up : If → Stack → Bool
  pub addr : If → Stack → IpInfo
  pub netif_add : If → IpInfo → InitFn → Stack → Stack
  pub netif_remove : If → Stack → Stack
  pub netif_set_up : If → Stack → Stack
  pub netif_set_down : If → Stack → Stack
  pub netif_set_addr : If → IpInfo → Stack → Stack
  pub netif_set_default : If → Stack → Stack
  pub zero_addr : If → Stack → Stack
  pub dhcps_start : If → ℕ → Stack → Stack
  pub dhcps_stop : If → Stack → Stack
  pub dhcp_start : If → Stack → Bool × Stack
  pub dhcp_set_cb : If → Stack → Stack
  pub dhcp_release : If → Stack → Bool × Stack
  pub dhcp_stop : If → Stack → Stack
  pub dhcp_cleanup : If → Stack → Stack
  pub dns_clear_servers : Stack → Stack
  pub dns_setserver : ℕ → ℕ → Stack → Stack
  pub dns_getserver : ℕ → Stack → ℕ
  pub dhcps_dns_setserver : ℕ → Stack → Stack
  pub dhcps_dns_getserver : Stack → ℕ
  pub set_hostname : If → Bytes → Stack → Stack
  pub hostname : If → Stack → Bytes
  pub sys_timeout : ℕ → If → Stack → Stack
  pub ethernetif_input : Bool → ℕ → ℕ → Stack → Stack
  pub wlanif_input : If → Bool → ℕ → ℕ → ℕ → Stack → Stack

-- The static variables of tcpip_adapter_lwip.c, the events sent so far, and the stack. An entry
-- of `esp_netif` says whether the pointer is set.
pub record Adapter (S : Type 0) : Type 0 where
  pub tcpip_inited : Bool
  pub esp_netif : PerIf Bool
  pub esp_ip : PerIf IpInfo
  pub esp_ip_old : PerIf IpInfo
  pub esp_netif_init_fn : PerIf (Option InitFn)
  pub timer_running : PerIf Bool
  pub dhcps_status : DhcpStatus
  pub dhcpc_status : PerIf DhcpStatus
  pub events : List Event
  pub stack : S

-- The variables as the program starts.
abbrev pub boot_state : {S : Type 0} → S → Adapter S
boot_state s = record {
  tcpip_inited = false;
  esp_netif = everywhere false;
  esp_ip = everywhere zero_info;
  esp_ip_old = everywhere zero_info;
  esp_netif_init_fn = everywhere none;
  timer_running = everywhere false;
  dhcps_status = init;
  dhcpc_status = everywhere init;
  events = [];
  stack = s;
}

-- IP4_ADDR, as the u32_t that a little-endian machine keeps.
abbrev pub ip4_addr : ℕ → ℕ → ℕ → ℕ → ℕ
ip4_addr a b c d = a + b * 0x100 + c * 0x10000 + d * 0x1000000

-- The address that the access point has when it comes up: 192.168.4.1/24.
abbrev pub ap_default : IpInfo
ap_default = record {
  ip = ip4_addr 192 168 4 1;
  netmask = ip4_addr 255 255 255 0;
  gw = ip4_addr 192 168 4 1;
}

-- What a call gives: its result and the state, or `none` where it aborts.
abbrev pub Outcome : Type 0 → Type 0
Outcome S = Option (Err × Adapter S)

-- TCPIP_ADAPTER_IPC_CALL: without initialisation the call aborts. On another task than lwIP's the
-- macro hands the same function to lwIP's task and waits for its result (Adapter/Ipc), so the body
-- runs once, on one task, in either case.
abbrev pub ipc : {S : Type 0} → Adapter S → Outcome S → Outcome S
ipc a body = if a.tcpip_inited then body else none

module _ (lw : Lwip) where
  open lw use {Stack, tcpip_init, netif_set_default, is_up}

  -- tcpip_adapter_init.
  unfoldable pub adapter_init : Adapter Stack → Adapter Stack
  adapter_init a = if a.tcpip_inited then a else record a {
    tcpip_inited = true;
    esp_ip = record { at_sta = zero_info; at_ap = ap_default; at_eth = zero_info };
    esp_ip_old = everywhere zero_info;
    stack = tcpip_init a.stack;
  }

  -- netif_is_up, which is false for a null pointer.
  abbrev pub up : If → Adapter Stack → Bool
  up i a = get i a.esp_netif && is_up i a.stack

  -- tcpip_adapter_update_default_netif.
  unfoldable pub update_default_netif : Adapter Stack → Adapter Stack
  update_default_netif a =
      if up sta a
      then record a { stack = netif_set_default sta a.stack }
      else if up eth a
      then record a { stack = netif_set_default eth a.stack }
      else if up ap a
      then record a { stack = netif_set_default ap a.stack }
      else a

  -- tcpip_adapter_reset_ip_info.
  unfoldable pub reset_ip_info : If → Adapter Stack → Adapter Stack
  reset_ip_info i a = record a { esp_ip = put i zero_info a.esp_ip }
