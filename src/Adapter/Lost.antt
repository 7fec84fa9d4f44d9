-- ===== src/Adapter/Lost.antt =====
-- The callback of the DHCP client, and the timer after which a lost address is reported.
use bkc_chooser.Base.{
  ℕ, ◌*◌, Bool, true, false, not, ◌&&◌, ◌||◌, Option, none, some, [], ◌∷◌, ◌++◌, ◌==◌,
  if◌then◌else◌,
}
use bkc_chooser.Adapter.{
  If, sta, ap, eth, IpInfo, zero_info, get, put, Event, sta_got_ip, eth_got_ip, sta_lost_ip, Lwip,
  Adapter,
}

-- `memcmp` of two tcpip_adapter_ip_info_t, or the three calls of ip4_addr_cmp.
abbrev pub same_info : IpInfo → IpInfo → Bool
same_info a b = a.ip == b.ip && (a.netmask == b.netmask && a.gw == b.gw)

-- CONFIG_IP_LOST_TIMER_INTERVAL, in seconds.
abbrev pub ip_lost_timer_interval : ℕ
ip_lost_timer_interval = 120

module _ (lw : Lwip) where
  open lw use {Stack, addr, sys_timeout}

  -- tcpip_adapter_start_ip_lost_timer.
  unfoldable pub start_ip_lost_timer : If → Adapter Stack → Adapter Stack
  start_ip_lost_timer ap a = a
  start_ip_lost_timer eth a = a
  start_ip_lost_timer sta a =
      if a.timer_running.at_sta
      then a
      else if a.esp_netif.at_sta && not (a.esp_ip_old.at_sta.ip == 0)
      then record a {
        timer_running = put sta true a.timer_running;
        stack = sys_timeout (ip_lost_timer_interval * 1000) sta a.stack;
      }
      else a

  -- tcpip_adapter_ip_lost_timer: what the timer runs.
  unfoldable pub ip_lost_timer : If → Adapter Stack → Adapter Stack
  ip_lost_timer ap a = record a { timer_running = put ap false a.timer_running }
  ip_lost_timer eth a = record a { timer_running = put eth false a.timer_running }
  ip_lost_timer sta a =
      let b = record a { timer_running = put sta false a.timer_running } in
      if not a.esp_netif.at_sta || (addr sta a.stack).ip == 0
      then record b {
        esp_ip_old = put sta zero_info a.esp_ip_old;
        events = a.events ++ sta_lost_ip ∷ [];
      }
      else b

  abbrev pub got_ip : If → Bool → IpInfo → Event
  got_ip eth changed info = eth_got_ip true info
  got_ip _ changed info = sta_got_ip changed info

  -- The part of tcpip_adapter_dhcpc_cb for an interface that has a client.
  unfoldable pub dhcpc_cb_at : If → Adapter Stack → Adapter Stack
  dhcpc_cb_at i a =
      let new = addr i a.stack in
      if not (new.ip == 0)
      then (if same_info new (get i a.esp_ip) then a else record a {
        esp_ip = put i new a.esp_ip;
        esp_ip_old = put i new a.esp_ip_old;
        events = a.events ++ got_ip i (not (same_info new (get i a.esp_ip_old))) new ∷ [];
      })
      else if not ((get i a.esp_ip).ip == 0)
      then start_ip_lost_timer i a
      else a

  -- tcpip_adapter_dhcpc_cb. The netif that lwIP hands over is an interface's, or none.
  unfoldable pub dhcpc_cb : Option If → Adapter Stack → Adapter Stack
  dhcpc_cb none a = a
  dhcpc_cb (some ap) a = a
  dhcpc_cb (some sta) a = if a.esp_netif.at_sta then dhcpc_cb_at sta a else a
  dhcpc_cb (some eth) a = if a.esp_netif.at_eth then dhcpc_cb_at eth a else a
