-- ===== src/Adapter/Static.antt =====
-- A static address: the DHCP client, or the access point's server, is stopped, then
-- tcpip_adapter_set_ip_info is called; tcpip_adapter_get_ip_info reads it back.
use bkc_chooser.Base.{
  Bool, true, not, ◌&&◌, ◌||◌, some, [], ◌∷◌, ◌++◌, ◌≡◌, refl, ap, inl, inr, Bool-cases, ◌==◌,
  if◌then◌else◌, arith,
}
use bkc_chooser.Adapter.{
  If, sta, eth, IpInfo, PerIf, get, put, is_stopped, sta_got_ip, ok, Lwip, Adapter, Outcome, up,
  reset_ip_info,
}
use bkc_chooser.Adapter.Lost.{same_info, start_ip_lost_timer}
use bkc_chooser.Adapter.Address.{
  current_info, get_ip_info, status_of, clear_dns, set_static, set_ip_valid, set_ip_info,
}
use bkc_chooser.Adapter.Dhcp.{server_stop, adapter_dhcps_stop, client_stop, adapter_dhcpc_stop}
use bkc_chooser.Adapter.Ready.{ready, state_after}

-- What is assumed of netif_set_addr: the address is the one set, and the interface stays up or down.
pub record AddrLaws (lw : Lwip) : Type 0 where
  pub addr_set :
      (i : If) (info : IpInfo) (s : lw.Stack) → lw.addr i (lw.netif_set_addr i info s) ≡ info
  pub is_up_set :
      (i : If) (info : IpInfo) (s : lw.Stack)
      → lw.is_up i (lw.netif_set_addr i info s) ≡ lw.is_up i s

pub get-put : {X : Type 0} (i : If) (x : X) (r : PerIf X) → get i (put i x r) ≡ x
get-put sta x r = refl
get-put If.ap x r = refl
get-put eth x r = refl

module _ (lw : Lwip) (laws : AddrLaws lw) where
  open lw use {Stack}
  open laws use {addr_set, is_up_set}

  -- The call that stops DHCP on an interface.
  abbrev pub dhcp_off : If → Adapter Stack → Outcome Stack
  dhcp_off If.ap a = adapter_dhcps_stop lw (some If.ap) a
  dhcp_off i a = adapter_dhcpc_stop lw (some i) a

  dhcp_off-stopped :
      (i : If) (a : Adapter Stack)
      → a.tcpip_inited ≡ true
      → ready a ≡ true
      → let b = state_after a (dhcp_off i a) in
        (is_stopped (status_of lw i b) ≡ true) × (b.tcpip_inited ≡ true)
  unfolding adapter_dhcps_stop adapter_dhcpc_stop server_stop client_stop start_ip_lost_timer
      reset_ip_info status_of
  dhcp_off-stopped If.ap a t h = ground arith
  dhcp_off-stopped sta a t h = ground arith
  dhcp_off-stopped eth a t h = ground arith

  -- Whether a static address is announced: not where one of its parts is 0.0.0.0.
  abbrev pub is_complete : IpInfo → Bool
  is_complete info = not (info.ip == 0 || (info.netmask == 0 || info.gw == 0))

  -- The state with the DNS servers forgotten.
  abbrev pub cleared : If → Adapter Stack → Adapter Stack
  cleared i a = record a { stack = clear_dns lw i a.stack }

  set_static-fields :
      (i : If) (info : IpInfo) (a : Adapter Stack)
      → let s = clear_dns lw i a.stack in
        let c = set_static lw i info a in
        (c.esp_netif ≡ a.esp_netif)
        × (c.esp_ip ≡ put i info a.esp_ip)
        × (c.stack ≡ (if up lw i (cleared i a) then lw.netif_set_addr i info s else s))
  unfolding set_static
  set_static-fields i info a = ground arith

  current_info-set_static :
      (i : If) (info : IpInfo) (a : Adapter Stack)
      → current_info lw i (set_static lw i info a) ≡ info
  unfolding current_info
  current_info-set_static i info a =
      let s = clear_dns lw i a.stack in
      let (netif, kept, stack) = set_static-fields i info a in
      rw (netif, kept, stack)
        (elim (Bool-cases (up lw i (cleared i a))) [
          | inl e ↦ rw (e, is_up_set i info s, e) (addr_set i info s)
          | inr e ↦ rw (e, e) (get-put i info a.esp_ip)
        ])

  events-set_static :
      (i : If) (info : IpInfo) (a : Adapter Stack)
      → (set_static lw i info a).events ≡ (
          if up lw i (cleared i a) && is_complete info
          then a.events ++ sta_got_ip (not (same_info info (get i a.esp_ip_old))) info ∷ []
          else a.events)
  unfolding set_static
  events-set_static i info a = ground arith

  -- After the call that stops DHCP on an interface, whatever its result, setting an address is
  -- accepted, and the address is read back, whether the interface is up or down; it is announced
  -- where the interface is up and none of its parts is 0.0.0.0, and whether it is said to have
  -- changed is told by the last announced one. The adapter is initialised and `ready` holds, as it
  -- does after any calls; netif_set_addr is assumed to behave as AddrLaws says.
  pub static_address :
      (i : If) (info : IpInfo) (a : Adapter Stack)
      → a.tcpip_inited ≡ true
      → ready a ≡ true
      → let b = state_after a (dhcp_off i a) in
        (c : Adapter Stack) × (set_ip_info lw (some i) (some info) b ≡ some (ok, c))
        × (get_ip_info lw (some i) c ≡ (ok, some info))
        × (c.events ≡ (
            if up lw i (cleared i b) && is_complete info
            then b.events ++ sta_got_ip (not (same_info info (get i b.esp_ip_old))) info ∷ []
            else b.events))
  unfolding set_ip_info set_ip_valid get_ip_info
  static_address i info a t h =
      let b = state_after a (dhcp_off i a) in
      let (off, inited) = dhcp_off-stopped i a t h in
      (
        set_static lw i info b,
        rw (inited, off) refl,
        ap (λ (x : IpInfo). (ok, some x)) (current_info-set_static i info b),
        events-set_static i info b,
      )
