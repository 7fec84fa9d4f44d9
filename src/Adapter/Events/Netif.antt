-- ===== src/Adapter/Events/Netif.antt =====
-- The calls about interfaces, addresses and names as steps of the machine of events.
use bkc_chooser.Base.{
  ℕ, Bool, not, ◌||◌, ◌&&◌, Option, none, some, [], ◌∷◌, ◌++◌, Bytes, ◌≡◌, refl, ◌∙◌, arith, ◌==◌,
  if_keeps,
}
use bkc_chooser.Adapter.{
  If, sta, eth, IpInfo, zero_info, InitFn, get, put, is_stopped, Lwip, Adapter, Outcome, up,
  reset_ip_info, sta_got_ip,
}
use bkc_chooser.Adapter.Ready.{state_after}
use bkc_chooser.Adapter.Lost.{start_ip_lost_timer, same_info}
use bkc_chooser.Adapter.Iface.{
  add_netif, alloc_netif, start_server, started_netif, start_valid, release_client, stop_dhcp,
  stop_valid, up_valid, drop_client, down_valid,
}
use bkc_chooser.Adapter.Address.{set_static, set_ip_valid, status_of, clear_dns}
use bkc_chooser.Adapter.Names.{set_dns_valid, set_hostname_valid}
use bkc_chooser.Adapter.Events.{view, stay, announce}
use bkc_chooser.Adapter.Events.Calls.{Moves, view-default, Moves-lost, Moves-dhcpc_cb, Moves-either}

module _ (lw : Lwip) (free : Bool) where
  open lw use {
    Stack, addr, is_up, dhcp_stop, netif_set_down, netif_set_addr, netif_remove, netif_set_up,
    set_hwaddr, netif_add, zero_addr, dns_clear_servers, sys_timeout,
  }

  view-drop_client : (i : If) (a : Adapter Stack) → view (drop_client lw i a) ≡ view a
  unfolding drop_client reset_ip_info
  view-drop_client i a = ground arith

  -- The state that a call leaves.
  abbrev Leads : Adapter Stack → Outcome Stack → Type 0
  Leads a r = Moves lw free a (state_after a r)

  abbrev lowered : If → Adapter Stack → Adapter Stack
  lowered i a =
      let b = drop_client lw i a in
      record b { stack = netif_set_down i (netif_set_addr i zero_info b.stack) }

  Moves-lowered :
      (i : If) (a : Adapter Stack) → Moves lw free a (start_ip_lost_timer lw i (lowered i a))
  Moves-lowered i a = rw (view-drop_client i a) at (Moves-lost lw free i (lowered i a))

  pub Moves-down :
      (i : If) (a : Adapter Stack) → Moves lw free a (state_after a (down_valid lw i a))
  unfolding down_valid
  Moves-down i a =
      let c = start_ip_lost_timer lw i (lowered i a) in
      Moves-either lw free a (state_after a (down_valid lw i a)) (get i a.esp_netif) (view c)
        (view a) (ground (arith, view-default lw free c)) (Moves-lowered i a) (stay refl)

  pub view-up : (i : If) (a : Adapter Stack) → view (state_after a (up_valid lw i a)) ≡ view a
  unfolding up_valid
  view-up i a = ground (
    arith,
    view-default lw free
        (record a { stack = netif_set_up i (netif_set_addr i (get i a.esp_ip) a.stack) }),
  )

  -- The release may run the client's callback.
  Moves-release : (i : If) (a : Adapter Stack) → Moves lw free a (release_client lw i a)
  unfolding release_client
  Moves-release i a =
      let (calls, s) = lw.dhcp_release i a.stack in
      if_keeps (Moves lw free a) calls _ _
        (Moves-dhcpc_cb lw free (some i) (record a { stack = s })) (stay refl)

  Moves-stop_dhcp : (i : If) (a : Adapter Stack) → Moves lw free a (stop_dhcp lw i a)
  unfolding stop_dhcp reset_ip_info
  Moves-stop_dhcp sta a = Moves-release sta a
  Moves-stop_dhcp If.ap a = stay refl
  Moves-stop_dhcp eth a = Moves-release eth a

  pub Moves-stop :
      (i : If) (a : Adapter Stack) → Moves lw free a (state_after a (stop_valid lw i a))
  unfolding stop_valid
  Moves-stop i a =
      let b = stop_dhcp lw i a in
      let c : Adapter Stack = record b { stack = netif_remove i (netif_set_down i b.stack) } in
      if_keeps (Leads a) (not (get i a.esp_netif)) _ _ (stay refl) (
        if_keeps (Leads a) (not (up lw i a)) _ _ (stay refl)
          (rw (view-default lw free c) (Moves-stop_dhcp i a)))

  view-alloc : (i : If) (a : Adapter Stack) → view (alloc_netif lw i a) ≡ view a
  unfolding alloc_netif
  view-alloc i a = ground arith

  view-start_server :
      (i : If) (info : IpInfo) (a : Adapter Stack) → view (start_server lw i info a) ≡ view a
  unfolding start_server
  view-start_server sta info a = refl
  view-start_server eth info a = refl
  view-start_server If.ap info a = ground arith

  abbrev added : If → Bytes → IpInfo → Adapter Stack → InitFn → Adapter Stack
  added i mac info a f = record a { stack = netif_add i info f (set_hwaddr i mac a.stack) }

  view-started :
      (i : If) (info : IpInfo) (a b : Adapter Stack)
      → view b ≡ view a
      → view (state_after a (started_netif lw i info (some b))) ≡ view a
  view-started i info a b e =
      view-default lw free (start_server lw i info b) ∙ view-start_server i info b ∙ e

  view-add :
      (i : If) (mac : Bytes) (info : IpInfo) (a b : Adapter Stack) (f : Option InitFn)
      → view b ≡ view a
      → view (
          state_after a (
            started_netif lw i info
              (elim f [ none ↦ none | some f ↦ some (added i mac info b f) ])))
        ≡ view a
  view-add i mac info a b none e = refl
  view-add i mac info a b (some f) e = view-started i info a (added i mac info b f) e

  pub view-start :
      (i : If) (mac : Bytes) (info : IpInfo) (a : Adapter Stack)
      → view (state_after a (start_valid lw i mac info a)) ≡ view a
  unfolding start_valid add_netif
  view-start i mac info a =
      let b = alloc_netif lw i a in
      let P = λ (r : Outcome Stack). view (state_after a r) ≡ view a in
      if_keeps P (up lw i a) _ _ (view-started i info a a refl) (
        if_keeps P (get i b.esp_netif) _ _
          (view-add i mac info a b (get i b.esp_netif_init_fn) (view-alloc i a)) (view-alloc i a))

  abbrev told : If → IpInfo → Adapter Stack → Adapter Stack
  told i info a = record a {
    esp_ip_old = put i info a.esp_ip_old;
    events = a.events ++ sta_got_ip (not (same_info info (get i a.esp_ip_old))) info ∷ [];
  }

  Moves-told : (i : If) (info : IpInfo) (a : Adapter Stack) → Moves lw free a (told i info a)
  Moves-told sta info a = announce _ _ refl refl
  Moves-told If.ap info a = announce _ _ refl refl
  Moves-told eth info a = announce _ _ refl refl

  pub Moves-set_ip :
      (i : If) (info : IpInfo) (a : Adapter Stack) → Moves lw free a (set_ip_valid lw i info a).1
  unfolding set_ip_valid set_static
  Moves-set_ip i info a =
      let tells =
        is_stopped (status_of lw i a)
        && (up lw i (record a { stack = clear_dns lw i a.stack })
            && not (info.ip == 0 || (info.netmask == 0 || info.gw == 0))) in
      Moves-either lw free a (set_ip_valid lw i info a).1 tells (view (told i info a)) (view a)
        (ground arith) (Moves-told i info a) (stay refl)

  pub view-set_dns :
      (i : If) (type ip : ℕ) (a : Adapter Stack) → view (set_dns_valid lw i type ip a).1 ≡ view a
  unfolding set_dns_valid
  view-set_dns If.ap type ip a = ground arith
  view-set_dns sta type ip a = ground arith
  view-set_dns eth type ip a = ground arith

  pub view-set_hostname :
      (i : If) (name : Bytes) (a : Adapter Stack) → view (set_hostname_valid lw i name a).1 ≡ view a
  unfolding set_hostname_valid
  view-set_hostname i name a = ground arith
