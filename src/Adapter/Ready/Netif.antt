-- ===== src/Adapter/Ready/Netif.antt =====
-- Lemmas on the adapter's condition for starting, stopping, and taking up and down.
use bkc_chooser.Base.{true, not, Option, none, some, Bytes, ◌≡◌, ◌∙◌, if_keeps, if_keeps_by, arith}
use bkc_chooser.Adapter.{If, sta, eth, IpInfo, zero_info, InitFn, get, Lwip, Adapter, Outcome, up}
use bkc_chooser.Adapter.Lost.{start_ip_lost_timer}
use bkc_chooser.Adapter.Iface.{
  add_netif, alloc_netif, start_server, started_netif, start_valid, stop_dhcp, stop_valid, up_valid,
  drop_client, down_valid,
}
use bkc_chooser.Adapter.Ready.{
  ready, state_after, ready-default, ready-lost, ready-drop_client, ready-stop_dhcp, ready-alloc,
  and_left,
}

module _ (lw : Lwip) where
  open lw use {
    Stack, addr, is_up, dhcp_stop, netif_set_down, netif_set_addr, netif_remove, netif_set_up,
    set_hwaddr, netif_add, zero_addr, dns_clear_servers,
  }

  -- The state that a call leaves is ready.
  abbrev Leaves : Adapter Stack → Outcome Stack → Type 0
  Leaves a r = ready (state_after a r) ≡ true

  pub ready-start_server :
      (i : If) (info : IpInfo) (a : Adapter Stack)
      → get i a.esp_netif ≡ true
      → ready a ≡ true
      → ready (start_server lw i info a) ≡ true
  unfolding start_server
  ready-start_server sta info a g h = h
  ready-start_server eth info a g h = h
  ready-start_server If.ap info a g h = ground arith

  pub ready-added :
      (i : If) (mac : Bytes) (info : IpInfo) (a b : Adapter Stack)
      → get i b.esp_netif ≡ true
      → ready a ≡ true
      → ready b ≡ true
      → Leaves a (started_netif lw i info (add_netif lw i mac info b))
  unfolding add_netif
  ready-added i mac info a b g h k = added (get i b.esp_netif_init_fn)
    where
      added :
          (f : Option InitFn)
          → Leaves a (
              started_netif lw i info (elim f [
                | none ↦ none
                | some f ↦ some (record b { stack = netif_add i info f (set_hwaddr i mac b.stack) })
              ]))
      added none = h
      added (some f) =
          ready-default lw (
            start_server lw i info
              (record b { stack = netif_add i info f (set_hwaddr i mac b.stack) }))
          ∙ ready-start_server i info
              (record b { stack = netif_add i info f (set_hwaddr i mac b.stack) }) g k

  pub ready-start_valid :
      (i : If) (mac : Bytes) (info : IpInfo) (a : Adapter Stack)
      → ready a ≡ true
      → Leaves a (start_valid lw i mac info a)
  unfolding start_valid
  ready-start_valid i mac info a h =
      if_keeps_by (Leaves a) (up lw i a) _ _
        (λ u.
          ready-default lw (start_server lw i info a)
          ∙ ready-start_server i info a (and_left lw (get i a.esp_netif) (is_up i a.stack) u) h)
        (λ u.
          if_keeps_by (Leaves a) (get i (alloc_netif lw i a).esp_netif) _ _
            (λ g. ready-added i mac info a (alloc_netif lw i a) g h (ready-alloc lw i a h))
            (λ g. ready-alloc lw i a h))

  pub ready-stop_valid :
      (i : If) (a : Adapter Stack) → ready a ≡ true → Leaves a (stop_valid lw i a)
  unfolding stop_valid
  ready-stop_valid i a h =
      let b = stop_dhcp lw i a in
      if_keeps (Leaves a) (not (get i a.esp_netif)) _ _ h (
        if_keeps (Leaves a) (not (up lw i a)) _ _ h (
          ready-default lw (record b { stack = netif_remove i (netif_set_down i b.stack) })
          ∙ ready-stop_dhcp lw i a h))

  pub ready-up_valid : (i : If) (a : Adapter Stack) → ready a ≡ true → Leaves a (up_valid lw i a)
  unfolding up_valid
  ready-up_valid i a h =
      if_keeps (Leaves a) (get i a.esp_netif) _ _
        (ready-default lw
            (record a { stack = netif_set_up i (netif_set_addr i (get i a.esp_ip) a.stack) })
          ∙ h)
        h

  pub ready-down_valid :
      (i : If) (a : Adapter Stack) → ready a ≡ true → Leaves a (down_valid lw i a)
  unfolding down_valid
  ready-down_valid i a h =
      let b = drop_client lw i a in
      let c = record b { stack = netif_set_down i (netif_set_addr i zero_info b.stack) } in
      if_keeps (Leaves a) (get i a.esp_netif) _ _
        (ready-default lw (start_ip_lost_timer lw i c)
          ∙ ready-lost lw i c
          ∙ ready-drop_client lw i a h)
        h
