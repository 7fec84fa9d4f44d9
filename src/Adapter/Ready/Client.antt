-- ===== src/Adapter/Ready/Client.antt =====
-- Lemmas on the adapter's condition for starting and stopping a DHCP client.
use bkc_chooser.Base.{true, ◌≡◌, refl, ap, ◌∙◌, if_keeps, if_keeps_by, arith}
use bkc_chooser.Adapter.{
  If, sta, eth, init, stopped, get, put, is_started, is_stopped, Err, Lwip, Adapter, up,
  reset_ip_info,
}
use bkc_chooser.Adapter.Lost.{start_ip_lost_timer}
use bkc_chooser.Adapter.Dhcp.{launch_client, client_start, client_stop}
use bkc_chooser.Adapter.Ready.{ready, has_client, and_left, ready-lost}

module _ (lw : Lwip) where
  open lw use {
    Stack, addr, is_up, dhcp_stop, netif_set_down, netif_set_addr, netif_remove, netif_set_up,
    set_hwaddr, netif_add, zero_addr, dns_clear_servers,
  }

  abbrev Kept : Err × Adapter Stack → Type 0
  Kept r = ready r.1 ≡ true

  pub ready-launch :
      (i : If) (a : Adapter Stack)
      → get i a.esp_netif ≡ true
      → has_client i ≡ true
      → ready a ≡ true
      → ready (launch_client lw i a).1 ≡ true
  unfolding launch_client
  ready-launch sta a g c h = ground arith
  ready-launch eth a g c h = ground arith
  ready-launch If.ap a g c h = ground arith

  pub ready-reset : (i : If) (a : Adapter Stack) → ready (reset_ip_info lw i a) ≡ ready a
  unfolding reset_ip_info
  ready-reset i a = refl

  pub ready-put_init :
      (i : If) (a : Adapter Stack)
      → ready a ≡ true
      → ready (record a { dhcpc_status = put i init a.dhcpc_status }) ≡ true
  ready-put_init sta a h = ground arith
  ready-put_init If.ap a h = ground arith
  ready-put_init eth a h = ground arith

  pub ready-put_stopped :
      (i : If) (a : Adapter Stack)
      → ready a ≡ true
      → ready (record a { dhcpc_status = put i stopped a.dhcpc_status }) ≡ true
  ready-put_stopped sta a h = ground arith
  ready-put_stopped If.ap a h = ground arith
  ready-put_stopped eth a h = ground arith

  pub netif-lost :
      (i : If) (a : Adapter Stack) → (start_ip_lost_timer lw i a).esp_netif ≡ a.esp_netif
  unfolding start_ip_lost_timer
  netif-lost sta a = ground arith
  netif-lost If.ap a = refl
  netif-lost eth a = refl

  -- The state that client_start tests, and the one in which the timer is started.
  abbrev cleared : If → Adapter Stack → Adapter Stack
  cleared i a = record (reset_ip_info lw i a) { stack = dns_clear_servers a.stack }

  abbrev silent : If → Adapter Stack → Adapter Stack
  silent i a = record (cleared i a) { stack = zero_addr i (cleared i a).stack }

  pub ready-client_start :
      (i : If) (a : Adapter Stack)
      → has_client i ≡ true
      → ready a ≡ true
      → ready (client_start lw i a).1 ≡ true
  unfolding client_start reset_ip_info
  ready-client_start i a c h = if_keeps Kept (is_started (get i a.dhcpc_status)) _ _ h (
      if_keeps_by Kept (up lw i (cleared i a)) _ _
        (λ u.
          ready-launch i (start_ip_lost_timer lw i (silent i a))
            (ap (get i) (netif-lost i (silent i a))
              ∙ and_left lw (get i a.esp_netif) (is_up i (cleared i a).stack) u)
            c (ready-lost lw i (silent i a) ∙ h))
        (λ u. ready-put_init i (cleared i a) h))

  abbrev forgotten : If → Adapter Stack → Adapter Stack
  forgotten i a = reset_ip_info lw i (record a { stack = dhcp_stop i a.stack })

  pub ready-client_stop :
      (i : If) (a : Adapter Stack)
      → has_client i ≡ true
      → ready a ≡ true
      → ready (client_stop lw i a).1 ≡ true
  unfolding client_stop reset_ip_info
  ready-client_stop i a c h =
      if_keeps Kept (is_started (get i a.dhcpc_status)) _ _
        (if_keeps Kept (get i a.esp_netif) _ _
          (ready-put_stopped i (start_ip_lost_timer lw i (forgotten i a))
            (ready-lost lw i (forgotten i a) ∙ h))
          h)
        (if_keeps Kept (is_stopped (get i a.dhcpc_status)) _ _ h (ready-put_stopped i a h))
