-- ===== src/Adapter/Invariant/Stops.antt =====
-- Stopping the DHCP server and clients after any sequence of calls and callbacks.
use bkc_chooser.Base.{Bool, true, false, List, ◌≡◌, refl, arith}
use bkc_chooser.Adapter.{If, sta, eth, Err, Lwip, Adapter, boot_state}
use bkc_chooser.Adapter.Dhcp.{server_stop, client_stop}
use bkc_chooser.Adapter.{if_not_ready}
use bkc_chooser.Adapter.Ready.{ready, has_client}
use bkc_chooser.Adapter.Invariant.{Call, run_all, always_ready}

abbrev pub not_ready : Err → Bool
not_ready if_not_ready = true
not_ready _ = false

module _ (lw : Lwip) where
  open lw use {
    Stack, addr, is_up, dhcp_stop, netif_set_down, netif_set_addr, netif_remove, netif_set_up,
    set_hwaddr, netif_add, zero_addr, dns_clear_servers,
  }

  pub server_stop-finds :
      (a : Adapter Stack) → ready a ≡ true → not_ready (server_stop lw a).0 ≡ false
  unfolding server_stop
  server_stop-finds a h = ground arith

  pub client_stop-finds :
      (i : If) (a : Adapter Stack)
      → has_client i ≡ true
      → ready a ≡ true
      → not_ready (client_stop lw i a).0 ≡ false
  unfolding client_stop
  client_stop-finds sta a c h = ground arith
  client_stop-finds If.ap a c h = ground arith
  client_stop-finds eth a c h = ground arith

  -- After any sequence of calls, callbacks and moves of the stack, stopping the server and the
  -- clients never fails with ESP_ERR_TCPIP_ADAPTER_IF_NOT_READY.
  pub stop_finds_netif :
      (cs : List (Call lw)) (s : Stack)
      → not_ready (server_stop lw (run_all lw cs (boot_state s))).0 ≡ false
        × not_ready (client_stop lw sta (run_all lw cs (boot_state s))).0 ≡ false
        × not_ready (client_stop lw eth (run_all lw cs (boot_state s))).0 ≡ false
  stop_finds_netif cs s =
      let a = run_all lw cs (boot_state s) in
      (
        server_stop-finds a (always_ready lw cs s),
        client_stop-finds sta a refl (always_ready lw cs s),
        client_stop-finds eth a refl (always_ready lw cs s),
      )
