-- ===== src/Adapter/Input.antt =====
-- tcpip_adapter_eth_input, _sta_input and _ap_input, which pass a driver's buffer on, and
-- tcpip_adapter_dhcpc_option, of components/tcpip_adapter/tcpip_adapter_lwip.c.
use bkc_chooser.Base.{ℕ}
use bkc_chooser.Adapter.{If, sta, ap, get, Err, ok, Lwip, Adapter}

module _ (lw : Lwip) where
  open lw use {Stack, ethernetif_input, wlanif_input}

  -- The pointer of the interface is passed on untested, and the calls are not handed over to lwIP's
  -- task.
  unfoldable pub eth_input : ℕ → ℕ → ℕ → Adapter Stack → Err × Adapter Stack
  eth_input buffer len eb a =
      (ok, record a { stack = ethernetif_input (get If.eth a.esp_netif) buffer len a.stack })

  unfoldable pub sta_input : ℕ → ℕ → ℕ → Adapter Stack → Err × Adapter Stack
  sta_input buffer len eb a =
      (ok, record a { stack = wlanif_input sta (get sta a.esp_netif) buffer len eb a.stack })

  unfoldable pub ap_input : ℕ → ℕ → ℕ → Adapter Stack → Err × Adapter Stack
  ap_input buffer len eb a =
      (ok, record a { stack = wlanif_input ap (get ap a.esp_netif) buffer len eb a.stack })

  -- tcpip_adapter_dhcpc_option, which does nothing.
  unfoldable pub dhcpc_option : Adapter Stack → Err × Adapter Stack
  dhcpc_option a = (ok, a)
