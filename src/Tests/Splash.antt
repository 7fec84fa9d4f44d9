-- ===== src/Tests/Splash.antt =====
-- The address on the splash screen of main/gui.c, while a station is started:
-- components/tcpip_adapter.
use bkc_chooser.Base.{ℕ, true, ◌≡◌, refl, Option, some, [], ◌∷◌}
use bkc_chooser.Gui.{gui_splash}
use bkc_chooser.Adapter.{
  Adapter, Err, sta, ap_default, adapter_init, update_default_netif, reset_ip_info,
}
use bkc_chooser.Adapter.Lost.{start_ip_lost_timer}
use bkc_chooser.Adapter.Iface.{add_netif, alloc_netif, start_server, start_valid, adapter_start}
use bkc_chooser.Adapter.Address.{get_ip_info, current_info}
use bkc_chooser.Adapter.Dhcp.{launch_client, client_start, adapter_dhcpc_start}
use bkc_chooser.Adapter.Ipc.{Api, Tasks, at_init, Reachable, started}
use bkc_chooser.Adapter.Ipc.Ready.{
  start, dhcpc_start, Beside, sets_init_fn, body, beside, initialised,
}
use bkc_chooser.Adapter.Ipc.Own.{Steady, steady_messages, shows, url_of, splash_shows_address}
use bkc_chooser.Tests.Calls.{called, called-Reachable, moved, moved-Reachable}
use bkc_chooser.Tests.Network.{counting}

abbrev State : Type 0
State = Tasks Steady (Adapter ℕ) (Option Err)

abbrev steady : Api Steady (Beside counting) (Adapter ℕ) (Option Err)
steady = steady_messages counting

-- Task 1 starts the station, then task 2 its DHCP client.
abbrev sta_on : Steady
sta_on = (start (some sta) (some []) (some ap_default), refl)

abbrev client_on : Steady
client_on = (dhcpc_start (some sta), refl)

abbrev with_fn : State
with_fn = moved steady (sets_init_fn sta ∷ []) (at_init (initialised counting 0))

abbrev station : State
station = called steady 2 client_on (called steady 1 sta_on with_fn)

station-Reachable : Reachable steady (initialised counting 0) station
station-Reachable =
    let a = initialised counting 0 in
    let h₀ = moved-Reachable steady a (sets_init_fn sta ∷ []) (at_init a) (started refl) in
    let h₁ = called-Reachable steady a with_fn 1 sta_on h₀ refl refl refl refl in
    called-Reachable steady a (called steady 1 sta_on with_fn) 2 client_on h₁ refl refl refl refl

splash_shows_address_example : shows (url_of ap_default.ip) (gui_splash 1) ≡ true
unfolding body beside adapter_init adapter_start start_valid alloc_netif add_netif start_server
    update_default_netif adapter_dhcpc_start client_start launch_client reset_ip_info
    start_ip_lost_timer get_ip_info current_info
splash_shows_address_example =
    splash_shows_address counting 0 station 1 ap_default station-Reachable refl refl refl
