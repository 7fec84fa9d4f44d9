-- ===== src/Tests/Losses.antt =====
-- A station that gets an address and loses it, twice: components/tcpip_adapter.
use bkc_chooser.Base.{ℕ, refl, true, false, ◌≡◌, Option, some, List, [], ◌∷◌}
use bkc_chooser.Adapter.{
  Adapter, Err, sta, ap_default, Lwip, boot_state, adapter_init, update_default_netif, sta_got_ip,
  sta_lost_ip,
}
use bkc_chooser.Adapter.Lost.{start_ip_lost_timer, ip_lost_timer, dhcpc_cb, dhcpc_cb_at}
use bkc_chooser.Adapter.Iface.{add_netif, alloc_netif, start_server, start_valid, adapter_start}
use bkc_chooser.Adapter.Invariant.{Call, run}
use bkc_chooser.Adapter.Events.{view, Move, apart}
use bkc_chooser.Adapter.Events.Apart.{run-Move}
use bkc_chooser.Adapter.Ipc.{Api, Tasks, at_init, Reachable, started}
use bkc_chooser.Adapter.Ipc.Ready.{
  start, Beside, sets_init_fn, client_event, timer_expires, stack_moves, body, beside, initialised,
}
use bkc_chooser.Adapter.Ipc.Losses.{Plain, plain_messages, tasks_losses_apart}
use bkc_chooser.Tests.Calls.{called, called-Reachable, moved, moved-Reachable}
use bkc_chooser.Tests.Network.{counting}

-- A stack whose state is the station's address.
abbrev addressed : Lwip
addressed = record counting { addr = λ i s. record { ip = s; netmask = 255; gw = 1 } }

abbrev State : Type 0
State = Tasks Plain (Adapter ℕ) (Option Err)

abbrev losing : Api Plain (Beside addressed) (Adapter ℕ) (Option Err)
losing = plain_messages addressed

-- Task 1 starts the station.
abbrev sta_on : Plain
sta_on = (start (some sta) (some []) (some ap_default), refl)

-- The address comes, goes and is reported lost.
abbrev comes_and_goes : ℕ → List (Beside addressed)
comes_and_goes n =
    stack_moves n
    ∷ client_event (some sta)
    ∷ stack_moves 0
    ∷ client_event (some sta)
    ∷ stack_moves 0
    ∷ timer_expires sta
    ∷ []

abbrev with_fn : State
with_fn = moved losing (sets_init_fn sta ∷ []) (at_init (initialised addressed 0))

abbrev twice_lost : State
twice_lost =
    moved losing (comes_and_goes 7)
      (moved losing (comes_and_goes 5) (called losing 1 sta_on with_fn))

twice_lost-Reachable : Reachable losing (initialised addressed 0) twice_lost
twice_lost-Reachable =
    let a = initialised addressed 0 in
    let on = called losing 1 sta_on with_fn in
    let h₀ = moved-Reachable losing a (sets_init_fn sta ∷ []) (at_init a) (started refl) in
    let h₁ = called-Reachable losing a with_fn 1 sta_on h₀ refl refl refl refl in
    let h₂ = moved-Reachable losing a (comes_and_goes 5) on h₁ in
    moved-Reachable losing a (comes_and_goes 7) (moved losing (comes_and_goes 5) on) h₂

tasks_losses_apart_example : apart twice_lost.adapter.events ≡ true
tasks_losses_apart_example = tasks_losses_apart addressed 0 twice_lost twice_lost-Reachable

-- Two addresses and two losses are announced.
twice_lost_events :
    twice_lost.adapter.events
    ≡ sta_got_ip true (record { ip = 5; netmask = 255; gw = 1 })
      ∷ sta_lost_ip
      ∷ sta_got_ip true (record { ip = 7; netmask = 255; gw = 1 })
      ∷ sta_lost_ip
      ∷ []
unfolding body beside adapter_init adapter_start start_valid alloc_netif add_netif start_server
    update_default_netif dhcpc_cb dhcpc_cb_at start_ip_lost_timer ip_lost_timer
twice_lost_events = refl

-- The station's timer runs, and its address is gone.
abbrev waiting : Adapter ℕ
waiting = record (boot_state {S = ℕ} 0) {
  timer_running = record { at_sta = true; at_ap = false; at_eth = false };
}

run-Move_example : Move false (view waiting) (view (run addressed (Call.timer_expires sta) waiting))
run-Move_example = run-Move addressed (Call.timer_expires sta) waiting refl
