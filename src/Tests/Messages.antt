-- ===== src/Tests/Messages.antt =====
-- Tasks that call the adapter of components/tcpip_adapter over a counting stack.
use bkc_chooser.Base.{ℕ, true, false, Option, some, [], ◌≡◌, refl}
use bkc_chooser.Adapter.{Adapter, Err, If, ap_default, ok, adapter_init, update_default_netif}
use bkc_chooser.Adapter.Iface.{adapter_start, start_valid, alloc_netif, add_netif, start_server}
use bkc_chooser.Adapter.Dhcp.{adapter_dhcps_stop, server_stop}
use bkc_chooser.Adapter.Ready.{ready}
use bkc_chooser.Adapter.Ipc.{Tasks, returned, own_move, at_init, Reachable, started, stepped}
use bkc_chooser.Adapter.Ipc.Ready.{
  beside, Message, start, dhcps_stop, sets_init_fn, messages, body, initialised, is_not_ready,
  tasks_stop_dhcp, tasks_keep_ready,
}
use bkc_chooser.Tests.Calls.{called, called-Reachable}
use bkc_chooser.Tests.Network.{counting}

abbrev State : Type 0
State = Tasks Message (Adapter ℕ) (Option Err)

-- Task 1 starts the access point, and with it the server.
abbrev ap_fn : State
ap_fn =
    let s : State = at_init (initialised counting 0) in
    record s { adapter = (messages counting).own (sets_init_fn If.ap) s.adapter }

abbrev ap_on : Message
ap_on = start (some If.ap) (some []) (some ap_default)

abbrev ap_started : State
ap_started = called (messages counting) 1 ap_on ap_fn

-- Task 2 stops the server.
abbrev server_stopped : State
server_stopped = called (messages counting) 2 (dhcps_stop (some If.ap)) ap_started

ap_fn-Reachable : Reachable (messages counting) (initialised counting 0) ap_fn
ap_fn-Reachable = stepped (started refl) (own_move (sets_init_fn If.ap) refl)

ap_started-Reachable : Reachable (messages counting) (initialised counting 0) ap_started
ap_started-Reachable =
    called-Reachable (messages counting) (initialised counting 0) ap_fn 1 ap_on ap_fn-Reachable refl
      refl refl refl

server_stopped-Reachable : Reachable (messages counting) (initialised counting 0) server_stopped
server_stopped-Reachable =
    called-Reachable (messages counting) (initialised counting 0) ap_started 2
      (dhcps_stop (some If.ap)) ap_started-Reachable refl refl refl refl

task_2_returned : server_stopped.phase 2 ≡ returned (dhcps_stop (some If.ap)) (some (some ok))
unfolding body beside adapter_dhcps_stop adapter_start adapter_init start_valid alloc_netif
    add_netif update_default_netif start_server server_stop
task_2_returned = refl

tasks_stop_dhcp_example :
    (r : Option Err) × (◌≡◌ {A = Option (Option Err)} (some (some ok)) (some r))
    × (is_not_ready r ≡ false)
tasks_stop_dhcp_example =
    tasks_stop_dhcp counting 0 server_stopped 2 (dhcps_stop (some If.ap)) (some (some ok))
      server_stopped-Reachable task_2_returned refl

tasks_keep_ready_example : ready server_stopped.adapter ≡ true
tasks_keep_ready_example = tasks_keep_ready counting 0 server_stopped server_stopped-Reachable
