-- ===== src/Adapter/Ipc/Ready.antt =====
-- The adapter's own messages: the functions that TCPIP_ADAPTER_IPC_CALL hands over, and what other
-- tasks and lwIP's task do to the variables beside them.
use bkc_chooser.Base.{ℕ, Bool, true, false, Option, none, some, Bytes, ◌≡◌, refl, arith}
use bkc_chooser.Adapter.{
  If, sta, eth, IpInfo, put, Err, Lwip, Adapter, boot_state, Outcome, invalid_params, ipc,
  adapter_init,
}
use bkc_chooser.Adapter.Lost.{ip_lost_timer, dhcpc_cb}
use bkc_chooser.Adapter.Iface.{
  start_valid, init_fn_of, adapter_start, adapter_stop, adapter_up, adapter_down,
}
use bkc_chooser.Adapter.Address.{set_old_ip_info, set_ip_info}
use bkc_chooser.Adapter.Dhcp.{
  server_stop, client_stop, adapter_dhcps_start, adapter_dhcps_stop, adapter_dhcpc_start,
  adapter_dhcpc_stop,
}
use bkc_chooser.Adapter.Names.{get_dns_info, set_dns_info, adapter_set_hostname}
use bkc_chooser.Adapter.Ready.{ready, state_after, ready-ipc}
use bkc_chooser.Adapter.Ready.Netif.{ready-start_valid}
use bkc_chooser.Adapter.Invariant.{
  Call, initialise, if_stop, if_up, if_down, old_ip, static_ip, server_on, server_off, client_on,
  client_off, dns_server, host_name, run, run-ready,
}
use bkc_chooser.Adapter.Invariant.Stops.{server_stop-finds, client_stop-finds, not_ready}
use bkc_chooser.Adapter.Ipc.{Api, Tasks, returned, Reachable}
use bkc_chooser.Adapter.Ipc.Serial.{returned_holds, Reachable_keeps}

-- `api_fn` with the fields of the message that it reads.
pub data Message : Type 0 where
  start : Option If → Option Bytes → Option IpInfo → Message
  stop up down : Option If → Message
  set_old_ip set_ip : Option If → Option IpInfo → Message
  dhcps_start dhcps_stop dhcpc_start dhcpc_stop : Option If → Message
  set_dns : Option If → ℕ → Option ℕ → Message
  set_host : Option If → Option Bytes → Message
  get_dns : Option If → ℕ → Message

abbrev pub is_dhcp_stop : Message → Bool
is_dhcp_stop (dhcps_stop i) = true
is_dhcp_stop (dhcpc_stop i) = true
is_dhcp_stop _ = false

abbrev pub is_not_ready : Option Err → Bool
is_not_ready none = false
is_not_ready (some e) = not_ready e

-- tcpip_adapter_get_dns_info leaves the variables as they are. What it writes to the caller's own
-- struct is not among them.
abbrev pub unchanged : {S : Type 0} → Adapter S → Option (Err × Option ℕ) → Outcome S
unchanged a none = none
unchanged a (some (e, server)) = some (e, a)

pub state_after-unchanged :
    {S : Type 0} (a : Adapter S) (r : Option (Err × Option ℕ)) → state_after a (unchanged a r) ≡ a
state_after-unchanged a none = refl
state_after-unchanged a (some (e, server)) = refl

module _ (lw : Lwip) where
  open lw use {Stack}

  -- The function of a message. tcpip_adapter_start finds the init function that the caller's task
  -- has set.
  unfoldable pub body : Message → Adapter Stack → Outcome Stack
  body (start i mac info) a = adapter_start lw i mac info a
  body (stop i) a = adapter_stop lw i a
  body (up i) a = adapter_up lw i a
  body (down i) a = adapter_down lw i a
  body (set_old_ip i info) a = set_old_ip_info lw i info a
  body (set_ip i info) a = set_ip_info lw i info a
  body (dhcps_start i) a = adapter_dhcps_start lw i a
  body (dhcps_stop i) a = adapter_dhcps_stop lw i a
  body (dhcpc_start i) a = adapter_dhcpc_start lw i a
  body (dhcpc_stop i) a = adapter_dhcpc_stop lw i a
  body (set_dns i type ip) a = set_dns_info lw i type ip a
  body (set_host i name) a = adapter_set_hostname lw i name a
  body (get_dns i type) a = unchanged a (get_dns_info lw i type a)

  -- The first steps of tcpip_adapter_sta_start, _ap_start and _eth_start on the caller's task,
  -- tcpip_adapter_init once more, a call on lwIP's own task, which tcpip_adapter_ipc_check lets
  -- run at once, lwIP's callbacks, and what the stack does by itself.
  pub data Beside : Type 0 where
    sets_init_fn : If → Beside
    init_again : Beside
    local_call : Message → Beside
    client_event : Option If → Beside
    timer_expires : If → Beside
    stack_moves : Stack → Beside

  unfoldable pub beside : Beside → Adapter Stack → Adapter Stack
  beside (sets_init_fn i) a = record a {
    esp_netif_init_fn = put i (some (init_fn_of lw i)) a.esp_netif_init_fn;
  }
  beside init_again a = adapter_init lw a
  beside (local_call f) a = state_after a (body f a)
  beside (client_event i) a = dhcpc_cb lw i a
  beside (timer_expires i) a = ip_lost_timer lw i a
  beside (stack_moves s) a = record a { stack = s }

  -- The result of a function, `none` where it aborts.
  abbrev pub result : Outcome Stack → Option Err
  result none = none
  result (some (e, a)) = some e

  abbrev pub messages : Api Message Beside (Adapter Stack) (Option Err)
  messages = record { api_fn = λ f a. (result (body f a), state_after a (body f a)); own = beside }

  body-ready :
      (f : Message) (a : Adapter Stack) → ready a ≡ true → ready (state_after a (body f a)) ≡ true
  unfolding body run adapter_start
  body-ready (start (some i) (some mac) (some info)) a h =
      ready-ipc lw a (start_valid lw i mac info a) h (ready-start_valid lw i mac info a h)
  body-ready (start none mac info) a h = ready-ipc lw a (some (invalid_params, a)) h h
  body-ready (start (some i) none info) a h = ready-ipc lw a (some (invalid_params, a)) h h
  body-ready (start (some i) (some mac) none) a h = ready-ipc lw a (some (invalid_params, a)) h h
  body-ready (stop i) a h = run-ready lw (if_stop i) a h
  body-ready (up i) a h = run-ready lw (if_up i) a h
  body-ready (down i) a h = run-ready lw (if_down i) a h
  body-ready (set_old_ip i info) a h = run-ready lw (old_ip i info) a h
  body-ready (set_ip i info) a h = run-ready lw (static_ip i info) a h
  body-ready (dhcps_start i) a h = run-ready lw (server_on i) a h
  body-ready (dhcps_stop i) a h = run-ready lw (server_off i) a h
  body-ready (dhcpc_start i) a h = run-ready lw (client_on i) a h
  body-ready (dhcpc_stop i) a h = run-ready lw (client_off i) a h
  body-ready (set_dns i type ip) a h = run-ready lw (dns_server i type ip) a h
  body-ready (set_host i name) a h = run-ready lw (host_name i name) a h
  body-ready (get_dns i type) a h = rw (state_after-unchanged a (get_dns_info lw i type a)) h

  beside-ready : (o : Beside) (a : Adapter Stack) → ready a ≡ true → ready (beside o a) ≡ true
  unfolding beside run
  beside-ready (sets_init_fn i) a h = h
  beside-ready init_again a h = run-ready lw initialise a h
  beside-ready (local_call f) a h = body-ready f a h
  beside-ready (client_event i) a h = run-ready lw (Call.client_event i) a h
  beside-ready (timer_expires i) a h = run-ready lw (Call.timer_expires i) a h
  beside-ready (stack_moves s) a h = h

  -- What tcpip_adapter_init leaves, before any task calls.
  abbrev pub initialised : Stack → Adapter Stack
  initialised s = adapter_init lw (boot_state s)

  initialised-ready : (s : Stack) → ready (initialised s) ≡ true
  unfolding run
  initialised-ready s = run-ready lw initialise (boot_state s) refl

  -- However the calls of any number of tasks interleave with lwIP's callbacks: a DHCP server or
  -- client that is started has its struct netif, the access point has no client, and no
  -- lost-address timer runs but the station's.
  pub tasks_keep_ready :
      (s : Stack) (t : Tasks Message (Adapter Stack) (Option Err))
      → Reachable messages (initialised s) t
      → ready t.adapter ≡ true
  tasks_keep_ready s t h =
      Reachable_keeps messages (λ a. ready a ≡ true) body-ready beside-ready (initialised s) t h
        (initialised-ready s)

  abbrev StopsWell : Message → Option Err → Type 0
  StopsWell f r = is_dhcp_stop f ≡ true → is_not_ready r ≡ false

  called_finds :
      (a : Adapter Stack) (r : Err × Adapter Stack)
      → not_ready r.0 ≡ false
      → is_not_ready (result (ipc a (some r))) ≡ false
  called_finds a r h = ground (arith, h)

  body-StopsWell :
      (f : Message) (a : Adapter Stack) → ready a ≡ true → StopsWell f (result (body f a))
  unfolding body adapter_dhcps_stop adapter_dhcpc_stop
  body-StopsWell (dhcps_stop none) a h q = called_finds a (invalid_params, a) refl
  body-StopsWell (dhcps_stop (some sta)) a h q = called_finds a (invalid_params, a) refl
  body-StopsWell (dhcps_stop (some eth)) a h q = called_finds a (invalid_params, a) refl
  body-StopsWell (dhcps_stop (some If.ap)) a h q =
      called_finds a (server_stop lw a) (server_stop-finds lw a h)
  body-StopsWell (dhcpc_stop none) a h q = called_finds a (invalid_params, a) refl
  body-StopsWell (dhcpc_stop (some If.ap)) a h q = called_finds a (invalid_params, a) refl
  body-StopsWell (dhcpc_stop (some sta)) a h q =
      called_finds a (client_stop lw sta a) (client_stop-finds lw sta a refl h)
  body-StopsWell (dhcpc_stop (some eth)) a h q =
      called_finds a (client_stop lw eth a) (client_stop-finds lw eth a refl h)
  body-StopsWell _ a h q = absurd (cc q)

  -- However the calls of any number of tasks interleave with lwIP's callbacks, no task gets
  -- ESP_ERR_TCPIP_ADAPTER_IF_NOT_READY from a call that stops the DHCP server or a DHCP client.
  pub tasks_stop_dhcp :
      (s : Stack) (t : Tasks Message (Adapter Stack) (Option Err)) (j : ℕ) (f : Message)
      (v : Option (Option Err))
      → Reachable messages (initialised s) t
      → t.phase j ≡ returned f v
      → is_dhcp_stop f ≡ true
      → (r : Option Err) × (v ≡ some r) × (is_not_ready r ≡ false)
  tasks_stop_dhcp s t j f v h e q =
      let (r, b, c) =
        returned_holds messages (λ a. ready a ≡ true) body-ready beside-ready StopsWell
          body-StopsWell (initialised s) t j f v h (initialised-ready s) e in
      (r, b, c q)
