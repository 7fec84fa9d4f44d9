-- ===== src/Adapter/Server.antt =====
-- The options of the DHCP server: tcpip_adapter_dhcps_option of
-- components/tcpip_adapter/tcpip_adapter_lwip.c. The variables that dhcps_option_info points to
-- are the record ServerOptions. dhcps_set_option_info copies a variable to itself.
use bkc_chooser.Base.{
  ℕ, ◌*◌, ◌+◌, ◌-◌, ◌/◌, ◌%◌, Bool, true, false, not, ◌&&◌, ◌||◌, Option, none, some, ltb, leb,
  ◌==◌, if◌then◌else◌, bit_and,
}
use bkc_chooser.Adapter.{
  If, is_started, is_stopped, Err, ok, invalid_params, already_started, already_stopped, Lwip,
  Adapter,
}
use bkc_chooser.Adapter.Address.{current_info}

-- dhcps_lease_t: a range of addresses, in network byte order.
pub record Lease : Type 0 where
  pub enable : Bool
  pub start_ip : ℕ
  pub end_ip : ℕ

pub record ServerOptions : Type 0 where
  pub dhcps_lease_time : ℕ
  pub dhcps_poll : Lease
  pub dhcps_offer : ℕ
  pub dhcps_dns : ℕ

-- An option's identifier with its value. `unnamed` is an identifier that the switches do not name.
pub data Setting : Type 0 where
  lease_time : ℕ → Setting
  requested : Lease → Setting
  router name_server : ℕ → Setting
  unnamed : Setting

-- TCPIP_ADAPTER_OP_GET, TCPIP_ADAPTER_OP_SET, and every other mode.
pub data OptionMode : Type 0 where
  op_get op_set op_other : OptionMode

-- htonl on a little-endian machine.
abbrev pub htonl : ℕ → ℕ
htonl x =
    x % 0x100 * 0x1000000
    + (x / 0x100 % 0x100 * 0x10000 + (x / 0x10000 % 0x100 * 0x100 + x / 0x1000000 % 0x100))

-- DHCPS_MAX_LEASE and DHCPS_LEASE_TIME_DEF.
abbrev pub dhcps_max_lease : ℕ
dhcps_max_lease = 100

abbrev pub lease_time_def : ℕ
lease_time_def = 120

-- The tests on a range in host byte order: it leaves the access point's own address out, lies in
-- the same segment, and is not too long. The difference is that of two u32_t.
unfoldable pub range_fits : ℕ → ℕ → ℕ → Bool
range_fits softap_ip start_ip end_ip =
    if leb start_ip softap_ip && leb softap_ip end_ip
    then false
    else if not (start_ip / 0x100 == softap_ip / 0x100) || not (end_ip / 0x100 == softap_ip / 0x100)
    then false
    else not (ltb dhcps_max_lease ((end_ip + 0x100000000 - start_ip) % 0x100000000))

unfoldable pub lease_fits : ℕ → Lease → Bool
lease_fits ip poll =
    if poll.enable then range_fits (htonl ip) (htonl poll.start_ip) (htonl poll.end_ip) else true

-- `x |= bit` and `x &= ~bit`, for a bit of the byte x.
abbrev pub set_bit : ℕ → ℕ → ℕ
set_bit bit x = if bit_and x bit == 0 then x + bit else x

abbrev pub clear_bit : ℕ → ℕ → ℕ
clear_bit bit x = if bit_and x bit == 0 then x else x - bit

abbrev pub write_bit : ℕ → ℕ → ℕ → ℕ
write_bit bit val x = if val == 0 then clear_bit bit x else set_bit bit x

abbrev pub read_bit : ℕ → ℕ → ℕ
read_bit bit x = if bit_and x bit == 0 then 0 else 1

-- OFFER_ROUTER and OFFER_DNS.
abbrev pub offer_router : ℕ
offer_router = 1

abbrev pub offer_dns : ℕ
offer_dns = 2

module _ (lw : Lwip) where
  open lw use {Stack}

  -- The switch of TCPIP_ADAPTER_OP_SET.
  unfoldable pub store_setting : Setting → Adapter Stack → ServerOptions → Err × ServerOptions
  store_setting (lease_time t) a o =
      (ok, record o { dhcps_lease_time = if t == 0 then lease_time_def else t })
  store_setting (requested poll) a o =
      if lease_fits (current_info lw If.ap a).ip poll
      then (ok, record o { dhcps_poll = poll })
      else (invalid_params, o)
  store_setting (router v) a o =
      (ok, record o { dhcps_offer = write_bit offer_router v o.dhcps_offer })
  store_setting (name_server v) a o =
      (ok, record o { dhcps_dns = write_bit offer_dns v o.dhcps_dns })
  store_setting unnamed a o = (ok, o)

  -- tcpip_adapter_dhcps_option with TCPIP_ADAPTER_OP_SET. `found` is whether dhcps_option_info
  -- gives a pointer for the identifier and the length.
  unfoldable pub option_set :
      Bool → Option Setting → Adapter Stack → ServerOptions → Err × ServerOptions
  option_set found none a o = (invalid_params, o)
  option_set found (some v) a o =
      if not found
      then (invalid_params, o)
      else if is_started a.dhcps_status
      then (already_started, o)
      else store_setting v a o

  -- The switch of TCPIP_ADAPTER_OP_GET: the value is written over the one handed in.
  unfoldable pub load_setting : Setting → ServerOptions → Setting
  load_setting (lease_time t) o = lease_time o.dhcps_lease_time
  load_setting (requested poll) o = requested o.dhcps_poll
  load_setting (router v) o = router (read_bit offer_router o.dhcps_offer)
  load_setting (name_server v) o = name_server (read_bit offer_dns o.dhcps_dns)
  load_setting unnamed o = unnamed

  -- tcpip_adapter_dhcps_option with TCPIP_ADAPTER_OP_GET.
  unfoldable pub option_get :
      Bool → Option Setting → Adapter Stack → ServerOptions → Err × Option Setting
  option_get found none a o = (invalid_params, none)
  option_get found (some v) a o =
      if not found
      then (invalid_params, some v)
      else if is_stopped a.dhcps_status
      then (already_stopped, some v)
      else (ok, some (load_setting v o))

  -- tcpip_adapter_dhcps_option: the result, the value that `opt_val` points to, and the options.
  unfoldable pub dhcps_option :
      OptionMode
      → Bool
      → Option Setting
      → Adapter Stack
      → ServerOptions
      → Err × Option Setting × ServerOptions
  dhcps_option op_get found v a o = let (e, w) = option_get found v a o in (e, w, o)
  dhcps_option op_set found v a o = let (e, o') = option_set found v a o in (e, v, o')
  dhcps_option op_other found v a o = (invalid_params, v, o)
