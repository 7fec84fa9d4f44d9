-- ===== src/Adapter/Lease.antt =====
-- What a range of addresses that tcpip_adapter_dhcps_option accepts is.
use bkc_chooser.Base.{
  some, if◌then◌else◌, ℕ, ◌+◌, ◌/◌, ◌≤◌, ◌<◌, true, ◌≡◌, ◌⊎◌, ◌↔◌, arith, ap, ◌-◌, ◌==◌,
  bit_and_one, bit_and_two,
}
use bkc_chooser.Adapter.{If, init, ok, Lwip, Adapter}
use bkc_chooser.Adapter.Address.{current_info}
use bkc_chooser.Adapter.Server.{
  range_fits, lease_fits, ServerOptions, Setting, lease_time, requested, router, name_server,
  unnamed, lease_time_def, offer_router, offer_dns, read_bit, write_bit, option_set, option_get,
  store_setting, load_setting,
}

-- A range of two 32-bit addresses is accepted exactly where it is not empty, has at most 101
-- addresses, lies in the access point's /24 network, and leaves the access point's address out.
pub range_fits_iff :
    (ip start end : ℕ)
    → start < 0x100000000
    → end < 0x100000000
    → (range_fits ip start end ≡ true) ↔ (
        start ≤ end
        × end ≤ start + 100
        × start / 0x100 ≡ ip / 0x100
        × end / 0x100 ≡ ip / 0x100
        × (ip < start ⊎ end < ip))
unfolding range_fits
range_fits_iff ip start end s e = ground arith

read-write_router :
    (v x : ℕ) → read_bit offer_router (write_bit offer_router v x) ≡ (if v == 0 then 0 else 1)
read-write_router v x = ground (arith, bit_and_one x, bit_and_one (x + 1), bit_and_one (x - 1))

read-write_dns :
    (v x : ℕ) → read_bit offer_dns (write_bit offer_dns v x) ≡ (if v == 0 then 0 else 1)
read-write_dns v x = ground (arith, bit_and_two x, bit_and_two (x + 2), bit_and_two (x - 2))

module _ (lw : Lwip) where
  open lw use {Stack}

  -- What is read back after an option was set: a lease time of 0 is the default, a range that does
  -- not fit leaves the one before, and the two switches are 0 or 1.
  abbrev pub read_back : Setting → Adapter Stack → ServerOptions → Setting
  read_back (lease_time t) a o = lease_time (if t == 0 then lease_time_def else t)
  read_back (requested poll) a o =
      requested (if lease_fits (current_info lw If.ap a).ip poll then poll else o.dhcps_poll)
  read_back (router v) a o = router (if v == 0 then 0 else 1)
  read_back (name_server v) a o = name_server (if v == 0 then 0 else 1)
  read_back unnamed a o = unnamed

  -- Where the server neither runs nor is stopped, an option that was set is read back as
  -- `read_back` says: the lease time, the range, and the switches for the router and the DNS
  -- server, whatever the options were before.
  pub option_get-set :
      (v : Setting) (a : Adapter Stack) (o : ServerOptions)
      → a.dhcps_status ≡ init
      → option_get lw true (some v) a (option_set lw true (some v) a o).1
        ≡ (ok, some (read_back v a o))
  unfolding option_get option_set store_setting load_setting
  option_get-set (lease_time t) a o e = rw e (ground arith)
  option_get-set (requested poll) a o e = rw e (ground arith)
  option_get-set (router v) a o e =
      rw e (ap (λ n. (ok, some (router n))) (read-write_router v o.dhcps_offer))
  option_get-set (name_server v) a o e =
      rw e (ap (λ n. (ok, some (name_server n))) (read-write_dns v o.dhcps_dns))
  option_get-set unnamed a o e = rw e
