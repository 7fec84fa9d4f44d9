-- ===== src/Adapter/Announced.antt =====
-- How often tcpip_adapter_dhcpc_cb announces an address.
use bkc_chooser.Base.{true, false, ◌≡◌, refl, ap, ◌∙◌, ◌==◌, arith, if_keeps_by}
use bkc_chooser.Adapter.{If, sta, eth, IpInfo, PerIf, get, put, Lwip, Adapter}
use bkc_chooser.Adapter.Ready.{took}
use bkc_chooser.Adapter.Lost.{same_info, dhcpc_cb_at}

same_info_self : (x : IpInfo) → same_info x x ≡ true
same_info_self x = ground arith

module _ (lw : Lwip) where
  open lw use {Stack, addr}

  known_idle :
      (i : If) (a : Adapter Stack)
      → ((addr i a.stack).ip == 0) ≡ false
      → same_info (addr i a.stack) (get i a.esp_ip) ≡ true
      → dhcpc_cb_at lw i a ≡ a
  unfolding dhcpc_cb_at
  known_idle i a z e = rw (z, e) refl

  get-put : {A : Type 0} (i : If) (x : A) (r : PerIf A) → get i (put i x r) ≡ x
  get-put sta x r = refl
  get-put If.ap x r = refl
  get-put eth x r = refl

  -- Behind a call with an address, the address is known and the stack as it was.
  abbrev Known : If → Adapter Stack → Adapter Stack → Type 0
  Known i a b = (b.stack ≡ a.stack) × (same_info (addr i a.stack) (get i b.esp_ip) ≡ true)

  Known-after :
      (i : If) (a : Adapter Stack)
      → ((addr i a.stack).ip == 0) ≡ false
      → Known i a (dhcpc_cb_at lw i a)
  unfolding dhcpc_cb_at
  Known-after i a z = rw z (
      if_keeps_by (Known i a) (same_info (addr i a.stack) (get i a.esp_ip)) a (took lw i a)
        (λ e. (refl, e))
        (λ e. (
          refl,
          ap (same_info (addr i a.stack)) (get-put i (addr i a.stack) a.esp_ip)
              ∙ same_info_self (addr i a.stack),
        )))

  -- While an interface keeps an address other than 0.0.0.0, a second call of the DHCP client's
  -- callback changes nothing: the address is announced once.
  announced_once :
      (i : If) (a : Adapter Stack)
      → ((addr i a.stack).ip == 0) ≡ false
      → dhcpc_cb_at lw i (dhcpc_cb_at lw i a) ≡ dhcpc_cb_at lw i a
  announced_once i a z =
      let (s, e) = Known-after i a z in
      known_idle i (dhcpc_cb_at lw i a) (ap (λ t. (addr i t).ip == 0) s ∙ z)
        (ap (λ t. same_info (addr i t) (get i (dhcpc_cb_at lw i a).esp_ip)) s ∙ e)
