-- ===== src/Adapter/Events.antt =====
-- What a listener sees of the adapter: the events, the station's last announced address and its
-- lost-address timer, as a machine of its own.
pub mod Calls
pub mod Netif
pub mod Apart
use bkc_chooser.Base.{
  Bool, true, false, not, ◌&&◌, ◌||◌, List, [], ◌∷◌, ◌++◌, ◌≡◌, refl, ◌==◌, arith,
}
use bkc_chooser.Adapter.{IpInfo, zero_info, Event, sta_got_ip, eth_got_ip, sta_lost_ip, Adapter}

pub record View : Type 0 where
  pub events : List Event
  pub old : IpInfo
  pub timer : Bool

abbrev pub view : {S : Type 0} → Adapter S → View
view a = record { events = a.events; old = a.esp_ip_old.at_sta; timer = a.timer_running.at_sta }

abbrev pub is_lost : Event → Bool
is_lost (sta_got_ip changed info) = false
is_lost (eth_got_ip changed info) = false
is_lost sta_lost_ip = true

-- The steps of the machine. The last one is allowed only where `free` says so.
pub data Move (free : Bool) (v w : View) : Type 0 where
  stay : w ≡ v → Move free v w
  forget : w ≡ record v { old = zero_info } → Move free v w
  announce :
      (e : Event) (new : IpInfo)
      → is_lost e ≡ false
      → w ≡ record v { events = v.events ++ e ∷ []; old = new }
      → Move free v w
  watch : v.timer ≡ false → (v.old.ip == 0) ≡ false → w ≡ record v { timer = true } → Move free v w
  expire : v.timer ≡ true → w ≡ record v { timer = false } → Move free v w
  report :
      v.timer ≡ true
      → w ≡ record { events = v.events ++ sta_lost_ip ∷ []; old = zero_info; timer = false }
      → Move free v w
  assign : (new : IpInfo) → free ≡ true → w ≡ record v { old = new } → Move free v w

abbrev pub last_lost : List Event → Bool
last_lost [] = false
last_lost (e ∷ []) = is_lost e
last_lost (e ∷ f ∷ es) = last_lost (f ∷ es)

-- Whether no loss of the station's address follows another at once.
abbrev pub apart : List Event → Bool
apart [] = true
apart (e ∷ []) = true
apart (e ∷ f ∷ es) = not (is_lost e && is_lost f) && apart (f ∷ es)

last_lost-append : (es : List Event) (e : Event) → last_lost (es ++ e ∷ []) ≡ is_lost e
last_lost-append [] e = refl
last_lost-append (d ∷ []) e = refl
last_lost-append (d ∷ f ∷ es) e = last_lost-append (f ∷ es) e

apart-append :
    (es : List Event) (e : Event)
    → apart (es ++ e ∷ []) ≡ (apart es && not (last_lost es && is_lost e))
apart-append [] e = ground arith
apart-append (d ∷ []) e = ground arith
apart-append (d ∷ f ∷ es) e = ground (arith, apart-append (f ∷ es) e)

-- Behind a loss there is no address to lose and no timer that runs.
abbrev pub settled : View → Bool
settled v = apart v.events && (not (last_lost v.events) || v.old.ip == 0 && not v.timer)

pub settled-Move : (v w : View) → settled v ≡ true → Move false v w → settled w ≡ true
settled-Move v w h (stay e) = rw e h
settled-Move v w h (forget e) = rw e (ground (arith, h))
settled-Move v w h (announce d new l e) =
    rw (e, apart-append v.events d, last_lost-append v.events d) (ground (arith, h, l))
settled-Move v w h (watch t o e) = rw e (ground (arith, h, t, o))
settled-Move v w h (expire t e) = rw e (ground (arith, h, t))
settled-Move v w h (report t e) =
    rw (e, apart-append v.events sta_lost_ip, last_lost-append v.events sta_lost_ip)
      (ground (arith, h, t))
settled-Move v w h (assign new f e) = cc
