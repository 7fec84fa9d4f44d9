-- ===== src/Gui/Menu.antt =====
-- guiInit and guiMenu of main/gui.c: what the device starts after its menu.
use bkc_chooser.Base.{
  ℕ, zero, suc, ◌<◌, Option, none, some, ◌>>=◌, List, [], ◌∷◌, ◌++◌, ◌≡◌, refl, ℤ, arith,
}

-- The calls of guiInit.
pub data InitCall : Type 0 where
  kcugui_init kcugui_flush : InitCall

unfoldable pub gui_init : List InitCall
gui_init = kcugui_init ∷ kcugui_flush ∷ []

-- `while (kchal_get_keys())` over the readings: what is left of them behind the loop, `none` where
-- it still waits.
unfoldable pub wait_up : List ℕ → Option (List ℕ)
wait_up [] = none
wait_up (zero ∷ keys) = some keys
wait_up (suc k ∷ keys) = wait_up keys

-- `while (!kchal_get_keys())`.
unfoldable pub wait_down : List ℕ → Option (List ℕ)
wait_down [] = none
wait_down (zero ∷ keys) = wait_down keys
wait_down (suc k ∷ keys) = some keys

-- guiMenu: the file that is set as the new application before the restart. `choose` is
-- kcugui_filechooser_filter: the file it returns and the readings that are left.
unfoldable pub gui_menu : (List ℕ → Option (ℤ × List ℕ)) → List ℕ → Option ℤ
gui_menu choose keys = do
  released ← wait_up keys
  pressed ← wait_down released
  (fd, left) ← choose pressed
  _ ← wait_up left
  some fd

-- Readings in each of which a button is down, and in each of which none is.
abbrev pub AreDown : List ℕ → Type 0
AreDown [] = Unit {0}
AreDown (k ∷ keys) = 0 < k × AreDown keys

abbrev pub AreUp : List ℕ → Type 0
AreUp [] = Unit {0}
AreUp (k ∷ keys) = (k ≡ 0) × AreUp keys

wait_up-append : (held keys : List ℕ) → AreDown held → wait_up (held ++ (0 ∷ keys)) ≡ some keys
unfolding wait_up
wait_up-append [] keys h = refl
wait_up-append (zero ∷ held) keys h = ground (arith, h.0)
wait_up-append (suc k ∷ held) keys h = wait_up-append held keys h.1

wait_down-append :
    (idle : List ℕ) (k : ℕ) (keys : List ℕ)
    → AreUp idle
    → 0 < k
    → wait_down (idle ++ (k ∷ keys)) ≡ some keys
unfolding wait_down
wait_down-append [] zero keys h p = ground (arith, p)
wait_down-append [] (suc k) keys h p = refl
wait_down-append (zero ∷ idle) k keys h p = wait_down-append idle k keys h.1 p
wait_down-append (suc n ∷ idle) k keys h p = ground (arith, h.0)

-- Once all buttons are released and then one is pressed, the file chooser runs; and where it
-- returns a file and the buttons are released again, that file is the one the device starts.
pub gui_menu-starts :
    (choose : List ℕ → Option (ℤ × List ℕ)) (fd : ℤ) (held idle keys held₂ left : List ℕ) (k : ℕ)
    → AreDown held
    → AreUp idle
    → 0 < k
    → choose keys ≡ some (fd, held₂ ++ (0 ∷ left))
    → AreDown held₂
    → gui_menu choose (held ++ (0 ∷ (idle ++ (k ∷ keys)))) ≡ some fd
unfolding gui_menu
gui_menu-starts choose fd held idle keys held₂ left k down up press chosen down₂ = rw (
  wait_up-append held (idle ++ (k ∷ keys)) down,
  wait_down-append idle k keys up press,
  chosen,
  wait_up-append held₂ left down₂,
)
