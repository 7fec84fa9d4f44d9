-- ===== src/Gui.antt =====
-- main/gui.c: the icons, the splash screen and the debug screen.
pub mod Icons
pub mod Menu
use bkc_chooser.Base.{
  ℕ, zero, suc, ◌+◌, ◌*◌, Bool, not, ◌&&◌, ◌||◌, Option, none, some, List, [], ◌∷◌, ◌++◌, Bytes,
  codes, ◌==◌, if◌then◌else◌, get_or, ℤ, pos,
}
use bkc_chooser.Hardware.{Hardware, pressed}
use bkc_chooser.Libc.{print_hex, print_int, int_of_u32}

abbrev pub gfx_w : ℕ
gfx_w = 41

abbrev pub gfx_ih : ℕ
gfx_ih = 11

-- UG_DrawPixel with the three bytes of kchal_ugui_rgb.
pub record Pixel : Type 0 where
  pub x : ℕ
  pub y : ℕ
  pub r : ℕ
  pub g : ℕ
  pub b : ℕ

-- The pixel whose bytes begin at `at`.
unfoldable pub pixel : Bytes → ℕ → ℕ → ℕ → Pixel
pixel gfx at x y = record {
  x = x;
  y = y;
  r = get_or gfx at 0;
  g = get_or gfx (at + 1) 0;
  b = get_or gfx (at + 2) 0;
}

-- The inner loop of drawIcon: `n` pixels of a row from the column `x` on, and the next `p`.
unfoldable pub draw_row : ℕ → ℕ → ℕ → ℕ → ℕ → ℕ → Bytes → List Pixel × ℕ
draw_row zero x y px py at gfx = ([], at)
draw_row (suc n) x y px py at gfx =
    let (row, end) = draw_row n (x + 1) y px py (at + 4) gfx in
    (pixel gfx at (x + px) (y + py) ∷ row, end)

-- The outer loop: `n` rows from the row `y` on.
unfoldable pub draw_rows : ℕ → ℕ → ℕ → ℕ → ℕ → Bytes → List Pixel × ℕ
draw_rows zero y px py at gfx = ([], at)
draw_rows (suc n) y px py at gfx =
    let (row, next) = draw_row gfx_w 0 y px py at gfx in
    let (rows, end) = draw_rows n (y + 1) px py next gfx in (row ++ rows, end)

-- drawIcon: the pixels of icon `o` of the image `gfx`, at a place of the screen.
unfoldable pub draw_icon : ℕ → ℕ → ℕ → Bytes → List Pixel
draw_icon px py o gfx = (draw_rows gfx_ih 0 px py (o * gfx_ih * gfx_w * 4) gfx).0

-- guiCharging, guiFull and guiBatEmpty, between clearing and flushing the screen.
unfoldable pub gui_charging : ℕ → Bytes → List Pixel
gui_charging almost_full gfx =
    if almost_full == 0 then draw_icon 20 26 2 gfx else draw_icon 20 26 3 gfx

unfoldable pub gui_full : Bytes → List Pixel
gui_full = draw_icon 20 26 1

unfoldable pub gui_bat_empty : Bytes → List Pixel
gui_bat_empty = draw_icon 20 26 0

pub data Color : Type 0 where
  white yellow red : Color

-- UG_PutString with the foreground colour that holds.
pub record Line : Type 0 where
  pub color : Color
  pub x : ℕ
  pub y : ℕ
  pub text : Bytes

abbrev pub line : Color → ℕ → ℕ → Bytes → Line
line c x y text = record { color = c; x = x; y = y; text = text }

-- The setting `wifi` of the store, 1 where it cannot be read.
unfoldable pub wifi_setting : Bool → Option ℕ → ℕ
wifi_setting opens none = 1
wifi_setting opens (some v) = if opens then v else 1

-- guiSplash.
unfoldable pub gui_splash : ℕ → List Line
gui_splash wifi_en =
    (if not (wifi_en == 0)
      then line white 0 0 (codes "WIFI AP")
        ∷ line yellow 0 8 (codes " pkspr")
        ∷ line white 0 16 (codes "GO TO:")
        ∷ line yellow 0 24 (codes "HTTP://192.168.4.1/")
        ∷ []
      else line white 0 0 (codes "   NOTE:")
        ∷ line yellow 0 8 (codes "WiFi is off")
        ∷ line yellow 0 16 (codes "and can be ")
        ∷ line yellow 0 24 (codes "enabled in ")
        ∷ line yellow 0 32 (codes "the options")
        ∷ line yellow 0 40 (codes "menu.      ")
        ∷ [])
    ++ line red 30 56 (codes "MENU") ∷ []

-- What one round of the debug screen reads.
pub record Reading : Type 0 where
  pub keys : ℕ
  pub chg_status : ℕ
  pub bat_mv : ℕ

-- The texts of one round. The revision and the date come from the build.
unfoldable pub debug_lines : Bytes → Bytes → ℕ → Reading → List Line
debug_lines gitrev compile_date batt_full_adc_val k =
    line yellow 0 0 (codes "DEBUG")
    ∷ line white 0 8 (codes "KEYS: " ++ print_hex k.keys)
    ∷ line white 0 16 (codes "CHG: " ++ print_hex k.chg_status)
    ∷ line white 0 24 (codes "VBATMV:" ++ print_int (ℤ.pos k.bat_mv))
    ∷ line white 0 32 (codes "ADCCAL:" ++ print_int (int_of_u32 batt_full_adc_val))
    ∷ line yellow 0 40 (codes "Gitrev/date")
    ∷ line white 0 48 gitrev
    ∷ line white 0 56 compile_date
    ∷ []

-- The loop of debug_screen: how many rounds it runs, `none` where it is still running behind the
-- last reading.
unfoldable pub debug_rounds : Hardware → Bool → List Reading → Option ℕ
debug_rounds hw sel_released [] = none
debug_rounds hw sel_released (k ∷ ks) =
    let held = pressed k.keys hw.btn_select in
    let rest = debug_rounds hw (sel_released || not held) ks in
    if held && sel_released then some 1 else elim rest [ none ↦ none | some n ↦ some (n + 1) ]
