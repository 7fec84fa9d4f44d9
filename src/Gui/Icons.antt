-- ===== src/Gui/Icons.antt =====
-- Which bytes of the image drawIcon shows where.
use bkc_chooser.Base.{
  ℕ, zero, suc, ◌+◌, ◌*◌, ◌<◌, List, [], ◌∷◌, ◌++◌, Bytes, ◌≡◌, refl, ap, ◌∙◌, length, get_or,
  arith,
}
use bkc_chooser.Gui.{Pixel, pixel, draw_row, draw_rows, draw_icon}

pub get_or-before :
    {A : Type 0} (xs ys : List A) (i : ℕ) (d : A)
    → i < length xs
    → get_or (xs ++ ys) i d ≡ get_or xs i d
get_or-before [] ys i d h = ground arith
get_or-before (x ∷ xs) ys zero d h = refl
get_or-before (x ∷ xs) ys (suc i) d h = get_or-before xs ys i d (omega arith)

pub get_or-behind :
    {A : Type 0} (xs ys : List A) (i j : ℕ) (d : A)
    → j ≡ length xs + i
    → get_or (xs ++ ys) j d ≡ get_or ys i d
get_or-behind [] ys i j d h = ap (λ z. get_or ys z d) (omega (arith, h))
get_or-behind (x ∷ xs) ys i zero d h = ground arith
get_or-behind (x ∷ xs) ys i (suc j) d h = get_or-behind xs ys i j d (omega arith)

module _ (px py : ℕ) (gfx : Bytes) where
  row_ends :
      (n x y at : ℕ)
      → length (draw_row n x y px py at gfx).0 ≡ n × (draw_row n x y px py at gfx).1 ≡ at + 4 * n
  unfolding draw_row
  row_ends zero x y at = ground arith
  row_ends (suc n) x y at = ground (arith, row_ends n (x + 1) y (at + 4))

  row_at :
      (n x y at k : ℕ) (d : Pixel)
      → k < n
      → get_or (draw_row n x y px py at gfx).0 k d ≡ pixel gfx (at + 4 * k) (x + k + px) (y + py)
  unfolding draw_row
  row_at zero x y at k d h = ground arith
  row_at (suc n) x y at zero d h =
      ap (λ z. pixel gfx z (x + px) (y + py)) (omega arith)
      ∙ ap (λ z. pixel gfx (at + 4 * 0) (z + px) (y + py)) (omega arith)
  row_at (suc n) x y at (suc k) d h =
      row_at n (x + 1) y (at + 4) k d (omega arith)
      ∙ ap (λ z. pixel gfx z (x + 1 + k + px) (y + py)) (omega arith)
      ∙ ap (λ z. pixel gfx (at + 4 * suc k) (z + px) (y + py)) (omega arith)

  -- The pixel of the byte `at`, at an offset in the image.
  abbrev place : ℕ → ℕ → ℕ → Pixel
  place at x y = pixel gfx at (x + px) (y + py)

  same_place : (a b x y z : ℕ) → a ≡ b → y ≡ z → place a x y ≡ place b x z
  same_place a b x y z h e = ap (λ v. place v x y) h ∙ ap (place b x) e

  rows_at :
      (n y at r k j : ℕ) (d : Pixel)
      → r < n
      → k < 41
      → j ≡ r * 41 + k
      → get_or (draw_rows n y px py at gfx).0 j d ≡ place (at + 4 * j) k (y + r)
  unfolding draw_rows
  rows_at zero y at r k j d h l e = ground arith
  rows_at (suc n) y at zero k j d h l e =
      let row = (draw_row 41 0 y px py at gfx).0 in
      let rest = (draw_rows n (y + 1) px py (draw_row 41 0 y px py at gfx).1 gfx).0 in
      get_or-before row rest j d (omega (arith, row_ends 41 0 y at))
      ∙ row_at 41 0 y at j d (omega arith)
      ∙ same_place (at + 4 * j) (at + 4 * j) (0 + j) y (y + 0) refl (omega arith)
      ∙ ap (λ z. place (at + 4 * j) z (y + 0)) (omega arith)
  rows_at (suc n) y at (suc r) k j d h l e =
      let row = (draw_row 41 0 y px py at gfx).0 in
      let end = (draw_row 41 0 y px py at gfx).1 in
      let rest = (draw_rows n (y + 1) px py end gfx).0 in
      get_or-behind row rest (r * 41 + k) j d (omega (arith, row_ends 41 0 y at))
      ∙ rows_at n (y + 1) end r k (r * 41 + k) d (omega arith) l refl
      ∙ same_place (end + 4 * (r * 41 + k)) (at + 4 * j) k (y + 1 + r) (y + suc r)
          (omega (arith, row_ends 41 0 y at)) (omega arith)

  -- drawIcon shows, `k` columns and `r` rows inside the icon `o`, the three bytes that stand in the
  -- image at the row `11 * o + r` and the column `k`, where the image has rows of 41 pixels of four
  -- bytes.
  draw_icon-reads :
      (o r k : ℕ) (d : Pixel)
      → r < 11
      → k < 41
      → get_or (draw_icon px py o gfx) (r * 41 + k) d
        ≡ pixel gfx (4 * ((11 * o + r) * 41 + k)) (k + px) (r + py)
  unfolding draw_icon
  draw_icon-reads o r k d h l =
      rows_at 11 0 (o * 11 * 41 * 4) r k (r * 41 + k) d h l refl
      ∙ same_place (o * 11 * 41 * 4 + 4 * (r * 41 + k)) (4 * ((11 * o + r) * 41 + k)) k (0 + r) r
          (omega arith) (omega arith)
