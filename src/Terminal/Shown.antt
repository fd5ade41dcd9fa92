-- ===== src/Terminal/Shown.antt =====
-- `terminal_set_scroll` and what the screen shows of the buffer.
use maple_kernel.Base.{
  ℕ, ◌+◌, ◌*◌, ◌<◌, ◌≤◌, ◌≡◌, ◌≢◌, ◌⊎◌, refl, subst, min, ap₂, sym, ◌∙◌, arith, false, ◌==◌, ltb,
  if◌then◌else◌, some, u8, u32, inl, inr, Bool-cases, for_range_inv,
}
use maple_kernel.Terminal.Screen.{Safe, Safe-bind, Safe-allowed, in_screen, in_buffer}
use maple_kernel.Terminal.Cursor.{Safe-map}
use maple_kernel.Terminal.{
  Terminal, Cells, write_cell, set_vga_element, with_buffer, for_cells, terminal_update_vga_mem,
  terminal_set_scroll,
}

write_cell_self :
    (screen : Cells) (y x c y' x' : ℕ) → y' ≡ y → x' ≡ x → write_cell screen y x c y' x' ≡ c
write_cell_self screen y x c y' x' ey ex = ground arith

write_cell_other :
    (screen : Cells) (y x c y' x' : ℕ)
    → (y' ≢ y) ⊎ (x' ≢ x)
    → write_cell screen y x c y' x' ≡ screen y' x'
write_cell_other screen y x c y' x' apart = ground arith

module _ (cells : Cells) (scroll : ℕ) where
  -- The first `n` cells of the screen, row by row, are those of the buffer.
  Drawn : ℕ → Terminal → Type 0
  Drawn n t =
      (t.big_scrollable_buffer ≡ cells)
      × (t.scroll_row ≡ scroll)
      × ((y x : ℕ) → x < 80 → y * 80 + x < n → t.vga_buffer y x ≡ cells (y + scroll) x)

  apart :
      (y x y' x' : ℕ)
      → y < 25
      → x < 80
      → (y' * 80 + x' == y * 80 + x) ≡ false
      → (y' ≢ u8 y) ⊎ (x' ≢ u8 x)
  apart y x y' x' hy hx e = ground arith

  drawn_next :
      (screen : Cells) (y x c : ℕ)
      → y < 25
      → x < 80
      → c ≡ cells (y + scroll) x
      → ((y' x' : ℕ) → x' < 80 → y' * 80 + x' < y * 80 + x → screen y' x' ≡ cells (y' + scroll) x')
      → (y' x' : ℕ) → x' < 80
      → y' * 80 + x' < y * 80 + (x + 1)
      → write_cell screen (u8 y) (u8 x) c y' x' ≡ cells (y' + scroll) x'
  drawn_next screen y x c hy hx hc drawn y' x' hx' below =
      elim (Bool-cases (y' * 80 + x' == y * 80 + x)) [
        | inl e ↦
            let ey : y' ≡ y = ground (arith, e) in
            let ex : x' ≡ x = ground (arith, e) in
            write_cell_self screen (u8 y) (u8 x) c y' x' (omega (arith, ey)) (omega (arith, ex))
            ∙ hc
            ∙ ap₂ (λ row column. cells (row + scroll) column) (sym ey) (sym ex)
        | inr e ↦
            write_cell_other screen (u8 y) (u8 x) c y' x' (apart y x y' x' hy hx e)
            ∙ drawn y' x' hx' (ground (arith, e, below))
      ]

  draw_cell :
      (y x : ℕ) (t : Terminal)
      → y < 25
      → x < 80
      → scroll ≤ 975
      → Drawn (y * 80 + x) t
      → Safe
          (Drawn (y * 80 + (x + 1)))
          (with_buffer x (u32 (y + t.scroll_row)) (λ c. set_vga_element x y c) t)
  unfolding Drawn with_buffer set_vga_element
  draw_cell y x t hy hx hs h =
      let row : u32 (y + t.scroll_row) ≡ y + scroll = omega (arith, h.1) in
      Safe-allowed (Drawn (y * 80 + (x + 1))) _ _
        (in_buffer x (u32 (y + t.scroll_row)) hx (omega (arith, row)))
        (Safe-allowed (Drawn (y * 80 + (x + 1))) _ _ (in_screen x y hx hy) (
          h.0,
          h.1,
          drawn_next t.vga_buffer y x (t.big_scrollable_buffer (u32 (y + t.scroll_row)) x) hy hx
              (ap₂ (λ buffer at. buffer at x) h.0 row) h.2,
        ))

  terminal_update_vga_mem-Drawn :
      (t : Terminal)
      → scroll ≤ 975
      → t.big_scrollable_buffer ≡ cells
      → t.scroll_row ≡ scroll
      → Safe (Drawn (25 * 80)) (terminal_update_vga_mem t)
  unfolding terminal_update_vga_mem for_cells Drawn
  terminal_update_vga_mem-Drawn t hs hb hr =
      for_range_inv (λ y now. Safe (Drawn (y * 80)) now) _ 25 0 25 (some t) (omega arith)
        (λ y rows from below held.
          Safe-map (Drawn (y * 80 + 80)) (Drawn ((y + 1) * 80)) _
            (for_range_inv (λ x now. Safe (Drawn (y * 80 + x)) now) _ 80 0 80 rows (omega arith)
              (λ x here left right drawn.
                Safe-bind (Drawn (y * 80 + x)) (Drawn (y * 80 + (x + 1))) here _ drawn
                  (λ now p. draw_cell y x now below right hs p))
              (subst (λ n. Safe (Drawn n) rows) (omega arith) held))
            (λ now p. (p.0, p.1, λ y' x' hx h. p.2 y' x' hx (omega (arith, h)))))
        (hb, hr, λ y x hx h. absurd (omega (arith, h)))

clamped : (row : ℕ) → (if ltb 975 row then 975 else row) ≡ min row 975
clamped row = ground arith

-- `terminal_set_scroll` makes the scroll the row that it is given, or 975 if that is less, changes
-- nothing in the buffer, and the screen then shows the 25 rows of the buffer from there: for a row
-- below 25 and a column below 80 the cell on the screen is the buffer's cell so many rows further
-- down.
pub terminal_set_scroll-shown :
    (row : ℕ) (t : Terminal) (y x : ℕ)
    → y < 25
    → x < 80
    → Safe
        (λ now.
          (now.scroll_row ≡ min row 975)
          × (now.big_scrollable_buffer ≡ t.big_scrollable_buffer)
          × (now.vga_buffer y x ≡ t.big_scrollable_buffer (y + min row 975) x))
        (terminal_set_scroll row t)
unfolding terminal_set_scroll Drawn
terminal_set_scroll-shown row t y x hy hx =
    let to : (if ltb 975 row then 975 else row) ≡ min row 975 = clamped row in
    Safe-map (Drawn t.big_scrollable_buffer (min row 975) (25 * 80)) _ _
      (terminal_update_vga_mem-Drawn t.big_scrollable_buffer (min row 975) _ (omega arith) refl to)
      (λ now p. (p.1, p.0, p.2 y x hx (omega (arith, hy, hx))))
