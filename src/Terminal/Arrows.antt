-- ===== src/Terminal/Arrows.antt =====
-- `terminal_arrow_up` and `terminal_arrow_down`.
use maple_kernel.Base.{
  ℕ, ◌+◌, ◌-◌, ◌<◌, ◌≤◌, ◌^◌, ◌≡◌, ◌∙◌, arith, Bool, true, false, not, ◌&&◌, ◌==◌, ltb, leb, some,
  u32,
}
use maple_kernel.Terminal.Screen.{Safe}
use maple_kernel.Terminal.Cursor.{
  IsWithin, Kept, Safe-map, Safe-if, terminal_scroll_down-Kept, terminal_scroll_up-Kept,
}
use maple_kernel.Terminal.{Terminal, Run, vga_height, terminal_arrow_up, terminal_arrow_down}

-- The test of the invariant.
abbrev pub is_within : Terminal → Bool
is_within t =
    ltb t.current_write_row 1000 && (ltb t.current_write_column 80 && leb t.scroll_row 975)

-- An arrow makes no access outside of the arrays, and ends inside of the buffer or not.
abbrev pub EndsWithin : Bool → Run → Type 0
EndsWithin b m = Safe (λ t. is_within t ≡ b) m

inside :
    (t : Terminal)
    → (row column : ℕ) → row < 1000
    → column < 80
    → Kept row column t
    → is_within t ≡ true
inside t row column hr hc k = ground arith

-- The sums of the two arrows, by the row and the scroll.
up_in :
    (row scroll : ℕ)
    → row < 1000
    → scroll ≤ 975
    → ltb (u32 (row + 2 ^ 32 - 1)) scroll ≡ true
    → true ≡ not (row == 0)
up_in row scroll hr hs e = ground arith

up_out :
    (row column scroll : ℕ)
    → row < 1000
    → column < 80
    → scroll ≤ 975
    → (ltb (u32 (row + 2 ^ 32 - 1)) 1000 && (ltb column 80 && leb scroll 975)) ≡ not (row == 0)
up_out row column scroll hr hc hs = ground arith

down_row :
    (row scroll : ℕ)
    → row < 1000
    → scroll ≤ 975
    → ltb (u32 (scroll + 25)) (u32 (row + 1)) ≡ true
    → u32 (scroll + 25) < 1000
down_row row scroll hr hs e = ground arith

down_in :
    (row scroll : ℕ)
    → row < 1000
    → scroll ≤ 975
    → ltb (u32 (scroll + 25)) (u32 (row + 1)) ≡ true
    → true ≡ not ((row == 999) && (scroll == 975))
down_in row scroll hr hs e = ground arith

down_out :
    (row column scroll : ℕ)
    → row < 1000
    → column < 80
    → scroll ≤ 975
    → ltb (u32 (scroll + 25)) (u32 (row + 1)) ≡ false
    → (ltb (u32 (row + 1)) 1000 && (ltb column 80 && leb scroll 975))
      ≡ not ((row == 999) && (scroll == 975))
down_out row column scroll hr hc hs e = ground arith

terminal_arrow_up-EndsWithin :
    (t : Terminal) → IsWithin t → EndsWithin (not (t.current_write_row == 0)) (terminal_arrow_up t)
unfolding terminal_arrow_up
terminal_arrow_up-EndsWithin t h =
    let above = record t { current_write_row = u32 (t.current_write_row + 2 ^ 32 - 1) } in
    Safe-if (λ s. is_within s ≡ not (t.current_write_row == 0))
      (ltb above.current_write_row above.scroll_row) _ (some above)
      (λ e.
        Safe-map (Kept t.scroll_row t.current_write_column) _ _
          (terminal_scroll_up-Kept 1 (record above { current_write_row = above.scroll_row }))
          (λ s k.
            inside s t.scroll_row t.current_write_column (omega (arith, h.2)) h.1 k
            ∙ up_in t.current_write_row t.scroll_row h.0 h.2 e))
      (λ e. up_out t.current_write_row t.current_write_column t.scroll_row h.0 h.1 h.2)

terminal_arrow_down-EndsWithin :
    (t : Terminal)
    → IsWithin t
    → EndsWithin
        (not ((t.current_write_row == 999) && (t.scroll_row == 975)))
        (terminal_arrow_down t)
unfolding terminal_arrow_down
terminal_arrow_down-EndsWithin t h =
    let below = record t { current_write_row = u32 (t.current_write_row + 1) } in
    Safe-if (λ s. is_within s ≡ not ((t.current_write_row == 999) && (t.scroll_row == 975)))
      (ltb (u32 (below.scroll_row + vga_height)) below.current_write_row) _ (some below)
      (λ e.
        Safe-map (Kept (u32 (t.scroll_row + vga_height)) t.current_write_column) _ _
          (terminal_scroll_down-Kept 1
            (record below { current_write_row = u32 (t.scroll_row + vga_height) }))
          (λ s k.
            inside s (u32 (t.scroll_row + vga_height)) t.current_write_column
              (down_row t.current_write_row t.scroll_row h.0 h.2 e) h.1 k
            ∙ down_in t.current_write_row t.scroll_row h.0 h.2 e))
      (λ e. down_out t.current_write_row t.current_write_column t.scroll_row h.0 h.1 h.2 e)

-- From a cursor on a cell of the buffer and a scroll of at most 975, the arrows make no access
-- outside of the arrays. `terminal_arrow_up` leaves the cursor outside of the buffer exactly if it
-- was in row 0, and `terminal_arrow_down` exactly if it was in row 999 with the scroll at 975.
pub arrows-EndsWithin :
    (t : Terminal)
    → IsWithin t
    → EndsWithin (not (t.current_write_row == 0)) (terminal_arrow_up t)
      × EndsWithin
          (not ((t.current_write_row == 999) && (t.scroll_row == 975)))
          (terminal_arrow_down t)
arrows-EndsWithin t h = (terminal_arrow_up-EndsWithin t h, terminal_arrow_down-EndsWithin t h)
