-- ===== src/Terminal/Cursor.antt =====
-- The functions of vga_terminal.c that move the cursor or the scroll.
use maple_kernel.Base.{
  ℕ, ◌+◌, ◌-◌, ◌<◌, ◌≤◌, ◌^◌, ◌≡◌, refl, arith, Bool, true, false, ltb, leb, ◌==◌, if◌then◌else◌,
  none, some, List, [], ◌∷◌, u32, for_range, for_range_inv,
}
use maple_kernel.Terminal.Screen.{
  Safe, Safe-bind, At, set_vga_element-At, set_buffer-At, with_buffer-At, clear_visible_terminal-At,
  terminal_update_vga_mem-At,
}
use maple_kernel.Terminal.{
  Terminal, Run, ◌>=>◌, vga_width, vga_height, vga_mem_height, vga_entry, clear_visible_terminal,
  terminal_set_scroll, terminal_scroll_down, terminal_scroll_up, terminal_putentryat,
  terminal_increase_row, put_untabbed, terminal_putchar, terminal_write, serial_write_char,
}

-- The cursor is on a cell of the buffer, and the screen shows rows of the buffer.
abbrev pub IsWithin : Terminal → Type 0
IsWithin t = (t.current_write_row < 1000) × (t.current_write_column < 80) × (t.scroll_row ≤ 975)

pub Safe-map :
    (P Q : Terminal → Type 0) (m : Run) → Safe P m → ((t : Terminal) → P t → Q t) → Safe Q m
Safe-map P Q none h hq = absurd h
Safe-map P Q (some t) h hq = hq t h

pub Safe-if :
    (P : Terminal → Type 0) (b : Bool) (m n : Run)
    → (b ≡ true → Safe P m)
    → (b ≡ false → Safe P n)
    → Safe P (if b then m else n)
Safe-if P true m n hm hn = hm refl
Safe-if P false m n hm hn = hn refl

pub below_leb : (n k : ℕ) → leb n k ≡ false → k < n
below_leb n k e = ground arith

-- The cursor is at a place, and the scroll is in its bounds.
abbrev pub Kept : ℕ → ℕ → Terminal → Type 0
Kept row column t =
    (t.current_write_row ≡ row) × (t.current_write_column ≡ column) × (t.scroll_row ≤ 975)

clamped : (row : ℕ) → (if ltb 975 row then 975 else row) ≤ 975
clamped row = ground arith

pub terminal_set_scroll-Kept :
    (s : ℕ) (t : Terminal)
    → Safe (Kept t.current_write_row t.current_write_column) (terminal_set_scroll s t)
unfolding terminal_set_scroll
terminal_set_scroll-Kept s t =
    Safe-map (At t.current_write_row t.current_write_column (if ltb 975 s then 975 else s))
      (Kept t.current_write_row t.current_write_column) _
      (terminal_update_vga_mem-At t.current_write_row t.current_write_column
        (if ltb 975 s then 975 else s) _ (clamped s) (refl, refl, refl))
      (λ now p. (p.0, p.1, omega (arith, p.2, clamped s)))

pub terminal_scroll_down-Kept :
    (n : ℕ) (t : Terminal)
    → Safe (Kept t.current_write_row t.current_write_column) (terminal_scroll_down n t)
unfolding terminal_scroll_down
terminal_scroll_down-Kept n t = terminal_set_scroll-Kept _ t

pub terminal_scroll_up-Kept :
    (n : ℕ) (t : Terminal)
    → Safe (Kept t.current_write_row t.current_write_column) (terminal_scroll_up n t)
unfolding terminal_scroll_up
terminal_scroll_up-Kept n t = terminal_scroll_down-Kept _ t

-- Whatever the scroll, from a cursor inside.
pub Kept-IsWithin :
    (t : Terminal) (m : Run)
    → IsWithin t
    → Safe (Kept t.current_write_row t.current_write_column) m
    → Safe IsWithin m
Kept-IsWithin t m h k =
    Safe-map (Kept t.current_write_row t.current_write_column) IsWithin m k
      (λ now p. (omega (arith, p.0, h.0), omega (arith, p.1, h.1), p.2))

pub terminal_putentryat-At :
    (c color x y : ℕ) (t : Terminal)
    → x < 80
    → y < 1000
    → Safe
        (At t.current_write_row t.current_write_column t.scroll_row)
        (terminal_putentryat c color x y t)
unfolding terminal_putentryat
terminal_putentryat-At c color x y t hx hy =
    let P = At t.current_write_row t.current_write_column t.scroll_row in
    Safe-bind P P _ _
      (set_buffer-At t.current_write_row t.current_write_column t.scroll_row x y (vga_entry c color)
        t hx hy (refl, refl, refl))
      (λ now p.
        let row = u32 (y + 2 ^ 32 - now.scroll_row) in
        Safe-if P (leb vga_height row) _ _ (λ e. p)
          (λ e.
            let shown : row < 25 = below_leb 25 row e in
            with_buffer-At t.current_write_row t.current_write_column t.scroll_row x row _ now hx
              (omega (arith, shown))
              (λ colored_c.
                set_vga_element-At t.current_write_row t.current_write_column t.scroll_row x row
                  colored_c now hx shown p)))

-- The row may be one past the last.
IsNear : Terminal → Type 0
IsNear t = (t.current_write_row ≤ 1000) × (t.current_write_column < 80) × (t.scroll_row ≤ 975)

from_the_top :
    (t : Terminal)
    → Safe IsWithin (
        terminal_set_scroll 0 (record t { current_write_row = 0; current_write_column = 0 })
        >=> clear_visible_terminal)
from_the_top t =
    Safe-bind (Kept 0 0) IsWithin _ _
      (terminal_set_scroll-Kept 0 (record t { current_write_row = 0; current_write_column = 0 }))
      (λ now p.
        Safe-map (At 0 0 now.scroll_row) IsWithin _
          (clear_visible_terminal-At 0 0 now.scroll_row now (p.0, p.1, refl))
          (λ end q. (omega (arith, q.0), omega (arith, q.1), omega (arith, q.2, p.2))))

wrap_if_past :
    (t : Terminal)
    → IsNear t
    → Safe IsWithin (
        if leb vga_mem_height t.current_write_row
        then (terminal_set_scroll 0 (record t { current_write_row = 0; current_write_column = 0 })
            >=> clear_visible_terminal)
        else some t)
unfolding IsNear
wrap_if_past t h =
    Safe-if IsWithin (leb 1000 t.current_write_row) _ _ (λ e. from_the_top t)
      (λ e. (below_leb 1000 t.current_write_row e, h.1, h.2))

pub terminal_increase_row-IsWithin :
    (t : Terminal) → IsWithin t → Safe IsWithin (terminal_increase_row t)
unfolding terminal_increase_row IsNear
terminal_increase_row-IsWithin t h =
    let next = record t { current_write_row = u32 (t.current_write_row + 1) } in
    Safe-bind IsNear IsWithin _ _
      (Safe-if IsNear (ltb vga_height (u32 (next.current_write_row + 2 ^ 32 - next.scroll_row))) _
        (some next)
        (λ e.
          Safe-map (Kept next.current_write_row next.current_write_column) IsNear _
            (terminal_scroll_down-Kept 1 next)
            (λ now p. (omega (arith, p.0, h.0), omega (arith, p.1, h.1), p.2)))
        (λ e. (omega (arith, h.0), h.1, h.2)))
      wrap_if_past

column_left : (column : ℕ) → column < 80 → (u32 (column + 1) == 80) ≡ false → u32 (column + 1) < 80
column_left column h e = ground arith

next_column :
    (t : Terminal)
    → IsWithin t
    → Safe IsWithin (
        if u32 (t.current_write_column + 1) == vga_width
        then terminal_increase_row (record t { current_write_column = 0 })
        else some (record t { current_write_column = u32 (t.current_write_column + 1) }))
next_column t h =
    Safe-if IsWithin (u32 (t.current_write_column + 1) == 80) _ _
      (λ e.
        terminal_increase_row-IsWithin (record t { current_write_column = 0 })
          (h.0, omega arith, h.2))
      (λ e. (h.0, column_left t.current_write_column h.1 e, h.2))

pub put_untabbed-IsWithin : (c : ℕ) (t : Terminal) → IsWithin t → Safe IsWithin (put_untabbed c t)
unfolding put_untabbed serial_write_char
put_untabbed-IsWithin c t h =
    let sent = serial_write_char c t in
    Safe-if IsWithin (c == 0x0a) _ _
      (λ e.
        terminal_increase_row-IsWithin (record sent { current_write_column = 0 })
          (h.0, omega arith, h.2))
      (λ e.
        Safe-bind (At t.current_write_row t.current_write_column t.scroll_row) IsWithin _ _
          (terminal_putentryat-At c t.color t.current_write_column t.current_write_row sent h.1 h.0)
          (λ now p.
            next_column now
              (omega (arith, p.0, h.0), omega (arith, p.1, h.1), omega (arith, p.2, h.2))))

tab_rounds :
    (n : ℕ) (t : Terminal)
    → IsWithin t
    → Safe IsWithin (for_range n 0 (λ i now. now >=> put_untabbed 0x20) (some t))
tab_rounds n t h =
    for_range_inv (λ _ now. Safe IsWithin now) (λ i now. now >=> put_untabbed 0x20) n 0 n (some t)
      (omega arith)
      (λ i now from below held.
        Safe-bind IsWithin IsWithin now (put_untabbed 0x20) held (put_untabbed-IsWithin 0x20))
      h

pub terminal_putchar-IsWithin :
    (c : ℕ) (t : Terminal) → IsWithin t → Safe IsWithin (terminal_putchar c t)
unfolding terminal_putchar
terminal_putchar-IsWithin c t h =
    Safe-if IsWithin (c == 0) _ _ (λ e. h)
      (λ e.
        Safe-if IsWithin (c == 0x09) _ _ (λ f. tab_rounds _ t h) (λ f. put_untabbed-IsWithin c t h))

pub terminal_write-IsWithin :
    (text : List ℕ) (t : Terminal) → IsWithin t → Safe IsWithin (terminal_write text t)
unfolding terminal_write
terminal_write-IsWithin [] t h = h
terminal_write-IsWithin (c ∷ text) t h =
    Safe-bind IsWithin IsWithin _ _ (terminal_putchar-IsWithin c t h) (terminal_write-IsWithin text)
