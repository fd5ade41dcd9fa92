-- ===== src/Terminal/Calls.antt =====
-- The functions of vga_terminal.h in any order.
use maple_kernel.Base.{
  ℕ, ◌+◌, ◌≡◌, refl, arith, Bool, true, false, ltb, ltb→lt, if◌then◌else◌, some, List, [], ◌∷◌, All,
  u32, ◌<◌,
}
use maple_kernel.Terminal.Screen.{
  Safe, Safe-bind, At, set_buffer-At, for_cells-At, clear_visible_terminal-At,
  terminal_update_vga_mem-At,
}
use maple_kernel.Terminal.Cursor.{
  IsWithin, Kept-IsWithin, Safe-map, Safe-if, terminal_set_scroll-Kept, terminal_scroll_down-Kept,
  terminal_scroll_up-Kept, terminal_increase_row-IsWithin, terminal_putchar-IsWithin,
  terminal_write-IsWithin, terminal_putentryat-At,
}
use maple_kernel.Terminal.{
  Terminal, Run, ◌>=>◌, vga_height, vga_mem_height, vga_entry_color, vga_color_light_grey,
  vga_color_black, vga_entry, initialize_terminal, clear_visible_terminal, terminal_update_vga_mem,
  terminal_set_scroll, terminal_scroll_down, terminal_setcolor, terminal_increase_row,
  terminal_ctrl_f, terminal_ctrl_r, terminal_putchar, terminal_write, terminal_putentryat,
  serial_write_char,
}

pub initialize_terminal-IsWithin : (t : Terminal) → Safe IsWithin (initialize_terminal t)
unfolding initialize_terminal
initialize_terminal-IsWithin t =
    let start = record t {
      current_write_row = 0;
      current_write_column = 0;
      color = vga_entry_color vga_color_light_grey vga_color_black;
    } in
    Safe-bind (At 0 0 t.scroll_row) IsWithin _ _
      (clear_visible_terminal-At 0 0 t.scroll_row start (refl, refl, refl))
      (λ cleared p.
        Safe-map (At 0 0 0) IsWithin _
          (for_cells-At 0 0 0 1000 _
            (λ y x now hy hx q. set_buffer-At 0 0 0 x y (vga_entry 0x20 now.color) now hx hy q)
            (record cleared { scroll_row = 0 }) (p.0, p.1, refl))
          (λ end q. (omega (arith, q.0), omega (arith, q.1), omega (arith, q.2))))

IsWithin-if :
    (b : Bool) (s t : Terminal)
    → (b ≡ true → IsWithin s)
    → (b ≡ false → IsWithin t)
    → IsWithin (if b then s else t)
IsWithin-if true s t hs ht = hs refl
IsWithin-if false s t hs ht = ht refl

lower_row :
    (t : Terminal)
    → IsWithin t
    → IsWithin (
        if ltb t.current_write_row t.scroll_row
        then record t { current_write_row = t.scroll_row }
        else t)
lower_row t h =
    IsWithin-if (ltb t.current_write_row t.scroll_row) _ t (λ e. (omega (arith, h.2), h.1, h.2))
      (λ e. h)

terminal_ctrl_f-IsWithin : (t : Terminal) → IsWithin t → Safe IsWithin (terminal_ctrl_f t)
unfolding terminal_ctrl_f
terminal_ctrl_f-IsWithin t h =
    Safe-bind IsWithin IsWithin _ _
      (Safe-if IsWithin (ltb (u32 (t.scroll_row + vga_height)) vga_mem_height) _ (some t)
        (λ e. Kept-IsWithin t _ h (terminal_scroll_down-Kept 1 t)) (λ e. h))
      lower_row

raise_row :
    (t : Terminal)
    → IsWithin t
    → IsWithin (
        if ltb (u32 (t.scroll_row + vga_height)) t.current_write_row
        then record t { current_write_row = u32 (t.scroll_row + vga_height) }
        else t)
raise_row t h =
    let top = u32 (t.scroll_row + vga_height) in
    IsWithin-if (ltb top t.current_write_row) _ t
      (λ e. (omega (arith, ltb→lt top t.current_write_row e, h.0), h.1, h.2)) (λ e. h)

terminal_ctrl_r-IsWithin : (t : Terminal) → IsWithin t → Safe IsWithin (terminal_ctrl_r t)
unfolding terminal_ctrl_r
terminal_ctrl_r-IsWithin t h =
    Safe-bind IsWithin IsWithin _ _
      (Safe-if IsWithin (ltb 0 t.scroll_row) _ (some t)
        (λ e. Kept-IsWithin t _ h (terminal_scroll_up-Kept 1 t)) (λ e. h))
      raise_row

-- A call of one of the functions of the terminal's header, or of the two keys that scroll. The printing
-- functions of the header are calls of `write` and `putchar`.
pub data Call : Type 0 where
  putchar : ℕ → Call
  write : List ℕ → Call
  set_scroll : ℕ → Call
  scroll_down : ℕ → Call
  setcolor : ℕ → Call
  putentryat : (c color pos_x pos_y : ℕ) → Call
  serial_char : ℕ → Call
  increase_row clear update_vga_mem ctrl_f ctrl_r : Call

abbrev pub call : Call → Terminal → Run
call (putchar c) t = terminal_putchar c t
call (write text) t = terminal_write text t
call (set_scroll row) t = terminal_set_scroll row t
call (scroll_down n) t = terminal_scroll_down n t
call (setcolor color) t = some (terminal_setcolor color t)
call (putentryat c color pos_x pos_y) t = terminal_putentryat c color pos_x pos_y t
call (serial_char c) t = some (serial_write_char c t)
call increase_row t = terminal_increase_row t
call clear t = clear_visible_terminal t
call update_vga_mem t = terminal_update_vga_mem t
call ctrl_f t = terminal_ctrl_f t
call ctrl_r t = terminal_ctrl_r t

-- A position that the caller gives is a cell of the buffer.
abbrev pub InBuffer : Call → Type 0
InBuffer (putentryat c color pos_x pos_y) = (pos_x < 80) × (pos_y < 1000)
InBuffer _ = Unit

abbrev pub calls : List Call → Terminal → Run
calls [] t = some t
calls (c ∷ cs) t = call c t >=> calls cs

same_cursor :
    (t : Terminal) (m : Run)
    → IsWithin t
    → Safe (At t.current_write_row t.current_write_column t.scroll_row) m
    → Safe IsWithin m
same_cursor t m h k =
    Safe-map (At t.current_write_row t.current_write_column t.scroll_row) IsWithin m k
      (λ now p. (omega (arith, p.0, h.0), omega (arith, p.1, h.1), omega (arith, p.2, h.2)))

call-IsWithin : (c : Call) (t : Terminal) → InBuffer c → IsWithin t → Safe IsWithin (call c t)
unfolding terminal_setcolor serial_write_char
call-IsWithin (putchar c) t q h = terminal_putchar-IsWithin c t h
call-IsWithin (write text) t q h = terminal_write-IsWithin text t h
call-IsWithin (set_scroll row) t q h = Kept-IsWithin t _ h (terminal_set_scroll-Kept row t)
call-IsWithin (scroll_down n) t q h = Kept-IsWithin t _ h (terminal_scroll_down-Kept n t)
call-IsWithin (setcolor color) t q h = h
call-IsWithin (putentryat c color pos_x pos_y) t q h =
    same_cursor t _ h (terminal_putentryat-At c color pos_x pos_y t q.0 q.1)
call-IsWithin (serial_char c) t q h = h
call-IsWithin increase_row t q h = terminal_increase_row-IsWithin t h
call-IsWithin clear t q h = same_cursor t _ h (
    clear_visible_terminal-At t.current_write_row t.current_write_column t.scroll_row t
      (refl, refl, refl))
call-IsWithin update_vga_mem t q h = same_cursor t _ h (
    terminal_update_vga_mem-At t.current_write_row t.current_write_column t.scroll_row t h.2
      (refl, refl, refl))
call-IsWithin ctrl_f t q h = terminal_ctrl_f-IsWithin t h
call-IsWithin ctrl_r t q h = terminal_ctrl_r-IsWithin t h

calls-IsWithin :
    (cs : List Call) (t : Terminal) → All InBuffer cs → IsWithin t → Safe IsWithin (calls cs t)
calls-IsWithin [] t q h = h
calls-IsWithin (c ∷ cs) t q h =
    Safe-bind IsWithin IsWithin _ _ (call-IsWithin c t q.0 h) (λ now. calls-IsWithin cs now q.1)

-- From any memory, `initialize_terminal` and then any calls of the terminal in any order (text,
-- scrolls by any amount, colors, characters at a position, the keys that scroll, but not the arrows)
-- make no access outside of the screen or the buffer, and leave the cursor on a cell of the buffer and
-- the scroll at most 975. The positions given to `terminal_putentryat` have to be cells of the buffer.
pub initialized-IsWithin :
    (cs : List Call) (t : Terminal)
    → All InBuffer cs
    → Safe IsWithin (initialize_terminal t >=> calls cs)
initialized-IsWithin cs t q =
    Safe-bind IsWithin IsWithin _ _ (initialize_terminal-IsWithin t)
      (λ now. calls-IsWithin cs now q)
