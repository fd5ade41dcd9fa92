-- ===== src/Terminal/Tests.antt =====
-- Runs of the terminal, and instances of the laws.
use maple_kernel.Base.{ℕ, ◌+◌, ◌≡◌, refl, arith, min, not, ◌&&◌, ◌==◌, none, some, [], ◌∷◌}
use maple_kernel.Terminal.{
  Terminal, Run, ◌>=>◌, initialize_terminal, terminal_set_scroll, terminal_arrow_up,
  terminal_arrow_down, terminal_putchar, put_untabbed, terminal_increase_row, terminal_putentryat,
  serial_write_char, set_buffer, with_buffer, set_vga_element, vga_entry,
}
use maple_kernel.Terminal.Screen.{Safe}
use maple_kernel.Terminal.Cursor.{IsWithin}
use maple_kernel.Terminal.Calls.{
  write, scroll_down, putchar, putentryat, ctrl_f, ctrl_r, calls, initialized-IsWithin,
}
use maple_kernel.Terminal.Arrows.{EndsWithin, arrows-EndsWithin}
use maple_kernel.Terminal.Shown.{terminal_set_scroll-shown}

-- Each cell of the buffer holds its row.
abbrev numbered : Terminal
numbered = record {
  current_write_row = 999;
  current_write_column = 0;
  scroll_row = 975;
  color = 7;
  vga_buffer = λ y x. 0;
  big_scrollable_buffer = λ y x. y;
  com1 = [];
}

-- What a character does to the cursor at the end of a line.
abbrev at_edge : Terminal
at_edge = record numbered { current_write_row = 3; current_write_column = 79; scroll_row = 0 }

abbrev cursor : Run → ℕ × ℕ
cursor none = (0, 0)
cursor (some t) = (t.current_write_row, t.current_write_column)

edge_test : cursor (terminal_putchar 0x41 at_edge) ≡ (4, 0)
unfolding terminal_putchar put_untabbed terminal_putentryat serial_write_char set_buffer with_buffer
    set_vga_element vga_entry terminal_increase_row
edge_test = refl

initialized-IsWithin_example : Safe IsWithin (
    initialize_terminal numbered
    >=> calls (
        write (0x48 ∷ 0x69 ∷ 0x09 ∷ 0x0a ∷ [])
        ∷ scroll_down 3
        ∷ putchar 0x21
        ∷ ctrl_f
        ∷ ctrl_r
        ∷ putentryat 0x21 7 79 3
        ∷ []))
initialized-IsWithin_example =
    initialized-IsWithin
      (write (0x48 ∷ 0x69 ∷ 0x09 ∷ 0x0a ∷ [])
        ∷ scroll_down 3
        ∷ putchar 0x21
        ∷ ctrl_f
        ∷ ctrl_r
        ∷ putentryat 0x21 7 79 3
        ∷ [])
      numbered (tt, (tt, (tt, (tt, (tt, ((omega arith, omega arith), tt))))))

arrows-EndsWithin_example :
    EndsWithin (not (numbered.current_write_row == 0)) (terminal_arrow_up numbered)
    × EndsWithin
        (not ((numbered.current_write_row == 999) && (numbered.scroll_row == 975)))
        (terminal_arrow_down numbered)
arrows-EndsWithin_example = arrows-EndsWithin numbered (omega arith, omega arith, omega arith)

terminal_set_scroll-shown_example :
    Safe
      (λ now.
        (now.scroll_row ≡ min 100 975)
        × (now.big_scrollable_buffer ≡ numbered.big_scrollable_buffer)
        × (now.vga_buffer 4 7 ≡ numbered.big_scrollable_buffer (4 + min 100 975) 7))
      (terminal_set_scroll 100 numbered)
terminal_set_scroll-shown_example =
    terminal_set_scroll-shown 100 numbered 4 7 (omega arith) (omega arith)
