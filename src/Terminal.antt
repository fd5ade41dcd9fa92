-- ===== src/Terminal.antt =====
-- stdio/vga_terminal.c: the terminal, a large buffer of lines behind the 25 that the screen shows.
pub mod Screen
pub mod Cursor
pub mod Calls
pub mod Shown
pub mod Arrows
pub mod Tests
use maple_kernel.Base.{
  ℕ, zero, suc, ◌+◌, ◌-◌, ◌*◌, ◌%◌, ◌^◌, bit_or, Bool, true, false, not, ◌&&◌, ◌||◌, ltb, leb, ◌==◌,
  if◌then◌else◌, Option, none, some, List, [], ◌∷◌, u8, u32, update, for_range,
}

abbrev pub vga_width : ℕ
vga_width = 80

abbrev pub vga_height : ℕ
vga_height = 25

abbrev pub vga_mem_height : ℕ
vga_mem_height = 1000

abbrev pub vga_color_black : ℕ
vga_color_black = 0

abbrev pub vga_color_light_grey : ℕ
vga_color_light_grey = 7

-- A cell of the screen or of the buffer, by row and column.
abbrev pub Cells : Type 0
Cells = ℕ → ℕ → ℕ

-- `TerminalContext`, and the bytes that were sent to the serial port, the last one first.
pub record Terminal : Type 0 where
  pub current_write_row : ℕ
  pub current_write_column : ℕ
  pub scroll_row : ℕ
  pub color : ℕ
  pub vga_buffer : Cells
  pub big_scrollable_buffer : Cells
  pub com1 : List ℕ

-- `none` is an access outside of the two arrays.
abbrev pub Run : Type 0
Run = Option Terminal

infixl 5 ◌>=>◌
abbrev pub ◌>=>◌ : Run → (Terminal → Run) → Run
none >=> f = none
some t >=> f = f t

pub vga_entry_color : ℕ → ℕ → ℕ
vga_entry_color fg bg = u8 (bit_or (bg * 2 ^ 4) fg)

pub vga_entry : ℕ → ℕ → ℕ
vga_entry uc color = bit_or (u8 color * 2 ^ 8) (u8 uc)

abbrev pub write_cell : Cells → ℕ → ℕ → ℕ → Cells
write_cell cells row column c = update cells row (update (cells row) column c)

-- `term.vga_buffer[pos_y][pos_x] = c`, where the positions are bytes.
pub set_vga_element : ℕ → ℕ → ℕ → Terminal → Run
set_vga_element pos_x pos_y c t =
    if ltb (u8 pos_y) vga_height && ltb (u8 pos_x) vga_width
    then some (record t { vga_buffer = write_cell t.vga_buffer (u8 pos_y) (u8 pos_x) c })
    else none

-- A cell of the big buffer is written, or read and passed on.
pub set_buffer : ℕ → ℕ → ℕ → Terminal → Run
set_buffer pos_x pos_y c t =
    if ltb pos_y vga_mem_height && ltb pos_x vga_width
    then some
        (record t { big_scrollable_buffer = write_cell t.big_scrollable_buffer pos_y pos_x c })
    else none

pub with_buffer : ℕ → ℕ → (ℕ → Terminal → Run) → Terminal → Run
with_buffer pos_x pos_y f t =
    if ltb pos_y vga_mem_height && ltb pos_x vga_width
    then f (t.big_scrollable_buffer pos_y pos_x) t
    else none

-- The two loops over rows and columns.
pub for_cells : ℕ → (ℕ → ℕ → Terminal → Run) → Terminal → Run
for_cells height f t =
    for_range height 0 (λ y rows. for_range vga_width 0 (λ x cells. cells >=> f y x) rows) (some t)

pub clear_visible_terminal : Terminal → Run
clear_visible_terminal t =
    for_cells vga_height (λ y x now. set_vga_element x y (vga_entry_color 0x20 now.color) now) t

pub terminal_update_vga_mem : Terminal → Run
terminal_update_vga_mem t =
    for_cells vga_height
      (λ y x now. with_buffer x (u32 (y + now.scroll_row)) (λ c. set_vga_element x y c) now) t

pub initialize_terminal : Terminal → Run
initialize_terminal t =
    clear_visible_terminal (record t {
      current_write_row = 0;
      current_write_column = 0;
      color = vga_entry_color vga_color_light_grey vga_color_black;
    })
    >=> λ cleared.
        for_cells vga_mem_height (λ y x now. set_buffer x y (vga_entry 0x20 now.color) now)
          (record cleared { scroll_row = 0 })

-- The test `row < 0` of the source is never true.
pub terminal_set_scroll : ℕ → Terminal → Run
terminal_set_scroll row t =
    let last = vga_mem_height - vga_height in
    terminal_update_vga_mem (record t { scroll_row = if ltb last row then last else row })

-- The amount is the bits of an `int`.
pub terminal_scroll_down : ℕ → Terminal → Run
terminal_scroll_down scroll_amount t = terminal_set_scroll (u32 (t.scroll_row + scroll_amount)) t

pub terminal_scroll_up : ℕ → Terminal → Run
terminal_scroll_up scroll_amount t = terminal_scroll_down (u32 (2 ^ 32 - scroll_amount)) t

pub terminal_setcolor : ℕ → Terminal → Terminal
terminal_setcolor color t = record t { color = color }

-- What becomes visible is the cell of the buffer at the row on the screen.
pub terminal_putentryat : ℕ → ℕ → ℕ → ℕ → Terminal → Run
terminal_putentryat c color pos_x pos_y t = set_buffer pos_x pos_y (vga_entry c color) t >=> λ now.
    let row = u32 (pos_y + 2 ^ 32 - now.scroll_row) in
    if leb vga_height row
    then some now
    else with_buffer pos_x row (λ colored_c. set_vga_element pos_x row colored_c) now

pub terminal_increase_row : Terminal → Run
terminal_increase_row t =
    let next = record t { current_write_row = u32 (t.current_write_row + 1) } in
    (if ltb vga_height (u32 (next.current_write_row + 2 ^ 32 - next.scroll_row))
      then terminal_scroll_down 1 next
      else some next)
    >=> λ now.
        if leb vga_mem_height now.current_write_row
        then (terminal_set_scroll 0 (record now { current_write_row = 0; current_write_column = 0 })
            >=> clear_visible_terminal)
        else some now

pub terminal_arrow_up : Terminal → Run
terminal_arrow_up t =
    let above = record t { current_write_row = u32 (t.current_write_row + 2 ^ 32 - 1) } in
    if ltb above.current_write_row above.scroll_row
    then terminal_scroll_up 1 (record above { current_write_row = above.scroll_row })
    else some above

pub terminal_arrow_down : Terminal → Run
terminal_arrow_down t =
    let below = record t { current_write_row = u32 (t.current_write_row + 1) } in
    if ltb (u32 (below.scroll_row + vga_height)) below.current_write_row
    then terminal_scroll_down 1
        (record below { current_write_row = u32 (below.scroll_row + vga_height) })
    else some below

pub terminal_ctrl_f : Terminal → Run
terminal_ctrl_f t =
    (if ltb (u32 (t.scroll_row + vga_height)) vga_mem_height
      then terminal_scroll_down 1 t
      else some t)
    >=> λ now. some (
        if ltb now.current_write_row now.scroll_row
        then record now { current_write_row = now.scroll_row }
        else now)

pub terminal_ctrl_r : Terminal → Run
terminal_ctrl_r t = (if ltb 0 t.scroll_row then terminal_scroll_up 1 t else some t) >=> λ now.
    some (
      if ltb (u32 (now.scroll_row + vga_height)) now.current_write_row
      then record now { current_write_row = u32 (now.scroll_row + vga_height) }
      else now)

-- The wait for the serial port is left out.
pub serial_write_char : ℕ → Terminal → Terminal
serial_write_char c t = record t { com1 = c ∷ t.com1 }

-- A character that is not a tab.
pub put_untabbed : ℕ → Terminal → Run
put_untabbed c t =
    let sent = serial_write_char c t in
    if c == 0x0a
    then terminal_increase_row (record sent { current_write_column = 0 })
    else (terminal_putentryat c sent.color sent.current_write_column sent.current_write_row sent
        >=> λ now.
            let next = record now { current_write_column = u32 (now.current_write_column + 1) } in
            if next.current_write_column == vga_width
            then terminal_increase_row (record next { current_write_column = 0 })
            else some next)

pub terminal_putchar : ℕ → Terminal → Run
terminal_putchar c t =
    if c == 0
    then some t
    else if c == 0x09
    then (let diff = u8 (vga_width + 2 ^ 32 - t.current_write_column) in
        for_range (if ltb diff 4 then diff else 4) 0 (λ i now. now >=> put_untabbed 0x20) (some t))
    else put_untabbed c t

pub terminal_write : List ℕ → Terminal → Run
terminal_write [] t = some t
terminal_write (c ∷ rest) t = terminal_putchar c t >=> terminal_write rest
