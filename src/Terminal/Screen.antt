-- ===== src/Terminal/Screen.antt =====
-- The loops over the screen and the buffer, and the accesses that they make.
use maple_kernel.Base.{
  ℕ, ◌<◌, ◌≤◌, ◌≡◌, arith, Bool, true, false, ◌&&◌, ltb, if◌then◌else◌, none, some, u8,
  for_range_inv,
}
use maple_kernel.Terminal.{
  Terminal, Run, ◌>=>◌, vga_width, vga_height, vga_mem_height, set_vga_element, set_buffer,
  with_buffer, for_cells, clear_visible_terminal, terminal_update_vga_mem,
}

-- A run that makes no access outside of the arrays and ends with `P`.
abbrev pub Safe : (Terminal → Type 0) → Run → Type 0
Safe P none = ⊥
Safe P (some t) = P t

pub Safe-bind :
    (P Q : Terminal → Type 0) (m : Run) (f : Terminal → Run)
    → Safe P m
    → ((t : Terminal) → P t → Safe Q (f t))
    → Safe Q (m >=> f)
Safe-bind P Q none f h hf = absurd h
Safe-bind P Q (some t) f h hf = hf t h

pub Safe-allowed :
    (P : Terminal → Type 0) (b : Bool) (m : Run)
    → b ≡ true
    → Safe P m
    → Safe P (if b then m else none)
Safe-allowed P true m e h = h
Safe-allowed P false m e h = absurd (ground arith)

pub in_screen : (x y : ℕ) → x < 80 → y < 25 → (ltb (u8 y) vga_height && ltb (u8 x) vga_width) ≡ true
in_screen x y hx hy = ground arith

pub in_buffer : (x y : ℕ) → x < 80 → y < 1000 → (ltb y vga_mem_height && ltb x vga_width) ≡ true
in_buffer x y hx hy = ground arith

-- The cursor, the scroll, and the color.
abbrev pub At : ℕ → ℕ → ℕ → Terminal → Type 0
At row column scroll t =
    (t.current_write_row ≡ row) × (t.current_write_column ≡ column) × (t.scroll_row ≡ scroll)

module _ (row column scroll : ℕ) where
  pub set_vga_element-At :
      (x y c : ℕ) (t : Terminal)
      → x < 80
      → y < 25
      → At row column scroll t
      → Safe (At row column scroll) (set_vga_element x y c t)
  unfolding set_vga_element
  set_vga_element-At x y c t hx hy h =
      Safe-allowed (At row column scroll) _ _ (in_screen x y hx hy) h

  pub set_buffer-At :
      (x y c : ℕ) (t : Terminal)
      → x < 80
      → y < 1000
      → At row column scroll t
      → Safe (At row column scroll) (set_buffer x y c t)
  unfolding set_buffer
  set_buffer-At x y c t hx hy h = Safe-allowed (At row column scroll) _ _ (in_buffer x y hx hy) h

  pub with_buffer-At :
      (x y : ℕ) (f : ℕ → Terminal → Run) (t : Terminal)
      → x < 80
      → y < 1000
      → ((c : ℕ) → Safe (At row column scroll) (f c t))
      → Safe (At row column scroll) (with_buffer x y f t)
  unfolding with_buffer
  with_buffer-At x y f t hx hy h =
      Safe-allowed (At row column scroll) _ _ (in_buffer x y hx hy) (h _)

  pub for_cells-At :
      (height : ℕ) (f : ℕ → ℕ → Terminal → Run)
      → ((y x : ℕ) (t : Terminal)
          → y < height
          → x < 80
          → At row column scroll t
          → Safe (At row column scroll) (f y x t))
      → (t : Terminal) → At row column scroll t
      → Safe (At row column scroll) (for_cells height f t)
  unfolding for_cells
  for_cells-At height f hf t h =
      for_range_inv (λ _ now. Safe (At row column scroll) now) _ height 0 height (some t)
        (omega arith)
        (λ y rows from below held.
          for_range_inv (λ _ now. Safe (At row column scroll) now) _ 80 0 80 rows (omega arith)
            (λ x cells left right here.
              Safe-bind (At row column scroll) _ cells (f y x) here
                (λ now p. hf y x now below right p))
            held)
        h

  pub clear_visible_terminal-At :
      (t : Terminal)
      → At row column scroll t
      → Safe (At row column scroll) (clear_visible_terminal t)
  unfolding clear_visible_terminal
  clear_visible_terminal-At t h =
      for_cells-At 25 _ (λ y x now hy hx p. set_vga_element-At x y _ now hx hy p) t h

  pub terminal_update_vga_mem-At :
      (t : Terminal)
      → scroll ≤ 975
      → At row column scroll t
      → Safe (At row column scroll) (terminal_update_vga_mem t)
  unfolding terminal_update_vga_mem
  terminal_update_vga_mem-At t hs h =
      for_cells-At 25 _
        (λ y x now hy hx p.
          with_buffer-At x _ _ now hx (omega (arith, hs, hy, p.2))
            (λ c. set_vga_element-At x y c now hx hy p))
        t h
