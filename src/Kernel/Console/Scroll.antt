-- ===== src/Kernel/Console/Scroll.antt =====
-- What scrolling and printing do to each cell.
use prismatic_os.Base.{ℕ, zero, suc, ◌+◌, ◌≡◌, refl, ◌&&◌, arith, ltb, leb, ◌==◌, if◌then◌else◌}
use prismatic_os.Kernel.Console.{
  width, put_cell, Console, vga_entry, blank_cells, move_up, console_scroll_up,
}

put_cell_lem : (m : ℕ → ℕ) (i v j : ℕ) → put_cell m i v j ≡ (if j == i then v else m j)
unfolding put_cell
put_cell_lem m i v j = refl

blank_cells_lem :
    (n index entry : ℕ) (m : ℕ → ℕ) (j : ℕ)
    → blank_cells n index entry m j ≡ (if leb index j && ltb j (index + n) then entry else m j)
unfolding blank_cells
blank_cells_lem zero index entry m j = ground arith
blank_cells_lem (suc n) index entry m j = ground (
  arith,
  blank_cells_lem n (index + 1) entry (put_cell m index entry) j,
  put_cell_lem m index entry j,
)

move_up_lem :
    (n index : ℕ) (m : ℕ → ℕ) (j : ℕ)
    → move_up n index m j ≡ (if leb index j && ltb j (index + n) then m (j + width) else m j)
unfolding move_up
move_up_lem zero index m j = ground arith
move_up_lem (suc n) index m j =
    let v = m (index + width) in
    ground (
      arith,
      move_up_lem n (index + 1) (put_cell m index v) j,
      put_cell_lem m index v j,
      put_cell_lem m index v (j + width),
    )

-- Scrolling moves every line one up, the first one off the screen, clears the last one, and changes
-- nothing behind the screen.
pub console_scroll_up_lem :
    (s : Console) (j : ℕ)
    → (console_scroll_up s).buffer j ≡ (
        if ltb j 1920
        then s.buffer (j + width)
        else if ltb j 2000
        then vga_entry b' ' s.color
        else s.buffer j)
unfolding console_scroll_up
console_scroll_up_lem s j =
    let moved = move_up 1920 0 s.buffer in
    ground (
      arith,
      blank_cells_lem width 1920 (vga_entry b' ' s.color) moved j,
      move_up_lem 1920 0 s.buffer j,
    )
