-- ===== src/Greeter/Layout/Bounds.antt =====
-- The grid of greeter/greeter_app.cpp has room for every user, and its sizes fit `int`.
use miqudm.Prelude.{ℕ, zero, suc, ◌+◌, ◌*◌, ◌/◌, ◌≤◌, ◌<◌, ◌≡◌, refl, ap, arith, pos, to_int}
use miqudm.Greeter.Layout.{Grid, grid_of, grid_cols_of, total_rows_of, grid_h_of, form_w}

-- The grid has a place for each of `n` users and no row too many, and lies within the box.
pub record IsRoomy (n : ℕ) (g : Grid) : Type 0 where
  pub rows : ℕ
  pub height : ℕ
  pub total_rows : g.total_rows ≡ pos rows
  pub grid_h : g.grid_h ≡ pos height
  pub cols : (1 ≤ g.grid_cols) × (g.grid_cols ≤ 5)
  pub enough : n ≤ g.grid_cols * rows
  pub tight : g.grid_cols * rows < n + g.grid_cols
  pub wide : (g.grid_w ≤ g.center_box_w) × (form_w ≤ g.center_box_w) × (g.center_box_w ≤ 568)
  pub fits : height < 2147483648

to_int-small : (n : ℕ) → n < 2147483648 → to_int n ≡ pos n
unfolding to_int
to_int-small n h = ground arith

grid_cols-many : (n : ℕ) → grid_cols_of (pos (suc (suc (suc (suc (suc n)))))) ≡ 5
unfolding grid_cols_of
grid_cols-many n = ground arith

total_rows-many :
    (n : ℕ) → total_rows_of (pos (suc (suc (suc (suc (suc n)))))) 5 ≡ pos (suc ((n + 4) / 5))
unfolding total_rows_of
total_rows-many n = ap pos (omega arith)

-- A grid of one row, with a column for each user.
one_row :
    (n : ℕ) (g : Grid)
    → g.total_rows ≡ pos 1
    → g.grid_h ≡ pos 116
    → g.grid_cols ≡ n
    → (1 ≤ n) × (n ≤ 5)
    → (g.grid_w ≤ g.center_box_w) × (form_w ≤ g.center_box_w) × (g.center_box_w ≤ 568)
    → IsRoomy n g
one_row n g rows height cols few wide = record {
  rows = 1;
  height = 116;
  total_rows = rows;
  grid_h = height;
  cols = rw cols few;
  enough = omega arith;
  tight = omega arith;
  wide = wide;
  fits = omega arith;
}

-- For one user to 83886080 the grid has a place for each and no row too many, it is at most as wide
-- as the box around it, which is at most 568 wide, and its height fits `int`.
pub grid_of-IsRoomy : (n : ℕ) → 0 < n → n ≤ 83886080 → IsRoomy n (grid_of n)
unfolding grid_of grid_cols_of total_rows_of grid_h_of to_int
grid_of-IsRoomy zero h k = absurd (omega arith)
grid_of-IsRoomy (suc zero) h k = one_row 1 _ refl refl refl (omega arith) (omega arith)
grid_of-IsRoomy (suc (suc zero)) h k = one_row 2 _ refl refl refl (omega arith) (omega arith)
grid_of-IsRoomy (suc (suc (suc zero))) h k = one_row 3 _ refl refl refl (omega arith) (omega arith)
grid_of-IsRoomy (suc (suc (suc (suc zero)))) h k =
    one_row 4 _ refl refl refl (omega arith) (omega arith)
grid_of-IsRoomy (suc (suc (suc (suc (suc n))))) h k =
    rw
      (
        to_int-small (suc (suc (suc (suc (suc n))))) (omega arith),
        grid_cols-many n,
        total_rows-many n,
      )
      (record {
        rows = suc ((n + 4) / 5);
        height = suc ((n + 4) / 5) * 116 + (n + 4) / 5 * 12;
        total_rows = refl;
        grid_h = refl;
        cols = omega arith;
        enough = omega arith;
        tight = omega arith;
        wide = omega arith;
        fits = omega arith;
      })
