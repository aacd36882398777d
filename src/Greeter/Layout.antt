-- ===== src/Greeter/Layout.antt =====
-- The sizes that `GreeterApp::setup_ui` of greeter/greeter_app.cpp computes for the grid of users.
-- Products and differences are of exact numbers: `Layout/Bounds` says for how many users they fit `int`.
pub mod Bounds
use miqudm.Prelude.{ℕ, zero, suc, ◌+◌, ◌-◌, ◌*◌, ◌/◌, ltb, if◌then◌else◌, ℤ, pos, negsuc, to_int}
use miqudm.Greeter.Card.{measure_size}

pub record Grid : Type 0 where
  pub grid_cols : ℕ
  pub grid_w : ℕ
  pub total_rows : ℤ
  pub grid_h : ℤ
  pub center_box_w : ℕ

abbrev pub spacing : ℕ
spacing = 12

abbrev pub form_w : ℕ
form_w = 300

-- `std::min(5, std::max(1, user_count))`.
unfoldable pub grid_cols_of : ℤ → ℕ
grid_cols_of (negsuc n) = 1
grid_cols_of (pos n) = if ltb n 1 then 1 else if ltb 5 n then 5 else n

-- `(user_count + grid_cols - 1) / grid_cols`; a negative count has one column.
unfoldable pub total_rows_of : ℤ → ℕ → ℤ
total_rows_of (pos n) cols = pos ((n + cols - 1) / cols)
total_rows_of (negsuc n) cols = negsuc n

-- `total_rows * cell_h + (total_rows - 1) * spacing`.
unfoldable pub grid_h_of : ℤ → ℤ
grid_h_of (pos zero) = negsuc (spacing - 1)
grid_h_of (pos (suc rows)) = pos (suc rows * measure_size.1 + rows * spacing)
grid_h_of (negsuc n) = negsuc (n * (measure_size.1 + spacing) + measure_size.1 + 2 * spacing - 1)

unfoldable pub grid_of : ℕ → Grid
unfolding grid_cols_of total_rows_of grid_h_of
grid_of users =
    let user_count = to_int users in
    let cols = grid_cols_of user_count in
    let rows = total_rows_of user_count cols in
    let w = cols * measure_size.0 + (cols - 1) * spacing in
    record {
      grid_cols = cols;
      grid_w = w;
      total_rows = rows;
      grid_h = grid_h_of rows;
      center_box_w = if ltb 340 w then w else 340;
    }
