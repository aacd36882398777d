-- ===== src/Greeter/Window/Fits.antt =====
-- The sizes in the tree of widgets of greeter/greeter_app.cpp against each other.
use miqudm.Prelude.{
  ℕ, zero, suc, ◌+◌, ◌-◌, ◌*◌, ◌≤◌, ◌<◌, ◌≡◌, refl, ap, List, [], ◌∷◌, length, arith, pos, negsuc,
}
use miqudm.Users.{UserInfo}
use miqudm.Greeter.Card.{UserCardView, cards_from}
use miqudm.Greeter.Layout.{grid_of, grid_h_of}
use miqudm.Greeter.Layout.Bounds.{IsRoomy, grid_of-IsRoomy}
use miqudm.Greeter.App.{GreeterApp}
use miqudm.Greeter.Widget.{
  Extent, match_parent, wrap_content, exactly, Placement, Setting, num_columns, cell_size, spacing,
  padding, add_item, View, widget, frame_layout, linear_layout, Views, end, view,
}
use miqudm.Greeter.Window.{Clock, root_frame, users_grid_view, power_actions, auth_form, add_cards}

-- What the settings of a grid say of its room, and a padding of the room at both sides.
pub record Room : Type 0 where
  pub columns : ℕ
  pub cell_w : ℕ
  pub cell_h : ℕ
  pub gap : ℕ
  pub pad : ℕ
  pub cells : ℕ

abbrev no_room : Room
no_room = record { columns = 0; cell_w = 0; cell_h = 0; gap = 0; pad = 0; cells = 0 }

abbrev add_room : Setting → Room → Room
add_room (num_columns n) r = record r { columns = n }
add_room (cell_size w h) r = record r { cell_w = w; cell_h = h }
add_room (spacing w h) r = record r { gap = w }
add_room (padding w h) r = record r { pad = w }
add_room (add_item c) r = record r { cells = suc r.cells }
add_room _ r = r

abbrev pub room_of : List Setting → Room
room_of [] = no_room
room_of (s ∷ ss) = add_room s (room_of ss)

-- The width that the columns or the padding need.
abbrev pub width_needed : Room → ℕ
width_needed r = r.columns * r.cell_w + (r.columns - 1) * r.gap + 2 * r.pad

-- A height is enough for the rows that the cells need, and not for one more.
abbrev pub HoldsRows : Extent → Room → Type 0
HoldsRows (exactly (pos h)) r =
    (rows : ℕ) × (h + r.gap ≡ rows * (r.cell_h + r.gap))
    × (r.cells ≤ r.columns * rows)
    × (r.columns * rows < r.cells + r.columns)
HoldsRows (exactly (negsuc h)) r = ⊥
HoldsRows match_parent r = r.cells ≡ 0
HoldsRows wrap_content r = r.cells ≡ 0

-- The width that a view has inside a parent's width; at most this, where it wraps its content.
abbrev pub width_in : ℕ → Placement → ℕ
width_in w p = extent p.width
  where
    extent : Extent → ℕ
    extent (exactly (pos n)) = n
    extent (exactly (negsuc n)) = 0
    extent match_parent = w - p.margin.left - p.margin.right
    extent wrap_content = w - p.margin.left - p.margin.right

-- The view and its margins lie in the parent's width.
abbrev pub IsPlaced : ℕ → Placement → Type 0
IsPlaced w p = p.margin.left + width_in w p + p.margin.right ≤ w

-- Each view of the tree lies in the width of the one around it, and has the room that it needs.
unfoldable mutual
  pub Fits : ℕ → View → Type 0
  Fits w (widget k p ss) =
      IsPlaced w p × (width_needed (room_of ss) ≤ width_in w p) × HoldsRows p.height (room_of ss)
  Fits w (frame_layout p vs) = IsPlaced w p × AllFit (width_in w p) vs
  Fits w (linear_layout o p g vs) = IsPlaced w p × AllFit (width_in w p) vs

  pub AllFit : ℕ → Views → Type 0
  AllFit w end = Unit
  AllFit w (view v vs) = Fits w v × AllFit w vs

room_of-add_cards :
    (cs : List UserCardView) (rest : List Setting)
    → room_of (add_cards cs rest)
      ≡ record (room_of rest) { cells = length cs + (room_of rest).cells }
unfolding add_cards
room_of-add_cards [] rest = ground arith
room_of-add_cards (c ∷ cs) rest = rw (room_of-add_cards cs rest) (ground arith)

length-cards_from : (i idx : ℕ) (us : List UserInfo) → length (cards_from i idx us) ≡ length us
unfolding cards_from
length-cards_from i idx [] = refl
length-cards_from i idx (u ∷ us) = ap suc (length-cards_from (suc i) idx us)

-- The height of a grid of some rows.
grid_h_of-HoldsRows :
    (rows n cols : ℕ)
    → 0 < n
    → n ≤ cols * rows
    → cols * rows < n + cols
    → HoldsRows
        (exactly (grid_h_of (pos rows)))
        (record { columns = cols; cell_w = 104; cell_h = 116; gap = 12; pad = 0; cells = n + 0 })
unfolding grid_h_of
grid_h_of-HoldsRows zero n cols some enough tight = absurd (grind arith)
grid_h_of-HoldsRows (suc rows) n cols some enough tight =
    (suc rows, omega arith, omega arith, omega arith)

users_grid_view-Fits :
    (a : GreeterApp) (w : ℕ)
    → let g = grid_of (length a.users) in
      IsRoomy (length a.users) g → 0 < length a.users → g.grid_w ≤ w → Fits w (users_grid_view g a)
unfolding Fits users_grid_view grid_of
users_grid_view-Fits a w roomy some wide =
    let g = grid_of (length a.users) in
    rw
      (
        room_of-add_cards (cards_from 0 a.selected_user_idx a.users) _,
        length-cards_from 0 a.selected_user_idx a.users,
      )
      (
        omega arith,
        omega arith,
        rw roomy.total_rows (
            grid_h_of-HoldsRows roomy.rows (length a.users) g.grid_cols some roomy.enough
              roomy.tight),
      )

power_actions-Fits : (w : ℕ) → 568 ≤ w → Fits w power_actions
unfolding Fits power_actions
power_actions-Fits w wide = omega arith

auth_form-Fits : (a : GreeterApp) (w : ℕ) → 300 ≤ w → Fits w (auth_form a)
unfolding Fits auth_form
auth_form-Fits a w wide = omega arith

-- In a window at least 568 wide (680 is asked for), every view of the greeter that has a width of its
-- own, and the margins of every view, lie in the width of the view around it, paddings fit, the columns
-- of cards fit the grid, and the grid's height is that of as many rows as the cards need. It holds for
-- one user to 83886080. A view that wraps its content has what the view around it leaves.
pub root_frame-Fits :
    (clock : Clock) (a : GreeterApp) (w : ℕ)
    → 568 ≤ w
    → 0 < length a.users
    → length a.users ≤ 83886080
    → Fits w (root_frame clock a)
unfolding Fits root_frame
root_frame-Fits clock a w wide some few =
    let roomy = grid_of-IsRoomy (length a.users) some few in
    let g = grid_of (length a.users) in
    let center = g.center_box_w in
    let grid = users_grid_view-Fits a center roomy some roomy.wide.0 in
    let form = auth_form-Fits a center roomy.wide.1 in
    (
      omega arith,
      (
        power_actions-Fits _ (omega arith),
        (
          (let fits = roomy.wide in omega arith, (omega arith, (omega arith, (grid, (form, tt))))),
          tt,
        ),
      ),
    )
