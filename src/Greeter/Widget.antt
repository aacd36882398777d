-- ===== src/Greeter/Widget.antt =====
-- The widgets of the toolkit as greeter/greeter_app.cpp builds them: each with the calls that set it up,
-- in order, and the places of its children. A listener is the `Action` that it stands for.
use miqudm.Prelude.{ℕ, Bool, List, [], ◌∷◌, ◌++◌, Text, ℤ}
use miqudm.Greeter.Card.{UserCardView}
use miqudm.Greeter.App.{Action, KeyPressEvent}

-- A width or a height of `LayoutParams`.
pub data Extent : Type 0 where
  match_parent wrap_content : Extent
  exactly : ℤ → Extent

pub data Gravity : Type 0 where
  nowhere center center_horizontal right_top : Gravity

-- What `set_margin` takes: left, top, right and bottom.
pub record Margin : Type 0 where
  pub left : ℕ
  pub top : ℕ
  pub right : ℕ
  pub bottom : ℕ

abbrev pub no_margin : Margin
no_margin = record { left = 0; top = 0; right = 0; bottom = 0 }

-- What `set_layout_params` and `set_margin` give a view; without the first it wraps its content.
pub record Placement : Type 0 where
  pub width : Extent
  pub height : Extent
  pub gravity : Gravity
  pub margin : Margin

abbrev pub unplaced : Placement
unplaced = record {
  width = wrap_content;
  height = wrap_content;
  gravity = nowhere;
  margin = no_margin;
}

abbrev pub wide : ℤ → Margin → Placement
wide w m = record unplaced { width = exactly w; margin = m }

-- A call of a builder of the toolkit, or of a setter of the grid.
pub data Setting : Type 0 where
  text hint : Text → Setting
  text_size corner_radius num_columns : ℕ → Setting
  padding cell_size spacing : ℕ → ℕ → Setting
  flat bold muted primary password_mode focused : Setting
  text_alignment_center stretch_mode_none : Setting
  items : List Text → Setting
  selected_index : ℤ → Setting
  on_click on_submit : Action → Setting
  on_item_selected : (ℤ → Action) → Setting
  add_item : UserCardView → Setting
  on_item_click : (ℕ → Action) → Setting

pub data Kind : Type 0 where
  button text_view edit_text spinner grid_view : Kind

pub data Orientation : Type 0 where
  horizontal vertical : Orientation

mutual
  pub data View : Type 0 where
    widget : Kind → Placement → List Setting → View
    -- With the calls of `add_view`.
    frame_layout : Placement → Views → View
    -- With the gravity that is set for its children.
    linear_layout : Orientation → Placement → Gravity → Views → View

  pub data Views : Type 0 where
    end : Views
    view : View → Views → Views

-- What `WindowBuilder` is given.
pub record Window : Type 0 where
  pub title : Text
  pub app_id : Text
  pub preferred_width : ℕ
  pub preferred_height : ℕ
  pub close_on_escape : Bool
  pub content_view : View
  pub on_close : Action
  pub on_key : KeyPressEvent → Action

-- A widget without its place.
abbrev pub Widget : Type 0
Widget = Kind × List Setting

-- The widgets of a tree, from the first to the last.
unfoldable mutual
  pub widgets : View → List Widget
  widgets (widget k p s) = (k, s) ∷ []
  widgets (frame_layout p vs) = widgets_of vs
  widgets (linear_layout o p g vs) = widgets_of vs

  pub widgets_of : Views → List Widget
  widgets_of end = []
  widgets_of (view v vs) = widgets v ++ widgets_of vs
