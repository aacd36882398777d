-- ===== src/Greeter/Card/Draw.antt =====
-- `UserCardView::draw` of greeter/greeter_app.cpp: the calls of cairo, Pango and the toolkit that it
-- makes, in order. Sizes are exact; a fraction of a float literal is counted in hundredths or tenths.
pub mod Lifetimes
use miqudm.Prelude.{
  ℕ, Bool, true, false, not, ◌||◌, List, [], ◌∷◌, ◌++◌, Text, codes, is_empty, if◌then◌else◌, ℤ,
  pos, is_pos, add_ℤ, sub_ℤ, half_ℤ,
}
use miqudm.Users.{UserInfo}
use miqudm.Greeter.Card.{UserCardView, initial_of}

pub record Rect : Type 0 where
  pub x : ℤ
  pub y : ℤ
  pub width : ℤ
  pub height : ℤ

-- The colours of the theme that a card uses.
pub data Role : Type 0 where
  primary on_primary surface_variant outline_variant outline on_surface : Role

-- The two texts of a card, each with a layout and a font description.
pub data Label : Type 0 where
  initial_label name_label : Label

pub data DrawCall : Type 0 where
  cairo_save cairo_restore cairo_fill_preserve cairo_stroke : DrawCall
  -- With the radius.
  draw_rounded_rect : Rect → ℕ → DrawCall
  -- A full circle: its middle and radius.
  cairo_arc : ℤ → ℤ → ℕ → DrawCall
  -- With the alpha in hundredths, and the width in tenths.
  cairo_set_source_rgba : Role → ℕ → DrawCall
  cairo_set_line_width : ℕ → DrawCall
  cairo_move_to : ℤ → ℤ → DrawCall
  create_layout get_pixel_size show_layout g_object_unref : Label → DrawCall
  layout_set_text description_from_string : Label → Text → DrawCall
  set_font_description description_free : Label → DrawCall
  -- In units of PANGO_SCALE.
  layout_set_width : Label → ℤ → DrawCall
  set_ellipsize_end set_alignment_center : Label → DrawCall

-- What `draw` reads of its surroundings: whether there is a context, the theme's font, and the size that
-- Pango measures for the initial.
pub record Canvas : Type 0 where
  pub has_context : Bool
  pub font_family : Text
  pub initial_width : ℤ
  pub initial_height : ℤ

abbrev plus : ℤ → ℕ → ℤ
plus a n = add_ℤ a (pos n)

abbrev minus : ℤ → ℕ → ℤ
minus a n = sub_ℤ a (pos n)

abbrev avatar_size : ℕ
avatar_size = 50

-- `card_x`, `card_y`, `card_w`, `card_h`.
unfoldable pub inner : Rect → Rect
inner bounds = record {
  x = plus bounds.x 2;
  y = plus bounds.y 2;
  width = minus bounds.width 4;
  height = minus bounds.height 4;
}

-- `avatar_x`, `avatar_y`.
unfoldable pub avatar_at : Rect → ℤ × ℤ
avatar_at card = (add_ℤ card.x (half_ℤ (minus card.width avatar_size)), plus card.y 12)

-- "1. Draw Card Background & Selection Highlight".
unfoldable pub background : Bool → Rect → List DrawCall
background is_selected card =
    draw_rounded_rect card 12
    ∷ cairo_set_source_rgba (if is_selected then primary else surface_variant)
        (if is_selected then 16 else 25)
    ∷ cairo_fill_preserve
    ∷ cairo_set_source_rgba (if is_selected then primary else outline_variant)
        (if is_selected then 85 else 30)
    ∷ cairo_set_line_width (if is_selected then 16 else 10)
    ∷ cairo_stroke
    ∷ []

-- "2. Avatar Circle".
unfoldable pub avatar : Bool → ℤ × ℤ → List DrawCall
avatar is_selected (avatar_x, avatar_y) =
    cairo_save
    ∷ cairo_arc (plus avatar_x 25) (plus avatar_y 25) 25
    ∷ cairo_set_source_rgba (if is_selected then primary else surface_variant)
        (if is_selected then 95 else 85)
    ∷ cairo_fill_preserve
    ∷ cairo_set_source_rgba outline 35
    ∷ cairo_set_line_width 12
    ∷ cairo_stroke
    ∷ cairo_restore
    ∷ []

-- A font for a layout.
unfoldable pub with_font : Label → Text → List DrawCall → List DrawCall
with_font label font rest =
    description_from_string label font ∷ set_font_description label ∷ description_free label ∷ rest

abbrev family_of : Canvas → Text
family_of canvas = if is_empty canvas.font_family then codes "Sans" else canvas.font_family

-- "3. Avatar Initial Letter".
unfoldable pub initial_text : Canvas → UserCardView → ℤ × ℤ → List DrawCall
unfolding with_font
initial_text canvas card (avatar_x, avatar_y) =
    create_layout initial_label
    ∷ layout_set_text initial_label (initial_of card.user.display_name)
    ∷ with_font initial_label (family_of canvas ++ codes " Bold 18") (
        get_pixel_size initial_label
        ∷ cairo_move_to (add_ℤ avatar_x (half_ℤ (sub_ℤ (pos avatar_size) canvas.initial_width)))
            (add_ℤ avatar_y (half_ℤ (sub_ℤ (pos avatar_size) canvas.initial_height)))
        ∷ cairo_set_source_rgba (if card.is_selected then on_primary else primary) 100
        ∷ show_layout initial_label
        ∷ g_object_unref initial_label
        ∷ [])

-- "4. User Display Name (Centered)".
unfoldable pub name_text : Canvas → UserCardView → Rect → ℤ → List DrawCall
unfolding with_font
name_text canvas card r avatar_y =
    create_layout name_label
    ∷ layout_set_text name_label card.user.display_name
    ∷ with_font name_label
        (family_of canvas ++ (if card.is_selected then codes " Bold 11" else codes " 11"))
        (layout_set_width name_label (minus r.width 8)
          ∷ set_ellipsize_end name_label
          ∷ set_alignment_center name_label
          ∷ cairo_move_to (plus r.x 4) (plus avatar_y 60)
          ∷ cairo_set_source_rgba on_surface 100
          ∷ show_layout name_label
          ∷ g_object_unref name_label
          ∷ [])

-- `UserCardView::draw`.
unfoldable pub draw : Canvas → UserCardView → Rect → List DrawCall
unfolding background avatar initial_text name_text
draw canvas card bounds =
    let r = inner bounds in
    let (avatar_x, avatar_y) = avatar_at r in
    if not canvas.has_context || not (is_pos bounds.width) || not (is_pos bounds.height)
    then []
    else cairo_save ∷ background card.is_selected r
      ++ avatar card.is_selected (avatar_x, avatar_y)
      ++ initial_text canvas card (avatar_x, avatar_y)
      ++ name_text canvas card r avatar_y
      ++ cairo_restore ∷ []
