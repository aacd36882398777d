-- ===== src/Greeter/Card/Draw/Lifetimes.antt =====
-- The objects of cairo and Pango that `UserCardView::draw` of greeter/greeter_app.cpp makes and frees.
use miqudm.Prelude.{
  ℕ, zero, suc, ◌≡◌, ◌≤◌, ◌+◌, pos, refl, Bool, true, false, not, ◌||◌, List, [], ◌∷◌, Option, none,
  some, ℤ, arith, Bool-cases, inl, inr, if◌then◌else◌, is_pos,
}
use miqudm.Greeter.Card.{UserCardView}
use miqudm.Greeter.Card.Draw.{
  Rect, Label, initial_label, name_label, DrawCall, Canvas, draw, inner, avatar_at, cairo_save,
  cairo_restore, create_layout, g_object_unref, description_from_string, description_free,
  set_font_description, get_pixel_size, show_layout, layout_set_text, layout_set_width,
  set_ellipsize_end, set_alignment_center,
}

-- How many states are saved, and for each text whether its layout and its description are there.
pub record Objects : Type 0 where
  pub saved : ℕ
  pub initial_layout : Bool
  pub initial_font : Bool
  pub name_layout : Bool
  pub name_font : Bool

abbrev has_layout : Label → Objects → Bool
has_layout initial_label o = o.initial_layout
has_layout name_label o = o.name_layout

abbrev has_font : Label → Objects → Bool
has_font initial_label o = o.initial_font
has_font name_label o = o.name_font

abbrev put_layout : Label → Bool → Objects → Objects
put_layout initial_label b o = record o { initial_layout = b }
put_layout name_label b o = record o { name_layout = b }

abbrev put_font : Label → Bool → Objects → Objects
put_font initial_label b o = record o { initial_font = b }
put_font name_label b o = record o { name_font = b }

abbrev needs : Bool → Objects → Option Objects
needs true o = some o
needs false o = none

abbrev restored : ℕ → Objects → Option Objects
restored zero o = none
restored (suc n) o = some (record o { saved = n })

-- A call; `none` is a use of what is not there, a leak of what is replaced, or a restore too many.
abbrev pub perform : DrawCall → Objects → Option Objects
perform cairo_save o = some (record o { saved = suc o.saved })
perform cairo_restore o = restored o.saved o
perform (create_layout l) o = if has_layout l o then none else some (put_layout l true o)
perform (g_object_unref l) o = if has_layout l o then some (put_layout l false o) else none
perform (description_from_string l font) o = if has_font l o then none else some (put_font l true o)
perform (description_free l) o = if has_font l o then some (put_font l false o) else none
perform (set_font_description l) o = if has_layout l o then needs (has_font l o) o else none
perform (layout_set_text l s) o = needs (has_layout l o) o
perform (get_pixel_size l) o = needs (has_layout l o) o
perform (show_layout l) o = needs (has_layout l o) o
perform (layout_set_width l w) o = needs (has_layout l o) o
perform (set_ellipsize_end l) o = needs (has_layout l o) o
perform (set_alignment_center l) o = needs (has_layout l o) o
perform _ o = some o

abbrev perform_rest : (Objects → Option Objects) → Option Objects → Option Objects
perform_rest f none = none
perform_rest f (some o) = f o

abbrev pub perform_all : List DrawCall → Objects → Option Objects
perform_all [] o = some o
perform_all (c ∷ cs) o = perform_rest (perform_all cs) (perform c o)

-- As many states are saved as given, and there is no layout and no description.
abbrev pub clear : ℕ → Objects
clear n = record {
  saved = n;
  initial_layout = false;
  initial_font = false;
  name_layout = false;
  name_font = false;
}

-- Drawing a card uses a layout or a font description only while it is there, frees each that it makes,
-- makes none over another, and restores each state that it saves and no other: for every card, place
-- and font, also where it draws nothing.
pub draw-clear :
    (canvas : Canvas) (card : UserCardView) (bounds : Rect) (n : ℕ)
    → perform_all (draw canvas card bounds) (clear n) ≡ some (clear n)
unfolding draw
draw-clear canvas card bounds n =
    elim (Bool-cases
      (not canvas.has_context || not (is_pos bounds.width) || not (is_pos bounds.height))) [
        | inl nothing ↦ rw nothing refl
        | inr shown ↦ rw shown refl
      ]

-- A square of side `size` at the place lies in the bounds of the card.
abbrev pub IsInside : ℕ → ℤ × ℤ → ℕ → ℕ → ℕ → ℕ → Type 0
IsInside size (pos ax, pos ay) x y w h =
    (x ≤ ax) × (ax + size ≤ x + w) × (y ≤ ay) × (ay + size ≤ y + h)
IsInside size _ x y w h = ⊥

-- The avatar's circle of 50 lies in the card's bounds, where these are at least 54 wide and 64 high and
-- do not begin left of the window or above it.
pub avatar_at-IsInside :
    (x y w h : ℕ)
    → 54 ≤ w
    → 64 ≤ h
    → IsInside 50
        (avatar_at (inner (record { x = pos x; y = pos y; width = pos w; height = pos h })))
        x
        y
        w
        h
unfolding avatar_at inner
avatar_at-IsInside x y w h wide high = ground arith
