-- ===== src/Greeter/Window.antt =====
-- The tree of widgets and the window that `GreeterApp::setup_ui` of greeter/greeter_app.cpp makes.
pub mod Shown
pub mod Powers
pub mod Fits
pub mod FirstLogin
use miqudm.Prelude.{ℕ, Bool, List, [], ◌∷◌, Text, codes, length, pos, to_int}
use miqudm.Greeter.Card.{UserCardView, measure_size, cards_from}
use miqudm.Greeter.Layout.{Grid, grid_of, form_w}
use miqudm.Greeter.Layout
use miqudm.Greeter.App.{
  GreeterApp, Action, card_clicked, session_chosen, submitted, login_clicked, sleep_clicked,
  reboot_clicked, shutdown_clicked, window_closed, key_pressed,
}
use miqudm.Greeter.App.Setup.{session_names}
use miqudm.Greeter.Widget.{
  match_parent, wrap_content, exactly, nowhere, center, center_horizontal, right_top, no_margin,
  Placement, unplaced, wide, Setting, text, hint, text_size, corner_radius, num_columns, padding,
  cell_size, spacing, flat, bold, muted, primary, password_mode, focused, text_alignment_center,
  stretch_mode_none, items, selected_index, on_click, on_submit, on_item_selected, add_item,
  on_item_click, button, text_view, edit_text, spinner, grid_view, horizontal, vertical, View,
  widget, frame_layout, linear_layout, end, view, Window,
}

-- What `strftime` leaves in a buffer of a size for a format, at the time and place of the call.
abbrev pub Clock : Type 0
Clock = ℕ → Text → Text

-- `get_current_time_str`.
abbrev pub get_current_time_str : Clock → Text
get_current_time_str strftime = strftime 64 (codes "%H:%M")

-- `get_current_date_str`.
abbrev pub get_current_date_str : Clock → Text
get_current_date_str strftime = strftime 128 (codes "%A, %B %d")

-- The signs of the power buttons in UTF-8: a sleeping sign, two arrows, and a switch.
abbrev pub sleep_sign : Text
sleep_sign = 0xf0 ∷ 0x9f ∷ 0x92 ∷ 0xa4 ∷ []

abbrev pub reboot_sign : Text
reboot_sign = 0xf0 ∷ 0x9f ∷ 0x94 ∷ 0x84 ∷ []

abbrev pub shutdown_sign : Text
shutdown_sign = 0xe2 ∷ 0x8f ∷ 0xbb ∷ []

-- A button of the bar, with its right margin.
unfoldable pub power_button : Text → Action → ℕ → View
power_button sign action right =
    widget button (record unplaced { margin = record no_margin { right = right } })
      (text sign ∷ flat ∷ padding 10 6 ∷ text_size 14 ∷ on_click action ∷ [])

-- "2. Power Actions Bar (Top-Right)".
unfoldable pub power_actions : View
unfolding power_button
power_actions =
    linear_layout horizontal
      (record unplaced { gravity = right_top; margin = record no_margin { top = 16; right = 20 } })
      nowhere
      (view (power_button sleep_sign sleep_clicked 4) (
        view (power_button reboot_sign reboot_clicked 4)
          (view (power_button shutdown_sign shutdown_clicked 0) end)))

-- "Clock".
unfoldable pub clock_label : Clock → View
clock_label clock =
    widget text_view (record unplaced { margin = record no_margin { bottom = 2 } })
      (text (get_current_time_str clock) ∷ text_size 52 ∷ bold ∷ text_alignment_center ∷ [])

-- "Date".
unfoldable pub date_label : Clock → View
date_label clock =
    widget text_view (record unplaced { margin = record no_margin { bottom = 28 } })
      (text (get_current_date_str clock) ∷ text_size 13 ∷ muted ∷ text_alignment_center ∷ [])

-- The loop that adds the cards, and then what is set behind it.
unfoldable pub add_cards : List UserCardView → List Setting → List Setting
add_cards [] rest = rest
add_cards (c ∷ cs) rest = add_item c ∷ add_cards cs rest

-- "GridView for User Selection".
unfoldable pub users_grid_view : Grid → GreeterApp → View
unfolding add_cards
users_grid_view g a =
    widget grid_view
      (record {
        width = exactly (pos g.grid_w);
        height = exactly g.grid_h;
        gravity = center_horizontal;
        margin = record no_margin { bottom = 24 };
      })
      (num_columns g.grid_cols
        ∷ cell_size measure_size.0 measure_size.1
        ∷ spacing Layout.spacing Layout.spacing
        ∷ stretch_mode_none
        ∷ add_cards (cards_from 0 a.selected_user_idx a.users)
            (selected_index (to_int a.selected_user_idx) ∷ on_item_click card_clicked ∷ []))

-- "Password Input".
unfoldable pub password_view : View
password_view =
    widget edit_text (wide (pos form_w) (record no_margin { bottom = 10 }))
      (hint (codes "Password") ∷ password_mode ∷ focused ∷ padding 14 11 ∷ on_submit submitted ∷ [])

-- "Session Dropdown (Spinner)".
unfoldable pub session_view : GreeterApp → View
session_view a = widget spinner (wide (pos form_w) (record no_margin { bottom = 14 })) (
    items (session_names a.sessions)
    ∷ selected_index a.selected_session_idx
    ∷ padding 14 11
    ∷ on_item_selected session_chosen
    ∷ [])

-- "Sign In Button".
unfoldable pub login_button : View
login_button = widget button (wide (pos form_w) (record no_margin { bottom = 10 })) (
    text (codes "Sign In")
    ∷ primary
    ∷ corner_radius 8
    ∷ padding 16 11
    ∷ bold
    ∷ on_click login_clicked
    ∷ [])

-- "Status Label".
unfoldable pub status_view : View
status_view =
    widget text_view (wide (pos form_w) no_margin)
      (text [] ∷ text_size 11 ∷ muted ∷ text_alignment_center ∷ [])

-- "Auth Form Container (Compact 300px width)".
unfoldable pub auth_form : GreeterApp → View
unfolding password_view session_view login_button status_view
auth_form a =
    linear_layout vertical
      (record unplaced { width = exactly (pos form_w); gravity = center_horizontal }) nowhere
      (view password_view (view (session_view a) (view login_button (view status_view end))))

-- "3. Centered Main Greeter Container".
unfoldable pub greeter_center : Clock → GreeterApp → View
unfolding clock_label date_label users_grid_view auth_form
greeter_center clock a =
    let g = grid_of (length a.users) in
    linear_layout vertical
      (record unplaced { width = exactly (pos g.center_box_w); gravity = center }) center_horizontal
      (view (clock_label clock)
        (view (date_label clock) (view (users_grid_view g a) (view (auth_form a) end))))

-- "1. Root FrameLayout", with all that is added to it.
unfoldable pub root_frame : Clock → GreeterApp → View
unfolding power_actions greeter_center
root_frame clock a =
    frame_layout (record unplaced { width = match_parent; height = match_parent })
      (view power_actions (view (greeter_center clock a) end))

-- "4. Create Window".
unfoldable pub window_of : Clock → GreeterApp → Window
unfolding root_frame
window_of clock a = record {
  title = codes "miqudm - Greeter";
  app_id = codes "miqudm";
  preferred_width = 680;
  preferred_height = 680;
  close_on_escape = a.test_mode;
  content_view = root_frame clock a;
  on_close = window_closed;
  on_key = key_pressed;
}
