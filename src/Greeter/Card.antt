-- ===== src/Greeter/Card.antt =====
-- `UserCardView` of greeter/greeter_app.cpp: the state of a card, and the letter on it. What it draws
-- is calls of the toolkit.
pub mod Draw
use miqudm.Prelude.{
  ℕ, zero, suc, ◌-◌, Bool, ◌&&◌, List, [], ◌∷◌, Text, codes, leb, ◌==◌, if◌then◌else◌,
}
use miqudm.Users.{UserInfo}

pub record UserCardView : Type 0 where
  pub user : UserInfo
  pub is_selected : Bool

-- `UserCardView::set_selected`; a redraw that is asked for is left out.
abbrev pub set_selected : Bool → UserCardView → UserCardView
set_selected selected card = record card { is_selected = selected }

-- `measure_size`: width and height.
abbrev pub measure_size : ℕ × ℕ
measure_size = (104, 116)

-- `display_name.substr(0, 1)`, with `toupper` on a small letter.
unfoldable pub initial_of : Text → Text
initial_of [] = codes "?"
initial_of (b ∷ s) = (if leb b'a' b && leb b b'z' then b - 32 else b) ∷ []

-- The cards of the users from number `i` on, where the one of number `idx` is selected.
unfoldable pub cards_from : ℕ → ℕ → List UserInfo → List UserCardView
cards_from i idx [] = []
cards_from i idx (u ∷ us) = record { user = u; is_selected = i == idx } ∷ cards_from (suc i) idx us

-- The loop of `select_user` over the first `n` items of the grid.
unfoldable pub mark : ℕ → ℕ → ℕ → List UserCardView → List UserCardView
mark n i idx [] = []
mark zero i idx (c ∷ cs) = c ∷ cs
mark (suc n) i idx (c ∷ cs) = set_selected (i == idx) c ∷ mark n (suc i) idx cs
