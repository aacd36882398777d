-- ===== src/Greeter/Window/Shown.antt =====
-- What the window of greeter/greeter_app.cpp shows of the daemon's lists when `init` has returned.
use mathlib.Core.List.{append-nil}
use miqudm.Prelude.{
  ℕ, suc, ◌≡◌, refl, sym, subst, ap, ◌∙◌, Bool, true, false, List, [], ◌∷◌, ◌++◌, map, Option, some,
  Text, is_empty, All, ℤ, arith,
}
use miqudm.Users.{UserInfo, UserSource, scan_users}
use miqudm.Sessions.{SessionInfo, DirEntry, scan_all}
use miqudm.Sessions.Distinct.{scan_all-IsMenu}
use miqudm.Os.{Os, Trace}
use miqudm.Ipc.Library.{Json, JsonLaws}
use miqudm.Ipc.Entries.{HasIds}
use miqudm.Daemon.{Daemon}
use miqudm.Daemon.Login.{reply_of}
use miqudm.Daemon.Requests.{process_message, process_type}
use miqudm.Greeter.Card.{UserCardView, cards_from}
use miqudm.Greeter.Client.{Connection, returns, client_get_users, client_get_sessions}
use miqudm.Greeter.Client.Exchange.{
  IsCarried, IsReadBack, users_request, sessions_request, last_written, client_get_users-scan_users,
  client_get_sessions-scan_all,
}
use miqudm.Greeter.App.{GreeterApp, new_app, done}
use miqudm.Greeter.App.Ready.{scan_users-filled}
use miqudm.Greeter.App.Setup.{
  session_names, or_scanned, setup_ui, fill_and_show, after_load, load_ipc, try_ipc, init,
}
use miqudm.Greeter.Widget.{Setting, add_item, items, Widget, widgets}
use miqudm.Greeter.Window.{Clock, window_of, add_cards}

abbrev add_card : Setting → List UserCardView → List UserCardView
add_card (add_item c) cs = c ∷ cs
add_card _ cs = cs

abbrev cards_set : List Setting → List UserCardView
cards_set [] = []
cards_set (s ∷ ss) = add_card s (cards_set ss)

abbrev add_items : Setting → List Text → List Text
add_items (items names) ns = names ++ ns
add_items _ ns = ns

abbrev items_set : List Setting → List Text
items_set [] = []
items_set (s ∷ ss) = add_items s (items_set ss)

-- All cards of the widgets, and all items to choose from.
abbrev pub cards_shown : List Widget → List UserCardView
cards_shown [] = []
cards_shown (w ∷ ws) = cards_set w.1 ++ cards_shown ws

abbrev pub items_shown : List Widget → List Text
items_shown [] = []
items_shown (w ∷ ws) = items_set w.1 ++ items_shown ws

cards_set-add_cards :
    (cs : List UserCardView) (rest : List Setting)
    → cards_set (add_cards cs rest) ≡ cs ++ cards_set rest
unfolding add_cards
cards_set-add_cards [] rest = refl
cards_set-add_cards (c ∷ cs) rest = ap (λ ds. c ∷ ds) (cards_set-add_cards cs rest)

items_set-add_cards :
    (cs : List UserCardView) (rest : List Setting) → items_set (add_cards cs rest) ≡ items_set rest
unfolding add_cards
items_set-add_cards [] rest = refl
items_set-add_cards (c ∷ cs) rest = items_set-add_cards cs rest

-- The window's cards are those that the greeter keeps, and its items the names of the sessions.
pub window_of-shown :
    (clock : Clock) (a : GreeterApp)
    → (cards_shown (widgets (window_of clock a).content_view)
        ≡ cards_from 0 a.selected_user_idx a.users)
      × (items_shown (widgets (window_of clock a).content_view) ≡ session_names a.sessions)
unfolding window_of widgets
window_of-shown clock a =
    (simp (cards_set-add_cards, append-nil), simp (items_set-add_cards, append-nil))

-- The first card is the selected one, and no other is.
abbrev OnlyFirst : List UserCardView → Type 0
OnlyFirst [] = Unit
OnlyFirst (c ∷ cs) = (c.is_selected ≡ true) × All (λ d. d.is_selected ≡ false) cs

cards_from-users : (i idx : ℕ) (us : List UserInfo) → map (λ c. c.user) (cards_from i idx us) ≡ us
unfolding cards_from
cards_from-users i idx [] = refl
cards_from-users i idx (u ∷ us) = ap (λ vs. u ∷ vs) (cards_from-users (suc i) idx us)

cards_from-unselected :
    (i : ℕ) (us : List UserInfo) → All (λ d. d.is_selected ≡ false) (cards_from (suc i) 0 us)
unfolding cards_from
cards_from-unselected i [] = tt
cards_from-unselected i (u ∷ us) = (ground arith, cards_from-unselected (suc i) us)

cards_from-OnlyFirst : (us : List UserInfo) → OnlyFirst (cards_from 0 0 us)
unfolding cards_from
cards_from-OnlyFirst [] = tt
cards_from-OnlyFirst (u ∷ us) = (ground arith, cards_from-unselected 0 us)

session_names-map : (ss : List SessionInfo) → session_names ss ≡ map (λ s. s.name) ss
unfolding session_names
session_names-map [] = refl
session_names-map (s ∷ ss) = ap (λ ns. s.name ∷ ns) (session_names-map ss)

-- What `init` gives: the daemon's lists, kept and shown.
pub record ShowsLists (clock : Clock) (us : List UserInfo) (ss : List SessionInfo) (a : GreeterApp)
    : Type 0 where
  pub users : a.users ≡ us
  pub sessions : a.sessions ≡ ss
  pub kept : a.users_grid ≡ some (cards_shown (widgets (window_of clock a).content_view))
  pub cards : map (λ c. c.user) (cards_shown (widgets (window_of clock a).content_view)) ≡ us
  pub selected : OnlyFirst (cards_shown (widgets (window_of clock a).content_view))
  pub names : items_shown (widgets (window_of clock a).content_view) ≡ map (λ s. s.name) ss

-- A list that came and is not empty stays.
or_scanned-loaded : {A : Type 0} (xs ys : List A) → is_empty xs ≡ false → or_scanned true xs ys ≡ xs
or_scanned-loaded xs ys h = rw h

module _ (j : Json) (laws : JsonLaws j) (os : Os) (c1 c2 : Connection) (t1 t2 : Trace) where
  load_ipc-lists :
      (a : GreeterApp)
      → client_get_users j c1 a.users ≡ returns (true, scan_users (os.user_source t1))
      → client_get_sessions j c2 a.sessions ≡ returns (true, scan_all (os.directories t2))
      → load_ipc j c1 c2 a
        ≡ done (
          true,
          record a {
            users = scan_users (os.user_source t1);
            sessions = scan_all (os.directories t2);
          },
        )
  unfolding load_ipc
  load_ipc-lists a us ss = rw us (rw ss)

  fill_and_show-ShowsLists :
      (clock : Clock) (src : UserSource) (dirs : Text → Option (List DirEntry)) (built : Bool)
      (a : GreeterApp)
      → a.selected_user_idx ≡ 0
      → a.users ≡ scan_users (os.user_source t1)
      → a.sessions ≡ scan_all (os.directories t2)
      → ShowsLists clock
          (scan_users (os.user_source t1))
          (scan_all (os.directories t2))
          (fill_and_show src dirs built true a).1
  unfolding fill_and_show setup_ui
  fill_and_show-ShowsLists clock src dirs built a first us ss =
      let users =
        ap (λ xs. or_scanned true xs (scan_users src)) us
        ∙ or_scanned-loaded _ _ (scan_users-filled (os.user_source t1)) in
      let sessions =
        ap (λ xs. or_scanned true xs (scan_all dirs)) ss
        ∙ or_scanned-loaded _ _ (scan_all-IsMenu (os.directories t2)).1 in
      let b = (fill_and_show src dirs built true a).1 in
      let shown = window_of-shown clock b in
      let cards : (cards_shown (widgets (window_of clock b).content_view)
          ≡ cards_from 0 0 (scan_users (os.user_source t1))) =
        shown.0 ∙ rw (first, users) refl in
      record {
        users = users;
        sessions = sessions;
        kept = ap some (sym shown.0);
        cards = ap (map (λ c. c.user)) cards ∙ cards_from-users 0 0 _;
        selected = subst OnlyFirst (sym cards) (cards_from-OnlyFirst _);
        names = shown.1 ∙ ap session_names sessions ∙ session_names-map _;
      }

  -- Where the daemon answers a greeter's two requests at start, and both connections work and deliver,
  -- in whatever pieces without a zero byte, what it writes, `init` returns whether there is a window;
  -- the greeter then holds the users and the sessions that the daemon's scans have found and that the
  -- daemon has cached, and its window has a card for each of the users, in order, the first one
  -- selected, and the names of the sessions to choose from, and no more. JsonCpp reads back what it
  -- writes for the two replies, and the ids fit 32 bits.
  pub init-ShowsLists :
      (d1 d2 : Daemon) (fd1 fd2 : ℤ) (clock : Clock) (src : UserSource)
      (dirs : Text → Option (List DirEntry)) (built : Bool)
      → let users = scan_users (os.user_source t1) in
        let sessions = scan_all (os.directories t2) in
        let (served, after) = process_message os j d1 fd1 users_request t1 in
        let (served_again, after_again) = process_message os j d2 fd2 sessions_request t2 in
        IsCarried j c1 users_request (last_written after)
        → IsCarried j c2 sessions_request (last_written after_again)
        → All HasIds users
        → IsReadBack j (record (reply_of true []) { users = users })
        → IsReadBack j (record (reply_of true []) { sessions = sessions })
        → (a : GreeterApp) × (init j c1 c2 src dirs built (new_app true false) ≡ done (built, a))
          × ShowsLists clock served.cached_users served_again.cached_sessions a
          × (served.cached_users ≡ users)
          × (served_again.cached_sessions ≡ sessions)
  unfolding init after_load try_ipc process_message process_type fill_and_show
  init-ShowsLists d1 d2 fd1 fd2 clock src dirs built carried1 carried2 ids back1 back2 =
      let loaded =
        load_ipc-lists (new_app true false)
          (client_get_users-scan_users j laws c1 os d1 fd1 t1 [] carried1.works carried1.clean
            carried1.arrives ids back1)
          (client_get_sessions-scan_all j laws c2 os d2 fd2 t2 [] carried2 back2) in
      let b = record (new_app true false) {
        users = scan_users (os.user_source t1);
        sessions = scan_all (os.directories t2);
      } in
      (
        (fill_and_show src dirs built true b).1,
        ap (after_load src dirs built) loaded,
        fill_and_show-ShowsLists clock src dirs built b refl refl refl,
        refl,
        refl,
      )
