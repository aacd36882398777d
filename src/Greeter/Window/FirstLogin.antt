-- ===== src/Greeter/Window/FirstLogin.antt =====
-- A greeter (greeter/greeter_app.cpp) from its start to the session that the daemon (daemon/daemon.cpp)
-- forks: both lists are asked for, a card and a session are chosen, and the login is asked for.
use miqudm.Prelude.{
  ℕ, zero, suc, ◌≡◌, ◌<◌, ◌⊎◌, inl, inr, refl, subst, sym, ap, ◌∙◌, true, false, List, [], ◌∷◌,
  Option, some, Text, All, ℤ, get_elem?, length, arith,
}
use miqudm.Os.{Os, Trace}
use miqudm.Users.{UserInfo, UserSource, scan_users}
use miqudm.Sessions.{SessionInfo, DirEntry, scan_all}
use miqudm.Sessions.Distinct.{IsMenu, IsApart, scan_all-IsMenu}
use miqudm.Ipc.{IpcMessage}
use miqudm.Ipc.Library.{Json, JsonLaws}
use miqudm.Ipc.Entries.{HasIds}
use miqudm.Daemon.{Daemon}
use miqudm.Daemon.Login.{reply_of}
use miqudm.Daemon.Login.Sessions.{IsLike}
use miqudm.Daemon.Requests.{process_message}
use miqudm.Daemon.Replies.Verdict.{Answers}
use miqudm.Greeter.Client.{Connection, returns, client_login, login_request}
use miqudm.Greeter.Client.Exchange.{
  IsCarried, IsReadBack, users_request, sessions_request, last_written,
}
use miqudm.Greeter.App.{GreeterApp, new_app, Result, done, throws, out_of_bounds}
use miqudm.Greeter.App.Setup.{init}
use miqudm.Greeter.App.Ready.{Ensures}
use miqudm.Greeter.App.Reachable.{begins, IsFresh, init-IsFresh}
use miqudm.Greeter.App.Choice.{Returns, HasAsked, respond_all, way, respond_all-HasAsked}
use miqudm.Greeter.App.Served.{ForksOnly, login-ForksOnly}
use miqudm.Greeter.Window.{Clock}
use miqudm.Greeter.Window.Shown.{init-ShowsLists}

apart-other :
    (s : SessionInfo) (ss : List SessionInfo) (n : ℕ) (r : SessionInfo)
    → All (IsApart s) ss
    → get_elem? ss n ≡ some r
    → s.id ≡ r.id
    → ⊥
apart-other s [] n r a e h = ground arith
apart-other s (x ∷ ss) zero r a e h = ground arith
apart-other s (x ∷ ss) (suc n) r a e h = apart-other s ss n r a.1 e h

-- In a menu the id tells a session.
menu-id :
    (ss : List SessionInfo) (n k : ℕ) (r s : SessionInfo)
    → IsMenu ss
    → get_elem? ss n ≡ some r
    → get_elem? ss k ≡ some s
    → r.id ≡ s.id
    → r ≡ s
menu-id [] n k r s m at_r at_s h = ground arith
menu-id (x ∷ ss) zero zero r s m at_r at_s h = ground arith
menu-id (x ∷ ss) zero (suc k) r s m at_r at_s h =
    absurd (apart-other x ss k s m.1 at_s (ground arith))
menu-id (x ∷ ss) (suc n) zero r s m at_r at_s h =
    absurd (apart-other x ss n r m.1 at_r (ground arith))
menu-id (x ∷ ss) (suc n) (suc k) r s m at_r at_s h = menu-id ss n k r s m.2 at_r at_s h

Returns-done :
    {A : Type 0} (P : A → Type 0) (r : Result A) → Returns P r → (a : A) × (r ≡ done a) × P a
Returns-done P (done a) h = (a, refl, h)
Returns-done P throws h = absurd h
Returns-done P out_of_bounds h = absurd h

-- The choice is clear: nobody else has the user's name, and no other session has the id of the chosen
-- one for its name, or the same command.
pub record IsClear (users : List UserInfo) (sessions : List SessionInfo) (u : UserInfo)
    (s : SessionInfo) : Type 0 where
  pub user_alone :
      (n : ℕ) (v : UserInfo) → get_elem? users n ≡ some v → v.username ≡ u.username → v ≡ u
  pub session_alone :
      (n : ℕ) (r : SessionInfo)
      → get_elem? sessions n ≡ some r
      → (r.name ≡ s.id) ⊎ (r.exec ≡ s.exec)
      → r ≡ s

-- Whatever answers to the login of a clear choice is the chosen session.
only_session :
    (users : List UserInfo) (sessions : List SessionInfo) (u : UserInfo) (s : SessionInfo) (k : ℕ)
    (password : Text) (n : ℕ) (r : SessionInfo)
    → IsMenu sessions
    → IsClear users sessions u s
    → get_elem? sessions k ≡ some s
    → get_elem? sessions n ≡ some r
    → IsLike (login_request u.username password s.exec s.id) r
    → r ≡ s
only_session users sessions u s k password n r menu clear at_s at_r (inl id) =
    menu-id sessions n k r s menu at_r at_s id
only_session users sessions u s k password n r menu clear at_s at_r (inr (inl name)) =
    clear.session_alone n r at_r (inl name)
only_session users sessions u s k password n r menu clear at_s at_r (inr (inr exec)) =
    clear.session_alone n r at_r (inr exec)

module _ (os : Os) (j : Json) (laws : JsonLaws j) (c1 c2 c3 : Connection) (t1 t2 t3 : Trace)
    (d1 d2 d3 : Daemon) (fd1 fd2 fd3 : ℤ) where
  -- From the start: the daemon answers the two requests of a new greeter, and serves the login with the
  -- lists that it has cached then. If a window comes up, a card and a session are chosen whose names and
  -- command are clear, a password is typed and Enter pressed, and the client returns, then the greeter
  -- has sent one login and no other request; the daemon that reads it answers once and forks at most one
  -- session, the chosen one for the user on the card. There are fewer than 2^31 sessions.
  pub first_login-ForksOnly :
      (clock : Clock) (src : UserSource) (dirs : Text → Option (List DirEntry)) (i k : ℕ)
      (u : UserInfo) (s : SessionInfo) (password : Text) (answer : Option Text)
      → let users = scan_users (os.user_source t1) in
        let sessions = scan_all (os.directories t2) in
        let (served, after) = process_message os j d1 fd1 users_request t1 in
        let (served_again, after_again) = process_message os j d2 fd2 sessions_request t2 in
        IsCarried j c1 users_request (last_written after)
        → IsCarried j c2 sessions_request (last_written after_again)
        → All HasIds users
        → IsReadBack j (record (reply_of true []) { users = users })
        → IsReadBack j (record (reply_of true []) { sessions = sessions })
        → d3.cached_users ≡ served.cached_users
        → d3.cached_sessions ≡ served_again.cached_sessions
        → get_elem? users i ≡ some u
        → get_elem? sessions k ≡ some s
        → IsClear users sessions u s
        → length sessions < 2147483648
        → client_login j c3 u.username password s.exec s.id ≡ returns answer
        → (a b : GreeterApp) × (req : IpcMessage) × (init j c1 c2 src dirs true (new_app true false)
            ≡ done (true, a))
          × (respond_all j c3 (way i k password) a ≡ done b)
          × (b.sent ≡ req ∷ a.sent)
          × (a.sent ≡ [])
          × Answers j (ForksOnly u s) fd3 t3 (process_message os j d3 fd3 req t3).1
  first_login-ForksOnly clock src dirs i k u s password answer carried1 carried2 ids back1 back2
        users3 sessions3 at_u at_s clear few login_returns =
      let users = scan_users (os.user_source t1) in
      let sessions = scan_all (os.directories t2) in
      let (a, started, shows, same_users, same_sessions) =
        init-ShowsLists j laws os c1 c2 t1 t2 d1 d2 fd1 fd2 clock src dirs true carried1 carried2
          ids back1 back2 in
      let reached = begins c1 c2 src dirs true a started in
      let (b, answered, asked) =
        Returns-done (HasAsked a.sent u s password answer) (respond_all j c3 (way i k password) a) (
          respond_all-HasAsked j c3 a i k u s password answer reached
            (ap (λ us. get_elem? us i) (shows.users ∙ same_users) ∙ at_u)
            (ap (λ ss. get_elem? ss k) (shows.sessions ∙ same_sessions) ∙ at_s)
            (rw (shows.sessions, same_sessions) few) login_returns) in
      let fresh =
        subst (Ensures (IsFresh j false)) started (init-IsFresh j false c1 c2 src dirs true) in
      let cached_users = users3 ∙ same_users in
      let cached_sessions = sessions3 ∙ same_sessions in
      let req = login_request u.username password s.exec s.id in
      (
        a,
        b,
        req,
        started,
        answered,
        asked.0,
        fresh.1.1,
        login-ForksOnly os j d3 fd3 t3 req i k u s refl refl
            (ap (λ us. get_elem? us i) cached_users ∙ at_u)
            (ap (λ ss. get_elem? ss k) cached_sessions ∙ at_s) refl
            (λ n v at_n. clear.user_alone n v (ap (λ us. get_elem? us n) (sym cached_users) ∙ at_n))
            (λ n r at_n.
              only_session users sessions u s k password n r (scan_all-IsMenu (os.directories t2)).0
                clear at_s (ap (λ ss. get_elem? ss n) (sym cached_sessions) ∙ at_n)),
      )
