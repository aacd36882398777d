-- ===== src/Greeter/App/Served.antt =====
-- What the daemon (daemon/daemon.cpp) does with the login that the greeter (greeter/greeter_app.cpp)
-- asks for: from the selected card and session to the process that is forked.
use miqudm.Prelude.{
  ℕ, ◌≡◌, ◌⊎◌, inl, inr, sym, subst, ap, ◌∙◌, arith, List, [], ◌∷◌, Option, none, some, ℤ, pos,
  get_elem?,
}
use miqudm.Os.{Os, Trace}
use miqudm.Users.{UserInfo}
use miqudm.Sessions.{SessionInfo}
use miqudm.Ipc.{IpcMessage, login}
use miqudm.Ipc.Library.{Json}
use miqudm.Pam.{PamAuth}
use miqudm.Daemon.{Daemon}
use miqudm.Daemon.Login.{find_user, find_session}
use miqudm.Daemon.Login.Users.{find_user-chosen}
use miqudm.Daemon.Login.Sessions.{IsLike, find_session-chosen}
use miqudm.Daemon.Requests.{process_message}
use miqudm.Daemon.Replies.{Fork}
use miqudm.Daemon.Replies.Verdict.{Answers, weaken}
use miqudm.Daemon.Replies.Answers.{IsServed, process_message-Answers, Promise}
use miqudm.Greeter.Client.{login_request}
use miqudm.Greeter.App.{GreeterApp, or_empty}
use miqudm.Greeter.App.Requests.{chosen_login}

-- At most one session is forked: this one for this user.
abbrev pub ForksOnly : UserInfo → SessionInfo → IpcMessage → List Fork → Type 0
ForksOnly u s resp fs = (fs ≡ []) ⊎ (fs ≡ (u, s) ∷ [])

served-ForksOnly :
    (d : Daemon) (req : IpcMessage) (u : UserInfo) (s : SessionInfo) (granted : Option PamAuth)
    (resp : IpcMessage) (fs : List Fork)
    → find_user req.username d.cached_users ≡ u
    → find_session req d.cached_sessions ≡ s
    → IsServed d req granted resp fs
    → ForksOnly u s resp fs
served-ForksOnly d req u s none resp fs at_u at_s (v, f) = inl f
served-ForksOnly d req u s (some p) resp fs at_u at_s (v, inl f) = inl f
served-ForksOnly d req u s (some p) resp fs at_u at_s (v, inr f) = inr (rw⁻¹ (at_u, at_s) f)

-- The request that the greeter makes of its selection.
chosen_login-same :
    (a : GreeterApp) (k : ℕ) (u : UserInfo) (s : SessionInfo) (req : IpcMessage)
    → get_elem? a.users a.selected_user_idx ≡ some u
    → a.selected_session_idx ≡ pos k
    → get_elem? a.sessions k ≡ some s
    → chosen_login a ≡ some req
    → login_request u.username (or_empty a.password_input) s.exec s.id ≡ req
chosen_login-same a k u s req at_u idx at_s chosen = ground arith

module _ (os : Os) (j : Json) (d : Daemon) (fd : ℤ) (t : Trace) where
  pub login-ForksOnly :
      (req : IpcMessage) (i k : ℕ) (u : UserInfo) (s : SessionInfo)
      → req.username ≡ u.username
      → req.desktop_name ≡ s.id
      → get_elem? d.cached_users i ≡ some u
      → get_elem? d.cached_sessions k ≡ some s
      → req.type ≡ login
      → ((n : ℕ) (v : UserInfo)
          → get_elem? d.cached_users n ≡ some v
          → v.username ≡ u.username
          → v ≡ u)
      → ((n : ℕ) (r : SessionInfo) → get_elem? d.cached_sessions n ≡ some r → IsLike req r → r ≡ s)
      → Answers j (ForksOnly u s) fd t (process_message os j d fd req t).1
  login-ForksOnly req i k u s name id at_u at_s is_login user_alone session_alone =
      let same_user =
        ap (λ n. find_user n d.cached_users) name
        ∙ find_user-chosen d.cached_users i u at_u user_alone in
      let same_session =
        find_session-chosen req d.cached_sessions k s at_s (inl (sym id)) session_alone in
      weaken _ _ fd t _
        (λ resp fs served.
          served-ForksOnly d req u s served.0 resp fs same_user same_session served.1)
        (subst (λ k. Answers j (Promise os j d req t k) fd t (process_message os j d fd req t).1)
          is_login (process_message-Answers os j d fd req t))

  -- Where the greeter shows the users and sessions that the daemon has cached, the login that it asks
  -- for is answered once and forks at most one session, the selected one for the selected user: if no
  -- other user has that user's name, and no other session answers to the request by its id, its name
  -- or its command.
  pub chosen_login-ForksOnly :
      (a : GreeterApp) (k : ℕ) (u : UserInfo) (s : SessionInfo) (req : IpcMessage)
      → d.cached_users ≡ a.users
      → d.cached_sessions ≡ a.sessions
      → get_elem? a.users a.selected_user_idx ≡ some u
      → a.selected_session_idx ≡ pos k
      → get_elem? a.sessions k ≡ some s
      → chosen_login a ≡ some req
      → ((n : ℕ) (v : UserInfo) → get_elem? a.users n ≡ some v → v.username ≡ u.username → v ≡ u)
      → ((n : ℕ) (r : SessionInfo) → get_elem? a.sessions n ≡ some r → IsLike req r → r ≡ s)
      → Answers j (ForksOnly u s) fd t (process_message os j d fd req t).1
  chosen_login-ForksOnly a k u s req users sessions at_u idx at_s chosen user_alone session_alone =
      let same = chosen_login-same a k u s req at_u idx at_s chosen in
      login-ForksOnly req a.selected_user_idx k u s (ap (λ m. m.username) (sym same))
        (ap (λ m. m.desktop_name) (sym same))
        (ap (λ us. get_elem? us a.selected_user_idx) users ∙ at_u)
        (ap (λ ss. get_elem? ss k) sessions ∙ at_s) (ap (λ m. m.type) (sym same))
        (λ n v at_n. user_alone n v (ap (λ us. get_elem? us n) (sym users) ∙ at_n))
        (λ n r at_n. session_alone n r (ap (λ ss. get_elem? ss n) (sym sessions) ∙ at_n))
