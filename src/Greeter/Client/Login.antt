-- ===== src/Greeter/Client/Login.antt =====
-- A login from the greeter's client (greeter/ipc_client.cpp) to the daemon's handler
-- (daemon/daemon.cpp) and back.
use miqudm.Prelude.{
  ◌≡◌, ◌∙◌, sym, subst, refl, true, false, ◌&&◌, List, ◌∷◌, ◌++◌, Option, none, some, Text, has,
  All, ℤ, arith,
}
use miqudm.Os.{Os, Trace}
use miqudm.Ipc.{IpcMessage, serialize}
use miqudm.Ipc.Framing.{join}
use miqudm.Ipc.Entries.{HasIds}
use miqudm.Ipc.Library.{Json, JsonLaws}
use miqudm.Pam.{PamAuth}
use miqudm.Daemon.{Daemon}
use miqudm.Daemon.Login.{reply_of, grant_login, handle_login_request}
use miqudm.Daemon.Replies.{Written, written}
use miqudm.Daemon.Replies.Reasons.{
  FailedAt, Explains, Explains-IsVerdict, handle_login_request-Told,
}
use miqudm.Daemon.Replies.Verdict.{
  Stage, words, initialization, authentication, account, credentials, session_opening, IsVerdict,
}
use miqudm.Greeter.Client.{Connection, Outcome, returns, client_login, login_error, login_request}
use miqudm.Greeter.Client.Exchange.{IsReadBack, send_request-reply}

-- What `login` tells the greeter behind the run `t` of the daemon: success, or the stage whose call of
-- PAM has failed, and PAM's text for what that call returned.
abbrev pub Tells : Os → Option PamAuth → Trace → Outcome (Option Text) → Type 0
Tells os (some p) t o = o ≡ returns none
Tells os none t o =
    (s : Stage) × (ret : ℤ) × FailedAt s ret t × (o ≡ returns (some (words s ++ os.strerror ret)))

same_payload :
    (fd : ℤ) (s r : Text) (ws ws' : List Written) → ws' ≡ (fd, s) ∷ ws → ws' ≡ (fd, r) ∷ ws → r ≡ s
same_payload fd s r ws ws' e f = let g = sym e ∙ f in ground arith

module _ (j : Json) (c : Connection) where
  login_error-refused :
      (s : Stage) (reason : Text)
      → login_error j c (returns (some (reply_of false (words s ++ reason))))
        ≡ returns (some (words s ++ reason))
  unfolding login_error
  login_error-refused initialization reason = refl
  login_error-refused authentication reason = refl
  login_error-refused account reason = refl
  login_error-refused credentials reason = refl
  login_error-refused session_opening reason = refl

  Explains-Tells :
      (os : Os) (o : Option PamAuth) (resp : IpcMessage) (t : Trace)
      → Explains os o resp t
      → Tells os o t (login_error j c (returns (some resp)))
  unfolding login_error
  Explains-Tells os (some p) resp t v = rw v refl
  Explains-Tells os none resp t (s, ret, f, e) =
      (s, ret, f, rw e (login_error-refused s (os.strerror ret)))

  IsVerdict-users :
      (o : Option PamAuth) (resp : IpcMessage) → IsVerdict o resp → All (λ u. HasIds u) resp.users
  IsVerdict-users (some p) resp v = rw v tt
  IsVerdict-users none resp (s, reason, e) = rw e tt

  -- If the connection works and delivers, in whatever pieces without a zero byte, what the daemon
  -- writes for the login request, then `login` returns true exactly where the daemon has let the user
  -- in, and else false with the words of the stage that failed, the last whose call of PAM the daemon
  -- made, and PAM's text for what that call returned. JsonCpp reads back what it writes for the reply.
  pub client_login-Tells :
      (laws : JsonLaws j) (os : Os) (d : Daemon) (fd : ℤ) (t : Trace)
      (username password exec desktop : Text)
      → let req = login_request username password exec desktop in
        let (granted, after) = grant_login os j d fd req t in
        (c.opens && c.connects && c.takes (serialize j req) && c.answers (serialize j req)) ≡ true
        → All (λ s. has 0 s ≡ false) (c.received (serialize j req))
        → written (handle_login_request os j d fd req t).1
          ≡ (fd, join (c.received (serialize j req))) ∷ written t
        → ((resp : IpcMessage) → IsVerdict granted resp → IsReadBack j resp)
        → Tells os granted after (client_login j c username password exec desktop)
  unfolding client_login
  client_login-Tells laws os d fd t username password exec desktop works clean arrives back =
      let req = login_request username password exec desktop in
      let (resp, why, sent) = handle_login_request-Told os j d fd req t in
      let (granted, after) = grant_login os j d fd req t in
      let verdict = Explains-IsVerdict os granted resp after why in
      let heard = same_payload fd (serialize j resp) _ (written t) _ sent arrives in
      subst (λ x. Tells os granted after (login_error j c x))
        (sym (
          send_request-reply j laws c req resp works clean heard
            (IsVerdict-users granted resp verdict) (back resp verdict)))
        (Explains-Tells os granted resp after why)
