-- ===== src/Daemon/Descriptors/Handlers.antt =====
-- The handlers of daemon/daemon.cpp leave the server socket's descriptor in the daemon alone.
use miqudm.Prelude.{◌≡◌, refl, ◌∙◌, ◌&&◌, not, Option, none, some, ℤ, arith}
use miqudm.Os.{is_stopped, Os, Trace, pure, if-both}
use miqudm.Ipc.{
  IpcMessage, IpcMessageType, unknown, ping, get_users, get_sessions, login, power_action, response,
  session_status,
}
use miqudm.Ipc.Library.{Json}
use miqudm.Pam.{PamAuth}
use miqudm.Daemon.{Daemon}
use miqudm.Daemon.Greeter.{
  start_greeter, stop_greeter, spawn_greeter, spawn_process, end_greeter_process, release_pam,
}
use miqudm.Daemon.Login.{
  remember_user, run_session, serve_login, continue_login, handle_login_request, is_running_now,
}
use miqudm.Daemon.Requests.{handle_power_action, process_type, process_message}

-- The descriptor of the server socket stays.
abbrev pub SameSocket : Daemon → Daemon → Type 0
SameSocket d d' = d'.server_socket_fd ≡ d.server_socket_fd

module _ (os : Os) (j : Json) where
  pub start_greeter-SameSocket : (d : Daemon) (t : Trace) → SameSocket d (start_greeter os d t).0
  unfolding start_greeter spawn_greeter spawn_process
  start_greeter-SameSocket d t = ground arith

  pub stop_greeter-SameSocket : (d : Daemon) (t : Trace) → SameSocket d (stop_greeter os d t).0
  unfolding stop_greeter end_greeter_process
  stop_greeter-SameSocket d t = ground arith

  remember_user-SameSocket :
      (req : IpcMessage) (d : Daemon) (t : Trace) → SameSocket d (remember_user os j req d t).0
  unfolding remember_user
  remember_user-SameSocket req d t = ground arith

  serve_login-SameSocket :
      (d : Daemon) (req : IpcMessage) (p : PamAuth) (t : Trace)
      → SameSocket d (serve_login os j d req p t).0
  unfolding serve_login run_session is_running_now
  serve_login-SameSocket d req p t =
      let stopped = stop_greeter os d t in
      let remembered = remember_user os j req stopped.0 stopped.1 in
      let ran = run_session os j (record remembered.0 { active_pam = some p }) req p remembered.1 in
      let freed = (release_pam os (some p) ran.1).1 in
      let done = record ran.0 { active_pam = none } in
      if-both (λ r. SameSocket done r.0) (done.running && not (is_stopped os freed))
        (start_greeter os done) (pure done) freed (start_greeter-SameSocket done freed) refl
      ∙ remember_user-SameSocket req stopped.0 stopped.1
      ∙ stop_greeter-SameSocket d t

  continue_login-SameSocket :
      (d : Daemon) (req : IpcMessage) (o : Option PamAuth) (t : Trace)
      → SameSocket d (continue_login os j d req o t).0
  unfolding continue_login
  continue_login-SameSocket d req none t = refl
  continue_login-SameSocket d req (some p) t = serve_login-SameSocket d req p t

  process_type-SameSocket :
      (k : IpcMessageType) (d : Daemon) (fd : ℤ) (req : IpcMessage) (t : Trace)
      → SameSocket d (process_type os j k d fd req t).0
  unfolding process_type handle_power_action handle_login_request
  process_type-SameSocket login d fd req t = continue_login-SameSocket d req _ _
  process_type-SameSocket power_action d fd req t = refl
  process_type-SameSocket ping d fd req t = refl
  process_type-SameSocket get_users d fd req t = refl
  process_type-SameSocket get_sessions d fd req t = refl
  process_type-SameSocket unknown d fd req t = refl
  process_type-SameSocket response d fd req t = refl
  process_type-SameSocket session_status d fd req t = refl

  pub process_message-SameSocket :
      (d : Daemon) (fd : ℤ) (req : IpcMessage) (t : Trace)
      → SameSocket d (process_message os j d fd req t).0
  unfolding process_message
  process_message-SameSocket d fd req t = process_type-SameSocket req.type d fd req t
