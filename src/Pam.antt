-- ===== src/Pam.antt =====
-- daemon/pam_auth.hpp and daemon/pam_auth.cpp: `PamAuth`, one PAM transaction. The methods run over
-- the calls of `Os`; a bool result stands before the new object.
pub mod Status
pub mod Methods
pub mod Life
pub mod Turns
pub mod Accounts
pub mod Progress
pub mod Move
use miqudm.Prelude.{
  ℕ, ◌≡◌, refl, Bool, true, false, ◌&&◌, ◌||◌, not, List, [], ◌∷◌, ◌++◌, Option, none, some, Text,
  codes, ℤ, pos, length, is_empty, if◌then◌else◌, is_neg, ltb, c_str,
}
use miqudm.Os.{
  Os, Call, pam_start, pam_set_conv, pam_authenticate, pam_acct_mgmt, pam_establish_cred,
  pam_delete_cred, pam_open_session, pam_close_session, pam_end, pam_putenv, pam_getenvlist,
  destroy_user_data, explicit_bzero, M, pure, ◌>>=◌, ◌>>◌, call, succeeded, Event, Trace,
}

pub record PamAuth : Type 0 where
  pub handle : Option ℕ
  pub username : Text
  pub service_name : Text
  pub error_message : Text
  pub session_opened : Bool
  pub credentials_set : Bool

-- `PamAuth::PamAuth`.
abbrev pub new_pam : PamAuth
new_pam = record {
  handle = none;
  username = [];
  service_name = [];
  error_message = [];
  session_opened = false;
  credentials_set = false;
}

pub data MessageStyle : Type 0 where
  prompt_echo_off prompt_echo_on error_msg text_info : MessageStyle

pub data ConvResult : Type 0 where
  conv_err : ConvResult
  replies : List (Option Text) → ConvResult

unfoldable pub answer : Text → MessageStyle → Option Text
answer password prompt_echo_off = some password
answer password prompt_echo_on = some password
answer password _ = none

unfoldable pub answers : Text → List MessageStyle → List (Option Text)
unfolding answer
answers password [] = []
answers password (m ∷ ms) = answer password m ∷ answers password ms

-- `PamAuth::pam_conversation` where memory does not run out; `none` is a null `appdata_ptr`.
unfoldable pub pam_conversation : List MessageStyle → Option Text → ConvResult
unfolding answers
pam_conversation msg appdata =
    if is_empty msg || ltb 32 (length msg)
    then conv_err
    else elim appdata [ none ↦ conv_err | some password ↦ replies (answers password msg) ]

module _ (os : Os) where
  abbrev fail : PamAuth → ℤ → Bool × PamAuth
  fail p ret = (false, record p { error_message = os.strerror ret })

  -- `pam_setcred(handle, PAM_DELETE_CRED)` and what follows.
  delete_on : PamAuth → ℕ → M (Bool × PamAuth)
  delete_on p h = do
    ret ← call os (pam_delete_cred h)
    let p' = record p { credentials_set = false }
    pure (if succeeded ret then (true, p') else fail p' ret)

  close_on : PamAuth → ℕ → M (Bool × PamAuth)
  close_on p h = do
    ret ← call os (pam_close_session h)
    let p' = record p { session_opened = false }
    pure (if succeeded ret then (true, p') else fail p' ret)

  -- `PamAuth::delete_credentials`.
  unfoldable pub delete_credentials : PamAuth → M (Bool × PamAuth)
  unfolding delete_on
  delete_credentials p = elim p.handle [
    | none ↦ pure (true, p)
    | some h ↦ if not p.credentials_set then pure (true, p) else delete_on p h
  ]

  -- `PamAuth::close_session`.
  unfoldable pub close_session : PamAuth → M (Bool × PamAuth)
  unfolding close_on
  close_session p = elim p.handle [
    | none ↦ pure (true, p)
    | some h ↦ if not p.session_opened then pure (true, p) else close_on p h
  ]

  -- The body of `end` where a handle is held.
  end_on : PamAuth → ℕ → M PamAuth
  unfolding close_session delete_credentials
  end_on p h = do
    closed ← if p.session_opened then close_session p else pure (true, p)
    deleted ←
        if closed.1.credentials_set then delete_credentials closed.1 else pure (true, closed.1)
    call os (pam_end h)
    pure (record deleted.1 { handle = none; session_opened = false; credentials_set = false })

  -- `PamAuth::end`, and the destructor.
  unfoldable pub end_pam : PamAuth → M PamAuth
  unfolding end_on
  end_pam p = elim p.handle [
    | none ↦ pure (record p { session_opened = false; credentials_set = false })
    | some h ↦ end_on p h
  ]

  -- The number of a handle is the count of calls made before the `pam_start` that gave it.
  start_with : PamAuth → Text → Text → M (ℤ × ℕ)
  start_with p service username t =
      let h = length t in
      let (ret, t') = call os (pam_start (c_str service) (c_str username)) t in ((ret, h), t')

  -- `PamAuth::start`.
  unfoldable pub start : PamAuth → Text → Text → M (Bool × PamAuth)
  unfolding start_with end_pam
  start p username service_name = do
    ended ← end_pam p
    let p' = record ended { username = username; service_name = service_name }
    first ← start_with p' service_name username
    second ← if succeeded first.0 then pure first else start_with p' (codes "login") username
    pure (
        if succeeded second.0
        then (true, record p' { handle = some second.1 })
        else (false, record p' { error_message = os.strerror second.0; handle = none }))

  wipe : Text → M ℤ
  wipe password =
      if is_empty password then pure (pos 0) else call os (explicit_bzero (length password))

  authenticate_on : PamAuth → ℕ → Text → M (Bool × PamAuth)
  unfolding wipe
  authenticate_on p h password = do
    set ← call os (pam_set_conv h password)
    done ←
        if succeeded set
        then (do ret ← call os (pam_authenticate h); wipe password; pure ret)
        else pure set
    call os (destroy_user_data h)
    pure (if succeeded done then (true, p) else fail p done)

  -- `PamAuth::authenticate`. The local `user_data` ends with the call.
  unfoldable pub authenticate : PamAuth → Text → M (Bool × PamAuth)
  unfolding authenticate_on
  authenticate p password = elim p.handle [
    | none ↦ pure (false, record p { error_message = codes "PAM handle not initialized" })
    | some h ↦ authenticate_on p h password
  ]

  -- `PamAuth::check_account`.
  unfoldable pub check_account : PamAuth → M (Bool × PamAuth)
  check_account p = elim p.handle [
    | none ↦ pure (false, p)
    | some h ↦ do
      ret ← call os (pam_acct_mgmt h)
      pure (if succeeded ret then (true, p) else fail p ret)
  ]

  -- `PamAuth::establish_credentials`.
  unfoldable pub establish_credentials : PamAuth → M (Bool × PamAuth)
  establish_credentials p = elim p.handle [
    | none ↦ pure (false, p)
    | some h ↦ do
      ret ← call os (pam_establish_cred h)
      pure (if succeeded ret then (true, record p { credentials_set = true }) else fail p ret)
  ]

  -- `PamAuth::open_session`.
  unfoldable pub open_session : PamAuth → M (Bool × PamAuth)
  open_session p = elim p.handle [
    | none ↦ pure (false, p)
    | some h ↦ do
      ret ← call os (pam_open_session h)
      pure (if succeeded ret then (true, record p { session_opened = true }) else fail p ret)
  ]

  -- `PamAuth::get_environment_list`.
  unfoldable pub get_environment_list : PamAuth → M (List Text)
  get_environment_list p = elim p.handle [
    | none ↦ pure []
    | some h ↦ λ t. (os.env_list t h, (call os (pam_getenvlist h) t).1)
  ]

  -- `PamAuth::set_env`.
  unfoldable pub set_env : PamAuth → Text → Text → M Bool
  set_env p name value = elim p.handle [
    | none ↦ pure false
    | some h ↦ do ret ← call os (pam_putenv h (c_str (name ++ b'=' ∷ value))); pure (succeeded ret)
  ]
