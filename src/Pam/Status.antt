-- ===== src/Pam/Status.antt =====
-- What the calls that were made mean for one PAM handle: a reading of the run that does not look at
-- the flags of `PamAuth` (daemon/pam_auth.cpp).
use miqudm.Prelude.{
  ℕ, zero, suc, Text, text_eq, Bool, true, false, ◌&&◌, ◌||◌, [], ◌∷◌, ◌==◌, length, c_str,
  if◌then◌else◌,
}
use miqudm.Os.{
  Call, pam_start, pam_set_conv, pam_authenticate, pam_acct_mgmt, pam_establish_cred,
  pam_delete_cred, pam_open_session, pam_close_session, pam_end, destroy_user_data, fork_session,
  succeeded, Trace,
}

-- Where the handle's conversation points: nowhere, to a password that exists, to one that is gone.
pub data Conversation : Type 0 where
  unset valid dangling : Conversation

pub record PamStatus : Type 0 where
  pub live : Bool
  pub authenticated : Bool
  pub account_valid : Bool
  pub session : Bool
  pub cred : Bool
  pub conversation : Conversation
  -- For whom the transaction was started.
  pub user : Text

abbrev pub closed : PamStatus
closed = record {
  live = false;
  authenticated = false;
  account_valid = false;
  session = false;
  cred = false;
  conversation = unset;
  user = [];
}

abbrev pub started : Text → PamStatus
started username = record closed { live = true; user = username }

abbrev pub ended_conversation : Conversation → Conversation
ended_conversation unset = unset
ended_conversation valid = dangling
ended_conversation dangling = dangling

-- One call, made when `n` calls had been made; `ok` is its success. A session or credentials are left
-- once their release is asked for, also where that call fails: `PamAuth` does not try again.
unfoldable pub pam_step : ℕ → ℕ → Bool → PamStatus → Call → PamStatus
pam_step h n ok s (pam_start _ username) = if n == h && ok then started username else s
pam_step h n ok s (pam_set_conv k _) = if k == h && ok then record s { conversation = valid } else s
pam_step h n ok s (pam_authenticate k) = if k == h then record s { authenticated = ok } else s
pam_step h n ok s (pam_acct_mgmt k) = if k == h then record s { account_valid = ok } else s
pam_step h n ok s (destroy_user_data k) =
    if k == h then record s { conversation = ended_conversation s.conversation } else s
pam_step h n ok s (pam_establish_cred k) = if k == h && ok then record s { cred = true } else s
pam_step h n ok s (pam_delete_cred k) = if k == h then record s { cred = false } else s
pam_step h n ok s (pam_open_session k) = if k == h && ok then record s { session = true } else s
pam_step h n ok s (pam_close_session k) = if k == h then record s { session = false } else s
pam_step h n ok s (pam_end k) = if k == h then record s { live = false } else s
pam_step h n ok s _ = s

-- The status of handle `h` after a run.
unfoldable pub status : ℕ → Trace → PamStatus
unfolding pam_step
status h [] = closed
status h (e ∷ t) = pam_step h (length t) (succeeded e.result) (status h t) e.call

-- The transaction has let in the user with this name as a C string: authenticated, with a valid account, credentials and a session.
unfoldable pub is_granted : Text → PamStatus → Bool
is_granted username s =
    text_eq s.user (c_str username)
    && s.live
    && s.authenticated
    && s.account_valid
    && s.cred
    && s.session

-- Some handle below `n` has let the user in.
unfoldable pub any_granted : Text → ℕ → Trace → Bool
any_granted username zero t = false
any_granted username (suc n) t = is_granted username (status n t) || any_granted username n t

unfoldable pub guarded_step : Bool → Trace → Call → Bool
guarded_step b t (fork_session user _ _ _) = b && any_granted user.username (length t) t
guarded_step b t _ = b

-- Whenever the process of a user's session was forked, PAM had let that user in.
unfoldable pub guarded : Trace → Bool
unfolding guarded_step
guarded [] = true
guarded (e ∷ t) = guarded_step (guarded t) t e.call

-- Something is left to release: the handle, a session, or credentials.
abbrev pub is_open : PamStatus → Bool
is_open s = s.live || s.session || s.cred
