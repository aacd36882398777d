-- ===== src/Pam/Progress.antt =====
-- What a successful method of daemon/pam_auth.cpp has done to its handle, and what it leaves as it was.
use miqudm.Prelude.{
  ℕ, suc, ap, map, ◌<◌, ◌≤◌, ◌≡◌, refl, true, length, List, [], ◌∷◌, none, some, Text, arith,
  if◌then◌else◌, c_str,
}
use miqudm.Os.{Os, Trace, succeeded, pam_start}
use miqudm.Pam.Status.{status, dangling}
use miqudm.Pam.{
  PamAuth, MessageStyle, conv_err, replies, answer, answers, pam_conversation, new_pam, start,
  authenticate, check_account, establish_credentials, open_session, set_env,
}

-- The object's transaction is for the user.
abbrev pub Started : Text → PamAuth → Trace → Type 0
Started username p t = (h : ℕ) × ((p.handle ≡ some h) × ((status h t).user ≡ c_str username))

abbrev pub Authenticated : Text → PamAuth → Trace → Type 0
Authenticated username p t =
    (h : ℕ) × ((p.handle ≡ some h)
      × (((status h t).user ≡ c_str username) × ((status h t).authenticated ≡ true)))

abbrev pub Checked : Text → PamAuth → Trace → Type 0
Checked username p t =
    (h : ℕ) × ((p.handle ≡ some h)
      × (((status h t).user ≡ c_str username)
          × (((status h t).authenticated ≡ true) × ((status h t).account_valid ≡ true))))

abbrev pub Established : Text → PamAuth → Trace → Type 0
Established username p t =
    (h : ℕ) × ((p.handle ≡ some h)
      × (((status h t).user ≡ c_str username)
          × (((status h t).authenticated ≡ true)
              × (((status h t).account_valid ≡ true) × ((status h t).cred ≡ true)))))

abbrev pub Opened : Text → PamAuth → Trace → Type 0
Opened username p t =
    (h : ℕ) × ((p.handle ≡ some h)
      × (((status h t).user ≡ c_str username)
          × (((status h t).authenticated ≡ true)
              × (((status h t).account_valid ≡ true)
                  × (((status h t).cred ≡ true) × ((status h t).session ≡ true))))))

module _ (os : Os) where
  pub start-Started :
      (username service : Text) (t : Trace)
      → (start os new_pam username service t).0.0 ≡ true
      → Started username
          (start os new_pam username service t).0.1
          (start os new_pam username service t).1
  unfolding start status
  start-Started username service t ok = (
    if succeeded (os.ret t (pam_start (c_str service) (c_str username)))
        then length t
        else suc (length t),
    ground arith,
  )

  pub authenticate-Authenticated :
      (username password : Text) (p : PamAuth) (t : Trace)
      → Started username p t
      → (authenticate os p password t).0.0 ≡ true
      → Authenticated username (authenticate os p password t).0.1 (authenticate os p password t).1
  unfolding authenticate status
  authenticate-Authenticated username password p t (h, (held, user)) ok = (h, ground arith)

  pub check_account-Checked :
      (username : Text) (p : PamAuth) (t : Trace)
      → Authenticated username p t
      → (check_account os p t).0.0 ≡ true
      → Checked username (check_account os p t).0.1 (check_account os p t).1
  unfolding check_account status
  check_account-Checked username p t (h, (held, facts)) ok = (h, ground arith)

  pub establish_credentials-Established :
      (username : Text) (p : PamAuth) (t : Trace)
      → Checked username p t
      → (establish_credentials os p t).0.0 ≡ true
      → Established username (establish_credentials os p t).0.1 (establish_credentials os p t).1
  unfolding establish_credentials status
  establish_credentials-Established username p t (h, (held, facts)) ok = (h, ground arith)

  pub open_session-Opened :
      (username : Text) (p : PamAuth) (t : Trace)
      → Established username p t
      → (open_session os p t).0.0 ≡ true
      → Opened username (open_session os p t).0.1 (open_session os p t).1
  unfolding open_session status
  open_session-Opened username p t (h, (held, facts)) ok = (h, ground arith)

  pub set_env-status :
      (p : PamAuth) (n v : Text) (t : Trace) (k : ℕ) → status k (set_env os p n v t).1 ≡ status k t
  unfolding set_env status
  set_env-status p n v t k = ground arith

  -- A successful `authenticate` leaves the handle with a conversation whose data is gone: the pointer
  -- goes to a local of the call.
  pub authenticate-dangling :
      (password : Text) (p : PamAuth) (t : Trace) (h : ℕ)
      → p.handle ≡ some h
      → (authenticate os p password t).0.0 ≡ true
      → (status h (authenticate os p password t).1).conversation ≡ dangling
  unfolding authenticate status
  authenticate-dangling password p t h held ok = ground arith

answers-map :
    (password : Text) (msg : List MessageStyle) → answers password msg ≡ map (answer password) msg
unfolding answers
answers-map password [] = refl
answers-map password (m ∷ ms) = ap (λ xs. answer password m ∷ xs) (answers-map password ms)

-- The conversation answers one message to 32 with as many replies, and only where it has the password;
-- a prompt gets the password and a message to show gets nothing. Any other count is refused.
pub pam_conversation-replies :
    (msg : List MessageStyle) (password : Text)
    → (pam_conversation msg none ≡ conv_err)
      × ((length msg ≡ 0 → pam_conversation msg (some password) ≡ conv_err)
          × ((32 < length msg → pam_conversation msg (some password) ≡ conv_err)
              × ((0 < length msg
                  → length msg ≤ 32
                  → pam_conversation msg (some password) ≡ replies (map (answer password) msg)))))
unfolding pam_conversation
pam_conversation-replies [] password = ground arith
pam_conversation-replies (m ∷ ms) password = let e = answers-map password (m ∷ ms) in ground arith
