-- ===== src/Daemon/Login/Users.antt =====
-- Which account `handle_login_request` of daemon/daemon.cpp launches a session for.
use miqudm.Prelude.{
  ℕ, some, get_elem?, find_if, find_if-alone, text_eq, text_eq_refl, text_eq_iff, has, c_str, ◌≡◌,
  refl, ap, sym, ◌∙◌, true, false, List, [], ◌∷◌, ◌++◌, Text, ℤ, All, arith, Bool-cases, inl, inr,
}
use miqudm.Users.{UserInfo}
use miqudm.Sessions.{SessionInfo}
use miqudm.Os.{Os, Trace}
use miqudm.Pam.{new_pam, start}
use miqudm.Session.{session_child}
use miqudm.Session.Identity.{Identity, ExecsAs}
use miqudm.Session.Child.{identity_of, session_child-ExecsAs}
use miqudm.Daemon.Login.{find_user}

-- A user of the list who alone has the name is the one that a session is launched for.
pub find_user-chosen :
    (users : List UserInfo) (i : ℕ) (u : UserInfo)
    → get_elem? users i ≡ some u
    → ((k : ℕ) (v : UserInfo) → get_elem? users k ≡ some v → v.username ≡ u.username → v ≡ u)
    → find_user u.username users ≡ u
unfolding find_user
find_user-chosen users i u at_i alone =
    let found =
      find_if-alone (λ v. text_eq v.username u.username) users i u at_i (text_eq_refl u.username)
        (λ k v at_k m. alone k v at_k ((text_eq_iff v.username u.username).0 m)) in
    ground arith

-- A name that goes on behind a zero byte.
abbrev pub continued : Text → Text → Text
continued name rest = name ++ 0 ∷ rest

c_str-continued : (name rest : Text) → has 0 name ≡ false → c_str (continued name rest) ≡ c_str name
unfolding c_str has
c_str-continued [] rest h = refl
c_str-continued (b ∷ name) rest h = let more = c_str-continued name rest in ground arith

has-continued : (name rest : Text) → has 0 (continued name rest) ≡ true
unfolding has
has-continued [] rest = refl
has-continued (b ∷ name) rest = let more = has-continued name rest in ground arith

unlike-continued :
    (name rest other : Text) → has 0 other ≡ false → text_eq other (continued name rest) ≡ false
unlike-continued name rest other h = elim (Bool-cases (text_eq other (continued name rest))) [
  | inl same ↦
      let e = (text_eq_iff other (continued name rest)).0 same in
      absurd (let z = sym (has-continued name rest) ∙ ap (has 0) (sym e) ∙ h in cc)
  | inr other ↦ other
]

find_user-continued :
    (name rest : Text) (users : List UserInfo)
    → All (λ u. has 0 u.username ≡ false) users
    → ((find_user (continued name rest) users).uid ≡ 0)
      × ((find_user (continued name rest) users).gid ≡ 0)
unfolding find_user find_if
find_user-continued name rest [] others = (refl, refl)
find_user-continued name rest (u ∷ us) (other, others) =
    let more = find_user-continued name rest us others in
    let unlike = unlike-continued name rest u.username other in ground arith

-- Of a name, PAM sees only the C string.
start-c_str :
    (os : Os) (a b service : Text) (t : Trace)
    → c_str a ≡ c_str b
    → (start os new_pam a service t).1 ≡ (start os new_pam b service t).1
unfolding start
start-c_str os a b service t same = ground arith

-- A login with a user's name that goes on behind a zero byte starts the same transaction of PAM as the
-- name itself, call by call. But no listed user has that name, since theirs have no zero byte, so the
-- session's process executes its programs, if any, with the user id 0 and the group id 0, the
-- superuser's, whoever the user is.
pub continued-root :
    (os : Os) (name rest service : Text) (users : List UserInfo) (t : Trace) (session : SessionInfo)
    (envs : List Text) (vt : ℤ)
    → has 0 name ≡ false
    → All (λ u. has 0 u.username ≡ false) users
    → let sent = continued name rest in
      ((start os new_pam sent service t).1 ≡ (start os new_pam name service t).1)
      × ((i : Identity) × (i.uid ≡ some 0)
          × (i.gid ≡ some 0)
          × ExecsAs i (session_child os (find_user sent users) session envs vt []).1)
continued-root os name rest service users t session envs vt clean listed =
    let same = c_str-continued name rest clean in
    let user = find_user (continued name rest) users in
    let ids = find_user-continued name rest users listed in
    (
      start-c_str os _ name service t same,
      (
        identity_of user,
        ap some ids.0,
        ap some ids.1,
        session_child-ExecsAs os user session envs vt,
      ),
    )
