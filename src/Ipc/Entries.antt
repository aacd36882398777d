-- ===== src/Ipc/Entries.antt =====
-- The users and sessions of a message, `IpcMessage::deserialize` behind `IpcMessage::serialize`,
-- common/ipc.cpp.
use native.Mathlib.Nat.{mod-eq_of_lt}
use miqudm.Prelude.{
  ℕ, ◌^◌, ◌<◌, ◌≡◌, refl, ◌∙◌, true, List, [], ◌∷◌, some, Text, codes, text_eq, All,
}
use miqudm.Users.{UserInfo}
use miqudm.Sessions.{SessionInfo}
use miqudm.Ipc.Library.{Json, JsonLaws}
use miqudm.Ipc.Objects.{Members, build, member, get_text-build, get_bool-build, get-build}
use miqudm.Ipc.{user_value, session_value, get_text, get_id, user_from, session_from}

-- A user whose numbers fit `uid_t` and `gid_t`.
abbrev pub HasIds : UserInfo → Type 0
HasIds u = (u.uid < 2 ^ 32) × (u.gid < 2 ^ 32)

pub All-true {ℓ} : {A : Type ℓ} (xs : List A) → All (λ _. Unit {0}) xs
All-true [] = tt
All-true (x ∷ xs) = (tt, All-true xs)

module _ (j : Json) (laws : JsonLaws j) where
  open j use {Value, null, string, boolean, number, array, set}
  open laws use {as_string-string, as_bool-boolean, as_uint64-number}

  pub get_id-number :
      (k : Text) (n : ℕ) (l : Members j laws)
      → n < 2 ^ 32
      → member j laws k l (number 0) ≡ number n
      → get_id j k (build j laws l) ≡ some n
  unfolding get_id
  get_id-number k n l h e =
      rw (get-build j laws l k (number 0), e, as_uint64-number, mod-eq_of_lt h)

  user_members : UserInfo → Members j laws
  user_members u =
      (codes "shell", string u.shell)
      ∷ (codes "gid", number u.gid)
      ∷ (codes "uid", number u.uid)
      ∷ (codes "avatar_path", string u.avatar_path)
      ∷ (codes "home_dir", string u.home_dir)
      ∷ (codes "display_name", string u.display_name)
      ∷ (codes "username", string u.username)
      ∷ []

  user_value-build : (u : UserInfo) → user_value j u ≡ build j laws (user_members u)
  unfolding user_value user_members
  user_value-build u = refl

  -- A text member that is found.
  pub text_found :
      (k d s : Text) (l : Members j laws)
      → member j laws k l (string d) ≡ string s
      → get_text j k d (build j laws l) ≡ some s
  text_found k d s l e = get_text-build j laws k d l ∙ rw e (as_string-string s)

  pub user_round_trip : (u : UserInfo) → HasIds u → user_from j (user_value j u) ≡ some u
  unfolding user_from text_eq user_members
  user_round_trip u h =
      let l = user_members u in
      rw (
        user_value-build u,
        text_found (codes "username") [] u.username l refl,
        text_found (codes "display_name") [] u.display_name l refl,
        text_found (codes "home_dir") [] u.home_dir l refl,
        text_found (codes "avatar_path") [] u.avatar_path l refl,
        get_id-number (codes "uid") u.uid l h.0 refl,
        get_id-number (codes "gid") u.gid l h.1 refl,
        text_found (codes "shell") (codes "/bin/bash") u.shell l refl,
      )

  session_members : SessionInfo → Members j laws
  session_members s =
      (codes "is_wayland", boolean s.is_wayland)
      ∷ (codes "desktop_file", string s.desktop_file)
      ∷ (codes "desktop_names", string s.desktop_names)
      ∷ (codes "comment", string s.comment)
      ∷ (codes "exec", string s.exec)
      ∷ (codes "name", string s.name)
      ∷ (codes "id", string s.id)
      ∷ []

  session_value-build : (s : SessionInfo) → session_value j s ≡ build j laws (session_members s)
  unfolding session_value session_members
  session_value-build s = refl

  pub session_round_trip : (s : SessionInfo) → session_from j (session_value j s) ≡ some s
  unfolding session_from text_eq session_members
  session_round_trip s =
      let l = session_members s in
      rw (
        session_value-build s,
        text_found (codes "id") [] s.id l refl,
        text_found (codes "name") [] s.name l refl,
        text_found (codes "exec") [] s.exec l refl,
        text_found (codes "comment") [] s.comment l refl,
        text_found (codes "desktop_names") [] s.desktop_names l refl,
        text_found (codes "desktop_file") [] s.desktop_file l refl,
        get_bool-build j laws (codes "is_wayland") true l,
        as_bool-boolean s.is_wayland,
      )
