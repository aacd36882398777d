-- ===== src/Users/Scan.antt =====
-- What `UserScanner::scan_users` of common/user_scanner.hpp returns.
use mathlib.Core.Logic.Or
use mathlib.Core.List.{Mem, Mem-prop, mem-cons, mem-cons_self, mem-cons_of_mem, not-mem-nil}
use miqudm.Prelude.{
  ◌≤◌, ◌<◌, ◌≡◌, ◌⊎◌, inl, inr, refl, true, false, ◌||◌, List, [], ◌∷◌, codes, text_eq, contains,
  is_empty, All, arith, Bool-cases,
}
use miqudm.Users.{
  Passwd, UserInfo, UserSource, scan_users, scan_entries, is_interactive, user_of, fallback_user,
}

-- A user that the greeter offers: an ordinary account with a login shell and a name to show.
pub record IsOffered (u : UserInfo) : Type 0 where
  pub uid_low : 1000 ≤ u.uid
  pub uid_high : u.uid < 60000
  pub not_nobody : text_eq u.username (codes "nobody") ≡ false
  pub may_login : (contains (codes "nologin") u.shell || contains (codes "false") u.shell) ≡ false
  pub has_shell : is_empty u.shell ≡ false
  pub named : is_empty u.username ≡ false → is_empty u.display_name ≡ false

-- A user that is read off an account of the database that passes the tests.
abbrev pub Comes : UserSource → UserInfo → Type 0
Comes src u =
    (pw : Passwd) × (Mem pw src.entries) × (is_interactive pw ≡ true) × (u ≡ user_of src pw)

default_shell :
    (contains (codes "nologin") (codes "/bin/bash") || contains (codes "false") (codes "/bin/bash"))
    ≡ false
unfolding contains
default_shell = refl

module _ (src : UserSource) where
  user_of-IsOffered : (pw : Passwd) → is_interactive pw ≡ true → IsOffered (user_of src pw)
  unfolding user_of is_interactive
  user_of-IsOffered pw h = ground (arith, default_shell)

  scan_entries-IsOffered : (pws : List Passwd) → All IsOffered (scan_entries src pws)
  unfolding scan_entries
  scan_entries-IsOffered [] = tt
  scan_entries-IsOffered (pw ∷ rest) = elim (Bool-cases (is_interactive pw)) [
    | inl offered ↦ rw offered (user_of-IsOffered pw offered, scan_entries-IsOffered rest)
    | inr hidden ↦ rw hidden (scan_entries-IsOffered rest)
  ]

  scan_entries-mem :
      (pws : List Passwd) {pw : Passwd}
      → Mem pw pws
      → is_interactive pw ≡ true
      → Mem (user_of src pw) (scan_entries src pws)
  unfolding scan_entries
  scan_entries-mem [] m h = absurd (not-mem-nil m)
  scan_entries-mem (x ∷ rest) {pw} m h =
      Or.elim Mem-prop (mem-cons.0 m) (λ e. rw (← e, h) (mem-cons.1 (Or.inl refl)))
        (λ later. elim (Bool-cases (is_interactive x)) [
          | inl offered ↦ rw offered (mem-cons.1 (Or.inr (scan_entries-mem rest later h)))
          | inr hidden ↦ rw hidden (scan_entries-mem rest later h)
        ])

  scan_entries-none :
      (pws : List Passwd)
      → is_empty (scan_entries src pws) ≡ true
      → All (λ pw. is_interactive pw ≡ false) pws
  unfolding scan_entries
  scan_entries-none [] e = tt
  scan_entries-none (pw ∷ rest) e = ground (arith, scan_entries-none rest)

  mem-not-empty : {u : UserInfo} (us : List UserInfo) → Mem u us → is_empty us ≡ false
  mem-not-empty [] m = absurd (not-mem-nil m)
  mem-not-empty (u ∷ us) m = refl

  scan_users-mem :
      (pw : Passwd)
      → Mem pw src.entries
      → is_interactive pw ≡ true
      → Mem (user_of src pw) (scan_users src)
  unfolding scan_users
  scan_users-mem pw m h =
      let found = scan_entries-mem src.entries m h in rw (mem-not-empty _ found) found

  scan_entries-Comes :
      (pws : List Passwd)
      → ((pw : Passwd) → Mem pw pws → Mem pw src.entries)
      → All (Comes src) (scan_entries src pws)
  unfolding scan_entries
  scan_entries-Comes [] within = tt
  scan_entries-Comes (pw ∷ rest) within =
      let later = scan_entries-Comes rest (λ x m. within x (mem-cons_of_mem pw m)) in
      elim (Bool-cases (is_interactive pw)) [
        | inl offered ↦ rw offered ((pw, within pw mem-cons_self, offered, refl), later)
        | inr hidden ↦ rw hidden later
      ]

  All-both :
      {A : Type 0} (P Q : A → Type 0) (xs : List A) → All P xs → All Q xs → All (λ x. P x × Q x) xs
  All-both P Q [] p q = tt
  All-both P Q (x ∷ xs) p q = ((p.0, q.0), All-both P Q xs p.1 q.1)

  scan_users-Comes :
      All (λ u. IsOffered u × Comes src u) (scan_users src)
      ⊎ ((scan_users src ≡ fallback_user src ∷ [])
          × All (λ pw. is_interactive pw ≡ false) src.entries)
  unfolding scan_users
  scan_users-Comes = elim (Bool-cases (is_empty (scan_entries src src.entries))) [
    | inl nobody ↦ inr (rw nobody, scan_entries-none src.entries nobody)
    | inr some_user ↦ inl (
        rw some_user (
          All-both IsOffered (Comes src) _ (scan_entries-IsOffered src.entries)
            (scan_entries-Comes src.entries (λ pw m. m))))
  ]

  scan_users-All :
      (pws : List Passwd)
      → ((pw : Passwd) → Mem pw pws → Mem pw src.entries)
      → All (λ pw. (is_interactive pw ≡ false) ⊎ Mem (user_of src pw) (scan_users src)) pws
  scan_users-All [] within = tt
  scan_users-All (pw ∷ rest) within = (
    elim (Bool-cases (is_interactive pw)) [
      | inl offered ↦ inr (scan_users-mem pw (within pw mem-cons_self) offered)
      | inr hidden ↦ inl hidden
    ],
    scan_users-All rest (λ x m. within x (mem-cons_of_mem pw m)),
  )

  -- Each account of the database that passes the tests is among the users returned, with its fields.
  -- And every user returned comes from such an account, which is an ordinary one that may log in and has
  -- a name to show; or the database has no such account, and the only user is the one that runs the
  -- program.
  pub scan_users-exact :
      All (λ pw. (is_interactive pw ≡ false) ⊎ Mem (user_of src pw) (scan_users src)) src.entries
      × (All (λ u. IsOffered u × Comes src u) (scan_users src)
          ⊎ ((scan_users src ≡ fallback_user src ∷ [])
              × All (λ pw. is_interactive pw ≡ false) src.entries))
  scan_users-exact = (scan_users-All src.entries (λ pw m. m), scan_users-Comes)
