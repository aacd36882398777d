-- ===== src/Daemon/Greeter/Root.antt =====
-- As whom the greeter's process of daemon/daemon.cpp runs its command.
use miqudm.Prelude.{
  ◌≡◌, refl, ◌∙◌, ◌⊎◌, inl, inr, false, ◌==◌, List, [], ◌∷◌, Option, none, some, Text, codes, arith,
  pos, is_neg,
}
use miqudm.Users.{Passwd}
use miqudm.Os.{
  Os, Trace, succeeded, setsid, clearenv, execl, initgroups, setgid, setuid, call, M, if-both,
}
use miqudm.Session.Identity.{Identity, identity, ExecsAs, is_exec}
use miqudm.Session.Child.{set_all-identity, set_all-ExecsAs, exec_or-KeepsAs, exit_with-KeepsAs}
use miqudm.Session.{set_all, env_pairs, exec_or, exit_with, executed}
use miqudm.Pam.{PamAuth, get_environment_list}
use miqudm.Daemon.{Daemon}
use miqudm.Daemon.Greeter.{
  drop_privileges, account_env, greeter_env, pam_env, greeter_directory, greeter_child,
  runtime_dir_of,
}

-- The run has called `execl` with these arguments.
abbrev pub Executed : List Text → Trace → Type 0
Executed argv [] = ⊥
Executed argv (e ∷ t) = (e.call ≡ execl argv) ⊎ Executed argv t

abbrev pub shell_line : Text → List Text
shell_line command = codes "/bin/sh" ∷ codes "sh" ∷ codes "-c" ∷ command ∷ []

module _ (os : Os) where
  -- A part of the child that takes no ids and executes nothing.
  abbrev Harmless : {A : Type 0} → M A → Type 0
  Harmless m =
      (i : Identity) (t : Trace)
      → identity t ≡ i
      → ExecsAs i t
      → (identity (m t).1 ≡ i) × ExecsAs i (m t).1

  pam_env-Harmless : (o : Option PamAuth) → Harmless (pam_env os o)
  unfolding pam_env get_environment_list identity is_exec
  pam_env-Harmless none i t e h = (e, h)
  pam_env-Harmless (some p) i t e h = ground arith

  set_all-Harmless : (kvs : List (Text × Text)) → Harmless (set_all os kvs)
  set_all-Harmless kvs i t e h = (set_all-identity os kvs t ∙ e, set_all-ExecsAs os i kvs t h)

  greeter_directory-Harmless : (account : Option Passwd) → Harmless (greeter_directory os account)
  unfolding greeter_directory identity is_exec
  greeter_directory-Harmless none i t e h = (e, ((λ x. cc), h))
  greeter_directory-Harmless (some pw) i t e h = (e, ((λ x. cc), h))

  drop_privileges-ExecsAs :
      (i : Identity) (account : Option Passwd) (t : Trace)
      → ExecsAs i t
      → ExecsAs i (drop_privileges os account t).1
  unfolding drop_privileges is_exec
  drop_privileges-ExecsAs i none t h = h
  drop_privileges-ExecsAs i (some pw) t h =
      if-both (λ r. ExecsAs i r.1) (pw.pw_uid == 0) (λ u. (pos 0, u))
        (λ (u : Trace).
          call os (setuid pw.pw_uid)
            (call os (setgid pw.pw_gid) (call os (initgroups pw.pw_name pw.pw_gid) u).1).1)
        t h ((λ e. cc), ((λ e. cc), ((λ e. cc), h)))

  drop_privileges-uid :
      (pw : Passwd) (t : Trace)
      → (identity t).uid ≡ none
      → ((u : Trace) → succeeded (os.ret u (setuid pw.pw_uid)) ≡ false)
      → (identity (drop_privileges os (some pw) t).1).uid ≡ none
  unfolding drop_privileges identity
  drop_privileges-uid pw t root fails =
      let t' = (call os (setgid pw.pw_gid) (call os (initgroups pw.pw_name pw.pw_gid) t).1).1 in
      let f = fails t' in ground arith

  -- The greeter's command is executed with the ids that `drop_privileges` has achieved by then, and
  -- no other: nothing looks at whether it achieved them.
  pub greeter_child-ExecsAs :
      (d : Daemon) (account : Option Passwd)
      → ExecsAs
          (identity (drop_privileges os account (call os setsid []).1).1)
          (greeter_child os d account []).1
  unfolding greeter_child is_exec identity
  greeter_child-ExecsAs d account =
      let t1 = (call os setsid []).1 in
      let dropped = (drop_privileges os account t1).1 in
      let i = identity dropped in
      let h1 = drop_privileges-ExecsAs i account t1 ((λ e. cc), tt) in
      let t2 = (call os clearenv dropped).1 in
      let s1 = set_all-Harmless (account_env os account) i t2 refl ((λ e. cc), h1) in
      let t3 = (set_all os (account_env os account) t2).1 in
      let vars = greeter_env os d.config.general.vt (runtime_dir_of os account) in
      let s2 = set_all-Harmless vars i t3 s1.0 s1.1 in
      let t4 = (set_all os vars t3).1 in
      let s3 = pam_env-Harmless d.greeter_pam i t4 s2.0 s2.1 in
      let envs = pam_env os d.greeter_pam t4 in
      let s4 = set_all-Harmless (env_pairs envs.0) i envs.1 s3.0 s3.1 in
      let t5 = (set_all os (env_pairs envs.0) envs.1).1 in
      let s5 = greeter_directory-Harmless account i t5 s4.0 s4.1 in
      exec_or-KeepsAs os i _ _ (exit_with-KeepsAs os i 127) (greeter_directory os account t5).1 s5.0
        s5.1

  exec_or-Executed :
      (argv : List Text) (t : Trace) → Executed argv (exec_or os argv (exit_with os 127) t).1
  unfolding exec_or exit_with
  exec_or-Executed argv t =
      if-both (λ r. Executed argv r.1) (is_neg (os.ret t (execl argv))) (exit_with os 127)
        (λ u. (executed argv, u)) (call os (execl argv) t).1 (inr (inl refl)) (inl refl)

  greeter_child-Executed :
      (d : Daemon) (account : Option Passwd)
      → Executed (shell_line d.config.general.greeter_command) (greeter_child os d account []).1
  unfolding greeter_child
  greeter_child-Executed d account = exec_or-Executed _ _

  -- Where `setuid` to the greeter's account fails, the greeter's process all the same calls `execl` for
  -- its command, with the user id that it has from the daemon, the superuser's, and with no other.
  pub greeter_child-superuser :
      (d : Daemon) (pw : Passwd)
      → ((t : Trace) → succeeded (os.ret t (setuid pw.pw_uid)) ≡ false)
      → Executed (shell_line d.config.general.greeter_command) (greeter_child os d (some pw) []).1
        × ((i : Identity) × ((i.uid ≡ none) × ExecsAs i (greeter_child os d (some pw) []).1))
  unfolding identity
  greeter_child-superuser d pw fails = (
    greeter_child-Executed d (some pw),
    (
      identity (drop_privileges os (some pw) (call os setsid []).1).1,
      (drop_privileges-uid pw (call os setsid []).1 refl fails, greeter_child-ExecsAs d (some pw)),
    ),
  )
