-- ===== src/Tests/Launcher.antt =====
-- The theorems on the processes that the daemon starts at concrete inputs. Models no code of its own.
use miqudm.Prelude.{
  split_first, text_eq, List, Option, Text, ◌≡◌, ◌≤◌, ◌+◌, ◌⊎◌, length, refl, false, [], ◌∷◌, none,
  some, codes, pos, eq_ℤ, is_pos,
}
use miqudm.Tests.World.{world, stuck, result, no_setuid, fresh, alice, passwd}
use miqudm.Os.{waitpid, exited}
use miqudm.Sessions.{default_session}
use miqudm.Session.{SessionLauncher, session_child, enter_environment, wait_for_exit, terminate}
use miqudm.Session.Identity.{Identity, ExecsAs}
use miqudm.Session.Child.{identity_of, session_child-ExecsAs}
use miqudm.Session.Environment.{env}
use miqudm.Session.Environment.Variables.{
  Variables-swap, session_variable, enter_environment-session_variable,
}
use mathlib.Core.Quot
use miqudm.Session.Wait.{Waited, after_interrupts, wait_for_exit-result}
use miqudm.Session.Terminate.{signals, running_polls, terminated, killed, terminate-escalates}
use miqudm.Daemon.Greeter.{greeter_child}
use miqudm.Daemon.Greeter.Root.{Executed, shell_line, greeter_child-superuser}

session_child-ExecsAs_example :
    ExecsAs (identity_of alice) (session_child world alice default_session [] (pos 1) []).1
session_child-ExecsAs_example = session_child-ExecsAs world alice default_session [] (pos 1)

abbrev shell_env : List Text
shell_env = codes "XDG_SESSION_ID=1" ∷ codes "LANG=de" ∷ []

abbrev same_env : List Text
same_env = codes "LANG=de" ∷ codes "XDG_SESSION_ID=1" ∷ []

abbrev after_env : List Text → Text → Option Text
after_env envs k = env k (enter_environment world alice default_session envs (pos 1) []).1

enter_environment-session_variable_example :
    (after_env same_env (codes "LANG")
      ≡ session_variable alice default_session (pos 1) (codes "LANG") (Quot.mk same_env))
    × (after_env shell_env (codes "LANG") ≡ after_env same_env (codes "LANG"))
unfolding result split_first text_eq
enter_environment-session_variable_example =
    enter_environment-session_variable world (λ t j v. refl) alice default_session same_env
      shell_env (pos 1) [] (codes "LANG")
      (Variables-swap (codes "XDG_SESSION_ID") (codes "1") (codes "LANG") (codes "de")
        (codes "XDG_SESSION_ID=1") (codes "LANG=de") [] refl refl refl)

abbrev running : SessionLauncher
running = record { session_pid = pos 42 }

wait_for_exit-result_example :
    let t' = after_interrupts 1 (pos 42) [] in
    Waited
      (eq_ℤ (world.ret t' (waitpid (pos 42))) (pos 42))
      (exited 3)
      (wait_for_exit world running []).0.0
    × (is_pos (wait_for_exit world running []).0.1.session_pid ≡ false)
wait_for_exit-result_example = wait_for_exit-result world running [] refl

terminate-escalates_example :
    (length (terminate world running []).1 ≤ 0 + 46)
    × (is_pos (terminate world running []).0.session_pid ≡ false)
    × ((signals (terminate world running []).1 ≡ terminated world running refl (signals []))
        ⊎ ((signals (terminate world running []).1
              ≡ killed world running refl (terminated world running refl (signals [])))
            × (running_polls (terminate world running []).1 ≡ running_polls [] + 21)))
terminate-escalates_example = terminate-escalates world running refl []

greeter_child-superuser_example :
    Executed
      (shell_line fresh.config.general.greeter_command)
      (greeter_child stuck fresh (some passwd) []).1
    × ((i : Identity) × ((i.uid ≡ none) × ExecsAs i (greeter_child stuck fresh (some passwd) []).1))
unfolding no_setuid
greeter_child-superuser_example = greeter_child-superuser stuck fresh passwd (λ t. refl)
