-- ===== src/Tests/Transactions.antt =====
-- The theorems on PAM transactions at concrete inputs. Models no code of its own.
use miqudm.Prelude.{◌≡◌, refl, true, List, [], ◌∷◌, some, codes, pos}
use miqudm.Tests.World.{world, result}
use miqudm.Os.{Trace, pam_start}
use miqudm.Pam.Status.{status, is_open, dangling}
use miqudm.Pam.Life.{
  Method, starts, authenticates, establishes_credentials, opens_session, closes_session, apply,
  life, life-no_leak, none-ne-some,
}
use miqudm.Pam.Progress.{authenticate-dangling}
use miqudm.Pam.{
  PamAuth, new_pam, start, authenticate, establish_credentials, open_session, close_session,
  end_pam, MessageStyle, prompt_echo_off,
}
use miqudm.Pam.Life as PamLife

abbrev methods : List Method
methods =
    starts (codes "alice") (codes "login")
    ∷ authenticates (codes "secret")
    ∷ establishes_credentials
    ∷ opens_session
    ∷ closes_session
    ∷ []

-- A transaction of another object is live.
abbrev other : Trace
other = record { call = pam_start (codes "login") (codes "bob"); result = pos 0 } ∷ []

life-no_leak_example : is_open (status 0 other) ≡ true
unfolding life PamLife.run apply status start authenticate establish_credentials open_session
    close_session end_pam result
life-no_leak_example = life-no_leak world methods other 0 refl

abbrev prompt : List MessageStyle
prompt = prompt_echo_off ∷ []

abbrev started_pam : PamAuth
started_pam = record new_pam { handle = some 0 }

authenticate-dangling_example :
    (status 0 (authenticate world started_pam (codes "secret") other).1).conversation ≡ dangling
unfolding authenticate result
authenticate-dangling_example =
    authenticate-dangling world (codes "secret") started_pam other 0 refl refl
