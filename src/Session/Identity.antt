-- ===== src/Session/Identity.antt =====
-- As whom the processes of daemon/session.cpp and daemon/daemon.cpp run: the ids that a process has
-- taken, read off its run, and the programs that it has become.
use miqudm.Prelude.{ℕ, ◌≡◌, Bool, true, false, [], ◌∷◌, Option, none, some, Text, if◌then◌else◌}
use miqudm.Os.{Call, initgroups, setgid, setuid, execl, Trace, succeeded}

-- `none` is what the daemon itself has: the superuser's.
pub record Identity : Type 0 where
  pub groups : Option (Text × ℕ)
  pub gid : Option ℕ
  pub uid : Option ℕ

abbrev pub inherited : Identity
inherited = record { groups = none; gid = none; uid = none }

unfoldable pub take_id : Bool → Call → Identity → Identity
take_id ok (initgroups name gid) i = if ok then record i { groups = some (name, gid) } else i
take_id ok (setgid gid) i = if ok then record i { gid = some gid } else i
take_id ok (setuid uid) i = if ok then record i { uid = some uid } else i
take_id ok _ i = i

unfoldable pub identity : Trace → Identity
unfolding take_id
identity [] = inherited
identity (e ∷ t) = take_id (succeeded e.result) e.call (identity t)

unfoldable pub is_exec : Call → Bool
is_exec (execl _) = true
is_exec _ = false

-- Every `execl` of the run was called with this identity.
abbrev pub ExecsAs : Identity → Trace → Type 0
ExecsAs i [] = Unit
ExecsAs i (e ∷ t) = (is_exec e.call ≡ true → identity t ≡ i) × ExecsAs i t
