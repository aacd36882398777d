-- ===== src/Logind.antt =====
-- daemon/logind.hpp and daemon/logind.cpp: `LogindManager`, the connection to the system bus.
use miqudm.Prelude.{ℕ, Bool, true, false, not, Text, codes, is_neg, if◌then◌else◌}
use miqudm.Os.{Os, Call, bus_open, bus_unref, bus_call, bus_switch_to, M, pure, ◌>>=◌, ◌>>◌, call}

-- Whether `m_bus` is set.
pub record Logind : Type 0 where
  pub bus : Bool

module _ (os : Os) where
  connect : M (Bool × Logind)
  connect = do
    ret ← call os bus_open
    pure (if is_neg ret then (false, record { bus = false }) else (true, record { bus = true }))

  -- `LogindManager::init`.
  unfoldable pub init : Logind → M (Bool × Logind)
  unfolding connect
  init l = if l.bus then pure (true, l) else connect

  -- `LogindManager::shutdown`.
  unfoldable pub shutdown : Logind → M Logind
  shutdown l = if l.bus then (do call os bus_unref; pure (record { bus = false })) else pure l

  -- A method call behind `init`; the reply and the error are released.
  call_bus : Call → Logind → M (Bool × Logind)
  unfolding init
  call_bus c l = do
    ready ← init l
    if ready.0
        then (do ret ← call os c; pure (not (is_neg ret), ready.1))
        else pure (false, ready.1)

  -- `LogindManager::call_manager_method`.
  unfoldable pub call_manager_method : Text → Bool → Logind → M (Bool × Logind)
  unfolding call_bus
  call_manager_method method interactive l = call_bus (bus_call method interactive) l

  unfoldable pub power_off : Bool → Logind → M (Bool × Logind)
  unfolding call_manager_method
  power_off interactive l = call_manager_method (codes "PowerOff") interactive l

  unfoldable pub reboot : Bool → Logind → M (Bool × Logind)
  unfolding call_manager_method
  reboot interactive l = call_manager_method (codes "Reboot") interactive l

  unfoldable pub suspend : Bool → Logind → M (Bool × Logind)
  unfolding call_manager_method
  suspend interactive l = call_manager_method (codes "Suspend") interactive l

  unfoldable pub hibernate : Bool → Logind → M (Bool × Logind)
  unfolding call_manager_method
  hibernate interactive l = call_manager_method (codes "Hibernate") interactive l

  -- `LogindManager::switch_to_vt`.
  unfoldable pub switch_to_vt : ℕ → Logind → M (Bool × Logind)
  unfolding call_bus
  switch_to_vt vt_number l = call_bus (bus_switch_to vt_number) l
