-- ===== src/Daemon/Requests/Power.antt =====
-- Power actions, `handle_power_action` of daemon/daemon.cpp over daemon/logind.cpp.
use miqudm.Prelude.{
  ◌≡◌, refl, ◌⊎◌, Bool, true, false, List, [], ◌∷◌, Option, none, some, Text, codes, text_eq, arith,
  if◌then◌else◌,
}
use miqudm.Os.{Os, Trace, Call, M, pure, bus_call}
use miqudm.Logind
use miqudm.Logind.{Logind}
use miqudm.Ipc.Library.{Json}
use miqudm.Daemon.Requests.{trigger}

-- The methods that were called on the bus, newest first.
unfoldable pub bus_method : Call → List Text → List Text
bus_method (bus_call method interactive) ms = method ∷ ms
bus_method _ ms = ms

unfoldable pub bus_methods : Trace → List Text
unfolding bus_method
bus_methods [] = []
bus_methods (e ∷ t) = bus_method e.call (bus_methods t)

-- The method of logind that an action stands for.
unfoldable pub method_of : Text → Option Text
method_of action =
    if text_eq action (codes "poweroff")
    then some (codes "PowerOff")
    else if text_eq action (codes "reboot")
    then some (codes "Reboot")
    else if text_eq action (codes "suspend")
    then some (codes "Suspend")
    else if text_eq action (codes "hibernate")
    then some (codes "Hibernate")
    else none

-- What an attempt to call a method gives: it succeeded, the method was called and the connection is kept;
-- or it failed, and no other method was called.
abbrev pub Attempts : Text → Trace → (Bool × Logind) × Trace → Type 0
Attempts m t r =
    ((r.0.0 ≡ true) × (bus_methods r.1 ≡ m ∷ bus_methods t) × (r.0.1.bus ≡ true))
    ⊎ ((r.0.0 ≡ false)
        × ((bus_methods r.1 ≡ bus_methods t) ⊎ (bus_methods r.1 ≡ m ∷ bus_methods t)))

-- A word that stands for no method does nothing, and fails.
abbrev pub Triggers : Option Text → Logind → Trace → (Bool × Logind) × Trace → Type 0
Triggers none l t r = r ≡ ((false, l), t)
Triggers (some m) l t r = Attempts m t r

if-Triggers :
    (b : Bool) (m : Text) (o : Option Text) (p q : M (Bool × Logind)) (l : Logind) (t : Trace)
    → Attempts m t (p t)
    → Triggers o l t (q t)
    → Triggers (if b then some m else o) l t ((if b then p else q) t)
if-Triggers true m o p q l t x y = x
if-Triggers false m o p q l t x y = y

module _ (os : Os) where
  call_manager_method-Attempts :
      (m : Text) (interactive : Bool) (l : Logind) (t : Trace)
      → Attempts m t (Logind.call_manager_method os m interactive l t)
  unfolding Logind.call_manager_method Logind.init bus_methods
  call_manager_method-Attempts m interactive l t = ground arith

  -- An action is one of four words, whatever the state of the connection: its own method of logind is
  -- called or the action fails, with success only behind that call, and no other method is called. Any
  -- other word calls nothing and fails.
  pub trigger-Triggers :
      (j : Json) (action : Text) (l : Logind) (t : Trace)
      → Triggers (method_of action) l t (trigger os j action l t)
  unfolding trigger Logind.power_off Logind.reboot Logind.suspend Logind.hibernate method_of
  trigger-Triggers j action l t =
      let attempt = λ (m : Text). call_manager_method-Attempts m false l t in
      if-Triggers (text_eq action (codes "poweroff")) _ _ (Logind.power_off os false l) _ l t
        (attempt (codes "PowerOff"))
        (if-Triggers (text_eq action (codes "reboot")) _ _ (Logind.reboot os false l) _ l t
          (attempt (codes "Reboot"))
          (if-Triggers (text_eq action (codes "suspend")) _ _ (Logind.suspend os false l) _ l t
            (attempt (codes "Suspend"))
            (if-Triggers (text_eq action (codes "hibernate")) (codes "Hibernate") none
              (Logind.hibernate os false l) (pure (false, l)) l t (attempt (codes "Hibernate"))
              refl)))
