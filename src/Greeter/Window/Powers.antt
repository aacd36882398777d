-- ===== src/Greeter/Window/Powers.antt =====
-- The buttons of the window of greeter/greeter_app.cpp, and what the daemon (daemon/daemon.cpp) and
-- logind do when one is pressed.
use miqudm.Prelude.{
  ◌⊎◌, inl, inr, Bool, subst, ◌≡◌, refl, true, false, List, [], ◌∷◌, map, Option, none, some, Text,
  codes, text_eq, All, ℤ, if◌then◌else◌, ◌∙◌, ap,
}
use miqudm.Os.{Os, Trace}
use miqudm.Ipc.{IpcMessage}
use miqudm.Ipc.Library.{Json}
use miqudm.Daemon.{Daemon}
use miqudm.Daemon.Login.{reply_of, send}
use miqudm.Daemon.Requests.{
  trigger, power_message, handle_power_action, process_message, process_type,
}
use miqudm.Logind.{Logind}
use miqudm.Daemon.Requests.Power.{bus_methods, method_of, Attempts, Triggers, trigger-Triggers}
use miqudm.Daemon.Replies.{Fork}
use miqudm.Daemon.Replies.Silent.{trigger-IsSilent}
use miqudm.Daemon.Replies.Verdict.{Answers, before, send-Answers}
use miqudm.Greeter.Client.{Connection, power_request}
use miqudm.Greeter.App.{
  GreeterApp, Action, Result, done, throws, out_of_bounds, respond, login_clicked, sleep_clicked,
  reboot_clicked, shutdown_clicked,
}
use miqudm.Greeter.App.Ready.{Ensures, IsReady}
use miqudm.Greeter.App.Requests.{IsAsked, chosen_login, add_request, respond-IsAsked}
use miqudm.Greeter.Widget.{Setting, text, on_click, button, Widget, widgets}
use miqudm.Greeter.Window.{Clock, window_of, sleep_sign, reboot_sign, shutdown_sign}

abbrev add_label : Setting → Text → Text
add_label (text s) rest = s
add_label _ rest = rest

abbrev label_of : List Setting → Text
label_of [] = []
label_of (s ∷ ss) = add_label s (label_of ss)

abbrev add_listener : Setting → Option Action → Option Action
add_listener (on_click act) rest = some act
add_listener _ rest = rest

abbrev listener_of : List Setting → Option Action
listener_of [] = none
listener_of (s ∷ ss) = add_listener s (listener_of ss)

abbrev add_button : Widget → List (Text × Option Action) → List (Text × Option Action)
add_button (button, ss) bs = (label_of ss, listener_of ss) ∷ bs
add_button _ bs = bs

-- The buttons among the widgets: what is on each, and what a click on it does, if anything.
abbrev pub buttons : List Widget → List (Text × Option Action)
buttons [] = []
buttons (w ∷ ws) = add_button w (buttons ws)

-- The method of logind that a sign stands for; a button with another text logs in.
abbrev pub method_of_label : Text → Option Text
method_of_label s =
    if text_eq s sleep_sign
    then some (codes "Suspend")
    else if text_eq s reboot_sign
    then some (codes "Reboot")
    else if text_eq s shutdown_sign
    then some (codes "PowerOff")
    else none

-- No session is forked, no other method is called, and the reply tells how it came out: with success
-- only where the method was called.
abbrev pub Calls : Text → Trace → Trace → IpcMessage → List Fork → Type 0
Calls method t t' resp fs =
    (fs ≡ [])
    × (((resp ≡ reply_of true (codes "Power action triggered"))
          × (bus_methods t' ≡ method ∷ bus_methods t))
        ⊎ ((resp ≡ reply_of false (codes "Failed to execute power action"))
            × ((bus_methods t' ≡ bus_methods t) ⊎ (bus_methods t' ≡ method ∷ bus_methods t))))

abbrev pub click : Json → Connection → Option Action → GreeterApp → Result GreeterApp
click j c none a = done a
click j c (some act) a = respond j c act a

module _ (os : Os) (j : Json) (d : Daemon) (fd : ℤ) (t : Trace) where
  -- One request is sent, and the daemon that reads it answers it once and calls the method.
  abbrev pub Pressed : GreeterApp → Option Text → GreeterApp → Type 0
  Pressed a none b = b.sent ≡ add_request (chosen_login a) a.sent
  Pressed a (some method) b =
      (req : IpcMessage) × (b.sent ≡ req ∷ a.sent)
      × (let t' = (process_message os j d fd req t).1 in Answers j (Calls method t t') fd t t')

  -- The reply, and then the run with it, tell how the attempt came out.
  reply-Calls :
      (method : Text) (r : (Bool × Logind) × Trace)
      → Attempts method t r
      → Calls method t
          (send os j fd (reply_of r.0.0 (power_message os j r.0.0)) r.1).1
          (reply_of r.0.0 (power_message os j r.0.0))
          []
  unfolding send bus_methods
  reply-Calls method r (inl (ok, called, kept)) =
      (refl, inl (ap (λ b. reply_of b (power_message os j b)) ok, called))
  reply-Calls method r (inr (failed, called)) =
      (refl, inr (ap (λ b. reply_of b (power_message os j b)) failed, called))

  power_request-Calls :
      (action method : Text)
      → method_of action ≡ some method
      → let t' = (process_message os j d fd (power_request action) t).1 in
        Answers j (Calls method t t') fd t t'
  unfolding process_message process_type handle_power_action
  power_request-Calls action method e =
      let r = trigger os j action d.logind t in
      before (trigger-IsSilent os j action d.logind t) (
        send-Answers os j _ fd _ r.1 (
          reply-Calls method r
            (subst (λ m. Triggers m d.logind t r) e (trigger-Triggers os j action d.logind t))))

  -- A button that asks for an action in a greeter that is not in test mode.
  asked :
      (a b : GreeterApp) (req : Option IpcMessage)
      → a.test_mode ≡ false
      → IsAsked a req b
      → b.sent ≡ add_request req a.sent
  asked a b req live k = k.sent ∙ rw live refl

  asked-Pressed :
      (a : GreeterApp) (r : Result GreeterApp)
      → a.test_mode ≡ false
      → Ensures (IsAsked a (chosen_login a)) r
      → Ensures (Pressed a none) r
  asked-Pressed a (done b) live k = asked a b _ live k
  asked-Pressed a throws live k = k
  asked-Pressed a out_of_bounds live k = k

  power-Pressed :
      (a : GreeterApp) (r : Result GreeterApp) (action method : Text)
      → method_of action ≡ some method
      → a.test_mode ≡ false
      → Ensures (IsAsked a (some (power_request action))) r
      → Ensures (Pressed a (some method)) r
  power-Pressed a (done b) action method e live k =
      (power_request action, asked a b _ live k, power_request-Calls action method e)
  power-Pressed a throws action method e live k = k
  power-Pressed a out_of_bounds action method e live k = k

  -- The window has four buttons, with a sign for sleep, one for a reboot, one for the shutdown, and
  -- "Sign In". In a ready greeter that is not in test mode, a press of any of them returns, or an
  -- exception of the client leaves it; where it returns, one request was sent. For a button with one of
  -- the three signs, the daemon that reads the request, at any point of its run, answers it once and
  -- forks no session, with success only where the sign's method of logind was called on the bus, and it
  -- calls no other. "Sign In" asks for the login of the selection, if there is one.
  pub window_of-Pressed :
      (clock : Clock) (c : Connection) (a : GreeterApp)
      → IsReady a
      → a.test_mode ≡ false
      → (map (λ b. b.0) (buttons (widgets (window_of clock a).content_view))
          ≡ sleep_sign ∷ reboot_sign ∷ shutdown_sign ∷ codes "Sign In" ∷ [])
        × All
            (λ b. Ensures (Pressed a (method_of_label b.0)) (click j c b.1 a))
            (buttons (widgets (window_of clock a).content_view))
  unfolding window_of widgets method_of text_eq
  window_of-Pressed clock c a ready live =
      let press = λ (act : Action). respond-IsAsked j c act a ready in
      let sleep =
        power-Pressed a _ (codes "suspend") (codes "Suspend") refl live (press sleep_clicked) in
      let reboot =
        power-Pressed a _ (codes "reboot") (codes "Reboot") refl live (press reboot_clicked) in
      let shutdown =
        power-Pressed a _ (codes "poweroff") (codes "PowerOff") refl live
          (press shutdown_clicked) in
      (refl, (sleep, (reboot, (shutdown, (asked-Pressed a _ live (press login_clicked), tt)))))
