-- ===== src/Web/CopyButton/Tests.antt =====
-- The copy button at concrete inputs, and its theorem at one where its hypothesis holds.
use micro_ai_paygate.Prelude.{true, false, ◌≡◌, refl, none}
use micro_ai_paygate.Web.CopyButton.{
  Button, first_shown, set_copied, has_written, unmount, Event, clicked, written, due, unmounted,
  after_event, mount, next,
}
use micro_ai_paygate.Web.CopyButton.Timers.{IsTimed, Reachable-IsTimed}

abbrev after : Event → Button → Button
after e b = after_event none e b

-- Two clicks, of which the second takes the timer of the first away.
abbrev twice : Button
twice = after (written true) (after clicked (after (written true) (after clicked first_shown)))

Reachable-IsTimed_example : IsTimed twice
Reachable-IsTimed_example =
    Reachable-IsTimed none
      (next (written true) (next clicked (next (written true) (next clicked mount))))

twice_test : (after (due 0) twice).copied ≡ true
unfolding after_event has_written set_copied
twice_test = refl

due_test : (after (due 1) twice).copied ≡ false
unfolding after_event has_written set_copied
due_test = refl

-- A write that is answered after the end sets a timer that nothing clears.
late_test : (after (written true) (after unmounted (after clicked first_shown))).live 0 ≡ true
unfolding after_event has_written set_copied unmount
late_test = refl
