-- ===== src/Web/CopyButton.antt =====
-- web/src/components/copy-button.tsx, and CodeCopyButton of web/src/components/docs/copy-code-block.tsx,
-- which is the same without a report: a button that says for a while that it has copied.
--
-- The timers are numbered as they are set. After the end of the component a change of its state is
-- none.
pub mod Timers
mod Tests
use micro_ai_paygate.Prelude.{
  ℕ, zero, suc, Bool, true, false, Option, none, some, List, [], ◌∷◌, if◌then◌else◌, put,
}
use micro_ai_paygate.Web.Analytics as Analytics

-- The state of a button. `timer` is `timerRef.current`, `live` says which timers are set, and
-- `waiting` counts the writes to the clipboard that are not answered.
pub record Button : Type 0 where
  pub copied : Bool
  pub timer : Option ℕ
  pub live : ℕ → Bool
  pub next_timer : ℕ
  pub waiting : ℕ
  pub is_mounted : Bool
  pub reports : List Analytics.Request

abbrev pub first_shown : Button
first_shown = record {
  copied = false;
  timer = none;
  live = λ n. false;
  next_timer = 0;
  waiting = 0;
  is_mounted = true;
  reports = [];
}

-- `setCopied(b)`
unfoldable pub set_copied : Bool → Button → Button
set_copied copied b = record b { copied = if b.is_mounted then copied else b.copied }

-- `if (timerRef.current !== null) window.clearTimeout(timerRef.current)`
abbrev pub cleared : Option ℕ → (ℕ → Bool) → ℕ → Bool
cleared none live = live
cleared (some id) live = put live id false

-- `timerRef.current = window.setTimeout(() => setCopied(false), 1600)`
abbrev pub set_timer : Button → Button
set_timer b = record b {
  timer = some b.next_timer;
  live = put (cleared b.timer b.live) b.next_timer true;
  next_timer = suc b.next_timer;
}

abbrev pub reported : Option Analytics.Request → List Analytics.Request → List Analytics.Request
reported none reports = reports
reported (some request) reports = request ∷ reports

-- `onClick()`, after its `await`, with the event that the button reports
unfoldable pub has_written : Option Analytics.Request → Button → Button
unfolding set_copied
has_written request b =
    set_timer (set_copied true (record b { reports = reported request b.reports }))

-- A timer that is due.
unfoldable pub fire : ℕ → Button → Button
unfolding set_copied
fire id b = if b.live id then set_copied false (record b { live = put b.live id false }) else b

-- The cleanup of the effect.
unfoldable pub unmount : Button → Button
unmount b = record b { is_mounted = false; live = cleared b.timer b.live }

-- `written`: whether the clipboard has taken the text or refused it.
pub data Event : Type 0 where
  clicked unmounted : Event
  written : Bool → Event
  due : ℕ → Event

abbrev pub answered : ℕ → Bool → Option Analytics.Request → Button → Button
answered zero taken request b = b
answered (suc n) taken request b =
    if taken then has_written request (record b { waiting = n }) else record b { waiting = n }

unfoldable pub after_event : Option Analytics.Request → Event → Button → Button
unfolding has_written fire unmount
after_event request clicked b = if b.is_mounted then record b { waiting = suc b.waiting } else b
after_event request unmounted b = if b.is_mounted then unmount b else b
after_event request (written taken) b = answered b.waiting taken request b
after_event request (due id) b = fire id b

pub data Reachable (request : Option Analytics.Request) : Button → Type 0 where
  mount : Reachable request first_shown
  next :
      (e : Event) {b : Button} → Reachable request b → Reachable request (after_event request e b)
