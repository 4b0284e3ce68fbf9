-- ===== src/Web/StatusStrip.antt =====
-- web/src/components/status-strip.tsx, and the labels of the steps in web/src/lib/types.ts: the strip
-- that shows how far a run is.
pub mod Shows
use micro_ai_paygate.Prelude.{
  ℕ, suc, ◌+◌, String, Text, codes, Bool, true, false, ◌&&◌, Option, none, some, List, [], ◌∷◌,
  ◌++◌, length, ltb, ◌==◌, str_eq, if◌then◌else◌,
}
use mathlib.Core.Option
use micro_ai_paygate.Js.Stringify.{decimal}
use micro_ai_paygate.Web.X402.{X402Step}

-- The text of an `X402Step`.
abbrev pub step_name : X402Step → String
step_name X402Step.idle = "idle"
step_name X402Step.request = "request"
step_name X402Step.challenge = "challenge"
step_name X402Step.sign = "sign"
step_name X402Step.verify = "verify"
step_name X402Step.ai = "ai"
step_name X402Step.receipt = "receipt"
step_name X402Step.done = "done"
step_name X402Step.error = "error"

pub record StepLabel : Type 0 where
  pub id : X402Step
  pub index : ℕ
  pub short : String
  pub long : String

-- `STEP_LABELS`
abbrev pub step_labels : List StepLabel
step_labels =
    record { id = X402Step.request; index = 1; short = "Request"; long = "Send unsigned request" }
    ∷ record {
      id = X402Step.challenge;
      index = 2;
      short = "Challenge";
      long = "Receive 402 payment context";
    }
    ∷ record { id = X402Step.sign; index = 3; short = "Sign"; long = "Sign EIP-712 in wallet" }
    ∷ record {
      id = X402Step.verify;
      index = 4;
      short = "Verify";
      long = "Verifier checks signature";
    }
    ∷ record {
      id = X402Step.ai;
      index = 5;
      short = "Generate";
      long = "AI provider runs the request";
    }
    ∷ record {
      id = X402Step.receipt;
      index = 6;
      short = "Receipt";
      long = "Signed receipt returned";
    }
    ∷ []

-- `labels.findIndex((s) => s.id === step)`; `none` stands for -1
abbrev pub find_index : X402Step → List StepLabel → Option ℕ
find_index step [] = none
find_index step (label ∷ labels) =
    let rest = find_index step labels in
    if str_eq (step_name label.id) (step_name step) then some 0 else Option.map suc rest

-- `activeIdx`
unfoldable pub active_idx : X402Step → Option ℕ
active_idx X402Step.idle = none
active_idx X402Step.done = some (length step_labels)
active_idx step = find_index step step_labels

-- How the cell of a step is marked.
pub data Cell : Type 0 where
  finished active pending failed : Cell

-- `isDone`, `isActive`, `isPending` and `isFailed` of a cell
abbrev pub cell : Bool → Option ℕ → ℕ → Cell
cell has_error none i = pending
cell has_error (some n) i =
    if ltb i n then finished else if i == n then (if has_error then failed else active) else pending

abbrev pub cells_from : Bool → Option ℕ → ℕ → List StepLabel → List Cell
cells_from has_error idx i [] = []
cells_from has_error idx i (label ∷ labels) =
    cell has_error idx i ∷ cells_from has_error idx (suc i) labels

-- The cells of `StatusStrip`.
unfoldable pub cells : X402Step → Bool → List Cell
unfolding active_idx
cells step has_error = cells_from has_error (active_idx step) 0 step_labels

-- `activeIdx + 1`
abbrev pub position : Option ℕ → ℕ
position none = 0
position (some n) = n + 1

-- `aria-label`
unfoldable pub aria_label : X402Step → Text
unfolding active_idx
aria_label X402Step.idle = codes "Idle"
aria_label X402Step.done = codes "Complete"
aria_label step =
    codes "Step "
    ++ (decimal (position (active_idx step)) ++ (codes " of " ++ decimal (length step_labels)))

-- The word at the head of the strip.
unfoldable pub status_word : X402Step → Bool → String
status_word X402Step.idle has_error = "Ready"
status_word X402Step.done has_error = "Settled"
status_word step has_error = if has_error then "Halted" else "Live"

-- A step that has a cell.
abbrev pub is_on_strip : X402Step → Bool
is_on_strip step = elim (find_index step step_labels) [ none ↦ false | some n ↦ true ]
