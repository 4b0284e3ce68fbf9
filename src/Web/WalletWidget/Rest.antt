-- ===== src/Web/WalletWidget/Rest.antt =====
-- web/src/components/wallet-widget.tsx: the widget comes to rest once the wallet has answered.
use micro_ai_paygate.Prelude.{
  ℕ, zero, suc, ◌≤◌, ◌<◌, ◌⊎◌, Text, Bool, true, false, ◌≡◌, refl, ◌∙◌, ap, some, List, [], ◌∷◌,
  inl, inr, Bool-cases, length, ltb, arith, if◌then◌else◌,
}
use micro_ai_paygate.Js.Host.{Host}
use micro_ai_paygate.Web.WalletWidget.{
  Task, load_started, load_asked, account_asked, connect_asked, connect_checked, switch_asked,
  switch_checked, Widget, Env, Reply,
}
use micro_ai_paygate.Web.WalletWidget.Events.{resumed, nth, without, after_event, Reachable, next}
use micro_ai_paygate.Web.WalletWidget.Busy.{is_load, is_switch, is_loading, one_if, IsBusyWith}
use micro_ai_paygate.Web.WalletWidget.Busy.{count}
use micro_ai_paygate.Web.WalletWidget.Work.{work, total, total-without, go_on-Leaves}
use micro_ai_paygate.Web.WalletWidget.Busy.Always.{Reachable-IsBusy}

-- No call is under way, nor shown as if it were.
pub record IsAtRest (w : Widget) : Type 0 where
  pub tasks : w.tasks ≡ []
  pub switching : w.switching ≡ false
  pub loading : is_loading w.state ≡ false

work-positive : (t : Task) → 1 ≤ work t
work-positive load_started = omega arith
work-positive load_asked = omega arith
work-positive (account_asked address) = omega arith
work-positive connect_asked = omega arith
work-positive (connect_checked addr) = omega arith
work-positive switch_asked = omega arith
work-positive switch_checked = omega arith

total-none : (ts : List Task) → total ts ≤ 0 → ts ≡ []
total-none [] h = refl
total-none (t ∷ ts) h = absurd (omega (arith, work-positive t, h))

one_if-zero : (b : Bool) → one_if b ≡ 0 → b ≡ false
one_if-zero true h = absurd (omega (arith, h))
one_if-zero false h = refl

loading-none : (b : Bool) → (b ≡ true → ⊥) → b ≡ false
loading-none true h = absurd (h refl)
loading-none false h = refl

busy-IsAtRest : (w : Widget) → w.tasks ≡ [] → IsBusyWith 0 0 w → IsAtRest w
busy-IsAtRest w empty busy = record {
  tasks = empty;
  switching =
      one_if-zero w.switching (omega (arith, busy.switching, ap (λ ts. count is_switch ts) empty));
  loading =
      loading-none (is_loading w.state)
        (λ e. omega (arith, busy.loading e, ap (λ ts. count is_load ts) empty));
}

nth-inside : (i : ℕ) (ts : List Task) → i < length ts → (t : Task) × (nth i ts ≡ some t)
nth-inside i [] h = absurd (omega (arith, h))
nth-inside zero (t ∷ ts) h = (t, refl)
nth-inside (suc i) (t ∷ ts) h = nth-inside i ts (omega (arith, h))

choose-nth :
    (i : ℕ) (ts : List Task)
    → (ts ≡ []) ⊎ ((t : Task) × (nth (if ltb i (length ts) then i else 0) ts ≡ some t))
choose-nth i [] = inl refl
choose-nth i (t ∷ ts) = elim (Bool-cases (ltb i (length (t ∷ ts)))) [
  | inl e ↦ inr (rw e (nth-inside i (t ∷ ts) (ground arith)))
  | inr e ↦ inr (t, rw e refl)
]

module _ (host : Host) (expected : ℕ) (expected_name : Text) where
  -- The wallet answers one call after the other, each time the one that is chosen, or the first where
  -- there is no such call.
  abbrev pub answer_one : Env × Reply × ℕ → Widget → Widget
  answer_one (env, reply, i) w =
      after_event host expected expected_name
        (resumed env reply (if ltb i (length w.tasks) then i else 0)) w

  abbrev pub answer_all : ℕ → (Widget → Env × Reply × ℕ) → Widget → Widget
  answer_all zero choose w = w
  answer_all (suc n) choose w = answer_all n choose (answer_one (choose w) w)

  answered-total :
      (env : Env) (reply : Reply) (i : ℕ) (t : Task) (w : Widget)
      → nth i w.tasks ≡ some t
      → ((after_event host expected expected_name (resumed env reply i) w).is_mounted
          ≡ w.is_mounted)
        × (suc (total (after_event host expected expected_name (resumed env reply i) w).tasks)
            ≤ total w.tasks)
  unfolding after_event
  answered-total env reply i t w found =
      let rest : Widget = record w { tasks = without i w.tasks } in
      let less = go_on-Leaves host expected expected_name t env reply rest in
      rw found (less.is_mounted, omega (arith, less.tasks, total-without i w.tasks t found))

  answer_one-total :
      (c : Env × Reply × ℕ) (n : ℕ) (w : Widget)
      → total w.tasks ≤ suc n
      → ((answer_one c w).is_mounted ≡ w.is_mounted) × (total (answer_one c w).tasks ≤ n)
  unfolding after_event
  answer_one-total (env, reply, i) n w enough = elim (choose-nth i w.tasks) [
    | inl gone ↦ rw gone (refl, omega (arith, ap total gone))
    | inr (t, found) ↦
        let (same, less) =
          answered-total env reply (if ltb i (length w.tasks) then i else 0) t w found in
        (same, omega (arith, less, enough))
  ]

  answers-rest :
      (choose : Widget → Env × Reply × ℕ) (n : ℕ) (w : Widget)
      → Reachable host expected expected_name w
      → w.is_mounted ≡ true
      → total w.tasks ≤ n
      → IsAtRest (answer_all n choose w)
  answers-rest choose zero w r there enough =
      busy-IsAtRest w (total-none w.tasks enough)
        (Reachable-IsBusy host expected expected_name r there)
  answers-rest choose (suc n) w r there enough =
      let (same, less) = answer_one-total (choose w) n w enough in
      answers-rest choose n (answer_one (choose w) w) (next _ r) (same ∙ there) less

  -- As many answers as the calls under way can still want, in whatever order they come and whatever
  -- they are, errors included, leave no call under way; then no switch is shown as under way, and the
  -- widget does not show "Checking wallet".
  pub answer_all-rest :
      {w : Widget}
      → Reachable host expected expected_name w
      → w.is_mounted ≡ true
      → (choose : Widget → Env × Reply × ℕ) (n : ℕ) → total w.tasks ≤ n
      → IsAtRest (answer_all n choose w)
  answer_all-rest {w} r there choose n enough = answers-rest choose n w r there enough
