-- ===== src/Web/BrowserAnalytics/Order.antt =====
-- web/src/lib/browser-analytics.ts: no operation is lost, doubled or moved while the SDK is loading.
use micro_ai_paygate.Prelude.{
  Bool, ◌&&◌, true, false, not, ◌||◌, ◌≡◌, refl, List, [], ◌∷◌, ◌++◌, ap, sym, ◌∙◌, inl, inr,
  Bool-cases,
}
use micro_ai_paygate.Js.Exec.{Result, ok, throw}
use micro_ai_paygate.Sdk.Types.{Fault}
use micro_ai_paygate.Web.Analytics.{SinkCall}
use micro_ai_paygate.Web.BrowserAnalytics.{
  Loader, fresh, BrowserAnalyticsEnv, with_post_hog, init_browser_analytics, should_enable_post_hog,
  loaded, load_failed, flush_pending_ops,
}

-- `posthog.init` has thrown, and the `catch` handler is still to be called.
abbrev pub is_failing : Loader → Bool
is_failing s = s.client && not s.initialized

-- The histories of the module, with three lists of operations, each oldest first: those that PostHog
-- was given before the module began to load it (again), those asked for since then, and those asked
-- for since `posthog.init` has thrown.
pub data History : List SinkCall → List SinkCall → List SinkCall → Loader → Type 0 where
  start : History [] [] [] fresh
  asked :
      {past ops late : List SinkCall} {s : Loader} (op : SinkCall)
      → History past ops late s
      → (s.client || s.loading ≡ true)
      → is_failing s ≡ false
      → History past (ops ++ (op ∷ [])) late (with_post_hog op s)
  asked_late :
      {past ops late : List SinkCall} {s : Loader} (op : SinkCall)
      → History past ops late s
      → is_failing s ≡ true
      → History past ops (late ++ (op ∷ [])) (with_post_hog op s)
  ignored :
      {past ops late : List SinkCall} {s : Loader} (op : SinkCall)
      → History past ops late s
      → (s.client || s.loading ≡ false)
      → History past ops late (with_post_hog op s)
  begun :
      {past ops late : List SinkCall} {s : Loader} (env : BrowserAnalyticsEnv)
      → History past ops late s
      → History past ops late (init_browser_analytics env s)
  resolved :
      {past ops late : List SinkCall} {s : Loader} (outcome : Result Fault Unit)
      → History past ops late s
      → s.loading ≡ true
      → s.client ≡ false
      → History past ops late (loaded outcome s)
  rejected :
      {past ops late : List SinkCall} {s : Loader}
      → History past ops late s
      → s.loading ≡ true
      → s.initialized ≡ false
      → History s.given [] [] (load_failed s)

-- Where the operations are: while the module waits for PostHog, once it has it, and where PostHog is
-- there and has failed.
pub data IsOrdered (past ops late : List SinkCall) (s : Loader) : Type 0 where
  waits :
      s.client ≡ false
      → s.initialized ≡ false
      → s.given ≡ past
      → s.pending_ops ≡ ops
      → late ≡ []
      → IsOrdered past ops late s
  ready :
      s.client ≡ true
      → s.initialized ≡ true
      → s.given ≡ past ++ ops
      → s.pending_ops ≡ []
      → late ≡ []
      → IsOrdered past ops late s
  fails :
      s.client ≡ true
      → s.initialized ≡ false
      → s.given ≡ past ++ late
      → s.pending_ops ≡ ops
      → IsOrdered past ops late s

append_nil : {A : Type 0} (xs : List A) → xs ++ [] ≡ xs
append_nil [] = refl
append_nil (x ∷ xs) = ap (λ t. x ∷ t) (append_nil xs)

append_assoc : {A : Type 0} (xs ys zs : List A) → (xs ++ ys) ++ zs ≡ xs ++ (ys ++ zs)
append_assoc [] ys zs = refl
append_assoc (x ∷ xs) ys zs = ap (λ t. x ∷ t) (append_assoc xs ys zs)

-- A list with one more operation, at the end of two.
snoc :
    {given : List SinkCall} (past ops : List SinkCall) (op : SinkCall)
    → given ≡ past ++ ops
    → given ++ (op ∷ []) ≡ past ++ (ops ++ (op ∷ []))
snoc past ops op h = ap (λ t. t ++ (op ∷ [])) h ∙ append_assoc past ops _

module _ {past ops late : List SinkCall} {s : Loader} where
  asked-IsOrdered :
      (op : SinkCall)
      → IsOrdered past ops late s
      → (s.client || s.loading ≡ true)
      → is_failing s ≡ false
      → IsOrdered past (ops ++ (op ∷ [])) late (with_post_hog op s)
  unfolding with_post_hog
  asked-IsOrdered op (waits none_there not_yet given pending none_late) live calm =
      let loading : s.loading ≡ true = rw none_there at live in
      rw (none_there, loading)
        (waits refl not_yet given (ap (λ t. t ++ (op ∷ [])) pending) none_late)
  asked-IsOrdered op (ready there done given pending none_late) live calm =
      rw there (ready refl done (snoc past _ op given) pending none_late)
  asked-IsOrdered op (fails there not_yet given pending) live calm =
      cc (rw (there, not_yet) at calm)

  asked_late-IsOrdered :
      (op : SinkCall)
      → IsOrdered past ops late s
      → is_failing s ≡ true
      → IsOrdered past ops (late ++ (op ∷ [])) (with_post_hog op s)
  unfolding with_post_hog
  asked_late-IsOrdered op (waits none_there not_yet given pending none_late) failing =
      cc (rw none_there at failing)
  asked_late-IsOrdered op (ready there done given pending none_late) failing =
      cc (rw (there, done) at failing)
  asked_late-IsOrdered op (fails there not_yet given pending) failing =
      rw there (fails refl not_yet (snoc past _ op given) pending)

  ignored-IsOrdered :
      (op : SinkCall)
      → IsOrdered past ops late s
      → (s.client || s.loading ≡ false)
      → IsOrdered past ops late (with_post_hog op s)
  unfolding with_post_hog
  ignored-IsOrdered op (waits none_there not_yet given pending none_late) dead =
      let idle : s.loading ≡ false = rw none_there at dead in
      rw (none_there, idle) (waits refl not_yet given pending none_late)
  ignored-IsOrdered op (ready there done given pending none_late) dead = cc (rw there at dead)
  ignored-IsOrdered op (fails there not_yet given pending) dead = cc (rw there at dead)

  begun-IsOrdered :
      (env : BrowserAnalyticsEnv)
      → IsOrdered past ops late s
      → IsOrdered past ops late (init_browser_analytics env s)
  unfolding init_browser_analytics
  begun-IsOrdered env h =
      elim (Bool-cases (s.initialized || s.loading || not (should_enable_post_hog env))) [
        | inl idle ↦ rw idle h
        | inr fine ↦ rw fine (loading-IsOrdered h)
      ]
    where
      loading-IsOrdered :
          IsOrdered past ops late s → IsOrdered past ops late (record s { loading = true })
      loading-IsOrdered (waits a b c d e) = waits a b c d e
      loading-IsOrdered (ready a b c d e) = ready a b c d e
      loading-IsOrdered (fails a b c d) = fails a b c d

  loaded-IsOrdered :
      (outcome : Result Fault Unit)
      → IsOrdered past ops late s
      → s.client ≡ false
      → IsOrdered past ops late (loaded outcome s)
  unfolding loaded flush_pending_ops
  loaded-IsOrdered (ok u) (waits none_there not_yet given pending none_late) waiting =
      ready refl refl (rw (given, pending) refl) refl none_late
  loaded-IsOrdered (throw fault) (waits none_there not_yet given pending none_late) waiting =
      fails refl not_yet (given ∙ sym (append_nil past) ∙ ap (λ t. past ++ t) (sym none_late))
        pending
  loaded-IsOrdered outcome (ready there done given pending none_late) waiting = cc
  loaded-IsOrdered outcome (fails there not_yet given pending) waiting = cc

-- In every history of the module, as long as there is no client, PostHog was given nothing since the
-- module began to load it, and the operations that wait are those asked for since then, in their
-- order. Once it is initialized, nothing waits, and PostHog was given all of these in their order.
-- Between a throw of `posthog.init` and the `catch` handler, the operations from before the throw
-- wait, and PostHog was given those asked for after it; the handler drops those that wait.
pub History-IsOrdered :
    {past ops late : List SinkCall} {s : Loader}
    → History past ops late s
    → IsOrdered past ops late s
unfolding load_failed
History-IsOrdered start = waits refl refl refl refl refl
History-IsOrdered (asked op h live calm) = asked-IsOrdered op (History-IsOrdered h) live calm
History-IsOrdered (asked_late op h failing) = asked_late-IsOrdered op (History-IsOrdered h) failing
History-IsOrdered (ignored op h dead) = ignored-IsOrdered op (History-IsOrdered h) dead
History-IsOrdered (begun env h) = begun-IsOrdered env (History-IsOrdered h)
History-IsOrdered (resolved outcome h loading waiting) =
    loaded-IsOrdered outcome (History-IsOrdered h) waiting
History-IsOrdered (rejected h loading failed) = waits refl refl refl refl refl
