-- ===== src/Web/BrowserAnalytics.antt =====
-- web/src/lib/browser-analytics.ts: the operations that wait until the PostHog SDK is loaded.
--
-- The state is what the module keeps, and the operations that PostHog was given, oldest first: one
-- that throws was given too. The `then` handler is still to be called exactly where `loading` holds and
-- there is no client, and the `catch` handler for its throw exactly where there is a client and
-- `initialized` does not hold.
pub mod Order
use micro_ai_paygate.Prelude.{
  ℕ, Text, codes, text_eq, Bool, true, false, not, ◌&&◌, ◌||◌, List, [], ◌∷◌, ◌++◌, length, ltb,
  if◌then◌else◌,
}
use micro_ai_paygate.Js.Exec.{Result, ok, throw}
use micro_ai_paygate.Sdk.Types.{Fault}
use micro_ai_paygate.Web.Analytics.{SinkCall}

pub record BrowserAnalyticsEnv : Type 0 where
  pub enabled_flag : Text
  pub token : Text
  pub host : Text
  pub has_window : Bool

-- `initialized`, `initPromise`, `posthogClient` and `pendingOps`; the last field is the trace.
pub record Loader : Type 0 where
  pub initialized : Bool
  pub loading : Bool
  pub client : Bool
  pub pending_ops : List SinkCall
  pub given : List SinkCall

abbrev pub fresh : Loader
fresh = record {
  initialized = false;
  loading = false;
  client = false;
  pending_ops = [];
  given = [];
}

-- `shouldEnablePostHog(env)`
unfoldable pub should_enable_post_hog : BrowserAnalyticsEnv → Bool
unfolding text_eq
should_enable_post_hog env =
    (text_eq env.enabled_flag (codes "true") || text_eq env.enabled_flag (codes "1"))
    && ltb 0 (length env.token)
    && env.has_window

-- `withPostHog(fn)`, which the three methods of the module's sink call
unfoldable pub with_post_hog : SinkCall → Loader → Loader
with_post_hog op s =
    if s.client
    then record s { given = s.given ++ (op ∷ []) }
    else if s.loading
    then record s { pending_ops = s.pending_ops ++ (op ∷ []) }
    else s

-- `initBrowserAnalytics(loadPostHog)`, up to the promise
unfoldable pub init_browser_analytics : BrowserAnalyticsEnv → Loader → Loader
unfolding should_enable_post_hog
init_browser_analytics env s =
    if s.initialized || s.loading || not (should_enable_post_hog env)
    then s
    else record s { loading = true }

-- `flushPendingOps()`, where there is a client
unfoldable pub flush_pending_ops : Loader → Loader
flush_pending_ops s = record s { given = s.given ++ s.pending_ops; pending_ops = [] }

-- The `catch` handler of the promise.
unfoldable pub load_failed : Loader → Loader
load_failed s = record s { initialized = false; loading = false; client = false; pending_ops = [] }

-- The `then` handler of the promise, for the outcome of `posthog.init`. Where that throws, the client
-- is there already, and the `catch` handler is called later, when others may have run.
unfoldable pub loaded : Result Fault Unit → Loader → Loader
unfolding flush_pending_ops
loaded (ok u) s = flush_pending_ops (record s { client = true; initialized = true })
loaded (throw fault) s = record s { client = true }
