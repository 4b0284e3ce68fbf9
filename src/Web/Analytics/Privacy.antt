-- ===== src/Web/Analytics/Privacy.antt =====
-- web/src/lib/analytics.ts: what never reaches the sink, and that reporting breaks nothing.
use micro_ai_paygate.Prelude.{
  String, Bool, true, false, ◌≡◌, ◌≢◌, ◌⊎◌, inl, inr, refl, Option, none, some, List, [], ◌∷◌, All,
  Bool-cases, arith, str_eq, eq_iff,
}
use micro_ai_paygate.Js.Exec.{Result, ok}
use micro_ai_paygate.Js.Ends.{Result-cases}
use micro_ai_paygate.Sdk.Types.{Fault}
use micro_ai_paygate.Web.Analytics.{
  Scalar, scalar, undefined, opaque, Properties, blocked_property_keys, has_key, is_blocked,
  sanitize_analytics_properties, SinkCall, captured, identified, forgotten, AnalyticsSink, Request,
  capture, identify_wallet, reset, invoke_safely, create_analytics,
}

-- The key is none of those that hold what the user wrote, got, paid or signed.
abbrev pub IsHarmless : String × Scalar → Type 0
IsHarmless p = All (λ (k : String). k ≢ p.0) blocked_property_keys

has_key-eq_false :
    (ks : List String) (key : String) → has_key ks key ≡ false → All (λ (k : String). k ≢ key) ks
has_key-eq_false [] key h = tt
has_key-eq_false (k ∷ ks) key h = elim (Bool-cases (str_eq k key)) [
  | inl same ↦ cc (rw same at h)
  | inr other ↦ (λ e. ground (arith, eq_iff k key), has_key-eq_false ks key (rw other at h))
]

sanitize-IsHarmless : (ps : Properties) → All IsHarmless (sanitize_analytics_properties ps)
unfolding sanitize_analytics_properties is_blocked
sanitize-IsHarmless [] = tt
sanitize-IsHarmless ((key, undefined) ∷ ps) = sanitize-IsHarmless ps
sanitize-IsHarmless ((key, opaque) ∷ ps) = sanitize-IsHarmless ps
sanitize-IsHarmless ((key, scalar value) ∷ ps) = elim (Bool-cases (is_blocked key)) [
  | inl blocked ↦ rw blocked (sanitize-IsHarmless ps)
  | inr free ↦ rw free (has_key-eq_false blocked_property_keys key free, sanitize-IsHarmless ps)
]

abbrev pub IsPrivate : SinkCall → Type 0
IsPrivate (captured event properties) = All IsHarmless properties
IsPrivate (identified address properties) = All IsHarmless properties
IsPrivate forgotten = Unit

-- A method has returned, and what it added to the calls of the sink is private.
pub record IsQuiet (calls : List SinkCall) (end : Result Fault Unit × List SinkCall) : Type 0 where
  pub returned : end.0 ≡ ok tt
  pub added : (end.1 ≡ calls) ⊎ ((call : SinkCall) × (end.1 ≡ call ∷ calls) × IsPrivate call)

invoke_safely-IsQuiet :
    (sink : AnalyticsSink) (call : SinkCall) (calls : List SinkCall)
    → IsPrivate call
    → IsQuiet calls (invoke_safely sink call calls)
unfolding invoke_safely
invoke_safely-IsQuiet sink call calls safe = elim (Result-cases (sink.call call)) [
  | inl (u, fine) ↦
      rw (fine, invoke_safely) (record { returned = refl; added = inr (call, refl, safe) })
  | inr (fault, bad) ↦
      rw (bad, invoke_safely) (record { returned = refl; added = inr (call, refl, safe) })
]

-- Every method of the analytics client returns, also where the sink throws; it makes at most one
-- call of the sink, and no property of that call has a blocked key.
pub create_analytics-IsQuiet :
    (sink : Option AnalyticsSink) (enabled : Bool) (request : Request) (calls : List SinkCall)
    → IsQuiet calls (create_analytics sink enabled request calls)
unfolding create_analytics
create_analytics-IsQuiet none enabled request calls = record { returned = refl; added = inl refl }
create_analytics-IsQuiet (some sink) false (capture event properties) calls = record {
  returned = refl;
  added = inl refl;
}
create_analytics-IsQuiet (some sink) false (identify_wallet address properties) calls = record {
  returned = refl;
  added = inl refl;
}
create_analytics-IsQuiet (some sink) false reset calls = record {
  returned = refl;
  added = inl refl;
}
create_analytics-IsQuiet (some sink) true (capture event properties) calls =
    invoke_safely-IsQuiet sink _ calls (sanitize-IsHarmless properties)
create_analytics-IsQuiet (some sink) true (identify_wallet address properties) calls =
    invoke_safely-IsQuiet sink _ calls (sanitize-IsHarmless properties)
create_analytics-IsQuiet (some sink) true reset calls = elim (Bool-cases sink.has_reset) [
  | inl there ↦ rw there (invoke_safely-IsQuiet sink forgotten calls tt)
  | inr missing ↦ rw missing (record { returned = refl; added = inl refl })
]
