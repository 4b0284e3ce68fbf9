-- ===== src/Sdk/Url/Laws.antt =====
-- sdk/typescript/src/client.ts: what the URLs and the receipt endpoints of the SDK look like.
use micro_ai_paygate.Prelude.{
  ℕ, zero, suc, Text, starts_with, ◌≡◌, inl, inr, refl, ap, sym, ◌∙◌, false, [], ◌∷◌, ◌++◌, arith,
  ◌==◌, Bool-cases, if◌then◌else◌,
}
use micro_ai_paygate.Js.Exec.{ok}
use micro_ai_paygate.Sdk.Url.{
  cut_slashes, has_scheme, rooted, build_url, before_query, endpoint_of, build_receipt_endpoint,
}

abbrev pub slashes : ℕ → Text
slashes zero = []
slashes (suc n) = b'/' ∷ slashes n

-- The text does not end in a slash.
abbrev pub IsCut : Text → Type 0
IsCut [] = Unit
IsCut (c ∷ []) = (c == b'/') ≡ false
IsCut (c ∷ d ∷ s) = IsCut (d ∷ s)

record Cut (s t : Text) : Type 0 where
  count : ℕ
  joined : s ≡ t ++ slashes count
  bare : IsCut t

cut_slashes-Cut : (s : Text) → Cut s (cut_slashes s)
unfolding cut_slashes
cut_slashes-Cut [] = record { count = 0; joined = refl; bare = tt }
cut_slashes-Cut (c ∷ s) = go (cut_slashes s) (cut_slashes-Cut s)
  where
    go :
        (t : Text)
        → Cut s t
        → Cut (c ∷ s) (elim t [ [] ↦ if c == b'/' then [] else c ∷ [] | d ∷ u ↦ c ∷ d ∷ u ])
    go [] k = elim (Bool-cases (c == b'/')) [
      | inl slash ↦
          rw slash (record { count = suc k.count; joined = ground (arith, k.joined); bare = tt })
      | inr other ↦
          rw other
            (record { count = k.count; joined = ap (λ (r : Text). c ∷ r) k.joined; bare = other })
    ]
    go (d ∷ u) k = record {
      count = k.count;
      joined = ap (λ (r : Text). c ∷ r) k.joined;
      bare = k.bare;
    }

-- The text has no `?` and no `#`.
abbrev pub IsPlain : Text → Type 0
IsPlain [] = Unit
IsPlain (c ∷ s) = ((c == b'?') ≡ false) × ((c == b'#') ≡ false) × IsPlain s

before_query-IsPlain : (s : Text) → IsPlain (before_query s)
unfolding before_query
before_query-IsPlain [] = tt
before_query-IsPlain (c ∷ s) = elim (Bool-cases (c == b'?')) [
  | inl query ↦ rw query tt
  | inr other ↦ elim (Bool-cases (c == b'#')) [
    | inl fragment ↦ rw (other, fragment) tt
    | inr plain ↦ rw (other, plain) (other, plain, before_query-IsPlain s)
  ]
]

before_query-fixed : (s : Text) → IsPlain s → before_query s ≡ s
unfolding before_query
before_query-fixed [] h = refl
before_query-fixed (c ∷ s) h = rw (h.0, h.1) (ap (λ (r : Text). c ∷ r) (before_query-fixed s h.2))

abbrev pub IsRooted : Text → Type 0
IsRooted t = (rest : Text) × (t ≡ b'/' ∷ rest)

rooted-IsRooted : (s : Text) → IsRooted (rooted s)
unfolding rooted starts_with
rooted-IsRooted [] = ([], refl)
rooted-IsRooted (c ∷ s) = elim (Bool-cases (c == b'/')) [
  | inl slash ↦ rw slash (s, ground arith)
  | inr other ↦ rw other (c ∷ s, refl)
]

rooted-IsPlain : (s : Text) → IsPlain s → IsPlain (rooted s)
unfolding rooted starts_with
rooted-IsPlain [] h = (refl, refl, tt)
rooted-IsPlain (c ∷ s) h = elim (Bool-cases (c == b'/')) [
  | inl slash ↦ rw slash h
  | inr other ↦ rw other (refl, refl, h)
]

-- Cutting the slashes of a gateway URL removes slashes from its end and nothing else, and none is
-- left there.
pub cut_slashes_lem :
    (url : Text) → (n : ℕ) × (url ≡ cut_slashes url ++ slashes n) × IsCut (cut_slashes url)
cut_slashes_lem url = let k = cut_slashes-Cut url in (k.count, k.joined, k.bare)

endpoint_of-IsRooted : (s : Text) → IsPlain s → IsRooted (endpoint_of s) × IsPlain (endpoint_of s)
unfolding endpoint_of
endpoint_of-IsRooted [] h = (([], refl), (refl, refl, tt))
endpoint_of-IsRooted (c ∷ t) h = (rooted-IsRooted (c ∷ t), rooted-IsPlain (c ∷ t) h)

endpoint_of-eq-rooted : (s : Text) → endpoint_of s ≡ rooted s
unfolding endpoint_of rooted starts_with
endpoint_of-eq-rooted [] = refl
endpoint_of-eq-rooted (c ∷ s) = refl

-- The endpoint that a receipt must name begins with a slash and has neither a query nor a
-- fragment, whatever path the caller gave.
pub build_receipt_endpoint-IsRooted :
    (path : Text) → IsRooted (build_receipt_endpoint path) × IsPlain (build_receipt_endpoint path)
unfolding build_receipt_endpoint
build_receipt_endpoint-IsRooted path =
    endpoint_of-IsRooted (before_query path) (before_query-IsPlain path)

-- A request with a path that has no scheme, no query and no fragment goes to the gateway's URL
-- followed by the endpoint that the receipt must name.
pub build_url-endpoint :
    (gateway_url path : Text)
    → IsPlain path
    → has_scheme path ≡ false
    → build_url gateway_url path ≡ ok (gateway_url ++ build_receipt_endpoint path)
unfolding build_url build_receipt_endpoint
build_url-endpoint gateway_url path plain relative = rw relative (
    ap (λ (t : Text). ok (gateway_url ++ t))
      (sym (ap endpoint_of (before_query-fixed path plain) ∙ endpoint_of-eq-rooted path)))
