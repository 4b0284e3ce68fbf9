-- ===== src/Sdk/Url.antt =====
-- The URLs and paths of the SDK: `buildUrl` and `buildReceiptEndpoint` of
-- sdk/typescript/src/client.ts, and the trailing slashes that client.ts and receipts.ts cut off.
pub mod Laws
use micro_ai_paygate.Prelude.{
  ℕ, Text, codes, starts_with, Bool, true, false, ◌&&◌, ◌||◌, [], ◌∷◌, ◌++◌, leb, ◌==◌,
  if◌then◌else◌, none,
}
use micro_ai_paygate.Js.Exec.{Result, ok, throw}
use micro_ai_paygate.Sdk.Types.{Thrown, sdk, network_error}

-- `url.replace(/\/+$/, "")`
unfoldable pub cut_slashes : Text → Text
cut_slashes [] = []
cut_slashes (c ∷ s) = elim (cut_slashes s) [
  | [] ↦ if c == b'/' then [] else c ∷ []
  | d ∷ t ↦ c ∷ d ∷ t
]

is_letter : ℕ → Bool
is_letter c = (leb b'a' c && leb c b'z') || (leb b'A' c && leb c b'Z')

is_scheme_unit : ℕ → Bool
unfolding is_letter
is_scheme_unit c = is_letter c || (leb b'0' c && leb c b'9') || c == b'+' || c == b'-' || c == b'.'

scheme_rest : Text → Bool
unfolding starts_with is_scheme_unit
scheme_rest [] = false
scheme_rest (c ∷ s) = starts_with (c ∷ s) (codes "://") || (is_scheme_unit c && scheme_rest s)

-- `/^[a-z][a-z\d+\-.]*:\/\//i.test(path)`
unfoldable pub has_scheme : Text → Bool
unfolding is_letter scheme_rest
has_scheme [] = false
has_scheme (c ∷ s) = is_letter c && scheme_rest s

-- `path.startsWith("/") ? path : "/" + path`
unfoldable pub rooted : Text → Text
unfolding starts_with
rooted path = if starts_with path (codes "/") then path else b'/' ∷ path

-- `buildUrl(path)`
unfoldable pub build_url : Text → Text → Result Thrown Text
unfolding rooted
build_url gateway_url path =
    if has_scheme path
    then throw (
        sdk (record {
          code = network_error;
          message = "Request path must be relative to the configured gatewayUrl";
          status = none;
          body_text = none;
          cause = none;
        }))
    else ok (gateway_url ++ rooted path)

-- `path.split(/[?#]/, 1)[0]`
unfoldable pub before_query : Text → Text
before_query [] = []
before_query (c ∷ s) = if c == b'?' || c == b'#' then [] else c ∷ before_query s

-- The two tests after the split.
unfoldable pub endpoint_of : Text → Text
unfolding rooted
endpoint_of [] = codes "/"
endpoint_of (c ∷ s) = rooted (c ∷ s)

-- `buildReceiptEndpoint(path)`
unfoldable pub build_receipt_endpoint : Text → Text
unfolding before_query endpoint_of
build_receipt_endpoint path = endpoint_of (before_query path)
