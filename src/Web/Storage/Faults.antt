-- ===== src/Web/Storage/Faults.antt =====
-- web/src/lib/receipt-storage.ts: what the writes let through, and what the snapshot shows.
use micro_ai_paygate.Prelude.{Text, true, false, ◌≡◌, refl, Option, ap, ◌∙◌, inl, inr, ◌↔◌}
use micro_ai_paygate.Js.Json.{Json}
use micro_ai_paygate.Js.Exec.{Result, ok, throw}
use micro_ai_paygate.Js.Ends.{Result-cases}
use micro_ai_paygate.Js.Host.{Host}
use micro_ai_paygate.Sdk.Types.{Fault}
use micro_ai_paygate.Web.Storage.{
  Browser, Store, LocalStorage, absent, present, refused, is_browser, read_raw, list_receipts,
  save_receipt, remove_receipt, clear_receipts, attempt,
}

throw-injective : {E A : Type 0} {a b : E} → ◌≡◌ {A = Result E A} (throw a) (throw b) → a ≡ b
throw-injective h = cc

is_browser-refused :
    (browser : Browser) (fault : Fault)
    → is_browser browser ≡ throw fault
    → browser.local_storage ≡ refused fault
unfolding is_browser
is_browser-refused browser fault h = go browser.local_storage refl h
  where
    go :
        (l : LocalStorage)
        → browser.local_storage ≡ l
        → elim l [ absent ↦ ok false | present ↦ ok true | refused f ↦ throw f ] ≡ throw fault
        → browser.local_storage ≡ refused fault
    go absent e p = cc
    go present e p = cc
    go (refused f) e p = e ∙ ap refused (throw-injective p)

attempt-ok :
    (browser : Browser) (r : Result Fault Unit) (raw : Option Text) (s : Store)
    → (attempt browser r raw s).0 ≡ ok tt
unfolding attempt
attempt-ok browser (ok u) raw s = refl
attempt-ok browser (throw fault) raw s = refl

is_browser-eq_throw :
    (browser : Browser) (fault : Fault)
    → browser.local_storage ≡ refused fault
    → is_browser browser ≡ throw fault
unfolding is_browser
is_browser-eq_throw browser fault h = rw h refl

module _ (host : Host) (browser : Browser) (s : Store) (fault : Fault) where
  throw-refused :
      {e : Fault}
      → is_browser browser ≡ throw e
      → ◌≡◌ {A = Result Fault Unit} (throw e) (throw fault)
      → browser.local_storage ≡ refused fault
  throw-refused bad h = is_browser-refused browser fault (bad ∙ ap throw (throw-injective h))

  save_receipt-eq_throw :
      (receipt : Json) (prompt : Text)
      → (save_receipt host browser receipt prompt s).0 ≡ throw fault
      → browser.local_storage ≡ refused fault
  unfolding save_receipt list_receipts read_raw
  save_receipt-eq_throw receipt prompt h = elim (Result-cases (is_browser browser)) [
    | inl (true, there) ↦ cc (attempt-ok browser _ _ s, rw there at h)
    | inl (false, nowhere) ↦ cc (rw nowhere at h)
    | inr (e, bad) ↦ throw-refused bad (rw bad at h)
  ]

  remove_receipt-eq_throw :
      (id : Text)
      → (remove_receipt host browser id s).0 ≡ throw fault
      → browser.local_storage ≡ refused fault
  unfolding remove_receipt list_receipts read_raw
  remove_receipt-eq_throw id h = elim (Result-cases (is_browser browser)) [
    | inl (true, there) ↦ cc (attempt-ok browser _ _ s, rw there at h)
    | inl (false, nowhere) ↦ cc (rw nowhere at h)
    | inr (e, bad) ↦ throw-refused bad (rw bad at h)
  ]

  clear_receipts-eq_throw :
      (clear_receipts browser s).0 ≡ throw fault → browser.local_storage ≡ refused fault
  unfolding clear_receipts
  clear_receipts-eq_throw h = elim (Result-cases (is_browser browser)) [
    | inl (true, there) ↦ cc (attempt-ok browser _ _ s, rw there at h)
    | inl (false, nowhere) ↦ cc (rw nowhere at h)
    | inr (e, bad) ↦ throw-refused bad (rw bad at h)
  ]

-- Saving, removing and clearing throw exactly where the browser forbids to look at
-- `window.localStorage`, and then they throw that error: no other access to the local storage and
-- no listener makes them throw.
pub writes-throw_iff :
    (host : Host) (browser : Browser) (receipt : Json) (prompt id : Text) (s : Store)
    (fault : Fault)
    → (((save_receipt host browser receipt prompt s).0 ≡ throw fault)
        ↔ (browser.local_storage ≡ refused fault))
      × (((remove_receipt host browser id s).0 ≡ throw fault)
          ↔ (browser.local_storage ≡ refused fault))
      × (((clear_receipts browser s).0 ≡ throw fault) ↔ (browser.local_storage ≡ refused fault))
unfolding save_receipt remove_receipt clear_receipts
writes-throw_iff host browser receipt prompt id s fault = (
  (
    save_receipt-eq_throw host browser s fault receipt prompt,
    λ h. rw (is_browser-eq_throw browser fault h) refl,
  ),
  (
    remove_receipt-eq_throw host browser s fault id,
    λ h. rw (is_browser-eq_throw browser fault h) refl,
  ),
  (
    clear_receipts-eq_throw host browser s fault,
    λ h. rw (is_browser-eq_throw browser fault h) refl,
  ),
)
