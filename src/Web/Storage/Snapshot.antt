-- ===== src/Web/Storage/Snapshot.antt =====
-- web/src/lib/receipt-storage.ts: the snapshot that the page shows, over every history of the
-- module's calls and of writes by other pages to the same local storage.
use micro_ai_paygate.Prelude.{
  ℕ, Text, Bool, true, false, ◌≡◌, refl, Option, none, some, List, [], ◌∷◌, ap, sym, ◌∙◌,
  if◌then◌else◌, inl, inr, text_eq_iff, text_eq_refl, Bool-cases,
}
use micro_ai_paygate.Js.Json.{Json}
use micro_ai_paygate.Js.Exec.{Result, ok, throw}
use micro_ai_paygate.Js.Ends.{Result-cases}
use micro_ai_paygate.Js.Host.{Host}
use micro_ai_paygate.Sdk.Types.{Fault}
use micro_ai_paygate.Web.Storage.{
  Browser, Store, is_browser, read_item, read_raw, parse, same_raw, refresh_snapshot,
  get_receipts_snapshot, list_receipts, save_receipt, remove_receipt, clear_receipts, attempt,
  notify, notify_all, call_listener, subscribe_receipts, unsubscribe, has,
}

-- What happens to the state: a call of the module, or a write by another page.
pub data Event : Type 0 where
  saved : Browser → Json → Text → Event
  removed : Browser → Text → Event
  cleared : Browser → Event
  shown : Browser → Event
  subscribed : ℕ → Event
  unsubscribed : ℕ → Event
  elsewhere : Option Text → Event

pub data Step (host : Host) : Event → Store → Store → Type 0 where
  save :
      (browser : Browser) (receipt : Json) (prompt : Text) (s : Store)
      → Step host (saved browser receipt prompt) s (save_receipt host browser receipt prompt s).1
  remove :
      (browser : Browser) (id : Text) (s : Store)
      → Step host (removed browser id) s (remove_receipt host browser id s).1
  clear :
      (browser : Browser) (s : Store) → Step host (cleared browser) s (clear_receipts browser s).1
  show :
      (browser : Browser) (s : Store)
      → Step host (shown browser) s (get_receipts_snapshot host browser s).1
  subscribe : (l : ℕ) (s : Store) → Step host (subscribed l) s (subscribe_receipts l s)
  unsubscribe_ : (l : ℕ) (s : Store) → Step host (unsubscribed l) s (unsubscribe l s)
  write : (raw : Option Text) (s : Store) → Step host (elsewhere raw) s (record s { raw = raw })

-- The module's state when it is loaded, over any item that it finds.
abbrev pub loaded : Option Text → Store
loaded raw = record {
  raw = raw;
  cached_raw = none;
  cached_snapshot = [];
  listeners = [];
  notified = [];
}

pub data Reachable (host : Host) : Store → Type 0 where
  start : (raw : Option Text) → Reachable host (loaded raw)
  next : {event : Event} {s t : Store} → Reachable host s → Step host event s t → Reachable host t

abbrev pub IsCached : Host → Store → Type 0
IsCached host s = s.cached_snapshot ≡ parse host s.cached_raw

same_raw-eq : (a b : Option Text) → same_raw a b ≡ true → a ≡ b
same_raw-eq none none h = refl
same_raw-eq (some a) (some b) h = ap some ((text_eq_iff a b).0 h)
same_raw-eq none (some b) h = cc
same_raw-eq (some a) none h = cc

module _ (host : Host) (browser : Browser) where
  notify_all-IsCached :
      (ls : List ℕ) (s : Store) → IsCached host s → IsCached host (notify_all browser ls s).1
  unfolding notify_all call_listener
  notify_all-IsCached [] s h = h
  notify_all-IsCached (l ∷ ls) s h = elim (Result-cases (browser.listener l)) [
    | inl (u, fine) ↦ rw fine (notify_all-IsCached ls _ h)
    | inr (fault, bad) ↦ rw bad h
  ]

  attempt-IsCached :
      (r : Result Fault Unit) (raw : Option Text) (s : Store)
      → IsCached host s
      → IsCached host (attempt browser r raw s).1
  unfolding attempt notify
  attempt-IsCached (ok u) raw s h = notify_all-IsCached s.listeners (record s { raw = raw }) h
  attempt-IsCached (throw fault) raw s h = h

  read_raw-IsCached : (s : Store) → IsCached host s → IsCached host (read_raw browser s).1
  unfolding read_raw
  read_raw-IsCached s h = elim (Result-cases (is_browser browser)) [
    | inl (true, there) ↦ rw there h
    | inl (false, nowhere) ↦ rw nowhere h
    | inr (fault, bad) ↦ rw bad h
  ]

  refreshed-IsCached :
      (raw : Option Text) (s : Store)
      → IsCached host s
      → IsCached host (
          if same_raw raw s.cached_raw
          then s
          else record s { cached_raw = raw; cached_snapshot = parse host raw })
  refreshed-IsCached raw s h = elim (Bool-cases (same_raw raw s.cached_raw)) [
    | inl same ↦ rw same h
    | inr new ↦ rw new refl
  ]

  save-IsCached :
      (receipt : Json) (prompt : Text) (s : Store)
      → IsCached host s
      → IsCached host (save_receipt host browser receipt prompt s).1
  unfolding save_receipt list_receipts read_raw
  save-IsCached receipt prompt s h = elim (Result-cases (is_browser browser)) [
    | inl (true, there) ↦ rw there (attempt-IsCached _ _ s h)
    | inl (false, nowhere) ↦ rw nowhere h
    | inr (fault, bad) ↦ rw bad h
  ]

  remove-IsCached :
      (id : Text) (s : Store) → IsCached host s → IsCached host (remove_receipt host browser id s).1
  unfolding remove_receipt list_receipts read_raw
  remove-IsCached id s h = elim (Result-cases (is_browser browser)) [
    | inl (true, there) ↦ rw there (attempt-IsCached _ _ s h)
    | inl (false, nowhere) ↦ rw nowhere h
    | inr (fault, bad) ↦ rw bad h
  ]

  clear-IsCached : (s : Store) → IsCached host s → IsCached host (clear_receipts browser s).1
  unfolding clear_receipts
  clear-IsCached s h = elim (Result-cases (is_browser browser)) [
    | inl (true, there) ↦ rw there (attempt-IsCached _ _ s h)
    | inl (false, nowhere) ↦ rw nowhere h
    | inr (fault, bad) ↦ rw bad h
  ]

  -- What is read, if the browser allows it.
  abbrev shown_raw : Bool → Store → Option Text
  shown_raw true s = read_item browser.get_item s.raw
  shown_raw false s = none

  show-IsCached :
      (s : Store) → IsCached host s → IsCached host (get_receipts_snapshot host browser s).1
  unfolding get_receipts_snapshot refresh_snapshot read_raw
  show-IsCached s h = elim (Result-cases (is_browser browser)) [
    | inr (fault, bad) ↦ rw bad h
    | inl (true, there) ↦ rw there (elim (Bool-cases (same_raw (shown_raw true s) s.cached_raw)) [
      | inl same ↦ rw same h
      | inr new ↦ rw new refl
    ])
    | inl (false, nowhere) ↦ rw nowhere (elim (Bool-cases (same_raw none s.cached_raw)) [
      | inl same ↦ rw same h
      | inr new ↦ rw new refl
    ])
  ]

subscribe-IsCached :
    (host : Host) (l : ℕ) (s : Store) → IsCached host s → IsCached host (subscribe_receipts l s)
unfolding subscribe_receipts
subscribe-IsCached host l s h = elim (Bool-cases (has l s.listeners)) [
  | inl known ↦ rw known h
  | inr new ↦ rw new h
]

Step-IsCached :
    (host : Host) {event : Event} {s t : Store}
    → Step host event s t
    → IsCached host s
    → IsCached host t
unfolding unsubscribe
Step-IsCached host (save browser receipt prompt s) h = save-IsCached host browser receipt prompt s h
Step-IsCached host (remove browser id s) h = remove-IsCached host browser id s h
Step-IsCached host (clear browser s) h = clear-IsCached host browser s h
Step-IsCached host (show browser s) h = show-IsCached host browser s h
Step-IsCached host (subscribe l s) h = subscribe-IsCached host l s h
Step-IsCached host (unsubscribe_ l s) h = h
Step-IsCached host (write raw s) h = h

Reachable-IsCached : (host : Host) {s : Store} → Reachable host s → IsCached host s
unfolding parse
Reachable-IsCached host (start raw) = refl
Reachable-IsCached host (next history step) =
    Step-IsCached host step (Reachable-IsCached host history)

-- After every history of calls of the module and of writes by other pages, the cached snapshot that
-- the page gets is the list that reading and parsing the local storage afresh gives.
pub get_receipts_snapshot-lists :
    (host : Host) (browser : Browser) (s : Store)
    → Reachable host s
    → (get_receipts_snapshot host browser s).0 ≡ (list_receipts host browser s).0
unfolding get_receipts_snapshot refresh_snapshot list_receipts read_raw
get_receipts_snapshot-lists host browser s history =
    let cached = Reachable-IsCached host history in
    elim (Result-cases (is_browser browser)) [
      | inr (fault, bad) ↦ rw bad refl
      | inl (true, there) ↦
          rw there (elim (Bool-cases (same_raw (shown_raw host browser true s) s.cached_raw)) [
            | inl same ↦ rw same (ap ok (cached ∙ ap (parse host) (sym (same_raw-eq _ _ same))))
            | inr new ↦ rw new refl
          ])
      | inl (false, nowhere) ↦ rw nowhere (elim (Bool-cases (same_raw none s.cached_raw)) [
        | inl same ↦
            rw same (ap ok (cached ∙ ap (parse host) (sym (same_raw-eq none s.cached_raw same))))
        | inr new ↦ rw new refl
      ])
    ]

same_raw_refl : (a : Option Text) → same_raw a a ≡ true
same_raw_refl none = refl
same_raw_refl (some a) = text_eq_refl a

-- A second look with nothing in between gives what the first gave and leaves the state: the page
-- does not see a new snapshot where nothing was written.
pub get_receipts_snapshot_idempotent :
    (host : Host) (browser : Browser) (s : Store)
    → get_receipts_snapshot host browser (get_receipts_snapshot host browser s).1
      ≡ get_receipts_snapshot host browser s
unfolding get_receipts_snapshot refresh_snapshot read_raw
get_receipts_snapshot_idempotent host browser s = elim (Result-cases (is_browser browser)) [
  | inr (fault, bad) ↦ rw bad refl
  | inl (true, there) ↦
      rw there (elim (Bool-cases (same_raw (shown_raw host browser true s) s.cached_raw)) [
        | inl same ↦ rw (same, same) refl
        | inr new ↦ rw (new, same_raw_refl (shown_raw host browser true s)) refl
      ])
  | inl (false, nowhere) ↦ rw nowhere (elim (Bool-cases (same_raw none s.cached_raw)) [
    | inl same ↦ rw (same, same) refl
    | inr new ↦ rw new refl
  ])
]
