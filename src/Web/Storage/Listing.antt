-- ===== src/Web/Storage/Listing.antt =====
-- web/src/lib/receipt-storage.ts: what is listed after a receipt was saved or removed.
use micro_ai_paygate.Prelude.{
  ℕ, Text, true, false, ◌≡◌, refl, Option, none, some, List, [], ◌∷◌, take, All, All-take, arith,
  ap, sym, ◌∙◌, inl, inr, ◌⊎◌,
}
use mathlib.Core.Path.{subst}
use micro_ai_paygate.Js.Json.{Json, arr, null, bool, num, str, obj}
use micro_ai_paygate.Js.Stringify.{stringify}
use micro_ai_paygate.Js.Exec.{Result, ok, throw}
use micro_ai_paygate.Js.Ends.{Result-cases}
use micro_ai_paygate.Js.Host.{Host}
use micro_ai_paygate.Sdk.Types.{Fault}
use micro_ai_paygate.Web.Storage.{
  Browser, Store, is_browser, read_item, read_raw, parse, entries_of, list_receipts, entry_id,
  without, shelve, new_entry, save_receipt, remove_receipt, attempt, notify, notify_all, items,
  is_valid_entry, from_list, call_listener,
}
use micro_ai_paygate.Web.Storage.Shelf.{
  All-filter, filter-All, IsShelf, IsValid, Reads, parse-written, shelve-IsShelf, without-IsShelf,
}

notify_all-raw :
    (browser : Browser) (ls : List ℕ) (s : Store) → (notify_all browser ls s).1.raw ≡ s.raw
unfolding notify_all call_listener
notify_all-raw browser [] s = refl
notify_all-raw browser (l ∷ ls) s = elim (Result-cases (browser.listener l)) [
  | inl (u, fine) ↦ rw fine (notify_all-raw browser ls _)
  | inr (fault, bad) ↦ rw bad refl
]

-- The item after an attempt to write it.
abbrev pub attempted : Result Fault Unit → Option Text → Option Text → Option Text
attempted (ok u) raw before = raw
attempted (throw fault) raw before = before

attempt-raw :
    (browser : Browser) (r : Result Fault Unit) (raw : Option Text) (s : Store)
    → (attempt browser r raw s).1.raw ≡ attempted r raw s.raw
unfolding attempt notify
attempt-raw browser (ok u) raw s = notify_all-raw browser s.listeners (record s { raw = raw })
attempt-raw browser (throw fault) raw s = refl

module _ (host : Host) (browser : Browser) where
  -- What `listReceipts` returns where there is a local storage.
  abbrev pub seen : Store → List Json
  seen s = parse host (read_item browser.get_item s.raw)

  -- The item after these entries were written, or could not be.
  abbrev pub written : List Json → Option Text → Option Text
  written es before =
      let text = stringify (arr (from_list es)) in
      attempted (browser.set_item text) (some text) before

  pub list_receipts-there :
      (s : Store) → is_browser browser ≡ ok true → list_receipts host browser s ≡ (ok (seen s), s)
  unfolding list_receipts read_raw
  list_receipts-there s there = rw there refl

  save_receipt-raw :
      (receipt : Json) (prompt : Text) (s : Store)
      → is_browser browser ≡ ok true
      → (save_receipt host browser receipt prompt s).1.raw
        ≡ written (shelve (new_entry browser.now receipt prompt) (seen s)) s.raw
  unfolding save_receipt
  save_receipt-raw receipt prompt s there = rw there (attempt-raw browser _ _ s)

  remove_receipt-raw :
      (id : Text) (s : Store)
      → is_browser browser ≡ ok true
      → (remove_receipt host browser id s).1.raw ≡ written (without id (seen s)) s.raw
  unfolding remove_receipt
  remove_receipt-raw id s there = rw there (attempt-raw browser _ _ s)

-- Where the module is not in a browser with a local storage, or may not ask, nothing is written.
save_receipt-skipped :
    (host : Host) (browser : Browser) (receipt : Json) (prompt : Text) (s : Store)
    → (is_browser browser ≡ ok true) ⊎ ((save_receipt host browser receipt prompt s).1.raw ≡ s.raw)
unfolding save_receipt
save_receipt-skipped host browser receipt prompt s = elim (Result-cases (is_browser browser)) [
  | inl (true, there) ↦ inl there
  | inl (false, nowhere) ↦ inr (rw nowhere refl)
  | inr (fault, bad) ↦ inr (rw bad refl)
]

remove_receipt-skipped :
    (host : Host) (browser : Browser) (id : Text) (s : Store)
    → (is_browser browser ≡ ok true) ⊎ ((remove_receipt host browser id s).1.raw ≡ s.raw)
unfolding remove_receipt
remove_receipt-skipped host browser id s = elim (Result-cases (is_browser browser)) [
  | inl (true, there) ↦ inl there
  | inl (false, nowhere) ↦ inr (rw nowhere refl)
  | inr (fault, bad) ↦ inr (rw bad refl)
]

-- The list read from a written item is the list written, or what was there before.
written-IsShelf :
    (host : Host) (browser : Browser) (es : List Json) (before : Option Text)
    → Reads host es
    → IsShelf es
    → IsShelf (parse host before)
    → IsShelf (parse host (written host browser es before))
written-IsShelf host browser es before reads shelf old =
    elim (Result-cases (browser.set_item (stringify (arr (from_list es))))) [
      | inl (u, fine) ↦
          rw fine (subst IsShelf (sym (parse-written host es reads shelf.valid)) shelf)
      | inr (fault, bad) ↦ rw bad old
    ]

-- The list that is seen is the stored one, or empty where the item cannot be read.
seen-IsShelf :
    (host : Host) (browser : Browser) (s : Store)
    → IsShelf (parse host s.raw)
    → IsShelf (seen host browser s)
unfolding parse
seen-IsShelf host browser s h = elim (Result-cases browser.get_item) [
  | inl (u, fine) ↦ rw fine h
  | inr (fault, bad) ↦ rw bad (record { bound = omega arith; valid = tt; distinct = tt })
]

-- Saving keeps the stored list a shelf, whatever the browser does: at most 20 entries, every one
-- valid, no two for one receipt. The new entry is to be valid and `JSON.parse` is to read the list
-- back that is written.
pub save_receipt-IsShelf :
    (host : Host) (browser : Browser) (receipt : Json) (prompt : Text) (s : Store)
    → IsValid (new_entry browser.now receipt prompt)
    → Reads host (shelve (new_entry browser.now receipt prompt) (seen host browser s))
    → IsShelf (parse host s.raw)
    → IsShelf (parse host (save_receipt host browser receipt prompt s).1.raw)
save_receipt-IsShelf host browser receipt prompt s valid reads h =
    let next = new_entry browser.now receipt prompt in
    let read = seen-IsShelf host browser s h in
    elim (save_receipt-skipped host browser receipt prompt s) [
      | inr same ↦ rw same h
      | inl there ↦ rw (save_receipt-raw host browser receipt prompt s there) (
          written-IsShelf host browser _ s.raw reads
            (shelve-IsShelf next _ valid read.valid read.distinct) h)
    ]

-- Removing a receipt keeps the stored list a shelf, whatever the browser does.
pub remove_receipt-IsShelf :
    (host : Host) (browser : Browser) (id : Text) (s : Store)
    → Reads host (without id (seen host browser s))
    → IsShelf (parse host s.raw)
    → IsShelf (parse host (remove_receipt host browser id s).1.raw)
remove_receipt-IsShelf host browser id s reads h = elim (remove_receipt-skipped host browser id s) [
  | inr same ↦ rw same h
  | inl there ↦ rw (remove_receipt-raw host browser id s there) (
      written-IsShelf host browser _ s.raw reads
        (without-IsShelf id _ (seen-IsShelf host browser s h)) h)
]

entries_of-All : (v : Option Json) → All IsValid (entries_of v)
entries_of-All none = tt
entries_of-All (some (arr xs)) = filter-All is_valid_entry (items xs)
entries_of-All (some null) = tt
entries_of-All (some (bool b)) = tt
entries_of-All (some (num n)) = tt
entries_of-All (some (str s)) = tt
entries_of-All (some (obj fs)) = tt

parse-All : (host : Host) (raw : Option Text) → All IsValid (parse host raw)
unfolding parse
parse-All host none = tt
parse-All host (some []) = tt
parse-All host (some (c ∷ raw)) = entries_of-All (host.parse (c ∷ raw))

All-without : (id : Text) (es : List Json) → All IsValid es → All IsValid (without id es)
unfolding without
All-without id es h = All-filter IsValid _ es h

-- After a save that the browser lets through, the list begins with the new entry, and goes on with
-- the entries of other receipts as they stood, cut to twenty in all. The new entry is to be valid
-- and `JSON.parse` is to read the list back that is written.
pub save_receipt-lists :
    (host : Host) (browser : Browser) (receipt : Json) (prompt : Text) (s : Store)
    → is_browser browser ≡ ok true
    → browser.get_item ≡ ok tt
    → browser.set_item (
        stringify
          (arr (from_list (shelve (new_entry browser.now receipt prompt) (parse host s.raw)))))
      ≡ ok tt
    → IsValid (new_entry browser.now receipt prompt)
    → Reads host (shelve (new_entry browser.now receipt prompt) (parse host s.raw))
    → (list_receipts host browser (save_receipt host browser receipt prompt s).1).0
      ≡ ok (
          new_entry browser.now receipt prompt
          ∷ take 19 (without (entry_id (new_entry browser.now receipt prompt)) (parse host s.raw)))
unfolding shelve
save_receipt-lists host browser receipt prompt s there gets sets valid reads =
    let next = new_entry browser.now receipt prompt in
    let es = shelve next (parse host s.raw) in
    let kept : All IsValid es =
      (valid, All-take IsValid 19 _ (All-without _ _ (parse-All host s.raw))) in
    let stored : (save_receipt host browser receipt prompt s).1.raw
        ≡ some (stringify (arr (from_list es))) =
      save_receipt-raw host browser receipt prompt s there ∙ rw (gets, sets) refl in
    ap (λ r. r.0) (list_receipts-there host browser _ there)
    ∙ rw (stored, gets) (ap ok (parse-written host es reads kept))
