-- ===== src/Web/Storage.antt =====
-- web/src/lib/receipt-storage.ts: the receipts that a browser keeps in its local storage.
--
-- An entry is the JSON value it is stored as. `Store` is the state that the module shares: the item
-- of the local storage under the module's key, the cached snapshot, the listeners, and the trace of
-- the calls made to them, newest first. What the browser does at a call is the argument `Browser`:
-- each access may throw.
pub mod Shelf
pub mod Listing
pub mod Faults
pub mod Snapshot
use micro_ai_paygate.Prelude.{
  ℕ, String, Text, codes, text_eq, starts_with, Bool, true, false, not, ◌&&◌, ◌||◌, Option, none,
  some, List, [], ◌∷◌, ◌++◌, filter, take, if◌then◌else◌, ◌==◌,
}
use micro_ai_paygate.Js.Json.{
  Json, Items, nil, cons, arr, obj, str, num, int, pos, frac, field, end, is_record, is_string,
  prop,
}
use micro_ai_paygate.Js.Stringify.{stringify}
use micro_ai_paygate.Js.Exec.{Result, ok, throw, Exec, pure, lift, ◌>>=◌, ◌>>◌}
use micro_ai_paygate.Js.Host.{Host}
use micro_ai_paygate.Sdk.Types.{Fault}
use micro_ai_paygate.Sdk.Receipts.{member, text_of}

-- Reading `window.localStorage`: there is none, there is one, or the browser forbids the access.
pub data LocalStorage : Type 0 where
  absent : LocalStorage
  present : LocalStorage
  refused : Fault → LocalStorage

pub record Browser : Type 0 where
  pub local_storage : LocalStorage
  pub get_item : Result Fault Unit
  pub set_item : Text → Result Fault Unit
  pub remove_item : Result Fault Unit
  pub listener : ℕ → Result Fault Unit
  pub now : ℕ

pub record Store : Type 0 where
  pub raw : Option Text
  pub cached_raw : Option Text
  pub cached_snapshot : List Json
  pub listeners : List ℕ
  pub notified : List ℕ

abbrev pub Storage : Type 0 → Type 0
Storage A = Exec Store Fault A

-- `MAX`
abbrev pub max_entries : ℕ
max_entries = 20

-- `isBrowser()`
unfoldable pub is_browser : Browser → Result Fault Bool
is_browser browser = elim browser.local_storage [
  | absent ↦ ok false
  | present ↦ ok true
  | refused fault ↦ throw fault
]

abbrev pub read_item : Result Fault Unit → Option Text → Option Text
read_item (ok u) raw = raw
read_item (throw fault) raw = none

-- `readRaw()`
unfoldable pub read_raw : Browser → Storage (Option Text)
unfolding is_browser
read_raw browser = do
  there ← lift (is_browser browser)
  if not there then pure none else λ s. (ok (read_item browser.get_item s.raw), s)

-- `typeof value === "string" && value.startsWith(prefix)`
unfoldable pub is_text_with : Option Json → Text → Bool
unfolding starts_with
is_text_with (some (str s)) prefix = starts_with s prefix
is_text_with v prefix = false

-- `typeof value === "number"`
abbrev pub is_number : Option Json → Bool
is_number (some (num n)) = true
is_number v = false

-- `typeof value === "number" && Number.isFinite(value)`
abbrev pub is_finite : Option Json → Bool
is_finite (some (num (int z))) = true
is_finite (some (num (frac negative digits))) = true
is_finite v = false

-- `isValidEntry(entry)`
unfoldable pub is_valid_entry : Json → Bool
unfolding is_record prop is_text_with is_string
is_valid_entry entry =
    let signed = member "receipt" entry in
    let receipt = member "receipt" signed in
    let payment = member "payment" receipt in
    let service = member "service" receipt in
    is_record entry
    && is_finite (prop "savedAt" entry)
    && is_record signed
    && is_text_with (prop "signature" signed) (codes "0x")
    && is_text_with (prop "server_public_key" signed) (codes "0x")
    && is_record receipt
    && is_string (prop "id" receipt)
    && is_record payment
    && is_string (prop "payer" payment)
    && is_string (prop "recipient" payment)
    && is_string (prop "amount" payment)
    && is_string (prop "token" payment)
    && is_number (prop "chainId" payment)
    && is_record service
    && is_string (prop "endpoint" service)
    && is_string (prop "request_hash" service)
    && is_string (prop "response_hash" service)

abbrev pub items : Items → List Json
items nil = []
items (cons v xs) = v ∷ items xs

abbrev pub from_list : List Json → Items
from_list [] = nil
from_list (v ∷ vs) = cons v (from_list vs)

abbrev pub entries_of : Option Json → List Json
entries_of (some (arr xs)) = filter is_valid_entry (items xs)
entries_of v = []

-- `parse(raw)`
unfoldable pub parse : Host → Option Text → List Json
parse host none = []
parse host (some []) = []
parse host (some (c ∷ raw)) = entries_of (host.parse (c ∷ raw))

-- `a === b` for items of the local storage
abbrev pub same_raw : Option Text → Option Text → Bool
same_raw none none = true
same_raw (some a) (some b) = text_eq a b
same_raw a b = false

module _ (host : Host) (browser : Browser) where
  -- `refreshSnapshot()`
  unfoldable pub refresh_snapshot : Storage Unit
  unfolding read_raw parse text_eq
  refresh_snapshot = do
    raw ← read_raw browser
    λ s.
        if same_raw raw s.cached_raw
        then (ok tt, s)
        else (ok tt, record s { cached_raw = raw; cached_snapshot = parse host raw })

  -- `getReceiptsSnapshot()`
  unfoldable pub get_receipts_snapshot : Storage (List Json)
  unfolding refresh_snapshot
  get_receipts_snapshot = do refresh_snapshot; λ s. (ok s.cached_snapshot, s)

  -- `listReceipts()`
  unfoldable pub list_receipts : Storage (List Json)
  unfolding read_raw parse
  list_receipts = do raw ← read_raw browser; pure (parse host raw)

-- `listeners.has(listener)`
abbrev pub has : ℕ → List ℕ → Bool
has l [] = false
has l (k ∷ ks) = k == l || has l ks

-- `subscribeReceipts(listener)`, up to the function it returns
unfoldable pub subscribe_receipts : ℕ → Store → Store
subscribe_receipts l s =
    if has l s.listeners then s else record s { listeners = s.listeners ++ (l ∷ []) }

-- The function that `subscribeReceipts(listener)` returns
unfoldable pub unsubscribe : ℕ → Store → Store
unsubscribe l s = record s { listeners = filter (λ k. not (k == l)) s.listeners }

module _ (browser : Browser) where
  unfoldable pub call_listener : ℕ → Storage Unit
  call_listener l s = (browser.listener l, record s { notified = l ∷ s.notified })

  -- The loop of `notify`. The listeners do not change the set while it runs.
  unfoldable pub notify_all : List ℕ → Storage Unit
  unfolding call_listener
  notify_all [] = pure tt
  notify_all (l ∷ ls) = call_listener l >> notify_all ls

  -- `notify()`
  unfoldable pub notify : Storage Unit
  unfolding notify_all
  notify s = notify_all s.listeners s

  -- `try { …; notify(); } catch (err) { console.warn(…) }` around a write
  unfoldable pub attempt : Result Fault Unit → Option Text → Storage Unit
  unfolding notify
  attempt (throw fault) raw s = (ok tt, s)
  attempt (ok u) raw s = (ok tt, (notify (record s { raw = raw })).1)

  abbrev pub write_entries : List Json → Storage Unit
  write_entries entries =
      let text = stringify (arr (from_list entries)) in attempt (browser.set_item text) (some text)

-- `entry.receipt.receipt.id`, of an entry that `isValidEntry` accepts
unfoldable pub entry_id : Json → Text
unfolding prop
entry_id entry = text_of (prop "id" (member "receipt" (member "receipt" entry)))

-- `entries.filter((e) => e.receipt.receipt.id !== id)`
unfoldable pub without : Text → List Json → List Json
unfolding entry_id text_eq
without id entries = filter (λ e. not (text_eq (entry_id e) id)) entries

-- The object `next` of `saveReceipt`.
unfoldable pub new_entry : ℕ → Json → Text → Json
new_entry now receipt prompt_preview = obj (
    field "receipt" receipt (
      field "savedAt" (num (int (pos now)))
        (field "promptPreview" (str (take 80 prompt_preview)) end)))

-- `[next, ...filtered].slice(0, MAX)`
unfoldable pub shelve : Json → List Json → List Json
unfolding without entry_id
shelve next entries = take max_entries (next ∷ without (entry_id next) entries)

module _ (host : Host) (browser : Browser) where
  -- `saveReceipt(receipt, promptPreview)`
  unfoldable pub save_receipt : Json → Text → Storage Unit
  unfolding is_browser list_receipts shelve new_entry attempt
  save_receipt receipt prompt_preview = do
    there ← lift (is_browser browser)
    if not there
        then pure tt
        else list_receipts host browser >>= λ entries.
            write_entries browser (shelve (new_entry browser.now receipt prompt_preview) entries)

  -- `removeReceipt(id)`
  unfoldable pub remove_receipt : Text → Storage Unit
  unfolding is_browser list_receipts without attempt
  remove_receipt id = do
    there ← lift (is_browser browser)
    if not there
        then pure tt
        else list_receipts host browser >>= λ entries. write_entries browser (without id entries)

-- `clearReceipts()`
unfoldable pub clear_receipts : Browser → Storage Unit
unfolding is_browser attempt
clear_receipts browser = do
  there ← lift (is_browser browser)
  if not there then pure tt else attempt browser browser.remove_item none
