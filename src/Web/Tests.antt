-- ===== src/Web/Tests.antt =====
-- Runs of the browser side at concrete inputs, and its theorems at inputs where their hypotheses
-- hold.
use micro_ai_paygate.Prelude.{
  ℕ, Text, codes, text_eq, ◌≡◌, ◌↔◌, refl, true, false, Option, none, some, [], ◌∷◌, take, includes,
  starts_with, arith, if◌then◌else◌, String,
}
use micro_ai_paygate.Js.Json.{
  Json, obj, arr, str, num, int, pos, field, end, prop, is_record, is_string,
}
use micro_ai_paygate.Js.Stringify.{stringify}
use micro_ai_paygate.Js.Exec.{ok, throw}
use micro_ai_paygate.Js.Host.{Host}
use micro_ai_paygate.Web.Storage.{
  Browser, Store, present, refused, is_browser, is_valid_entry, is_text_with, from_list, parse,
  list_receipts, get_receipts_snapshot, save_receipt, remove_receipt, clear_receipts, new_entry,
  entry_id, without, shelve,
}
use micro_ai_paygate.Web.Storage.Shelf.{IsShelf, Reads}
use micro_ai_paygate.Web.Storage.Listing.{save_receipt-IsShelf, save_receipt-lists, seen}
use micro_ai_paygate.Web.Storage.Faults.{writes-throw_iff}
use micro_ai_paygate.Web.Storage.Snapshot.{start, next, save, loaded, get_receipts_snapshot-lists}
use micro_ai_paygate.Web.Errors.{
  is_truthy, Caught, object, classify_error, classify_caught, build, sanitize_detail, shorten,
  looks_rejected, looks_wrong_chain, copy,
}
use micro_ai_paygate.Web.Errors.Kinds.{classify_error-final, IsWalletless, status_of}
use micro_ai_paygate.Sdk.Types.{Response}
use micro_ai_paygate.Web.X402Client as X402Client
use micro_ai_paygate.Web.Wallet as Wallet
use micro_ai_paygate.Web.Wallet.Chains.{Switched, switch_or_add_chain-Switched}
use micro_ai_paygate.Web.Analytics as Analytics
use micro_ai_paygate.Web.Analytics.{
  AnalyticsSink, capture, captured, create_analytics, SinkCall, forgotten, identified,
}
use micro_ai_paygate.Web.Analytics.Privacy.{create_analytics-IsQuiet, IsQuiet}
use micro_ai_paygate.Web.BrowserAnalytics as BrowserAnalytics
use micro_ai_paygate.Web.BrowserAnalytics.{
  BrowserAnalyticsEnv, fresh, with_post_hog, init_browser_analytics, should_enable_post_hog,
}
use micro_ai_paygate.Web.BrowserAnalytics.Order as Order
use micro_ai_paygate.Web.BrowserAnalytics.Order.{
  History-IsOrdered, IsOrdered, asked, asked_late, begun, resolved,
}

abbrev receipt : String → Json
receipt id = obj (
    field "receipt"
      (obj (
        field "id" (str (codes id)) (
          field "payment"
            (obj (
              field "payer" (str (codes "a")) (
                field "recipient" (str (codes "b")) (
                  field "amount" (str (codes "1")) (
                    field "token" (str (codes "USDC"))
                      (field "chainId" (num (int (pos 1))) end))))))
            (field "service"
              (obj (
                field "endpoint" (str (codes "/"))
                  (field "request_hash" (str []) (field "response_hash" (str []) end))))
              end))))
      (field "signature" (str (codes "0x1")) (field "server_public_key" (str (codes "0x2")) end)))

abbrev old : Json
old = new_entry 1 (receipt "rcpt_1") (codes "first")

abbrev stored : Text
stored = stringify (arr (from_list (old ∷ [])))

abbrev new : Json
new = new_entry 2 (receipt "rcpt_2") (codes "second")

abbrev host : Host
host = record {
  parse = λ s.
      if text_eq s stored
      then some (arr (from_list (old ∷ [])))
      else if text_eq s (codes "[]")
      then some (arr (from_list []))
      else some (arr (from_list (new ∷ old ∷ [])));
  decode_utf8 = λ b. b;
  encode_utf8 = λ t. t;
  to_lower_case = λ t. t;
  encode_uri_component = λ t. some t;
}

abbrev browser : Browser
browser = record {
  local_storage = present;
  get_item = ok tt;
  set_item = λ s. ok tt;
  remove_item = ok tt;
  listener = λ l. ok tt;
  now = 2;
}

abbrev store : Store
store = loaded (some stored)

storage_tests : Unit {0}
unfolding parse is_valid_entry is_record prop is_text_with is_string starts_with text_eq stringify
    new_entry shelve without entry_id is_browser
storage_tests = tt

store-IsShelf : IsShelf (parse host store.raw)
unfolding storage_tests
store-IsShelf = record { bound = omega arith; valid = (refl, tt); distinct = (tt, tt) }

new-Reads : Reads host (shelve new (seen host browser store))
unfolding storage_tests
new-Reads = refl

save_receipt-IsShelf_example :
    IsShelf (parse host (save_receipt host browser (receipt "rcpt_2") (codes "second") store).1.raw)
unfolding storage_tests
save_receipt-IsShelf_example =
    save_receipt-IsShelf host browser (receipt "rcpt_2") (codes "second") store refl new-Reads
      store-IsShelf

save_receipt-lists_example :
    (list_receipts host browser
      (save_receipt host browser (receipt "rcpt_2") (codes "second") store).1).0
    ≡ ok (new ∷ take 19 (without (entry_id new) (parse host store.raw)))
unfolding storage_tests
save_receipt-lists_example =
    save_receipt-lists host browser (receipt "rcpt_2") (codes "second") store refl refl refl refl
      new-Reads

get_receipts_snapshot-lists_example :
    (get_receipts_snapshot host browser
      (save_receipt host browser (receipt "rcpt_2") (codes "second") store).1).0
    ≡ (list_receipts host browser
        (save_receipt host browser (receipt "rcpt_2") (codes "second") store).1).0
get_receipts_snapshot-lists_example =
    get_receipts_snapshot-lists host browser _
      (next (start (some stored)) (save browser (receipt "rcpt_2") (codes "second") store))

abbrev forbidden : Browser
forbidden = record browser { local_storage = refused (record { message = codes "SecurityError" }) }

writes-throw_iff_example :
    (((save_receipt host forbidden (receipt "rcpt_2") [] store).0
        ≡ throw (record { message = codes "SecurityError" }))
      ↔ (forbidden.local_storage ≡ refused (record { message = codes "SecurityError" })))
    × (((remove_receipt host forbidden (codes "rcpt_1") store).0
          ≡ throw (record { message = codes "SecurityError" }))
        ↔ (forbidden.local_storage ≡ refused (record { message = codes "SecurityError" })))
    × (((clear_receipts forbidden store).0 ≡ throw (record { message = codes "SecurityError" }))
        ↔ (forbidden.local_storage ≡ refused (record { message = codes "SecurityError" })))
writes-throw_iff_example =
    writes-throw_iff host forbidden (receipt "rcpt_2") [] (codes "rcpt_1") store
      (record { message = codes "SecurityError" })

abbrev gateway_timeout : ℕ
gateway_timeout = 504

abbrev teapot : ℕ
teapot = 418

abbrev walletless : Caught
walletless = object none (some (codes "no wallet")) none

walletless_test : (classify_error host (λ v. none) walletless none).recoverable ≡ false
unfolding classify_error classify_caught build looks_rejected looks_wrong_chain includes starts_with
    copy
walletless_test = refl

classify_error-final_example : (status_of none ≡ 0) × IsWalletless host (λ v. none) walletless
classify_error-final_example = classify_error-final host (λ v. none) walletless none walletless_test

detail_test :
    sanitize_detail (record host { parse = λ s. none }) (λ v. none) (some (codes "gone"))
    ≡ some (codes "gone")
unfolding sanitize_detail shorten
detail_test = refl

abbrev sink : AnalyticsSink
sink = record { has_reset = true; call = λ c. throw (record { message = codes "offline" }) }

create_analytics-IsQuiet_example : IsQuiet [] (
    create_analytics
      (some sink)
      true
      (capture "e" (("prompt", Analytics.scalar Analytics.null) ∷ []))
      [])
create_analytics-IsQuiet_example =
    create_analytics-IsQuiet (some sink) true
      (capture "e" (("prompt", Analytics.scalar Analytics.null) ∷ [])) []

abbrev env : BrowserAnalyticsEnv
env = record { enabled_flag = codes "1"; token = codes "t"; host = []; has_window = true }

-- An operation that is asked for between a throw of `posthog.init` and the `catch` handler.
History-IsOrdered_example : IsOrdered [] (forgotten ∷ []) (forgotten ∷ []) (
    with_post_hog forgotten (
      BrowserAnalytics.loaded
        (throw (record { message = codes "init" }))
        (with_post_hog forgotten (init_browser_analytics env fresh))))
unfolding init_browser_analytics with_post_hog should_enable_post_hog text_eq
    BrowserAnalytics.loaded
History-IsOrdered_example = History-IsOrdered (
    asked_late forgotten
      (resolved (throw (record { message = codes "init" }))
        (asked forgotten (begun env Order.start) refl refl) refl refl)
      refl)

abbrev base_sepolia : ℕ
base_sepolia = 84532

-- A wallet that does not know a chain until it was added.
abbrev metamask : Wallet.Wallet
metamask = record {
  accounts = λ calls call. ok [];
  chain = λ calls. ok 1;
  request = λ calls call. elim calls [
    | [] ↦ throw (record { code = some (int (pos 4902)); message = [] })
    | c ∷ cs ↦ ok tt
  ];
}

switch_or_add_chain_test :
    (Wallet.switch_or_add_chain host (some metamask) base_sepolia []).0 ≡ ok tt
unfolding Wallet.switch_or_add_chain Wallet.switch_in Wallet.add_known_chain Wallet.ask
    Wallet.get_chain_meta Wallet.is_unknown_chain text_eq
switch_or_add_chain_test = refl

switch_or_add_chain-Switched_example :
    (wallet : Wallet.Wallet) × (◌≡◌ {A = Option Wallet.Wallet} (some metamask) (some wallet))
    × Switched host wallet base_sepolia []
        (Wallet.switch_or_add_chain host (some metamask) base_sepolia []).1
switch_or_add_chain-Switched_example =
    switch_or_add_chain-Switched host (some metamask) base_sepolia [] switch_or_add_chain_test

abbrev issued : Json
issued = obj (
    field "receipt"
      (obj (
        field "id" (str (codes "rcpt_1")) (
          field "version" (str (codes "1")) (
            field "timestamp" (str (codes "t")) (
              field "payment"
                (obj (
                  field "payer" (str (codes "a")) (
                    field "recipient" (str (codes "b")) (
                      field "amount" (str (codes "1")) (
                        field "token" (str (codes "USDC"))
                          (field "nonce" (str (codes "n")) end))))))
                (field "service"
                  (obj (
                    field "endpoint" (str (codes "/")) (
                      field "request_hash" (str (codes "h"))
                        (field "response_hash" (str (codes "h")) end))))
                  end))))))
      (field "signature" (str (codes "0x1")) (field "server_public_key" (str (codes "0x2")) end)))

-- A paid response with a header that is no receipt.
abbrev answer : Json
answer = obj (field "result" (str (codes "short")) end)

abbrev page_host : Host
page_host = record host {
  parse = λ s.
      if text_eq s (codes "answer")
      then some answer
      else if text_eq s (codes "receipt")
      then some issued
      else none;
}

abbrev answered : Response
answered = record { status = 200; header = λ k. some (codes "%"); text = ok (codes "answer") }

answered_test : X402Client.response_json page_host (λ t. none) answered ≡ ok answer
unfolding X402Client.response_json text_eq
answered_test = refl

decoded_test :
    X402Client.safe_decode_receipt_header page_host (λ t. some t) (codes "receipt") ≡ some issued
unfolding X402Client.safe_decode_receipt_header X402Client.decode X402Client.validate_receipt_format
    X402Client.optional X402Client.optional_starts_with is_truthy starts_with prop text_eq
decoded_test = refl
