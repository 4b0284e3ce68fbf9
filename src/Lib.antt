-- ===== src/Lib.antt =====
-- MicroAI Paygate sells calls of an AI model for a payment that the caller's wallet signs. The Go
-- gateway answers an unpaid request with 402 and a payment context; the client signs the context
-- as EIP-712 typed data and sends the request again with the signature; the gateway answers with
-- the result and a receipt in a header, which the client checks. This library models the
-- TypeScript client SDK of the repository, sdk/typescript/src, whole, and of the web application
-- the modules of web/src/lib that keep a state or decide something on their own.
--
-- Files and code:
--   Prelude              the numbers, lists, options and texts that the other modules share. A text
--                        is the list of its UTF-16 code units, as a JavaScript string is
--   Js                   what the code uses of its language: JSON values and their tests (Js/Json),
--                        JSON.stringify (Js/Stringify), computations that carry a state and may
--                        throw (Js/Exec), a logic of how such a computation ends (Js/Ends), and the
--                        operations of the host that are parameters (Js/Host)
--   Sdk/Types            protocol/types.ts and errors.ts: the data, the error class, and the trace of
--                        calls of the fetcher and the signer, which is the state of the client's code
--   Sdk/Url              client.ts: buildUrl, buildReceiptEndpoint and the constructor's replace
--   Sdk/Payment          payment.ts: the typed data, the signing, the signed headers
--   Sdk/Base64           base64.ts: both functions, with atob and btoa written out
--   Sdk/Receipts         receipts.ts: the format test, the header decoder and the serializer here,
--                        verifyReceipt in Sdk/Receipts/Verify, fetchReceipt in Sdk/Receipts/Fetch
--   Sdk/Microai          protocol/microai.ts: the adapter of the protocol
--   Sdk/Client           client.ts: the class PaygateClient; its request and summarize are in
--                        Sdk/Client/Request, the receipt checks of readSuccess in Sdk/Client/Receipt
--   Web/Storage          web/src/lib/receipt-storage.ts: the receipts in the browser's local storage
--   Web/Errors           web/src/lib/errors.ts: what the page says about a failure
--   Web/Analytics        web/src/lib/analytics.ts: what the page reports of its use
--   Web/BrowserAnalytics web/src/lib/browser-analytics.ts: the operations that wait for the PostHog SDK
--   Web/Wallet           web/src/lib/wallet.ts: what the page asks of the wallet
--   Web/X402Client       web/src/lib/x402-client.ts: the summary and the receipt that the page reads
--                        from a response, with validateReceiptFormat; its requests and what it has
--                        signed are in Web/X402Client/Requests
--   Web/VerifyReceipt    web/src/lib/verify-receipt.ts: verifyReceipt and fetchReceipt of the page
--   Web/ReceiptVerification
--                        web/src/components/output-card.tsx, the hook useReceiptVerification, and the
--                        texts for its states there and in summarize-form.tsx
--   Web/StatusStrip      web/src/components/status-strip.tsx, and the labels of web/src/lib/types.ts:
--                        the cells of the steps
--   Web/SummarizeForm    web/src/components/summarize-form.tsx and error-banner.tsx: the form over the
--                        hook useX402. after_event is what typing, a click or the outside does to it
--   Web/X402             web/src/hooks/use-x402.ts, the hook useX402: the state, and the code of a run
--                        as a flow of actions and awaits (Flow). Web/X402/Reports has what a run
--                        reports and writes, Web/X402/Submit the run itself, and Web/X402/System the
--                        runs together: after_event is what submit, reset, an answer or a timer does
--   Web/WalletWidget     web/src/components/wallet-widget.tsx: the state, and what each await of the
--                        widget goes on with; Web/WalletWidget/Events has its events. The digits of a
--                        chain id are read by Js/ParseInt
--   Web/CopyButton       web/src/components/copy-button.tsx, and the button of docs/copy-code-block.tsx
--   Web/ReceiptCard      web/src/components/receipt-card.tsx: the check of a stored receipt, and its age
--   Web/SmokeTest        web/scripts/deployed-smoke-test.ts: its functions, and main in Web/SmokeTest/Main
--   Sdk/Tests, Web/Tests, Web/X402/Tests, Web/VerifyReceipt/Tests,
--   Web/ReceiptVerification/Tests, Web/SummarizeForm/Tests, Web/WalletWidget/Tests,
--   Web/CopyButton/Tests, Web/ReceiptCard/Tests, Web/SmokeTest/Tests
--                        runs at concrete inputs
-- The modules below these with other names hold the theorems on them: for instance Sdk/Client/Flow on
-- the calls of a request, or Web/Storage/Listing on the stored list after a write.
--
-- How the parts meet: request builds the URL and the body text, calls the fetcher, asks the
-- adapter for the payment context of a 402 response, has the signer sign it, calls the fetcher
-- again, and reads the receipt of the answer. An operation is a function from the calls made
-- before to a result or a thrown value and the calls made after; fetcher and signer are functions
-- of the calls before theirs, so a client may get a different answer each time. A throw is a
-- value, either an error of the SDK's class or a fault from outside. The local storage is a state
-- of the same kind, whose item other pages may write too; the listeners and the analytics sink are
-- called from it. Fuel is taken only where a number is written in digits, and a number has fewer
-- digits than its successor counts; the other loops are recursions on a text or a list.
--
-- The hook of the page is a state machine of its own. A run is a Flow: at once it writes the state,
-- reports, stores a receipt, and sets or clears its timer (act); it waits for a fetch, a body or the
-- wallet (ask); it names its stage (at); it ends or throws. perform carries out an action for the
-- run with a given number, with the tests of the run id that update, track and identify make, and
-- advance goes on to the next await. A System is the shared state with all the runs so far, and an
-- Event may answer any of them with any value or throw, so the histories of events are all the
-- interleavings. Latest is the abstract page, with one run and no run ids. No fuel is taken: a flow
-- is a tree, and the awaits on each of its paths are counted in Awaits.
--
-- The form holds such a System and a text, and what its last rendering saw: its buttons, their
-- conditions and the text that is submitted are those of that rendering, so a second click on the
-- button before the page is rendered begins a second run, as a comment of use-x402.ts expects. The
-- other clicks are events of the hook where the rendered conditions let them through. The loader of
-- PostHog keeps apart a throw of posthog.init and the catch handler that a later microtask calls.
-- The wallet widget keeps the list of the calls of the wallet that it waits for; any of them may be
-- answered next, with any value or throw, and the effects after a rendering are an event of their
-- own, so a wallet may announce a change before them. The answers that a call can still want are
-- counted.
--
-- Parameters: JSON.parse, the UTF-8 coders, toLowerCase and encodeURIComponent (Js.Host.Host), the
-- functions of the package ethers (Js.Host.Ethers), the fetcher, the signer, the global fetch, the
-- browser's local storage and its faults, the listeners, the sink, and the outcome of loading
-- PostHog.
--
-- Not modelled: the gateway (gateway, Go) and the verifier (verifier, Rust), which are not
-- TypeScript; of the web application the other components and the markup, which are left for an
-- extension of this library; a payment context whose properties have other types than the page
-- asserts, a receipt to be stored that has no receipt in it, integers from 10^21 on, which
-- JavaScript writes with an exponent, and writes of other pages to the local storage while the hook
-- runs; the build and deploy files, the benchmarks and the tests. The runtimes without atob and
-- btoa that base64.ts allows for are left out.
pub mod Prelude
pub mod Js
pub mod Sdk
pub mod Web
