-- ===== src/Web/Wallet/Chains.antt =====
-- web/src/lib/wallet.ts: when the page counts the wallet as switched to a chain.
use micro_ai_paygate.Prelude.{
  ℕ, Text, text_eq, codes, true, false, ◌≡◌, ◌++◌, refl, Option, none, some, [], ◌∷◌, inl, inr,
  Bool-cases,
}
use micro_ai_paygate.Js.Exec.{Result, ok, throw}
use micro_ai_paygate.Js.Ends.{Result-cases}
use micro_ai_paygate.Js.Host.{Host}
use micro_ai_paygate.Web.Wallet.{
  Wallet, WalletCalls, WalletError, switch_chain, add_chain, hex_text, is_unknown_chain,
  get_chain_meta, chain_parameters, ask, add_known_chain, switch_in, switch_or_add_chain,
  from_wallet,
}

abbrev pub hex_chain : ℕ → Text
hex_chain chain_id = codes "0x" ++ hex_text chain_id

-- What the wallet has done where the code returns, and the requests it was sent: it has switched
-- to the chain, or it does not know the chain, which the page does, and has taken it in.
pub data Switched (host : Host) (wallet : Wallet) (chain_id : ℕ) (before after : WalletCalls)
    : Type 0 where
  switched :
      wallet.request before (switch_chain (hex_chain chain_id)) ≡ ok tt
      → after ≡ switch_chain (hex_chain chain_id) ∷ before
      → Switched host wallet chain_id before after
  added :
      (e : WalletError)
      → wallet.request before (switch_chain (hex_chain chain_id)) ≡ throw e
      → is_unknown_chain host e ≡ true
      → text_eq (get_chain_meta chain_id).rpc_url [] ≡ false
      → wallet.request
          (switch_chain (hex_chain chain_id) ∷ before)
          (add_chain (chain_parameters chain_id))
        ≡ ok tt
      → after ≡ add_chain (chain_parameters chain_id) ∷ switch_chain (hex_chain chain_id) ∷ before
      → Switched host wallet chain_id before after

from_wallet-eq_ok :
    {A : Type 0} (r : Result WalletError A) (a : A) → from_wallet r ≡ ok a → r ≡ ok a
from_wallet-eq_ok (ok b) a h = cc
from_wallet-eq_ok (throw e) a h = cc

add_known_chain-Switched :
    (host : Host) (wallet : Wallet) (chain_id : ℕ) (before : WalletCalls) (e : WalletError)
    → wallet.request before (switch_chain (hex_chain chain_id)) ≡ throw e
    → is_unknown_chain host e ≡ true
    → (add_known_chain host wallet chain_id (switch_chain (hex_chain chain_id) ∷ before)).0 ≡ ok tt
    → Switched host wallet chain_id before
        (add_known_chain host wallet chain_id (switch_chain (hex_chain chain_id) ∷ before)).1
unfolding add_known_chain ask
add_known_chain-Switched host wallet chain_id before e failed unknown h =
    elim (Bool-cases (text_eq (get_chain_meta chain_id).rpc_url [])) [
      | inl strange ↦ cc
      | inr known ↦
          rw (known, add_known_chain)
            (added e failed unknown known
              (from_wallet-eq_ok _ tt (rw (known, add_known_chain) at h)) refl)
    ]

switch_in-Switched :
    (host : Host) (wallet : Wallet) (chain_id : ℕ) (before : WalletCalls)
    → (switch_in host wallet chain_id before).0 ≡ ok tt
    → Switched host wallet chain_id before (switch_in host wallet chain_id before).1
unfolding switch_in
switch_in-Switched host wallet chain_id before h =
    elim (Result-cases (wallet.request before (switch_chain (hex_chain chain_id)))) [
      | inl (u, fine) ↦ rw (fine, switch_in) (switched fine refl)
      | inr (e, failed) ↦ elim (Bool-cases (is_unknown_chain host e)) [
        | inr other ↦ cc (rw (failed, other, switch_in) at h)
        | inl unknown ↦
            rw (failed, unknown, switch_in)
              (add_known_chain-Switched host wallet chain_id before e failed unknown
                (rw (failed, unknown, switch_in) at h))
      ]
    ]

-- Where `switchOrAddChain` returns, there is a wallet, and it has switched to the chain or added a
-- chain that the page knows; no other request was sent.
pub switch_or_add_chain-Switched :
    (host : Host) (there : Option Wallet) (chain_id : ℕ) (calls : WalletCalls)
    → (switch_or_add_chain host there chain_id calls).0 ≡ ok tt
    → (wallet : Wallet) × (there ≡ some wallet)
      × Switched host wallet chain_id calls (switch_or_add_chain host there chain_id calls).1
unfolding switch_or_add_chain
switch_or_add_chain-Switched host none chain_id calls h = cc
switch_or_add_chain-Switched host (some wallet) chain_id calls h =
    (wallet, refl, switch_in-Switched host wallet chain_id calls h)
