-- ===== src/Web/Wallet.antt =====
-- web/src/lib/wallet.ts: what the page asks of the wallet in the browser.
--
-- The state is the trace of the requests that the wallet was sent, newest first, and the wallet's
-- answer to a request may depend on those before. A chain id is a natural number.
pub mod Chains
pub mod Address
use micro_ai_paygate.Prelude.{
  ℕ, zero, suc, ◌+◌, ◌*◌, ◌-◌, ◌/◌, ◌%◌, String, Text, codes, includes, Bool, true, false, not,
  ◌&&◌, ◌||◌, Option, none, some, List, [], ◌∷◌, ◌++◌, length, take, drop, leb, ltb, ◌==◌,
  if◌then◌else◌, text_eq,
}
use micro_ai_paygate.Js.Json.{Number, int, pos}
use micro_ai_paygate.Js.Stringify.{decimal}
use micro_ai_paygate.Js.Exec.{Result, ok, throw, Exec, pure, raise, lift, ◌>>=◌}
use micro_ai_paygate.Js.Host.{Host}

pub record ChainMeta : Type 0 where
  pub id : ℕ
  pub name : Text
  pub rpc_url : Text
  pub explorer : Text

-- The parameters of `wallet_addEthereumChain` that vary: the native currency is the same always.
pub record ChainParameters : Type 0 where
  pub chain_id : Text
  pub chain_name : Text
  pub rpc_urls : List Text
  pub block_explorer_urls : List Text

pub data WalletCall : Type 0 where
  eth_accounts : WalletCall
  eth_request_accounts : WalletCall
  get_network : WalletCall
  switch_chain : Text → WalletCall
  add_chain : ChainParameters → WalletCall

-- What a wallet rejects a request with: the properties that the code reads, the message as
-- `String(e.message ?? "")`.
pub record WalletError : Type 0 where
  pub code : Option Number
  pub message : Text

-- What the code of the module throws: an `Error` of its own, or what the wallet rejected with.
pub data WalletThrown : Type 0 where
  error : Text → WalletThrown
  rejected : WalletError → WalletThrown

abbrev pub WalletCalls : Type 0
WalletCalls = List WalletCall

-- `window.ethereum`, through ethers where the code goes through it
pub record Wallet : Type 0 where
  pub accounts : WalletCalls → WalletCall → Result WalletError (List Text)
  pub chain : WalletCalls → Result WalletError ℕ
  pub request : WalletCalls → WalletCall → Result WalletError Unit

abbrev pub Walleted : Type 0 → Type 0
Walleted A = Exec WalletCalls WalletThrown A

abbrev pub from_wallet : {A : Type 0} → Result WalletError A → Result WalletThrown A
from_wallet (ok a) = ok a
from_wallet (throw e) = throw (rejected e)

-- `getChainMeta(chainId)`, with `CHAINS`
unfoldable pub get_chain_meta : ℕ → ChainMeta
unfolding decimal
get_chain_meta chain_id =
    if chain_id == 84532
    then record {
      id = 84532;
      name = codes "Base Sepolia";
      rpc_url = codes "https://sepolia.base.org";
      explorer = codes "https://sepolia.basescan.org";
    }
    else if chain_id == 8453
    then record {
      id = 8453;
      name = codes "Base";
      rpc_url = codes "https://mainnet.base.org";
      explorer = codes "https://basescan.org";
    }
    else record {
      id = chain_id;
      name = codes "Chain " ++ decimal chain_id;
      rpc_url = [];
      explorer = [];
    }

-- `hasWallet()`, for `window.ethereum` where there is a window
unfoldable pub has_wallet : Option Wallet → Bool
has_wallet none = false
has_wallet (some wallet) = true

abbrev pub first : List Text → Option Text
first [] = none
first (a ∷ rest) = some a

-- `getCurrentAccount()`
unfoldable pub get_current_account : Option Wallet → Walleted (Option Text)
get_current_account none calls = (ok none, calls)
get_current_account (some wallet) calls = elim (wallet.accounts calls eth_accounts) [
  | ok accounts ↦ (ok (first accounts), eth_accounts ∷ calls)
  | throw e ↦ (throw (rejected e), eth_accounts ∷ calls)
]

-- `getCurrentChainId()`
unfoldable pub get_current_chain_id : Option Wallet → Walleted (Option ℕ)
get_current_chain_id none calls = (ok none, calls)
get_current_chain_id (some wallet) calls = elim (wallet.chain calls) [
  | ok id ↦ (ok (some id), get_network ∷ calls)
  | throw e ↦ (throw (rejected e), get_network ∷ calls)
]

-- `if (!accounts[0]) throw …; return accounts[0]`
unfoldable pub connected_account : List Text → Result WalletThrown Text
connected_account [] = throw (error (codes "Wallet returned no accounts"))
connected_account ([] ∷ rest) = throw (error (codes "Wallet returned no accounts"))
connected_account ((c ∷ a) ∷ rest) = ok (c ∷ a)

-- `connectWallet()`
unfoldable pub connect_wallet : Option Wallet → Walleted Text
unfolding connected_account
connect_wallet none calls = (throw (error (codes "No wallet found")), calls)
connect_wallet (some wallet) calls = elim (wallet.accounts calls eth_request_accounts) [
  | ok accounts ↦ (connected_account accounts, eth_request_accounts ∷ calls)
  | throw e ↦ (throw (rejected e), eth_request_accounts ∷ calls)
]

-- The digit of a number below 16.
unfoldable pub hex_digit : ℕ → ℕ
hex_digit n = if ltb n 10 then 48 + n else 87 + n

unfoldable pub hex_from : ℕ → ℕ → Text → Text
unfolding hex_digit
hex_from zero n digits = digits
hex_from (suc fuel) n digits =
    let more = hex_from fuel (n / 16) (hex_digit (n % 16) ∷ digits) in
    if ltb n 16 then hex_digit n ∷ digits else more

-- `chainId.toString(16)`: a number has fewer digits than its successor counts.
unfoldable pub hex_text : ℕ → Text
unfolding hex_from
hex_text n = hex_from (suc n) n []

abbrev pub is_4902 : Option Number → Bool
is_4902 (some (int (pos n))) = n == 4902
is_4902 code = false

-- `isUnknownChain`
unfoldable pub is_unknown_chain : Host → WalletError → Bool
unfolding includes
is_unknown_chain host e =
    is_4902 e.code || includes (host.to_lower_case e.message) (codes "chain not supported")

unfoldable pub chain_parameters : ℕ → ChainParameters
unfolding get_chain_meta hex_text
chain_parameters chain_id =
    let meta = get_chain_meta chain_id in
    record {
      chain_id = codes "0x" ++ hex_text chain_id;
      chain_name = meta.name;
      rpc_urls = meta.rpc_url ∷ [];
      block_explorer_urls = meta.explorer ∷ [];
    }

module _ (host : Host) (wallet : Wallet) where
  unfoldable pub ask : WalletCall → Walleted Unit
  ask call calls = (from_wallet (wallet.request calls call), call ∷ calls)

  -- `switchOrAddChain(chainId)`, after a switch that was rejected for want of the chain
  unfoldable pub add_known_chain : ℕ → Walleted Unit
  unfolding ask get_chain_meta chain_parameters
  add_known_chain chain_id =
      if text_eq (get_chain_meta chain_id).rpc_url []
      then raise
          (error (codes "Unknown chain " ++ decimal chain_id ++ codes " — cannot add to wallet"))
      else ask (add_chain (chain_parameters chain_id))

  abbrev pub after_switch : ℕ → Result WalletError Unit → Walleted Unit
  after_switch chain_id (ok u) = pure tt
  after_switch chain_id (throw e) =
      if not (is_unknown_chain host e) then raise (rejected e) else add_known_chain chain_id

  -- `switchOrAddChain(chainId)`, where there is a wallet
  unfoldable pub switch_in : ℕ → Walleted Unit
  unfolding add_known_chain hex_text is_unknown_chain
  switch_in chain_id calls =
      let call = switch_chain (codes "0x" ++ hex_text chain_id) in
      after_switch chain_id (wallet.request calls call) (call ∷ calls)

-- `switchOrAddChain(chainId)`
unfoldable pub switch_or_add_chain : Host → Option Wallet → ℕ → Walleted Unit
unfolding switch_in
switch_or_add_chain host none chain_id = raise (error (codes "No wallet found"))
switch_or_add_chain host (some wallet) chain_id = switch_in host wallet chain_id

-- `addr.slice(-n)`: all of it for 0
unfoldable pub slice_last : ℕ → Text → Text
slice_last zero s = s
slice_last (suc n) s = drop (length s - suc n) s

-- `shortenAddress(addr, chars)`
unfoldable pub shorten_address : Text → ℕ → Text
unfolding slice_last
shorten_address [] chars = []
shorten_address (c ∷ addr) chars =
    if leb (length (c ∷ addr)) (chars * 2 + 2)
    then c ∷ addr
    else take (chars + 2) (c ∷ addr) ++ (0x2026 ∷ slice_last chars (c ∷ addr))
