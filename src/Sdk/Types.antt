-- ===== src/Sdk/Types.antt =====
-- sdk/typescript/src/protocol/types.ts and errors.ts: the data of the protocol, the SDK's error
-- class, and the calls of the client to the outside.
--
-- The client is observed through its calls: a call of `fetch` and a call of the signer are put in
-- front of the list of the calls made so far, and the answer may depend on all of them.
use micro_ai_paygate.Prelude.{ℕ, String, Text, Bool, Option, List, ◌&&◌, leb, ltb}
use micro_ai_paygate.Js.Json.{Number, Json}
use micro_ai_paygate.Js.Exec.{Result, ok, throw, Exec}

pub record PaymentContext : Type 0 where
  pub recipient : Text
  pub token : Text
  pub amount : Text
  pub nonce : Text
  pub chain_id : Number
  pub timestamp : Number

pub record PaymentDetails : Type 0 where
  pub payer : Text
  pub recipient : Text
  pub amount : Text
  pub token : Text
  pub chain_id : Number
  pub nonce : Text

pub record ServiceDetails : Type 0 where
  pub endpoint : Text
  pub request_hash : Text
  pub response_hash : Text

pub record Receipt : Type 0 where
  pub id : Text
  pub version : Text
  pub timestamp : Text
  pub payment : PaymentDetails
  pub service : ServiceDetails

pub record SignedReceipt : Type 0 where
  pub receipt : Receipt
  pub signature : Text
  pub server_public_key : Text

-- `PaygateResponse<T>`: the payload is the parsed body.
pub record PaygateResponse : Type 0 where
  pub payload : Json
  pub receipt : Option SignedReceipt
  pub receipt_verified : Option Bool
  pub status : ℕ

-- A value that code outside the SDK throws: the host, the fetcher, the signer, the package ethers.
pub record Fault : Type 0 where
  pub message : Text

-- A request body: a value that `JSON.stringify` writes, one for which it returns `undefined` (a
-- function, a symbol), or one on which it throws (a cycle, a bigint).
pub data Body : Type 0 where
  json : Json → Body
  silent : Body
  unserializable : Fault → Body

-- An object from header names to values, in the order of its keys.
abbrev pub HeaderRecord : Type 0
HeaderRecord = List (String × Text)

pub record PaygateRequest : Type 0 where
  pub method : Text
  pub path : Text
  pub body : Option Body
  pub headers : Option HeaderRecord

pub record RequestInit : Type 0 where
  pub method : Text
  pub headers : HeaderRecord
  pub body : Option Text

-- A response: its status, its headers, and what reading its body gives.
pub record Response : Type 0 where
  pub status : ℕ
  pub header : String → Option Text
  pub text : Result Fault Text

-- `response.ok`
abbrev pub is_ok : Response → Bool
is_ok res = leb 200 res.status && ltb res.status 300

pub data ErrorCode : Type 0 where
  payment_challenge_missing payment_signature_failed signed_retry_failed : ErrorCode
  receipt_decode_failed receipt_verification_failed network_error : ErrorCode

pub record SdkError : Type 0 where
  pub code : ErrorCode
  pub message : String
  pub status : Option ℕ
  pub body_text : Option Text
  pub cause : Option Fault

-- What the code of the SDK can throw: its own error, or a value that comes from outside.
pub data Thrown : Type 0 where
  sdk : SdkError → Thrown
  foreign : Fault → Thrown

-- A result from outside, as the SDK's code sees it.
abbrev pub from_outside : {A : Type 0} → Result Fault A → Result Thrown A
from_outside (ok a) = ok a
from_outside (throw fault) = throw (foreign fault)

pub record TypedDataDomain : Type 0 where
  pub name : Text
  pub version : Text
  pub chain_id : Number
  pub verifying_contract : Text

pub record TypedDataField : Type 0 where
  pub name : String
  pub type : String

pub data TypedValue : Type 0 where
  text : Text → TypedValue
  number : Number → TypedValue

pub record TypedData : Type 0 where
  pub domain : TypedDataDomain
  pub types : List (String × List TypedDataField)
  pub value : List (String × TypedValue)

pub data Call : Type 0 where
  fetched : Text → RequestInit → Call
  signed : TypedData → Call

abbrev pub Calls : Type 0
Calls = List Call

abbrev pub Sdk : Type 0 → Type 0
Sdk A = Exec Calls Thrown A

-- `FetchLike` and `PaymentSigner`, with the calls made before.
abbrev pub FetchLike : Type 0
FetchLike = Calls → Text → RequestInit → Result Fault Response

abbrev pub PaymentSigner : Type 0
PaymentSigner = Calls → TypedData → Result Fault Text
