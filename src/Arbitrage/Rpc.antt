-- ===== src/Arbitrage/Rpc.antt =====
-- examples/toy-arbitrage/src/rpc.rs: the JSON-RPC client.
pub mod Receipts
pub mod Database
pub mod Signing
use driftbrake.Base.{
  ℕ, true, List, [], ◌∷◌, ◌++◌, Option, none, some, ◌⊎◌, inl, inr, length, value, panic, ◌==◌,
  if◌then◌else◌,
}
use driftbrake.Base.Text.{codes}
use driftbrake.Arbitrage.Hex.{RpcError, transport, rpc, malformed, Fallible, ok, err}
use driftbrake.Arbitrage.Json.{Json}

abbrev pub no_result : RpcError
no_result = malformed (codes "response had neither result nor error")

module _ ⦃js : Json⦄ where
  open js use {Value, get, text, number, object, print}

  -- What `ureq` makes of a request's body: an error of the transport, a body that is no JSON, or JSON.
  pub data Reply : Type 0 where
    failed : List ℕ → Reply
    not_json : List ℕ → Reply
    json : Value → Reply

  pub record Network : Type 0 where
    pub post : (url : List ℕ) → (body : Value) → Reply

  -- `JsonRpcClient`: its URL, with the network that it speaks to.
  pub record JsonRpcClient : Type 0 where
    pub url : List ℕ
    pub network : Network

  abbrev pub request : List ℕ → Value → Value
  request method params = object (
      (codes "jsonrpc", text (codes "2.0"))
      ∷ (codes "id", number 1)
      ∷ (codes "method", text method)
      ∷ (codes "params", params)
      ∷ [])

  abbrev pub result_of : Option Value → RpcError ⊎ Value
  result_of none = inl no_result
  result_of (some result) = inr result

  abbrev pub unless_error : Option Value → Option Value → RpcError ⊎ Value
  unless_error (some error) result = inl (rpc (print error))
  unless_error none result = result_of result

  abbrev pub read_reply : Reply → RpcError ⊎ Value
  read_reply (failed e) = inl (transport e)
  read_reply (not_json e) = inl (malformed e)
  read_reply (json response) =
      unless_error (get response (codes "error")) (get response (codes "result"))

  unfoldable pub call : JsonRpcClient → List ℕ → Value → RpcError ⊎ Value
  call client method params =
      read_reply (Network.post client.network client.url (request method params))

-- `out.copy_from_slice(&bytes)` into an array of 32 bytes.
unfoldable pub array_32 : List ℕ → Fallible RpcError (List ℕ)
array_32 bytes = if length bytes == 32 then ok bytes else panic

-- `ok_or_else(|| RpcError::Malformed(..))`
abbrev pub or_missing : {A : Type 0} → List ℕ → Option A → Fallible RpcError A
or_missing message none = err (malformed message)
or_missing message (some a) = ok a

abbrev pub unwrap_or : Option (List ℕ) → List ℕ → List ℕ
unwrap_or none default = default
unwrap_or (some s) default = s
