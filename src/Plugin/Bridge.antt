-- ===== src/Plugin/Bridge.antt =====
-- plugins/password-util-plugin/frontend/src/hostBridge.ts, which the other two plugins have a copy of:
-- requests of a plugin to the client that hosts it, and the client's messages to the plugin.
-- A promise is a number, those of requests by `request_seed`, those of `getHostBootstrap` by `asked`.
-- `settled`, `served` and `posted` are what was done so far: promises settled, promises resolved
-- with the bootstrap data, requests posted to the parent window. `shown` is the text of a number.
pub mod Settled
pub mod Served
use zszc_sql_client.Base.{
  ℕ, ◌+◌, String, Bool, true, false, Option, none, some, List, [], ◌∷◌, ◌++◌, map, joined, or_else,
  ◌==◌, if◌then◌else◌,
}
use zszc_sql_client.Base.Dict.{Dict, lookup, insert}

pub record HostBootstrap : Type 0 where
  pub plugin_id : String
  pub plugin_name : String
  pub plugin_version : String
  pub current_platform : String
  pub permissions : List String

-- `entries.delete(key)`, of a key that stands once.
unfoldable pub delete {ℓ} : {V : Type ℓ} → String → Dict V → Dict V
delete key [] = []
delete key (entry ∷ entries) =
    let later = entry ∷ delete key entries in if entry.0 == key then entries else later

-- `payload.error_message || '插件调用失败'`
abbrev pub failure_text : Option String → String
failure_text none = "插件调用失败"
failure_text (some message) = if message == "" then "插件调用失败" else message

-- `${Date.now()}-${requestSeed++}`
abbrev pub request_id_of : (ℕ → String) → ℕ → ℕ → String
request_id_of shown now seed = joined (shown now ∷ "-" ∷ shown seed ∷ [])

module _ (A : Type 0) where
  -- A message with another channel or kind is `foreign`.
  pub data HostMessage : Type 0 where
    foreign : HostMessage
    bootstrap : HostBootstrap → HostMessage
    rpc_response : String → Bool → Option A → Option String → HostMessage

  -- What a promise is resolved or rejected with; a missing result is `null`, here `none`.
  pub data Settlement : Type 0 where
    resolved : Option A → Settlement
    rejected : String → Settlement

  pub record RpcRequest : Type 0 where
    pub request_id : String
    pub method : String
    pub params : A

  pub record BridgeState : Type 0 where
    pub pending_requests : Dict ℕ
    pub request_seed : ℕ
    pub bootstrap_payload : Option HostBootstrap
    pub bootstrap_waiters : List ℕ
    pub asked : ℕ
    pub settled : List (ℕ × Settlement)
    pub served : List (ℕ × HostBootstrap)
    pub posted : List RpcRequest

module _ {A : Type 0} where
  unfoldable pub start : BridgeState A
  start = record {
    pending_requests = [];
    request_seed = 0;
    bootstrap_payload = none;
    bootstrap_waiters = [];
    asked = 0;
    settled = [];
    served = [];
    posted = [];
  }

  unfoldable pub get_host_bootstrap : BridgeState A → BridgeState A
  get_host_bootstrap s = elim s.bootstrap_payload [
    | some payload ↦ record s { asked = s.asked + 1; served = (s.asked, payload) ∷ s.served }
    | none ↦ record s {
      asked = s.asked + 1;
      bootstrap_waiters = s.bootstrap_waiters ++ s.asked ∷ [];
    }
  ]

  abbrev pub settlement : Bool → Option A → Option String → Settlement A
  settlement true result message = resolved result
  settlement false result message = rejected (failure_text message)

  unfoldable pub receive : HostMessage A → BridgeState A → BridgeState A
  unfolding lookup delete
  receive foreign s = s
  receive (bootstrap payload) s = record s {
    bootstrap_payload = some payload;
    bootstrap_waiters = [];
    served = map (λ waiter. (waiter, payload)) s.bootstrap_waiters ++ s.served;
  }
  receive (rpc_response request_id ok result message) s =
      elim (lookup request_id s.pending_requests) [
        | none ↦ s
        | some promise ↦ record s {
          pending_requests = delete request_id s.pending_requests;
          settled = (promise, settlement ok result message) ∷ s.settled;
        }
      ]

  module _ (shown : ℕ → String) where
    unfoldable pub invoke_host_method : ℕ → String → A → BridgeState A → BridgeState A
    unfolding insert
    invoke_host_method now method params s =
        let id : String = request_id_of shown now s.request_seed in
        record s {
          pending_requests = insert id s.request_seed s.pending_requests;
          request_seed = s.request_seed + 1;
          posted = record { request_id = id; method = method; params = params } ∷ s.posted;
        }

    -- What happens to a plugin, one after another.
    pub data BridgeStep (s : BridgeState A) : BridgeState A → Type 0 where
      invokes :
          (now : ℕ) (method : String) (params : A)
          → BridgeStep s (invoke_host_method now method params s)
      asks : BridgeStep s (get_host_bootstrap s)
      receives : (message : HostMessage A) → BridgeStep s (receive message s)

    pub data BridgeReach : BridgeState A → Type 0 where
      started : BridgeReach start
      stepped : {s t : BridgeState A} → BridgeReach s → BridgeStep s t → BridgeReach t
