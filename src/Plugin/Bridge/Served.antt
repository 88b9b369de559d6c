-- ===== src/Plugin/Bridge/Served.antt =====
-- Each call of `getHostBootstrap` is answered once.
use zszc_sql_client.Base.{
  ℕ, ◌+◌, String, ◌≡◌, refl, sym, Bool, true, false, not, ◌||◌, Option, none, some, List, [], ◌∷◌,
  ◌++◌, map, arith, eqb, ltb, is_some, if◌then◌else◌,
}
use zszc_sql_client.Plugin.Bridge.{
  HostBootstrap, HostMessage, foreign, bootstrap, rpc_response, BridgeState, start,
  get_host_bootstrap, receive, invoke_host_method, BridgeStep, invokes, asks, receives, BridgeReach,
  started, stepped, settlement, delete,
}
use zszc_sql_client.Base.Dict.{lookup}
use zszc_sql_client.Plugin.Bridge.Settled.{times, none_before}

abbrev pub among : ℕ → List ℕ → ℕ
among n [] = 0
among n (x ∷ xs) = (if eqb x n then 1 else 0) + among n xs

abbrev pub no_one : List ℕ → Bool
no_one [] = true
no_one (x ∷ xs) = false

among-append : (n : ℕ) (xs ys : List ℕ) → among n (xs ++ ys) ≡ among n xs + among n ys
among-append n [] ys = omega arith
among-append n (x ∷ xs) ys = omega (arith, among-append n xs ys)

times-served :
    (n : ℕ) (payload : HostBootstrap) (waiters : List ℕ) (served : List (ℕ × HostBootstrap))
    → times n (map (λ waiter. (waiter, payload)) waiters ++ served)
      ≡ among n waiters + times n served
times-served n payload [] served = omega arith
times-served n payload (x ∷ waiters) served = omega (arith, times-served n payload waiters served)

module _ {A : Type 0} where
  -- Each asking so far waits or is served, once; none waits once the data is there.
  abbrev IsAnswered : BridgeState A → Type 0
  IsAnswered s =
      ((n : ℕ) → among n s.bootstrap_waiters + times n s.served ≡ (if ltb n s.asked then 1 else 0))
      × (not (is_some s.bootstrap_payload) || no_one s.bootstrap_waiters ≡ true)

  asked-IsAnswered :
      (s : BridgeState A) (o : Option HostBootstrap)
      → s.bootstrap_payload ≡ o
      → IsAnswered s
      → IsAnswered (elim o as (λ _. BridgeState A) [
        | some payload ↦ record s { asked = s.asked + 1; served = (s.asked, payload) ∷ s.served }
        | none ↦ record s {
          asked = s.asked + 1;
          bootstrap_waiters = s.bootstrap_waiters ++ s.asked ∷ [];
        }
      ])
  asked-IsAnswered s none e h =
      (λ n. ground (arith, h.0 n, among-append n s.bootstrap_waiters (s.asked ∷ [])), rw e refl)
  asked-IsAnswered s (some payload) e h = (λ n. ground (arith, h.0 n), h.1)

  response-IsAnswered :
      (id : String) (ok : Bool) (result : Option A) (message : Option String) (s : BridgeState A)
      (o : Option ℕ)
      → IsAnswered s
      → IsAnswered (elim o as (λ _. BridgeState A) [
        | none ↦ s
        | some promise ↦ record s {
          pending_requests = delete id s.pending_requests;
          settled = (promise, settlement ok result message) ∷ s.settled;
        }
      ])
  response-IsAnswered id ok result message s none h = h
  response-IsAnswered id ok result message s (some promise) h = h

  receive-IsAnswered :
      (message : HostMessage A) (s : BridgeState A) → IsAnswered s → IsAnswered (receive message s)
  unfolding receive
  receive-IsAnswered foreign s h = h
  receive-IsAnswered (bootstrap payload) s h =
      (λ n. omega (arith, h.0 n, times-served n payload s.bootstrap_waiters s.served), refl)
  receive-IsAnswered (rpc_response id ok result message) s h =
      response-IsAnswered id ok result message s (lookup id s.pending_requests) h

  module _ (shown : ℕ → String) where
    step-IsAnswered : {s t : BridgeState A} → BridgeStep shown s t → IsAnswered s → IsAnswered t
    step-IsAnswered {s} (invokes now method params) h = unfold invoke_host_method in h
    step-IsAnswered {s} asks h =
        unfold get_host_bootstrap in asked-IsAnswered s s.bootstrap_payload refl h
    step-IsAnswered {s} (receives message) h = receive-IsAnswered message s h

    -- Whatever messages come, every call of `getHostBootstrap` waits or was resolved, and that once, and as soon
    -- as the bootstrap data has come no call waits.
    pub bootstrap_served_once :
        {s : BridgeState A}
        → BridgeReach shown s
        → ((n : ℕ)
            → among n s.bootstrap_waiters + times n s.served ≡ (if ltb n s.asked then 1 else 0))
          × (not (is_some s.bootstrap_payload) || no_one s.bootstrap_waiters ≡ true)
    bootstrap_served_once started = unfold start in ((λ n. sym (none_before n)), refl)
    bootstrap_served_once (stepped r step) = step-IsAnswered step (bootstrap_served_once r)
