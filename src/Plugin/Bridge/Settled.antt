-- ===== src/Plugin/Bridge/Settled.antt =====
-- Each request is answered at most once.
use zszc_sql_client.Base.{
  ℕ, ◌+◌, ◌<◌, String, ◌≡◌, refl, sym, ap, ◌∙◌, Bool, Option, none, some, List, [], ◌∷◌, ◌++◌, All,
  All-imp, arith, ◌==◌, eq_iff, eqb, ltb, if◌then◌else◌, Bool-cases, inl, inr,
}
use zszc_sql_client.Base.Dict.{Dict, lookup, insert}
use zszc_sql_client.Plugin.Bridge.{
  delete, HostMessage, foreign, bootstrap, rpc_response, Settlement, BridgeState, start,
  get_host_bootstrap, settlement, receive, request_id_of, invoke_host_method, BridgeStep, invokes,
  asks, receives, BridgeReach, started, stepped,
}

-- How often a promise stands among entries, by the number that each entry gives.
abbrev pub one : Bool → ℕ
one b = if b then 1 else 0

pub none_before : (n : ℕ) → one (ltb n 0) ≡ 0
none_before n = ground arith

abbrev pub waiting : ℕ → Dict ℕ → ℕ
waiting n [] = 0
waiting n ((id, promise) ∷ entries) = one (eqb promise n) + waiting n entries

abbrev pub times {ℓ} : {V : Type ℓ} → ℕ → List (ℕ × V) → ℕ
times n [] = 0
times n ((promise, value) ∷ entries) = one (eqb promise n) + times n entries

waiting-delete :
    (n : ℕ) (id : String) (entries : Dict ℕ) (promise : ℕ)
    → lookup id entries ≡ some promise
    → one (eqb promise n) + waiting n (delete id entries) ≡ waiting n entries
unfolding lookup delete
waiting-delete n id [] promise h = absurd (ground arith)
waiting-delete n id ((k, p) ∷ entries) promise h = elim (Bool-cases (k == id)) [
  | inl same ↦ rw same (ap (λ q. one (eqb q n) + waiting n entries) (ground arith))
  | inr other ↦ rw other (omega (arith, waiting-delete n id entries promise (ground arith)))
]

module _ (shown : ℕ → String)
    (apart : (now seed now' seed' : ℕ)
      → request_id_of shown now seed ≡ request_id_of shown now' seed'
      → seed ≡ seed') where
  -- An entry of a promise that was made, under the id of its request.
  abbrev IsOurs : ℕ → String × ℕ → Type 0
  IsOurs seed (id, promise) =
      (promise < seed) × ((now : ℕ) × (request_id_of shown now promise ≡ id))

  waiting-insert :
      (n now seed : ℕ) (entries : Dict ℕ)
      → All (IsOurs seed) entries
      → waiting n (insert (request_id_of shown now seed) seed entries)
        ≡ one (eqb seed n) + waiting n entries
  unfolding insert
  waiting-insert n now seed [] h = omega arith
  waiting-insert n now seed ((k, p) ∷ entries) h =
      elim (Bool-cases (k == request_id_of shown now seed)) [
        | inl same ↦
            let (now', e) = h.0.1 in
            let q = apart now' p now seed (e ∙ (eq_iff k (request_id_of shown now seed)).0 same) in
            absurd (omega (arith, q, h.0.0))
        | inr other ↦ rw other (omega (arith, waiting-insert n now seed entries h.1))
      ]

  IsOurs-suc : (seed : ℕ) (entry : String × ℕ) → IsOurs seed entry → IsOurs (seed + 1) entry
  IsOurs-suc seed (id, promise) h = (omega (arith, h.0), h.1)

  insert-AreOurs :
      (now seed : ℕ) (entries : Dict ℕ)
      → All (IsOurs seed) entries
      → All (IsOurs (seed + 1)) (insert (request_id_of shown now seed) seed entries)
  unfolding insert
  insert-AreOurs now seed [] h = ((omega arith, (now, refl)), tt)
  insert-AreOurs now seed ((k, p) ∷ entries) h =
      elim (Bool-cases (k == request_id_of shown now seed)) [
        | inl same ↦ rw same (
          (omega arith, (now, refl)),
          All-imp (IsOurs seed) (IsOurs (seed + 1)) (IsOurs-suc seed) entries h.1,
        )
        | inr other ↦ rw other (IsOurs-suc seed (k, p) h.0, insert-AreOurs now seed entries h.1)
      ]

  delete-AreOurs :
      (seed : ℕ) (id : String) (entries : Dict ℕ)
      → All (IsOurs seed) entries
      → All (IsOurs seed) (delete id entries)
  unfolding delete
  delete-AreOurs seed id [] h = tt
  delete-AreOurs seed id ((k, p) ∷ entries) h = elim (Bool-cases (k == id)) [
    | inl same ↦ rw same h.1
    | inr other ↦ rw other (h.0, delete-AreOurs seed id entries h.1)
  ]

  module _ {A : Type 0} where
    -- Each promise of a request so far waits or is settled, once.
    abbrev IsKept : BridgeState A → Type 0
    IsKept s =
        All (IsOurs s.request_seed) s.pending_requests
        × ((n : ℕ) → waiting n s.pending_requests + times n s.settled ≡ one (ltb n s.request_seed))

    invoke-IsKept :
        (now : ℕ) (method : String) (params : A) (s : BridgeState A)
        → IsKept s
        → IsKept (invoke_host_method shown now method params s)
    unfolding invoke_host_method
    invoke-IsKept now method params s h = (
      insert-AreOurs now s.request_seed s.pending_requests h.0,
      λ n. ground (arith, h.1 n, waiting-insert n now s.request_seed s.pending_requests h.0),
    )

    asked-IsKept : (s : BridgeState A) → IsKept s → IsKept (get_host_bootstrap s)
    unfolding get_host_bootstrap
    asked-IsKept s h =
        elim s.bootstrap_payload
          as (λ o. IsKept (elim o as (λ _. BridgeState A) [
            | some payload ↦ record s {
              asked = s.asked + 1;
              served = (s.asked, payload) ∷ s.served;
            }
            | none ↦ record s {
              asked = s.asked + 1;
              bootstrap_waiters = s.bootstrap_waiters ++ s.asked ∷ [];
            }
          ])) [ some payload ↦ h | none ↦ h ]

    answered-IsKept :
        (id : String) (v : Settlement A) (s : BridgeState A) (o : Option ℕ)
        → lookup id s.pending_requests ≡ o
        → IsKept s
        → IsKept (elim o as (λ _. BridgeState A) [
          | none ↦ s
          | some promise ↦ record s {
            pending_requests = delete id s.pending_requests;
            settled = (promise, v) ∷ s.settled;
          }
        ])
    answered-IsKept id v s none e h = h
    answered-IsKept id v s (some promise) e h = (
      delete-AreOurs s.request_seed id s.pending_requests h.0,
      λ n. omega (arith, h.1 n, waiting-delete n id s.pending_requests promise e),
    )

    receive-IsKept :
        (message : HostMessage A) (s : BridgeState A) → IsKept s → IsKept (receive message s)
    unfolding receive
    receive-IsKept foreign s h = h
    receive-IsKept (bootstrap payload) s h = h
    receive-IsKept (rpc_response id ok result message) s h =
        answered-IsKept id (settlement ok result message) s (lookup id s.pending_requests) refl h

    step-IsKept : {s t : BridgeState A} → BridgeStep shown s t → IsKept s → IsKept t
    step-IsKept {s} (invokes now method params) h = invoke-IsKept now method params s h
    step-IsKept {s} asks h = asked-IsKept s h
    step-IsKept {s} (receives message) h = receive-IsKept message s h

    reached-IsKept : {s : BridgeState A} → BridgeReach shown s → IsKept s
    reached-IsKept started = unfold start in (tt, λ n. sym (none_before n))
    reached-IsKept (stepped r step) = step-IsKept step (reached-IsKept r)

-- Whatever messages come in whatever order, with ids of requests that were never made or were answered before,
-- the promise of each request that was made either still waits or was settled, and that once; no other promise
-- is settled. The texts of numbers are such that an id tells its seed.
pub requests_settled_once :
    {A : Type 0} (shown : ℕ → String)
    → ((now seed now' seed' : ℕ)
        → request_id_of shown now seed ≡ request_id_of shown now' seed'
        → seed ≡ seed')
    → {s : BridgeState A} → BridgeReach shown s
    → (n : ℕ)
    → waiting n s.pending_requests + times n s.settled ≡ (if ltb n s.request_seed then 1 else 0)
requests_settled_once shown apart r n = (reached-IsKept shown apart r).1 n
