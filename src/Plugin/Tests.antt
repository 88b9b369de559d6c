-- ===== src/Plugin/Tests.antt =====
-- One request, answered, and one call for the bootstrap data.
use Prim.Native.Char.{code}
use Prim.Native.String
use zszc_sql_client.Base.{
  ℕ, zero, suc, ◌+◌, ◌≡◌, ◌≢◌, refl, sym, ap, ◌∙◌, arith, String, true, not, ◌||◌, none, some,
  is_some, ltb, if◌then◌else◌,
}
use text.Mathlib.TextLemmas.{
  nil-append, cons-append, append-nil, append_cancel_left, nil≢cons, cons≢nil, head-eq_of_cons-eq,
  tail-eq_of_cons-eq,
}
use zszc_sql_client.Plugin.Bridge.{
  BridgeState, rpc_response, start, get_host_bootstrap, receive, request_id_of, invoke_host_method,
  invokes, asks, receives, BridgeReach, started, stepped,
}
use zszc_sql_client.Plugin.Bridge.Settled.{waiting, times, requests_settled_once}
use zszc_sql_client.Plugin.Bridge.Served.{among, no_one, bootstrap_served_once}

-- Numbers in strokes, of which the seed can be told from the id.
abbrev strokes : ℕ → String
strokes zero = ""
strokes (suc n) = String.◌∷◌ "|" (strokes n)

strokes-injective : (a b : ℕ) → strokes a ≡ strokes b → a ≡ b
strokes-injective zero zero h = refl
strokes-injective zero (suc b) h = absurd (nil≢cons h)
strokes-injective (suc a) zero h = absurd (cons≢nil h)
strokes-injective (suc a) (suc b) h = ap suc (strokes-injective a b (tail-eq_of_cons-eq h))

-- A text that begins with a dash is not one that begins with a stroke.
dash-stroke :
    (x y z : String) → String.◌++◌ "" (String.◌++◌ "-" x) ≢ String.◌++◌ (String.◌∷◌ "|" y) z
dash-stroke x y z h =
    let heads = ap code (
      head-eq_of_cons-eq
        (sym (nil-append (String.◌++◌ "-" x) ∙ cons-append "-" "" x) ∙ h ∙ cons-append "|" y z)) in
    omega (arith, heads)

behind_dash :
    (a c : ℕ) (x y : String)
    → String.◌++◌ (strokes a) (String.◌++◌ "-" x) ≡ String.◌++◌ (strokes c) (String.◌++◌ "-" y)
    → x ≡ y
behind_dash zero zero x y h =
    append_cancel_left "-" x y (append_cancel_left "" (String.◌++◌ "-" x) (String.◌++◌ "-" y) h)
behind_dash zero (suc c) x y h = absurd (dash-stroke x (strokes c) (String.◌++◌ "-" y) h)
behind_dash (suc a) zero x y h = absurd (dash-stroke y (strokes a) (String.◌++◌ "-" x) (sym h))
behind_dash (suc a) (suc c) x y h = behind_dash a c x y (
    tail-eq_of_cons-eq (
      sym (cons-append "|" (strokes a) (String.◌++◌ "-" x))
      ∙ h
      ∙ cons-append "|" (strokes c) (String.◌++◌ "-" y)))

ids_apart :
    (now seed now' seed' : ℕ)
    → request_id_of strokes now seed ≡ request_id_of strokes now' seed'
    → seed ≡ seed'
ids_apart now seed now' seed' h = strokes-injective seed seed' (
    sym (append-nil (strokes seed))
    ∙ behind_dash now now' (String.◌++◌ (strokes seed) "") (String.◌++◌ (strokes seed') "") h
    ∙ append-nil (strokes seed'))

abbrev answered : BridgeState ℕ
answered =
    receive (rpc_response "||-" true (some 7) none)
      (invoke_host_method strokes 2 "greet" 1 (get_host_bootstrap start))

abbrev answered-reached : BridgeReach strokes answered
answered-reached =
    stepped (stepped (stepped started asks) (invokes 2 "greet" 1))
      (receives (rpc_response "||-" true (some 7) none))

bootstrap_served_once_example :
    ((n : ℕ)
      → among n answered.bootstrap_waiters + times n answered.served
        ≡ (if ltb n answered.asked then 1 else 0))
    × (not (is_some answered.bootstrap_payload) || no_one answered.bootstrap_waiters ≡ true)
bootstrap_served_once_example = bootstrap_served_once strokes answered-reached

requests_settled_once_example :
    waiting 0 answered.pending_requests + times 0 answered.settled
    ≡ (if ltb 0 answered.request_seed then 1 else 0)
requests_settled_once_example = requests_settled_once strokes ids_apart answered-reached 0
