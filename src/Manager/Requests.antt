-- ===== src/Manager/Requests.antt =====
-- The numbers of requests: consecutive, modulo 256.
use khawasu_pc.Base.{
  ℕ, zero, suc, ◌+◌, ◌-◌, ◌%◌, ◌≤◌, ◌<◌, ◌≡◌, ◌↔◌, Bool, Bytes, some, List, [], ◌∷◌, get_elem?,
  arith,
}
use khawasu_pc.Manager.State.{Manager, next_request}
use khawasu_pc.Manager.Execute.{execute_action_async}
use khawasu_pc.Manager.Fetch.{fetch_action_async}

-- A call of either `…_async` method by number.
pub data Request : Type 0 where
  executes : (addr port action_id : ℕ) → Bytes → (require_status : Bool) → (now : ℕ) → Request
  fetches : (addr port action_id : ℕ) → Bytes → (now : ℕ) → Request

unfoldable pub request : Manager → Request → ℕ × Manager
unfolding execute_action_async fetch_action_async
request m (executes addr port id buffer require_status now) =
    execute_action_async m addr port id buffer require_status now
request m (fetches addr port id buffer now) = fetch_action_async m addr port id buffer now

-- The numbers that a sequence of calls returns.
unfoldable pub request_ids : Manager → List Request → List ℕ
unfolding request
request_ids m [] = []
request_ids m (q ∷ qs) = let (req_id, m') = request m q in req_id ∷ request_ids m' qs

request_lem :
    (m : Manager) (q : Request)
    → ((request m q).0 ≡ m.action_responses_counter)
      × ((request m q).1.action_responses_counter ≡ (m.action_responses_counter + 1) % 256)
unfolding request execute_action_async fetch_action_async next_request
request_lem m (executes addr port id buffer require_status now) = ground arith
request_lem m (fetches addr port id buffer now) = ground arith

get_elem?-request_ids :
    (m : Manager) (qs : List Request) (i a : ℕ)
    → m.action_responses_counter < 256
    → get_elem? (request_ids m qs) i ≡ some a
    → a ≡ (m.action_responses_counter + i) % 256
unfolding request_ids
get_elem?-request_ids m [] i a h e = cc
get_elem?-request_ids m (q ∷ qs) zero a h e = ground (arith, request_lem m q)
get_elem?-request_ids m (q ∷ qs) (suc i) a h e =
    ground (arith, request_lem m q, get_elem?-request_ids (request m q).1 qs i a)

-- Of a sequence of requests that starts with a counter below 256, two have the same number exactly
-- when their distance is a multiple of 256: any 256 in a row are told apart, and the next one is
-- not told apart from the first.
pub request_ids-eq_iff :
    (m : Manager) (qs : List Request) (i j a b : ℕ)
    → m.action_responses_counter < 256
    → i ≤ j
    → get_elem? (request_ids m qs) i ≡ some a
    → get_elem? (request_ids m qs) j ≡ some b
    → (a ≡ b) ↔ ((j - i) % 256 ≡ 0)
request_ids-eq_iff m qs i j a b h le ea eb =
    let ha = get_elem?-request_ids m qs i a h ea in
    let hb = get_elem?-request_ids m qs j b h eb in (λ e. omega arith, λ e. omega arith)
