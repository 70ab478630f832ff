-- ===== src/Manager/Fetch/Answers.antt =====
-- What `fetch_action` returns when an answer comes, and when its number was in use already.
use khawasu_pc.Base.{
  ℕ, ◌+◌, ◌-◌, ◌≤◌, ◌<◌, ◌≡◌, refl, ◌∙◌, ap, true, false, Bytes, Option, none, some, List, [], ◌∷◌,
  ◌++◌, nat_eq, ◌==◌, arith, length, take, if◌then◌else◌,
}
use khawasu_pc.Base.Outcome.{Outcome, ok, ◌>>=◌}
use khawasu_pc.Base.Dict.{find, or_old, assign, erase, find-emplace, find-assign, find-erase}
use khawasu_pc.Protocol.{Status, LogicalPacket, Proto}
use khawasu_pc.Protocol
use khawasu_pc.DeviceInfo.{ActionResponse, fetch, action_response}
use khawasu_pc.Manager.State.{Manager, call_action, next_request}
use khawasu_pc.Manager.Receive.{handle_packet, handle_response}
use khawasu_pc.Manager.Receive.Payload.{copy_payload-within}
use khawasu_pc.Manager.Execute.{Incoming, Round, poll, in_time, receive_all}
use khawasu_pc.Manager.Fetch.{fetch_action_async, fetch_wait, fetch_action}

-- Rounds before the deadline in which no packet is handled.
abbrev pub Quiet : ℕ → List Round → Type 0
Quiet start_time [] = Unit
Quiet start_time (r ∷ rs) =
    (in_time r.clock start_time ≡ true) × (r.during ≡ []) × Quiet start_time rs

-- What `fetch_action` does behind its loop.
abbrev pub finish :
    Outcome (Option ActionResponse × Manager) → Outcome (Option ActionResponse × Manager)
finish o = do (result, m') ← o; ok (result, call_action result m')

module _ (P : Proto) (req_id start_time : ℕ) where
  -- With a result the loop ends at once.
  fetch_wait-some :
      (rounds : List Round) (a : ActionResponse) (m : Manager)
      → fetch_wait P req_id start_time rounds (some a) m ≡ ok (some a, m)
  unfolding fetch_wait
  fetch_wait-some [] a m = refl
  fetch_wait-some (r ∷ rs) a m = refl

  pub fetch_wait-taken :
      (r : Round) (rounds : List Round) (a : ActionResponse) (m : Manager)
      → find req_id m.action_responses ≡ some a
      → a.is_waiting ≡ false
      → in_time r.clock start_time ≡ true
      → r.during ≡ []
      → fetch_wait P req_id start_time (r ∷ rounds) none m
        ≡ ok (
          some (record a { time_received = r.taken_at }),
          record m { action_responses = erase req_id m.action_responses },
        )
  unfolding fetch_wait poll receive_all
  fetch_wait-taken r rounds a m there answered early quiet = ground (
    arith,
    fetch_wait-some rounds (record a { time_received = r.taken_at })
        (record m { action_responses = erase req_id m.action_responses }),
  )

  -- A round that lets a packet in while the request waits.
  fetch_wait-waiting :
      (r : Round) (rounds : List Round) (a : ActionResponse) (m m' : Manager)
      → find req_id m.action_responses ≡ some a
      → a.is_waiting ≡ true
      → in_time r.clock start_time ≡ true
      → receive_all P m r.during ≡ ok m'
      → fetch_wait P req_id start_time (r ∷ rounds) none m
        ≡ fetch_wait P req_id start_time rounds none m'
  unfolding fetch_wait poll
  fetch_wait-waiting r rounds a m m' there waiting early received = ground arith

  pub fetch_wait-Quiet :
      (quiet rounds : List Round) (a : ActionResponse) (m : Manager)
      → find req_id m.action_responses ≡ some a
      → a.is_waiting ≡ true
      → Quiet start_time quiet
      → fetch_wait P req_id start_time (quiet ++ rounds) none m
        ≡ fetch_wait P req_id start_time rounds none m
  unfolding receive_all
  fetch_wait-Quiet [] rounds a m there waiting q = refl
  fetch_wait-Quiet (r ∷ quiet) rounds a m there waiting q =
      fetch_wait-waiting r (quiet ++ rounds) a m m there waiting q.0 (rw q.1)
      ∙ fetch_wait-Quiet quiet rounds a m there waiting q.2

pub action_responses-call_action :
    (r : Option ActionResponse) (m : Manager)
    → (call_action r m).action_responses ≡ m.action_responses
unfolding call_action
action_responses-call_action r m = ground arith

-- The answer to request `req_id`, as another thread hands it to the manager.
abbrev pub answer_packet : ℕ → ℕ → ℕ → ℕ → Status → Bytes → Incoming
answer_packet src_phy src_addr size req_id status memory = record {
  src_phy = src_phy;
  log = record { src_addr = src_addr; body = Protocol.Body.action_response req_id status memory };
  size = size;
}

-- The request after that answer.
abbrev pub answered : Proto → ActionResponse → ℕ → Status → Bytes → ActionResponse
answered P a size status memory = record a {
  is_waiting = false;
  status = some status;
  payload = take (size + 1 - P.action_response_size) memory;
}

-- The size announced covers the header, and the buffer holds the payload.
abbrev pub FitsPacket : Proto → ℕ → Bytes → Type 0
FitsPacket P size memory =
    (P.action_response_size ≤ size + 1)
    × (size < 65536)
    × (size + 1 - P.action_response_size ≤ length memory)

module _ (P : Proto) where
  pub receive_answer :
      (m : Manager) (src_phy src_addr size req_id : ℕ) (status : Status) (memory : Bytes)
      (a : ActionResponse)
      → find req_id m.action_responses ≡ some a
      → a.is_waiting ≡ true
      → FitsPacket P size memory
      → let a' = answered P a size status memory in
        receive_all P m (answer_packet src_phy src_addr size req_id status memory ∷ [])
        ≡ ok (
            call_action
              (some a')
              (record m { action_responses = assign req_id a' m.action_responses }))
  unfolding receive_all handle_packet handle_response
  receive_answer m src_phy src_addr size req_id status memory a there waiting fits =
      ground (arith, copy_payload-within size P.action_response_size memory fits.0 fits.1 fits.2)

  -- Under a number that is in use, the table keeps the old request.
  pub find-fetch_action_async :
      (m : Manager) (addr port action_id : ℕ) (buffer : Bytes) (now j : ℕ)
      → let req_id = m.action_responses_counter in
        find j (fetch_action_async m addr port action_id buffer now).1.action_responses ≡ (
          if j == req_id
          then some
              (or_old (find req_id m.action_responses) (action_response req_id fetch addr port now))
          else find j m.action_responses)
  unfolding fetch_action_async next_request
  find-fetch_action_async m addr port action_id buffer now j =
      find-emplace j m.action_responses_counter _ m.action_responses

  -- A request under a number that is free, an answer in time: after any quiet rounds, a round in
  -- which the answer to this number is handled, and one more before the deadline, `fetch_action`
  -- returns the request with the answer's status and exactly its payload. The number is free
  -- again, and all other requests stand as they stood.
  pub fetch_action-answered :
      (m : Manager) (addr port action_id : ℕ) (buffer : Bytes) (now start_time : ℕ)
      (quiet rounds : List Round) (r₁ r₂ : Round) (src_phy src_addr size : ℕ) (status : Status)
      (memory : Bytes)
      → let req_id = m.action_responses_counter in
        find req_id m.action_responses ≡ none
        → Quiet start_time quiet
        → in_time r₁.clock start_time ≡ true
        → r₁.during ≡ answer_packet src_phy src_addr size req_id status memory ∷ []
        → FitsPacket P size memory
        → in_time r₂.clock start_time ≡ true
        → r₂.during ≡ []
        → (m' : Manager) × (fetch_action P m addr port action_id buffer now start_time
              (quiet ++ r₁ ∷ r₂ ∷ rounds)
            ≡ ok (
              some
                  (record (answered P
                    (action_response req_id fetch addr port now)
                    size
                    status
                    memory) { time_received = r₂.taken_at }),
              m',
            ))
          × ((j : ℕ)
              → find j m'.action_responses
                ≡ (if j == req_id then none else find j m.action_responses))
  unfolding fetch_action fetch_action_async
  fetch_action-answered m addr port action_id buffer now start_time quiet rounds r₁ r₂ src_phy
        src_addr size status memory free calm early₁ comes fits early₂ still =
      (call_action (some a₃) m₃, ap finish loop, others)
    where
      req_id : ℕ
      req_id = m.action_responses_counter

      m₁ : Manager
      m₁ = (fetch_action_async m addr port action_id buffer now).1

      a₁ : ActionResponse
      a₁ = action_response req_id fetch addr port now

      a₂ : ActionResponse
      a₂ = answered P a₁ size status memory

      a₃ : ActionResponse
      a₃ = record a₂ { time_received = r₂.taken_at }

      m₂ : Manager
      m₂ =
          call_action (some a₂)
            (record m₁ { action_responses = assign req_id a₂ m₁.action_responses })

      m₃ : Manager
      m₃ = record m₂ { action_responses = erase req_id m₂.action_responses }

      there₁ : find req_id m₁.action_responses ≡ some a₁
      there₁ = ground (arith, find-fetch_action_async m addr port action_id buffer now req_id)

      there₂ : find req_id m₂.action_responses ≡ some a₂
      there₂ =
          rw action_responses-call_action
            (ground (arith, find-assign req_id req_id a₂ m₁.action_responses))

      loop : fetch_wait P req_id start_time (quiet ++ r₁ ∷ r₂ ∷ rounds) none m₁ ≡ ok (some a₃, m₃)
      loop =
          fetch_wait-Quiet P req_id start_time quiet (r₁ ∷ r₂ ∷ rounds) a₁ m₁ there₁ refl calm
          ∙ fetch_wait-waiting P req_id start_time r₁ (r₂ ∷ rounds) a₁ m₁ m₂ there₁ refl early₁ (
              rw comes
                (receive_answer m₁ src_phy src_addr size req_id status memory a₁ there₁ refl fits))
          ∙ fetch_wait-taken P req_id start_time r₂ rounds a₂ m₂ there₂ refl early₂ still

      others :
          (j : ℕ)
          → find j (call_action (some a₃) m₃).action_responses
            ≡ (if j == req_id then none else find j m.action_responses)
      others j =
          rw (action_responses-call_action, action_responses-call_action)
            (ground (
              arith,
              find-erase j req_id (assign req_id a₂ m₁.action_responses),
              find-assign j req_id a₂ m₁.action_responses,
              find-fetch_action_async m addr port action_id buffer now j,
            ))
