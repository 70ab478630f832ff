-- ===== src/Manager/Execute/Answers.antt =====
-- What `execute_action` returns when the result of the action comes.
use khawasu_pc.Base.{
  ℕ, ◌≡◌, refl, ◌∙◌, ap, true, false, Bytes, Option, none, some, List, [], ◌∷◌, ◌++◌, nat_eq, ◌==◌,
  arith, if◌then◌else◌,
}
use khawasu_pc.Base.Outcome.{Outcome, ok, ◌>>=◌}
use khawasu_pc.Base.Dict.{find, or_old, assign, erase, find-emplace, find-assign, find-erase}
use khawasu_pc.Protocol.{Status, timeout, Proto, action_execute_result}
use khawasu_pc.DeviceInfo.{ActionResponse, execute, action_response}
use khawasu_pc.Manager.State.{Manager, call_action, next_request}
use khawasu_pc.Manager.Receive.{handle_packet, handle_body, handle_execute_result}
use khawasu_pc.Manager.Execute.{
  Incoming, Round, poll, in_time, is_timeout, receive_all, execute_wait, execute_action_async,
  execute_action,
}
use khawasu_pc.Manager.Fetch.Answers.{Quiet, action_responses-call_action}

-- What `execute_action` does behind its loop.
abbrev pub finish :
    Outcome (Option Status × Option ActionResponse × Manager) → Outcome (Option Status × Manager)
finish o = do (status, result, m') ← o; ok (status, call_action result m')

module _ (P : Proto) (req_id start_time : ℕ) where
  -- With a status that is not TIMEOUT the loop ends at once.
  execute_wait-some :
      (rounds : List Round) (status : Option Status) (result : Option ActionResponse) (m : Manager)
      → is_timeout status ≡ false
      → execute_wait P req_id start_time rounds status result m ≡ ok (status, result, m)
  unfolding execute_wait
  execute_wait-some [] status result m done = ground arith
  execute_wait-some (r ∷ rs) status result m done = ground arith

  execute_wait-taken :
      (r : Round) (rounds : List Round) (a : ActionResponse) (m : Manager)
      → find req_id m.action_responses ≡ some a
      → a.is_waiting ≡ false
      → is_timeout a.status ≡ false
      → in_time r.clock start_time ≡ true
      → r.during ≡ []
      → execute_wait P req_id start_time (r ∷ rounds) (some timeout) none m
        ≡ ok (
          a.status,
          some (record a { time_received = r.taken_at }),
          record m { action_responses = erase req_id m.action_responses },
        )
  unfolding execute_wait poll receive_all
  execute_wait-taken r rounds a m there answered known early quiet = ground (
    arith,
    execute_wait-some rounds a.status (some (record a { time_received = r.taken_at }))
        (record m { action_responses = erase req_id m.action_responses }) known,
  )

  -- A round that lets a packet in while the request waits.
  execute_wait-waiting :
      (r : Round) (rounds : List Round) (a : ActionResponse) (m m' : Manager)
      → find req_id m.action_responses ≡ some a
      → a.is_waiting ≡ true
      → in_time r.clock start_time ≡ true
      → receive_all P m r.during ≡ ok m'
      → execute_wait P req_id start_time (r ∷ rounds) (some timeout) none m
        ≡ execute_wait P req_id start_time rounds (some timeout) none m'
  unfolding execute_wait poll
  execute_wait-waiting r rounds a m m' there waiting early received = ground arith

  execute_wait-Quiet :
      (quiet rounds : List Round) (a : ActionResponse) (m : Manager)
      → find req_id m.action_responses ≡ some a
      → a.is_waiting ≡ true
      → Quiet start_time quiet
      → execute_wait P req_id start_time (quiet ++ rounds) (some timeout) none m
        ≡ execute_wait P req_id start_time rounds (some timeout) none m
  unfolding receive_all
  execute_wait-Quiet [] rounds a m there waiting q = refl
  execute_wait-Quiet (r ∷ quiet) rounds a m there waiting q =
      execute_wait-waiting r (quiet ++ rounds) a m m there waiting q.0 (rw q.1)
      ∙ execute_wait-Quiet quiet rounds a m there waiting q.2

-- The result of request `req_id`, as another thread hands it to the manager.
abbrev pub result_packet : ℕ → ℕ → ℕ → ℕ → Status → Incoming
result_packet src_phy src_addr size req_id status = record {
  src_phy = src_phy;
  log = record { src_addr = src_addr; body = action_execute_result req_id status };
  size = size;
}

-- The request after that.
abbrev pub executed : ActionResponse → Status → ActionResponse
executed a status = record a { is_waiting = false; status = some status }

module _ (P : Proto) where
  receive_result :
      (m : Manager) (src_phy src_addr size req_id : ℕ) (status : Status) (a : ActionResponse)
      → find req_id m.action_responses ≡ some a
      → a.is_waiting ≡ true
      → let a' = executed a status in
        receive_all P m (result_packet src_phy src_addr size req_id status ∷ [])
        ≡ ok (
            call_action
              (some a')
              (record m { action_responses = assign req_id a' m.action_responses }))
  unfolding receive_all handle_packet handle_body handle_execute_result
  receive_result m src_phy src_addr size req_id status a there waiting = ground arith

  find-execute_action_async :
      (m : Manager) (addr port action_id : ℕ) (buffer : Bytes) (now j : ℕ)
      → let req_id = m.action_responses_counter in
        find j (execute_action_async m addr port action_id buffer true now).1.action_responses ≡ (
          if j == req_id
          then some (
              or_old
                (find req_id m.action_responses)
                (action_response req_id execute addr port now))
          else find j m.action_responses)
  unfolding execute_action_async next_request
  find-execute_action_async m addr port action_id buffer now j =
      find-emplace j m.action_responses_counter _ m.action_responses

  -- A request that requires a status, under a number that is free, and a result in time, whose
  -- status is not TIMEOUT: after any quiet rounds, a round in which the result for this number is
  -- handled, and one more before the deadline, `execute_action` returns the result's status. The
  -- number is free again, and all other requests stand as they stood.
  pub execute_action-answered :
      (m : Manager) (addr port action_id : ℕ) (buffer : Bytes) (now start_time : ℕ)
      (quiet rounds : List Round) (r₁ r₂ : Round) (src_phy src_addr size : ℕ) (status : Status)
      → let req_id = m.action_responses_counter in
        find req_id m.action_responses ≡ none
        → Quiet start_time quiet
        → in_time r₁.clock start_time ≡ true
        → r₁.during ≡ result_packet src_phy src_addr size req_id status ∷ []
        → is_timeout (some status) ≡ false
        → in_time r₂.clock start_time ≡ true
        → r₂.during ≡ []
        → (m' : Manager) × (execute_action P m addr port action_id buffer true now start_time
              (quiet ++ r₁ ∷ r₂ ∷ rounds)
            ≡ ok (some status, m'))
          × ((j : ℕ)
              → find j m'.action_responses
                ≡ (if j == req_id then none else find j m.action_responses))
  unfolding execute_action execute_action_async
  execute_action-answered m addr port action_id buffer now start_time quiet rounds r₁ r₂ src_phy
        src_addr size status free calm early₁ comes known early₂ still =
      (call_action (some a₃) m₃, ap finish loop, others)
    where
      req_id : ℕ
      req_id = m.action_responses_counter

      m₁ : Manager
      m₁ = (execute_action_async m addr port action_id buffer true now).1

      a₁ : ActionResponse
      a₁ = action_response req_id execute addr port now

      a₂ : ActionResponse
      a₂ = executed a₁ status

      a₃ : ActionResponse
      a₃ = record a₂ { time_received = r₂.taken_at }

      m₂ : Manager
      m₂ =
          call_action (some a₂)
            (record m₁ { action_responses = assign req_id a₂ m₁.action_responses })

      m₃ : Manager
      m₃ = record m₂ { action_responses = erase req_id m₂.action_responses }

      there₁ : find req_id m₁.action_responses ≡ some a₁
      there₁ = ground (arith, find-execute_action_async m addr port action_id buffer now req_id)

      there₂ : find req_id m₂.action_responses ≡ some a₂
      there₂ =
          rw action_responses-call_action
            (ground (arith, find-assign req_id req_id a₂ m₁.action_responses))

      loop :
          execute_wait P req_id start_time (quiet ++ r₁ ∷ r₂ ∷ rounds) (some timeout) none m₁
          ≡ ok (some status, some a₃, m₃)
      loop =
          execute_wait-Quiet P req_id start_time quiet (r₁ ∷ r₂ ∷ rounds) a₁ m₁ there₁ refl calm
          ∙ execute_wait-waiting P req_id start_time r₁ (r₂ ∷ rounds) a₁ m₁ m₂ there₁ refl early₁
              (rw comes (receive_result m₁ src_phy src_addr size req_id status a₁ there₁ refl))
          ∙ execute_wait-taken P req_id start_time r₂ rounds a₂ m₂ there₂ refl known early₂ still

      others :
          (j : ℕ)
          → find j (call_action (some a₃) m₃).action_responses
            ≡ (if j == req_id then none else find j m.action_responses)
      others j =
          rw (action_responses-call_action, action_responses-call_action)
            (ground (
              arith,
              find-erase j req_id (assign req_id a₂ m₁.action_responses),
              find-assign j req_id a₂ m₁.action_responses,
              find-execute_action_async m addr port action_id buffer now j,
            ))
