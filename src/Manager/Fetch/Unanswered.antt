-- ===== src/Manager/Fetch/Unanswered.antt =====
-- `fetch_action` without an answer, and under a number that an old answer still holds.
use khawasu_pc.Base.{
  ℕ, ◌≡◌, refl, ◌∙◌, ap, true, false, Bytes, none, some, List, [], ◌∷◌, ◌++◌, nat_eq, arith,
  if◌then◌else◌,
}
use khawasu_pc.Base.Outcome.{ok}
use khawasu_pc.Base.Dict.{find}
use khawasu_pc.Protocol.{Proto, action_fetch}
use khawasu_pc.DeviceInfo.{ActionResponse, fetch, action_response}
use khawasu_pc.Manager.State.{Manager, Event, sent, action_called, call_action}
use khawasu_pc.Manager.Execute.{Round, in_time}
use khawasu_pc.Manager.Fetch.{fetch_action_async, fetch_wait, fetch_action}
use khawasu_pc.Manager.Fetch.Answers.{
  Quiet, finish, fetch_wait-Quiet, fetch_wait-taken, find-fetch_action_async,
  action_responses-call_action,
}

module _ (P : Proto) where
  fetch_wait-late :
      (req_id start_time : ℕ) (r : Round) (rounds : List Round) (m : Manager)
      → in_time r.clock start_time ≡ false
      → fetch_wait P req_id start_time (r ∷ rounds) none m ≡ ok (none, m)
  unfolding fetch_wait
  fetch_wait-late req_id start_time r rounds m late = ground arith

  -- A request under a free number to which no packet comes before the deadline: `fetch_action`
  -- sends one packet, returns a null pointer, and hands a null pointer to the action callback, if
  -- there is one. The request stays in the table as it was recorded.
  pub fetch_action-unanswered :
      (m : Manager) (addr port action_id : ℕ) (buffer : Bytes) (now start_time : ℕ)
      (quiet rounds : List Round) (r : Round)
      → let req_id = m.action_responses_counter in
        find req_id m.action_responses ≡ none
        → Quiet start_time quiet
        → in_time r.clock start_time ≡ false
        → (m' : Manager) × (fetch_action P m addr port action_id buffer now start_time
              (quiet ++ r ∷ rounds)
            ≡ ok (none, m'))
          × (m'.events ≡ (
              let packet : Event = sent (record {
                dest_phy = addr;
                dest_log = port;
                src_port = m.self_port;
                fields = action_fetch req_id action_id buffer;
              }) in
              if m.action_callback
              then action_called none ∷ packet ∷ m.events
              else packet ∷ m.events))
          × (find req_id m'.action_responses ≡ some (action_response req_id fetch addr port now))
  unfolding fetch_action fetch_action_async call_action
  fetch_action-unanswered m addr port action_id buffer now start_time quiet rounds r free calm
        late =
      (call_action none m₁, ap finish loop, ground arith, rw action_responses-call_action there)
    where
      m₁ : Manager
      m₁ = (fetch_action_async m addr port action_id buffer now).1

      a₁ : ActionResponse
      a₁ = action_response m.action_responses_counter fetch addr port now

      there : find m.action_responses_counter m₁.action_responses ≡ some a₁
      there = ground (
        arith,
        find-fetch_action_async P m addr port action_id buffer now m.action_responses_counter,
      )

      loop :
          fetch_wait P m.action_responses_counter start_time (quiet ++ r ∷ rounds) none m₁
          ≡ ok (none, m₁)
      loop =
          fetch_wait-Quiet P _ start_time quiet (r ∷ rounds) a₁ m₁ there refl calm
          ∙ fetch_wait-late _ start_time r rounds m₁ late

  -- A request under a number whose old request was answered and never taken from the table:
  -- `fetch_action` returns the old answer in its first round, if that is before the deadline and no
  -- packet comes in it, whatever device and action it was called for.
  pub fetch_action-stale :
      (m : Manager) (addr port action_id : ℕ) (buffer : Bytes) (now start_time : ℕ)
      (rounds : List Round) (r : Round) (old : ActionResponse)
      → find m.action_responses_counter m.action_responses ≡ some old
      → old.is_waiting ≡ false
      → in_time r.clock start_time ≡ true
      → r.during ≡ []
      → (m' : Manager) × (fetch_action P m addr port action_id buffer now start_time (r ∷ rounds)
          ≡ ok (some (record old { time_received = r.taken_at }), m'))
  unfolding fetch_action fetch_action_async
  fetch_action-stale m addr port action_id buffer now start_time rounds r old there answered early
        quiet =
      (_, ap finish (fetch_wait-taken P _ start_time r rounds old m₁ there' answered early quiet))
    where
      m₁ : Manager
      m₁ = (fetch_action_async m addr port action_id buffer now).1

      there' : find m.action_responses_counter m₁.action_responses ≡ some old
      there' = ground (
        arith,
        find-fetch_action_async P m addr port action_id buffer now m.action_responses_counter,
      )
