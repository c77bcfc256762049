-- ===== src/Input/Tests.antt =====
-- The input queues on concrete messages.
use codeng.Prelude.{
  ◌&&◌, not, ℕ, ◌≡◌, refl, true, false, Option, none, some, List, [], ◌∷◌, ◌||◌, has, map,
}
use codeng.Prelude.Dict
use codeng.Prelude.Texts
use codeng.Workflow.Data.{Message, UserInputMode, queue, steering, user}
use codeng.Input.State.{InputManager, init, done, state_of, message_mode_matches}
use codeng.Input.Types.{interactive, http, normalize_input_type}
use codeng.Prelude.Strings.{strip, lstrip}
use codeng.Input.Publish.{publish, pop_matching}
use codeng.Input.Queue.{reset, has_pending_waiters, queue_of}
use codeng.Input.Match.{IsPopped, pop_matching-IsPopped}
use codeng.Input.Delivery.{IsDelivered, publish-IsDelivered}
use codeng.Input.Fifo.{publish_each, dequeue_times, dequeue_times-publish_each}
use codeng.Input.Reset.{all_waiters, reset_lem}

abbrev message : ℕ → Option UserInputMode → Message
message k mode = record {
  id = k;
  role = user;
  text = [];
  input_mode = mode;
  thinking_content = none;
  tool_call_requests = [];
  tool_call_responses = [];
  llm_usage = none;
  orig_llm_usage = none;
  state = none;
  created_at = 0;
}

abbrev two : List Message
two = message 1 none ∷ message 2 (some steering) ∷ []

-- one task waits for interactive input, as future 0
abbrev waits : InputManager
waits = record init {
  state_by_type = (interactive, record { queued_messages = two; waiters = 0 ∷ [] }) ∷ [];
  next_future = 1;
}

pop_matching_steering :
    pop_matching (some steering) two ≡ some (message 2 (some steering), message 1 none ∷ [])
unfolding pop_matching message_mode_matches
pop_matching_steering = refl

pop_matching-IsPopped_example : IsPopped (some steering) two (pop_matching (some steering) two)
pop_matching-IsPopped_example = pop_matching-IsPopped (some steering) two

publish-IsDelivered_example :
    ((publish (message 3 none) true none (some queue) waits).0 ≡ true)
    × IsDelivered
        (message 3 (some queue))
        interactive
        waits
        (publish (message 3 none) true none (some queue) waits).1
unfolding normalize_input_type
publish-IsDelivered_example = publish-IsDelivered (message 3 none) none (some queue) waits

dequeue_times-publish_each_example :
    dequeue_times 2 http (publish_each two (some http) waits) ≡ map some two
unfolding state_of Texts.get normalize_input_type strip lstrip queue_of
dequeue_times-publish_each_example = dequeue_times-publish_each two http waits tt refl

reset_lem_example :
    (has_pending_waiters (reset waits) ≡ false)
    × (state_of (reset waits) http ≡ record (state_of waits http) { waiters = [] })
    × (has 0 (reset waits).cancelled ≡ (
        has 0 waits.cancelled || (has 0 (all_waiters waits.state_by_type) && not (done waits 0))))
    × ((reset waits).results ≡ waits.results)
reset_lem_example = reset_lem waits 0 http
