-- ===== src/Input/Publish.antt =====
-- `publish` and `wait_for_input`. A wait is cut at its `await`: `begin_wait` runs up to it, `resume`
-- from the message that the future got to the next one or to the end, and `abandon` is the `finally`
-- of a task that is cancelled there.
use codeng.Prelude.{
  ℕ, suc, Bool, true, false, Option, none, some, List, [], ◌∷◌, ◌++◌, ◌==◌, if◌then◌else◌,
}
use codeng.Prelude.Dict
use codeng.Workflow.Data.{Message, Text, UserInputMode}
use codeng.Input.State.{InputManager, done, message_mode_matches, state_of, with_state, prune}
use codeng.Input.Types.{normalize_input_type}

-- the loop that pops waiters until one is not done: it, and those behind it
unfoldable pub next_waiter : InputManager → List ℕ → Option (ℕ × List ℕ)
unfolding done
next_waiter m [] = none
next_waiter m (f ∷ fs) = if done m f then next_waiter m fs else some (f, fs)

abbrev pub set_mode : Option UserInputMode → Message → Message
set_mode none msg = msg
set_mode (some mode) msg = record msg { input_mode = some mode }

unfoldable pub set_result : ℕ → Message → InputManager → InputManager
set_result f msg m = record m { results = Dict.put f msg m.results }

-- a message for the queues of one type: `true` if it was taken
unfoldable pub hand_over : Message → Bool → Text → InputManager → Bool × InputManager
unfolding next_waiter prune state_of with_state set_result
hand_over msg queue t m =
    let q = state_of m t in
    elim (next_waiter m (prune m q.waiters)) [
      | some (f, fs) ↦ (true, set_result f msg (with_state t (record q { waiters = fs }) m))
      | none ↦ (
        queue,
        with_state t
            (record q {
              waiters = [];
              queued_messages = if queue then q.queued_messages ++ msg ∷ [] else q.queued_messages;
            })
            m,
      )
    ]

unfoldable pub publish :
    Message → Bool → Option Text → Option UserInputMode → InputManager → Bool × InputManager
unfolding hand_over normalize_input_type
publish msg queue input_type mode =
    hand_over (set_mode mode msg) queue (normalize_input_type input_type)

-- `_pop_matching_queued_message`: the first message that matches, and the others in order
unfoldable pub pop_matching : Option UserInputMode → List Message → Option (Message × List Message)
unfolding message_mode_matches
pop_matching mode [] = none
pop_matching mode (msg ∷ msgs) = elim (message_mode_matches msg mode) [
  | true ↦ some (msg, msgs)
  | false ↦ elim (pop_matching mode msgs) [
    | none ↦ none
    | some (found, rest) ↦ some (found, msg ∷ rest)
  ]
]

pub data Wait : Type 0 where
  received : Message → Wait
  waiting : ℕ → Wait

-- a new future at the end of the waiters
unfoldable pub enqueue_waiter : Text → InputManager → Wait × InputManager
unfolding prune state_of with_state
enqueue_waiter t m =
    let q = state_of m t in
    (
      waiting m.next_future,
      record (with_state t (record q { waiters = prune m q.waiters ++ m.next_future ∷ [] }) m) {
        next_future = suc m.next_future;
      },
    )

unfoldable pub begin_wait :
    Bool → Option Text → Option UserInputMode → InputManager → Wait × InputManager
unfolding normalize_input_type prune state_of with_state pop_matching enqueue_waiter
begin_wait only_new input_type mode m =
    let t = normalize_input_type input_type in
    let q = state_of m t in
    if only_new then enqueue_waiter t m else elim (pop_matching mode q.queued_messages) [
      | none ↦ enqueue_waiter t m
      | some (msg, rest) ↦ (
        received msg,
        with_state t (record { queued_messages = rest; waiters = prune m q.waiters }) m,
      )
    ]

-- `deque.remove`, which does nothing here where the future is not in the list
unfoldable pub remove_waiter : ℕ → List ℕ → List ℕ
remove_waiter f [] = []
remove_waiter f (g ∷ gs) = if g == f then gs else g ∷ remove_waiter f gs

unfoldable pub abandon : Text → ℕ → InputManager → InputManager
unfolding remove_waiter state_of with_state
abandon t f m =
    let q = state_of m t in with_state t (record q { waiters = remove_waiter f q.waiters }) m

-- a message of another mode goes back, and the task waits again
unfoldable pub resume :
    Text → Option UserInputMode → ℕ → Message → InputManager → Wait × InputManager
unfolding message_mode_matches abandon hand_over enqueue_waiter
resume t mode f msg m =
    if message_mode_matches msg mode
    then (received msg, abandon t f m)
    else enqueue_waiter t (hand_over msg true t m).1
