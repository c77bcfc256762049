-- ===== src/Input/Queue.antt =====
-- The operations on queued messages. Without a type they go through the queues in the order of
-- `ordered_input_types`.
use codeng.Prelude.{
  ℕ, ◌+◌, ◌-◌, Bool, Option, true, false, none, some, List, [], ◌∷◌, ltb, if◌then◌else◌, length,
  get_elem?, delete_at, keep, not, is_empty, ◌&&◌,
}
use codeng.Prelude.Int.{ℤ, pos, negsuc}
use codeng.Prelude.Texts
use codeng.Workflow.Data.{Message, Text, UserInputMode}
use codeng.Input.State.{InputQueueState, InputManager, done, state_of, with_state}
use codeng.Input.Types.{normalize_input_type, ordered_input_types}
use codeng.Input.Publish.{pop_matching}

unfoldable pub types_of : InputManager → List Text
unfolding ordered_input_types
types_of m = ordered_input_types (Texts.keys m.state_by_type)

unfoldable pub queue_of : InputManager → Text → List Message
unfolding state_of
queue_of m t = (state_of m t).queued_messages

unfoldable pub with_queue : Text → List Message → InputManager → InputManager
unfolding state_of with_state
with_queue t msgs m = with_state t (record (state_of m t) { queued_messages = msgs }) m

abbrev Taken : Type 0
Taken = Option Message × InputManager

-- from the queue of one type
unfoldable pub poll_type : Option UserInputMode → Text → InputManager → Taken
unfolding pop_matching queue_of with_queue
poll_type mode t m = elim (Texts.get t m.state_by_type) [
  | none ↦ (none, m)
  | some q ↦ elim (pop_matching mode (queue_of m t)) [
    | none ↦ (none, m)
    | some (msg, rest) ↦ (some msg, with_queue t rest m)
  ]
]

-- the first queue that has a match
unfoldable pub poll_types : Option UserInputMode → List Text → InputManager → Taken
unfolding pop_matching queue_of with_queue
poll_types mode [] m = (none, m)
poll_types mode (t ∷ ts) m = elim (pop_matching mode (queue_of m t)) [
  | none ↦ poll_types mode ts m
  | some (msg, rest) ↦ (some msg, with_queue t rest m)
]

unfoldable pub poll_queued_input : Option Text → Option UserInputMode → InputManager → Taken
unfolding poll_type poll_types types_of normalize_input_type
poll_queued_input (some t) mode m = poll_type mode (normalize_input_type (some t)) m
poll_queued_input none mode m = poll_types mode (types_of m) m

-- `dequeue` takes the first message, whatever its mode
unfoldable pub dequeue : Option Text → InputManager → Taken
unfolding poll_queued_input
dequeue t m = poll_queued_input t none m

-- an index from the front; a negative one counts from the end
unfoldable pub resolve_index : ℤ → ℕ → Option ℕ
resolve_index (pos i) size = if ltb i size then some i else none
resolve_index (negsuc i) size = if ltb i size then some (size - (i + 1)) else none

-- the message at an index of one queue, taken out
unfoldable pub remove_in : ℕ → Text → InputManager → Taken
unfolding queue_of with_queue
remove_in i t m = elim (get_elem? (queue_of m t) i) [
  | none ↦ (none, m)
  | some msg ↦ (some msg, with_queue t (delete_at (queue_of m t) i) m)
]

unfoldable pub remove_types : ℕ → List Text → InputManager → Taken
unfolding queue_of remove_in
remove_types i [] m = (none, m)
remove_types i (t ∷ ts) m =
    let rest = remove_types (i - length (queue_of m t)) ts m in
    if ltb i (length (queue_of m t)) then remove_in i t m else rest

unfoldable pub total_size : List Text → InputManager → ℕ
unfolding queue_of
total_size [] m = 0
total_size (t ∷ ts) m = length (queue_of m t) + total_size ts m

abbrev at_index : Option ℕ → (ℕ → Taken) → InputManager → Taken
at_index none f m = (none, m)
at_index (some i) f m = f i

unfoldable pub remove_at : ℤ → Option Text → InputManager → Taken
unfolding resolve_index remove_in remove_types total_size types_of normalize_input_type queue_of
remove_at index (some t) m =
    let n = normalize_input_type (some t) in
    elim (Texts.get n m.state_by_type) [
      | none ↦ (none, m)
      | some q ↦ at_index (resolve_index index (length (queue_of m n))) (λ i. remove_in i n m) m
    ]
remove_at index none m =
    at_index (resolve_index index (total_size (types_of m) m)) (λ i. remove_types i (types_of m) m)
      m

-- the loops over all states
unfoldable pub map_states :
    (InputQueueState → InputQueueState)
    → List (Text × InputQueueState)
    → List (Text × InputQueueState)
map_states f [] = []
map_states f ((t, q) ∷ d) = (t, f q) ∷ map_states f d

unfoldable pub queued_count : List (Text × InputQueueState) → ℕ
queued_count [] = 0
queued_count ((t, q) ∷ d) = length q.queued_messages + queued_count d

abbrev pub no_messages : InputQueueState → InputQueueState
no_messages q = record q { queued_messages = [] }

abbrev pub no_waiters : InputQueueState → InputQueueState
no_waiters q = record q { waiters = [] }

unfoldable pub clear_queue : Option Text → InputManager → ℕ × InputManager
unfolding map_states queued_count normalize_input_type with_state
clear_queue (some t) m = elim (Texts.get (normalize_input_type (some t)) m.state_by_type) [
  | none ↦ (0, m)
  | some q ↦
      (length q.queued_messages, with_state (normalize_input_type (some t)) (no_messages q) m)
]
clear_queue none m = (
  queued_count m.state_by_type,
  record m { state_by_type = map_states no_messages m.state_by_type },
)

unfoldable pub some_pending : InputManager → List ℕ → Bool
unfolding done
some_pending m [] = false
some_pending m (f ∷ fs) = let rest = some_pending m fs in if not (done m f) then true else rest

unfoldable pub states_pending : InputManager → List (Text × InputQueueState) → Bool
unfolding some_pending
states_pending m [] = false
states_pending m ((t, q) ∷ d) =
    let rest = states_pending m d in if some_pending m q.waiters then true else rest

unfoldable pub has_pending_waiters : InputManager → Bool
unfolding states_pending
has_pending_waiters m = states_pending m m.state_by_type

-- `waiter.cancel()`, which the loops call only where the future is not done
unfoldable pub cancel : ℕ → InputManager → InputManager
cancel f m = record m { cancelled = f ∷ m.cancelled }

-- the loop over the waiters of one state
unfoldable pub cancel_waiters : List ℕ → InputManager → InputManager
unfolding done cancel
cancel_waiters [] m = m
cancel_waiters (f ∷ fs) m = cancel_waiters fs (if done m f then m else cancel f m)

-- the loop over the states
unfoldable pub cancel_states : List (Text × InputQueueState) → InputManager → InputManager
unfolding cancel_waiters
cancel_states [] m = m
cancel_states ((t, q) ∷ d) m = cancel_states d (cancel_waiters q.waiters m)

unfoldable pub reset : InputManager → InputManager
unfolding cancel_states map_states
reset m = record (cancel_states m.state_by_type m) {
  state_by_type = map_states no_waiters m.state_by_type;
}

unfoldable pub reset_all : InputManager → InputManager
unfolding cancel_states map_states
reset_all m = record (cancel_states m.state_by_type m) {
  state_by_type = map_states (λ q. no_waiters (no_messages q)) m.state_by_type;
}

-- `_snapshot_states`: the waiters that are not done, of the types that have any or have messages
unfoldable pub snapshot_types : InputManager → List Text → List (Text × InputQueueState)
unfolding state_of done
snapshot_types m [] = []
snapshot_types m (t ∷ ts) =
    let rest = snapshot_types m ts in
    let q = state_of m t in
    let ws = keep (λ f. not (done m f)) q.waiters in
    if is_empty q.queued_messages && is_empty ws
    then rest
    else (t, record { queued_messages = q.queued_messages; waiters = ws }) ∷ rest

unfoldable pub snapshot_states : InputManager → List (Text × InputQueueState)
unfolding snapshot_types types_of
snapshot_states m = snapshot_types m (types_of m)
