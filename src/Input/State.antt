-- ===== src/Input/State.antt =====
-- The state of `InputManager`. A future is a number; it is done when it has a result or was
-- cancelled. The lock makes each method (and each part of `wait_for_input` between two awaits) one
-- step.
use codeng.Prelude.{ℕ, Bool, true, false, Option, none, some, List, [], ◌∷◌, has, if◌then◌else◌}
use codeng.Prelude.Dict
use codeng.Prelude.Dict.{Dict}
use codeng.Prelude.Texts
use codeng.Workflow.Data.{Message, Text, UserInputMode, prompt_reply, queue, steering}

pub record InputQueueState : Type 0 where
  pub queued_messages : List Message
  pub waiters : List ℕ

pub record InputManager : Type 0 where
  pub state_by_type : List (Text × InputQueueState)
  pub results : Dict Message
  pub cancelled : List ℕ
  pub next_future : ℕ

unfoldable pub init : InputManager
init = record { state_by_type = []; results = []; cancelled = []; next_future = 0 }

-- `future.done()`
unfoldable pub done : InputManager → ℕ → Bool
done m f = elim (Dict.get f m.results) [ some r ↦ true | none ↦ has f m.cancelled ]

abbrev same_mode : UserInputMode → UserInputMode → Bool
same_mode prompt_reply prompt_reply = true
same_mode queue queue = true
same_mode steering steering = true
same_mode _ _ = false

abbrev is_reply : UserInputMode → Bool
is_reply prompt_reply = true
is_reply _ = false

-- no mode takes every message; a reply to a prompt may have no mode
unfoldable pub message_mode_matches : Message → Option UserInputMode → Bool
message_mode_matches m none = true
message_mode_matches m (some mode) = elim m.input_mode [
  | none ↦ is_reply mode
  | some given ↦ same_mode given mode
]

abbrev pub no_queue : InputQueueState
no_queue = record { queued_messages = []; waiters = [] }

abbrev pub or_empty : Option InputQueueState → InputQueueState
or_empty none = no_queue
or_empty (some q) = q

-- `_get_or_create_state`; what it creates is stored with the first write
unfoldable pub state_of : InputManager → Text → InputQueueState
state_of m t = or_empty (Texts.get t m.state_by_type)

unfoldable pub with_state : Text → InputQueueState → InputManager → InputManager
with_state t q m = record m { state_by_type = Texts.put t q m.state_by_type }

-- `_prune_done_waiters`: the done waiters at the front
unfoldable pub prune : InputManager → List ℕ → List ℕ
unfolding done
prune m [] = []
prune m (f ∷ fs) = if done m f then prune m fs else f ∷ fs
