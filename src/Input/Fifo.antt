-- ===== src/Input/Fifo.antt =====
-- Messages that nobody waits for leave their queue in the order in which they were published.
use codeng.Prelude.{
  ℕ, zero, suc, ◌≡◌, refl, sym, ap, arith, true, Option, none, some, List, [], ◌∷◌, ◌++◌, ◌∙◌, map,
  length, subst,
}
use mathlib.Core.List.{append_assoc, append-nil}
use codeng.Workflow.Data.{Message, Text}
use codeng.Input.State.{InputQueueState, InputManager, state_of, message_mode_matches}
use codeng.Input.Types.{normalize_input_type}
use codeng.Input.Publish.{publish, hand_over, pop_matching}
use codeng.Input.Queue.{queue_of, with_queue, dequeue, poll_queued_input, poll_type}
use codeng.Input.Delivery.{state_of-with_state_same, AllDone, next_waiter-AllDone}

-- one call of `publish` for each message
unfoldable pub publish_each : List Message → Option Text → InputManager → InputManager
publish_each [] t m = m
publish_each (msg ∷ msgs) t m = publish_each msgs t (publish msg true t none m).1

-- `n` calls of `dequeue`
unfoldable pub dequeue_times : ℕ → Text → InputManager → List (Option Message)
dequeue_times zero t m = []
dequeue_times (suc n) t m = let r = dequeue (some t) m in r.0 ∷ dequeue_times n t r.1

queue_of-with_queue :
    (t : Text) (msgs : List Message) (m : InputManager) → queue_of (with_queue t msgs m) t ≡ msgs
unfolding queue_of with_queue
queue_of-with_queue t msgs m =
    ap (λ (q : InputQueueState). q.queued_messages) (state_of-with_state_same t _ m)

dequeue_front :
    (t : Text) (m : InputManager) (msg : Message) (rest : List Message)
    → queue_of m (normalize_input_type (some t)) ≡ msg ∷ rest
    → dequeue (some t) m ≡ (some msg, with_queue (normalize_input_type (some t)) rest m)
unfolding dequeue poll_queued_input poll_type pop_matching queue_of state_of message_mode_matches
dequeue_front t m msg rest h = ground arith

dequeue_times_all :
    (msgs : List Message) (t : Text) (m : InputManager)
    → queue_of m (normalize_input_type (some t)) ≡ msgs
    → dequeue_times (length msgs) t m ≡ map some msgs
unfolding dequeue_times
dequeue_times_all [] t m h = refl
dequeue_times_all (msg ∷ msgs) t m h = rw (dequeue_front t m msg msgs h) (
    ap (λ l. some msg ∷ l)
      (dequeue_times_all msgs t (with_queue (normalize_input_type (some t)) msgs m)
        (queue_of-with_queue (normalize_input_type (some t)) msgs m)))

-- a message that finds no task
publish_idle :
    (msg : Message) (t : Option Text) (m : InputManager)
    → AllDone m (state_of m (normalize_input_type t)).waiters
    → state_of (publish msg true t none m).1 (normalize_input_type t)
      ≡ record { queued_messages = queue_of m (normalize_input_type t) ++ msg ∷ []; waiters = [] }
unfolding publish hand_over queue_of
publish_idle msg t m idle =
    rw (next_waiter-AllDone m (state_of m (normalize_input_type t)).waiters idle, hand_over)
      (state_of-with_state_same (normalize_input_type t) _ m)

publish_each_appends :
    (msgs : List Message) (t : Option Text) (m : InputManager)
    → AllDone m (state_of m (normalize_input_type t)).waiters
    → queue_of (publish_each msgs t m) (normalize_input_type t)
      ≡ queue_of m (normalize_input_type t) ++ msgs
unfolding publish_each queue_of
publish_each_appends [] t m idle = sym (append-nil _)
publish_each_appends (msg ∷ msgs) t m idle =
    let p = publish_idle msg t m idle in
    let m1 = (publish msg true t none m).1 in
    publish_each_appends msgs t m1
      (subst (λ (q : InputQueueState). AllDone m1 q.waiters) (sym p) tt)
    ∙ ap (λ (q : InputQueueState). q.queued_messages ++ msgs) p
    ∙ append_assoc (queue_of m (normalize_input_type t)) (msg ∷ []) msgs

-- The messages that were published while no task was waiting and the queue was empty are dequeued
-- in the order of their publication.
pub dequeue_times-publish_each :
    (msgs : List Message) (t : Text) (m : InputManager)
    → AllDone m (state_of m (normalize_input_type (some t))).waiters
    → queue_of m (normalize_input_type (some t)) ≡ []
    → dequeue_times (length msgs) t (publish_each msgs (some t) m) ≡ map some msgs
dequeue_times-publish_each msgs t m idle none_queued =
    dequeue_times_all msgs t (publish_each msgs (some t) m)
      (publish_each_appends msgs (some t) m idle ∙ ap (λ l. l ++ msgs) none_queued)
