-- ===== src/Input/Delivery.antt =====
-- What `publish` does with a message: the first task that waits gets it, or it goes to the end of
-- the queue of its type.
use codeng.Prelude.{
  ℕ, ◌≡◌, refl, ap, arith, true, false, Option, none, some, List, [], ◌∷◌, ◌++◌, inl, inr,
  Bool-cases, if◌then◌else◌, ◌∙◌, subst, sym,
}
use codeng.Prelude.Dict
use codeng.Prelude.Texts
use codeng.Prelude.Texts.{text_eq, text_eq_iff}
use codeng.Workflow.Data.{Message, Text, UserInputMode}
use codeng.Input.State.{InputQueueState, InputManager, done, prune, state_of, with_state}
use codeng.Input.Types.{normalize_input_type}
use codeng.Input.Publish.{next_waiter, hand_over, set_result, set_mode, publish}
use codeng.Input.Queue.{queue_of}

pub state_of-with_state :
    (t u : Text) (q : InputQueueState) (m : InputManager)
    → state_of (with_state t q m) u ≡ (if text_eq t u then q else state_of m u)
unfolding state_of with_state
state_of-with_state t u q m = ground (arith, Texts.get-put t u q m.state_by_type)

pub state_of-with_state_same :
    (t : Text) (q : InputQueueState) (m : InputManager) → state_of (with_state t q m) t ≡ q
state_of-with_state_same t q m = ground (arith, state_of-with_state t t q m, text_eq_iff t t)

-- every one of the futures is done
abbrev pub AllDone : InputManager → List ℕ → Type 0
AllDone m [] = Unit
AllDone m (f ∷ fs) = (done m f ≡ true) × AllDone m fs

-- what may be found among waiters: the first that is not done, or none if all are done
abbrev pub IsNext : InputManager → List ℕ → Option (ℕ × List ℕ) → Type 0
IsNext m ws none = AllDone m ws
IsNext m ws (some (f, fs)) =
    (front : List ℕ) × (ws ≡ front ++ f ∷ fs) × AllDone m front × (done m f ≡ false)

IsNext-cons :
    (m : InputManager) (g : ℕ) (gs : List ℕ) (r : Option (ℕ × List ℕ))
    → done m g ≡ true
    → IsNext m gs r
    → IsNext m (g ∷ gs) r
IsNext-cons m g gs none over h = (over, h)
IsNext-cons m g gs (some (f, fs)) over (front, whole, all, waits) =
    (g ∷ front, ap (λ l. g ∷ l) whole, (over, all), waits)

next_waiter-IsNext : (m : InputManager) (ws : List ℕ) → IsNext m ws (next_waiter m ws)
unfolding next_waiter
next_waiter-IsNext m [] = tt
next_waiter-IsNext m (g ∷ gs) = elim (Bool-cases (done m g)) [
  | inl over ↦
      rw (over, next_waiter) (IsNext-cons m g gs (next_waiter m gs) over (next_waiter-IsNext m gs))
  | inr waits ↦ rw (waits, next_waiter) ([], refl, tt, waits)
]

-- the done waiters that `prune` takes off would be passed over
next_waiter-prune : (m : InputManager) (ws : List ℕ) → next_waiter m (prune m ws) ≡ next_waiter m ws
unfolding next_waiter prune
next_waiter-prune m [] = refl
next_waiter-prune m (g ∷ gs) = elim (Bool-cases (done m g)) [
  | inl over ↦ rw (over, next_waiter, prune) (next_waiter-prune m gs)
  | inr waits ↦ rw (waits, next_waiter, prune) (rw (waits, next_waiter) refl)
]

-- Where all waiters are done, none is found.
pub next_waiter-AllDone :
    (m : InputManager) (ws : List ℕ) → AllDone m ws → next_waiter m (prune m ws) ≡ none
unfolding next_waiter
next_waiter-AllDone m ws all = next_waiter-prune m ws ∙ go ws all
  where
    go : (l : List ℕ) → AllDone m l → next_waiter m l ≡ none
    go [] all = refl
    go (f ∷ fs) (over, rest) = rw (over, next_waiter) (go fs rest)

-- what becomes of a message: the first task that waits has it and the queue is as it was, or no
-- task waits and the message is the last one of the queue
pub data IsDelivered (msg : Message) (t : Text) (m m' : InputManager) : Type 0 where
  handed :
      (front : List ℕ) (f : ℕ) (fs : List ℕ)
      → (state_of m t).waiters ≡ front ++ f ∷ fs
      → AllDone m front
      → done m f ≡ false
      → Dict.get f m'.results ≡ some msg
      → state_of m' t ≡ record (state_of m t) { waiters = fs }
      → IsDelivered msg t m m'
  kept :
      AllDone m (state_of m t).waiters
      → queue_of m' t ≡ queue_of m t ++ msg ∷ []
      → m'.results ≡ m.results
      → IsDelivered msg t m m'

get-set_result :
    (f : ℕ) (msg : Message) (m : InputManager) → Dict.get f (set_result f msg m).results ≡ some msg
unfolding set_result
get-set_result f msg m = ground (arith, Dict.get-put f f msg m.results)

state_of-set_result :
    (f : ℕ) (msg : Message) (t : Text) (m : InputManager)
    → state_of (set_result f msg m) t ≡ state_of m t
unfolding set_result state_of
state_of-set_result f msg t m = refl

delivered :
    (msg : Message) (t : Text) (m : InputManager) (r : Option (ℕ × List ℕ))
    → next_waiter m (prune m (state_of m t).waiters) ≡ r
    → IsNext m (state_of m t).waiters r
    → ((hand_over msg true t m).0 ≡ true) × IsDelivered msg t m (hand_over msg true t m).1
unfolding hand_over queue_of
delivered msg t m none idle all =
    rw (idle, hand_over)
      (
        refl,
        kept all (ap (λ (q : InputQueueState). q.queued_messages) (state_of-with_state_same t _ m))
            refl,
      )
delivered msg t m (some (f, fs)) free (front, whole, all, waits) =
    let left : InputQueueState = record (state_of m t) { waiters = fs } in
    let m1 = with_state t left m in
    rw (free, hand_over)
      (
        refl,
        handed front f fs whole all waits (get-set_result f msg m1)
            (state_of-set_result f msg t m1 ∙ state_of-with_state_same t left m),
      )

-- A message that may be queued is never lost: the call reports that it was taken, and either the
-- first task that was waiting has it, or none was and it is the last of its queue.
pub publish-IsDelivered :
    (msg : Message) (input_type : Option Text) (mode : Option UserInputMode) (m : InputManager)
    → ((publish msg true input_type mode m).0 ≡ true)
      × IsDelivered
          (set_mode mode msg)
          (normalize_input_type input_type)
          m
          (publish msg true input_type mode m).1
unfolding publish
publish-IsDelivered msg input_type mode m =
    let t = normalize_input_type input_type in
    delivered (set_mode mode msg) t m (next_waiter m (prune m (state_of m t).waiters)) refl (
      subst (IsNext m (state_of m t).waiters) (sym (next_waiter-prune m (state_of m t).waiters))
        (next_waiter-IsNext m (state_of m t).waiters))
