-- ===== src/Input/Reset.antt =====
-- What `reset` does to the tasks that wait.
use codeng.Prelude.{
  ℕ, ◌≡◌, refl, arith, false, List, [], ◌∷◌, ◌++◌, ◌∙◌, has, ◌||◌, ◌&&◌, not, if◌then◌else◌,
  Bool-cases, inl, inr,
}
use codeng.Prelude.Texts
use codeng.Prelude.Texts.{text_eq}
use codeng.Workflow.Data.{Text}
use codeng.Input.State.{InputQueueState, InputManager, or_empty, done, state_of}
use codeng.Input.Queue.{
  map_states, reset, has_pending_waiters, states_pending, some_pending, cancel, cancel_waiters,
  cancel_states, no_waiters,
}

-- the futures of every state
unfoldable pub all_waiters : List (Text × InputQueueState) → List ℕ
all_waiters [] = []
all_waiters ((t, q) ∷ d) = q.waiters ++ all_waiters d

states_pending-no_waiters :
    (m : InputManager) (d : List (Text × InputQueueState))
    → states_pending m (map_states no_waiters d) ≡ false
unfolding states_pending some_pending map_states
states_pending-no_waiters m [] = refl
states_pending-no_waiters m ((t, q) ∷ d) = states_pending-no_waiters m d

has-append : (k : ℕ) (xs ys : List ℕ) → has k (xs ++ ys) ≡ (has k xs || has k ys)
has-append k [] ys = refl
has-append k (x ∷ xs) ys = ground (arith, has-append k xs ys)

-- of some waiters, those that are not done are cancelled, and nothing else changes
abbrev Cancels : List ℕ → ℕ → InputManager → InputManager → Type 0
Cancels fs f m m' =
    (has f m'.cancelled ≡ (has f m.cancelled || (has f fs && not (done m f))))
    × (m'.results ≡ m.results)

cancel_one-Cancels :
    (g f : ℕ) (m : InputManager) → Cancels (g ∷ []) f m (if done m g then m else cancel g m)
unfolding cancel
cancel_one-Cancels g f m = elim (Bool-cases (done m g)) [
  | inl over ↦ rw over (ground arith, refl)
  | inr waits ↦ rw waits (ground arith, refl)
]

-- a future that is done stays so, and one that was cancelled is done
done-Cancels :
    (fs : List ℕ) (f : ℕ) (m m' : InputManager)
    → Cancels fs f m m'
    → done m' f ≡ (done m f || has f fs)
unfolding done
done-Cancels fs f m m' (more, same) = ground arith

Cancels-append :
    (xs ys : List ℕ) (f : ℕ) (m m1 m2 : InputManager)
    → Cancels xs f m m1
    → Cancels ys f m1 m2
    → Cancels (xs ++ ys) f m m2
Cancels-append xs ys f m m1 m2 c d =
    (ground (arith, c.0, d.0, done-Cancels xs f m m1 c, has-append f xs ys), d.1 ∙ c.1)

cancel_waiters-Cancels :
    (fs : List ℕ) (f : ℕ) (m : InputManager) → Cancels fs f m (cancel_waiters fs m)
unfolding cancel_waiters
cancel_waiters-Cancels [] f m = (ground arith, refl)
cancel_waiters-Cancels (g ∷ fs) f m =
    let m1 = if done m g then m else cancel g m in
    Cancels-append (g ∷ []) fs f m m1 (cancel_waiters fs m1) (cancel_one-Cancels g f m)
      (cancel_waiters-Cancels fs f m1)

cancel_states-Cancels :
    (d : List (Text × InputQueueState)) (f : ℕ) (m : InputManager)
    → Cancels (all_waiters d) f m (cancel_states d m)
unfolding cancel_states all_waiters
cancel_states-Cancels [] f m = (ground arith, refl)
cancel_states-Cancels ((t, q) ∷ d) f m =
    let m1 = cancel_waiters q.waiters m in
    Cancels-append q.waiters (all_waiters d) f m m1 (cancel_states d m1)
      (cancel_waiters-Cancels q.waiters f m) (cancel_states-Cancels d f m1)

or_empty-map_states :
    (t : Text) (d : List (Text × InputQueueState))
    → or_empty (Texts.get t (map_states no_waiters d))
      ≡ record (or_empty (Texts.get t d)) { waiters = [] }
unfolding map_states Texts.get
or_empty-map_states t [] = refl
or_empty-map_states t ((k, q) ∷ d) = elim (Bool-cases (text_eq k t)) [
  | inl same ↦ rw (same, Texts.get) refl
  | inr other ↦ rw (other, Texts.get) (or_empty-map_states t d)
]

-- After `reset` no state has a waiter and every queue has the messages it had; of the futures that
-- waited for any type of input exactly those that were not done became cancelled, and no future got
-- or lost a result.
pub reset_lem :
    (m : InputManager) (f : ℕ) (t : Text)
    → (has_pending_waiters (reset m) ≡ false)
      × (state_of (reset m) t ≡ record (state_of m t) { waiters = [] })
      × (has f (reset m).cancelled
          ≡ (has f m.cancelled || (has f (all_waiters m.state_by_type) && not (done m f))))
      × ((reset m).results ≡ m.results)
unfolding has_pending_waiters reset state_of
reset_lem m f t =
    let (cancels, same) = cancel_states-Cancels m.state_by_type f m in
    (
      states_pending-no_waiters (reset m) m.state_by_type,
      or_empty-map_states t m.state_by_type,
      cancels,
      same,
    )
