-- ===== src/Input/Waiting.antt =====
-- Tasks that wait: what a task gets from `begin_wait`.
use codeng.Prelude.{ℕ, List}
use codeng.Prelude.Dict
use codeng.Input.State.{InputQueueState}

abbrev with_waiters : List ℕ → InputQueueState → InputQueueState
with_waiters l q = record q { waiters = l }
