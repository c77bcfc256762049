-- ===== src/Workflow/Action.antt =====
-- Code that reads and writes a workflow execution and may raise. What was written before a raise
-- stays written, so an action returns the state beside the outcome. The state also holds what the
-- interpreter gives: the ids that `uuid4` and the times that `utcnow` will return, and how many
-- calls were made.
use codeng.Prelude.{ℕ, suc, ◌≡◌, ◌≢◌, refl, arith, Bool, true, false, Option, none, some}
use codeng.Workflow.Data.{Uuid, Timestamp, WorkflowExecution}

-- `diverged` stands for a loop that does not end.
pub data Error : Type 0 where
  key_error value_error diverged : Error

pub data Outcome {ℓ} (A : Type ℓ) : Type ℓ where
  ok : A → Outcome A
  raised : Error → Outcome A

pub record World : Type 0 where
  pub execution : WorkflowExecution
  pub calls : ℕ
  pub uuid4 : ℕ → Uuid
  pub utcnow : ℕ → Timestamp

abbrev pub M : Type 0 → Type 0
M A = World → Outcome A × World

module _ {A B : Type 0} where
  abbrev continue : Outcome A → World → (A → M B) → Outcome B × World
  continue (ok a) w f = f a w
  continue (raised e) w f = (raised e, w)

  infixl 5 ◌>>=◌ ◌>>◌
  abbrev pub ◌>>=◌ : M A → (A → M B) → M B
  ◌>>=◌ m f w = let (r, w') = m w in continue r w' f

  abbrev pub ◌>>◌ : M A → M B → M B
  m >> k = m >>= λ _. k

module _ {A : Type 0} where
  abbrev pub pure : A → M A
  pure a w = (ok a, w)

  abbrev pub raise : Error → M A
  raise e w = (raised e, w)

  -- a read that may raise
  abbrev pub read : (WorkflowExecution → Outcome A) → M A
  read f w = (f w.execution, w)

  abbrev pub gets : (WorkflowExecution → A) → M A
  gets f w = (ok (f w.execution), w)

  -- `d[k]` of a key that may be missing: `KeyError`
  abbrev pub found : Option A → Outcome A
  found none = raised key_error
  found (some a) = ok a

abbrev pub modify : (WorkflowExecution → WorkflowExecution) → M (Unit {0})
modify f w = (ok tt, record w { execution = f w.execution })

-- `uuid4()` and `utcnow()` of a new record
abbrev pub fresh : M (Uuid × Timestamp)
fresh w = (ok (w.uuid4 w.calls, w.utcnow w.calls), record w { calls = suc w.calls })

abbrev pub unless : Bool → M (Unit {0}) → M (Unit {0})
unless true m = pure tt
unless false m = m

module _ {A B : Type 0} where
  continue-ok :
      (r : Outcome A) (w1 : World) (f : A → M B) {b : B} {w' : World}
      → continue r w1 f ≡ (ok b, w')
      → (a : A) × (r ≡ ok a) × (f a w1 ≡ (ok b, w'))
  continue-ok (ok a) w1 f h = (a, refl, h)
  continue-ok (raised x) w1 f h = absurd (ground arith)

  -- A chain that returns is a first action that returns, and then the rest.
  pub bind-ok :
      (m : M A) (f : A → M B) (w : World) {b : B} {w' : World}
      → (m >>= f) w ≡ (ok b, w')
      → (a : A) × (w1 : World) × (m w ≡ (ok a, w1)) × (f a w1 ≡ (ok b, w'))
  bind-ok m f w h = let (a, p, q) = continue-ok (m w).0 (m w).1 f h in (a, (m w).1, cc p, q)

  continue-ne :
      (x : Error) (r : Outcome A) (w1 : World) (f : A → M B)
      → r ≢ raised x
      → ((a : A) (w' : World) → (f a w').0 ≢ raised x)
      → (continue r w1 f).0 ≢ raised x
  continue-ne x (ok a) w1 f h k = k a w1
  continue-ne x (raised y) w1 f h k = λ p. h (ground arith)

  -- A chain raises an error only if one of its parts does.
  pub bind-ne :
      (x : Error) (m : M A) (f : A → M B) (w : World)
      → (m w).0 ≢ raised x
      → ((a : A) (w' : World) → (f a w').0 ≢ raised x)
      → ((m >>= f) w).0 ≢ raised x
  bind-ne x m f w h k = continue-ne x (m w).0 (m w).1 f h k
