-- ===== src/ToolRound/Execute.antt =====
-- `execute_plan`. The function that executes a call and `asyncio.gather` are parameters, over a state
-- of the world.
use codeng.Prelude.{map, Bool, true, false, List, [], ◌∷◌, ◌++◌}
use codeng.ToolRound.State.{Request, PlanItem, Mode, sequential, parallel}

abbrev pub same_mode : Mode → Mode → Bool
same_mode sequential sequential = true
same_mode parallel parallel = true
same_mode _ _ = false

pub record Executor (World Result : Type 0) : Type 0 where
  pub execute : Request → World → Result × World
  pub gather : List Request → World → List Result × World

module _ {World Result : Type 0} (x : Executor World Result) where
  abbrev pub Executed : Type 0
  Executed = List Result × World

  unfoldable pub execute_each : List PlanItem → World → Executed
  execute_each [] w = ([], w)
  execute_each (i ∷ is) w =
      let (r, w1) = x.execute i.request w in let (rs, w2) = execute_each is w1 in (r ∷ rs, w2)

  unfoldable pub execute_group : List PlanItem → Mode → World → Executed
  unfolding execute_each
  execute_group [] mode w = ([], w)
  execute_group (i ∷ is) sequential w = execute_each (i ∷ is) w
  execute_group (i ∷ is) parallel w = x.gather (map (λ (j : PlanItem). j.request) (i ∷ is)) w

  abbrev pub and_then : Executed → (World → Executed) → Executed
  and_then (rs, w) f = let (more, w1) = f w in (rs ++ more, w1)

  -- the loop, with the group that is open and its mode
  unfoldable pub execute_from : Mode → List PlanItem → List PlanItem → World → Executed
  unfolding execute_group
  execute_from mode group [] w = execute_group group mode w
  execute_from mode group (i ∷ is) w = elim (same_mode i.execution_mode mode) [
    | true ↦ execute_from mode (group ++ i ∷ []) is w
    | false ↦ and_then (execute_group group mode w) (execute_from i.execution_mode (i ∷ []) is)
  ]

  unfoldable pub execute_plan : List PlanItem → World → Executed
  unfolding execute_from
  execute_plan [] w = ([], w)
  execute_plan (i ∷ is) w = execute_from i.execution_mode (i ∷ []) is w
