-- ===== src/ToolRound/Runs.antt =====
-- The runs of neighbours with one mode in a plan, and `execute_plan`.
use codeng.Prelude.{
  suc, ◌+◌, ◌≡◌, refl, arith, ap, ◌∙◌, sym, true, false, List, [], ◌∷◌, ◌++◌, length, length-append,
  if◌then◌else◌, map, Bool-cases, inl, inr,
}
use mathlib.Core.List.{append_assoc, append-nil}
use codeng.ToolRound.State.{Request, PlanItem, Mode, sequential, parallel}
use codeng.ToolRound.Execute.{
  same_mode, Executor, Executed, execute_each, execute_group, and_then, execute_from, execute_plan,
}

abbrev pub Runs : Type 0
Runs = List (Mode × List PlanItem)

-- a group before some runs: it is one with the first of them if that has its mode
unfoldable pub join : Mode → List PlanItem → Runs → Runs
join mode group [] = (mode, group) ∷ []
join mode group ((m, run) ∷ runs) =
    if same_mode m mode then (mode, group ++ run) ∷ runs else (mode, group) ∷ (m, run) ∷ runs

-- the longest runs of neighbours with one mode
unfoldable pub runs_of : List PlanItem → Runs
unfolding join
runs_of [] = []
runs_of (i ∷ is) = join i.execution_mode (i ∷ []) (runs_of is)

same_mode-eq : (m n : Mode) → same_mode m n ≡ true → m ≡ n
same_mode-eq sequential sequential h = refl
same_mode-eq parallel parallel h = refl
same_mode-eq sequential parallel h = ground arith
same_mode-eq parallel sequential h = ground arith

same_mode_refl : (m : Mode) → same_mode m m ≡ true
same_mode_refl sequential = refl
same_mode_refl parallel = refl

join-same :
    (mode : Mode) (group : List PlanItem) (i : PlanItem) (runs : Runs)
    → join mode group (join mode (i ∷ []) runs) ≡ join mode (group ++ i ∷ []) runs
unfolding join
join-same mode group i [] = rw (same_mode_refl mode, join) refl
join-same mode group i ((m, run) ∷ runs) = elim (Bool-cases (same_mode m mode)) [
  | inl same ↦
      rw (same, same_mode_refl mode, join)
        (ap (λ g. (mode, g) ∷ runs) (sym (append_assoc group (i ∷ []) run)))
  | inr other ↦ rw (other, same_mode_refl mode, join) refl
]

join-other :
    (mode m : Mode) (group run : List PlanItem) (runs : Runs)
    → same_mode m mode ≡ false
    → join mode group (join m run runs) ≡ (mode, group) ∷ join m run runs
unfolding join
join-other mode m group run [] h = rw (h, join) refl
join-other mode m group run ((k, r) ∷ runs) h = elim (Bool-cases (same_mode k m)) [
  | inl same ↦ rw (same, h, join) refl
  | inr other ↦ rw (other, h, join) refl
]

length-requests : (is : List PlanItem) → length (map (λ (j : PlanItem). j.request) is) ≡ length is
length-requests [] = refl
length-requests (i ∷ is) = ap suc (length-requests is)

module _ {World Result : Type 0} (x : Executor World Result) where
  -- one run after another
  unfoldable pub execute_runs : Runs → World → Executed x
  unfolding execute_group
  execute_runs [] w = ([], w)
  execute_runs ((mode, run) ∷ runs) w = and_then x (execute_group x run mode w) (execute_runs runs)

  execute_from_lem :
      (is : List PlanItem) (mode : Mode) (group : List PlanItem) (w : World)
      → execute_from x mode group is w ≡ execute_runs (join mode group (runs_of is)) w
  unfolding execute_from execute_runs runs_of join
  execute_from_lem [] mode group w =
      let r = execute_group x group mode w in ap (λ rs. (rs, r.1)) (sym (append-nil r.0))
  execute_from_lem (i ∷ is) mode group w = elim (Bool-cases (same_mode i.execution_mode mode)) [
    | inl same ↦
        let e : i.execution_mode ≡ mode = same_mode-eq i.execution_mode mode same in
        rw (same, execute_from)
          (execute_from_lem is mode (group ++ i ∷ []) w
            ∙ ap (λ rs. execute_runs rs w) (sym (join-same mode group i (runs_of is)))
            ∙ ap (λ m. execute_runs (join mode group (join m (i ∷ []) (runs_of is))) w) (sym e))
    | inr other ↦
        let r = execute_group x group mode w in
        rw (other, execute_from)
          (ap (λ o. (r.0 ++ o.0, o.1)) (execute_from_lem is i.execution_mode (i ∷ []) r.1)
            ∙ ap (λ rs. execute_runs rs w)
                (sym (join-other mode i.execution_mode group (i ∷ []) (runs_of is) other)))
  ]

  -- The execution of a plan is the execution of its longest runs of neighbours with one mode, one run
  -- after another, with the results in that order.
  pub execute_plan-execute_runs :
      (plan : List PlanItem) (w : World) → execute_plan x plan w ≡ execute_runs (runs_of plan) w
  unfolding execute_plan runs_of execute_runs
  execute_plan-execute_runs [] w = refl
  execute_plan-execute_runs (i ∷ is) w = execute_from_lem is i.execution_mode (i ∷ []) w

  length-execute_each :
      (is : List PlanItem) (w : World) → length (execute_each x is w).0 ≡ length is
  unfolding execute_each
  length-execute_each [] w = refl
  length-execute_each (i ∷ is) w = ap suc (length-execute_each is (x.execute i.request w).1)

  module _ (in_order : (rs : List Request) (w : World) → length (x.gather rs w).0 ≡ length rs) where
    length-execute_group :
        (is : List PlanItem) (mode : Mode) (w : World)
        → length (execute_group x is mode w).0 ≡ length is
    unfolding execute_group
    length-execute_group [] mode w = refl
    length-execute_group (i ∷ is) sequential w = length-execute_each (i ∷ is) w
    length-execute_group (i ∷ is) parallel w =
        in_order (map (λ (j : PlanItem). j.request) (i ∷ is)) w ∙ length-requests (i ∷ is)

    length-execute_from :
        (is : List PlanItem) (mode : Mode) (group : List PlanItem) (w : World)
        → length (execute_from x mode group is w).0 ≡ length group + length is
    unfolding execute_from
    length-execute_from [] mode group w = omega (arith, length-execute_group group mode w)
    length-execute_from (i ∷ is) mode group w =
        elim (Bool-cases (same_mode i.execution_mode mode)) [
          | inl same ↦
              rw (same, execute_from)
                (omega (
                  arith,
                  length-execute_from is mode (group ++ i ∷ []) w,
                  length-append group (i ∷ []),
                ))
          | inr other ↦
              let r = execute_group x group mode w in
              rw (other, execute_from)
                (omega (
                  arith,
                  length-append r.0 (execute_from x i.execution_mode (i ∷ []) is r.1).0,
                  length-execute_group group mode w,
                  length-execute_from is i.execution_mode (i ∷ []) r.1,
                ))
        ]

    -- If gather gives one result for each call, the execution of a plan gives one result for each of
    -- its items.
    pub length-execute_plan :
        (plan : List PlanItem) (w : World) → length (execute_plan x plan w).0 ≡ length plan
    unfolding execute_plan
    length-execute_plan [] w = refl
    length-execute_plan (i ∷ is) w =
        omega (arith, length-execute_from is i.execution_mode (i ∷ []) w)
