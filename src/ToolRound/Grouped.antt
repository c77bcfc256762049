-- ===== src/ToolRound/Grouped.antt =====
-- The end of a round: which responses the step of a call gets.
use codeng.Prelude.{
  ◌≡◌, refl, ap, ◌∙◌, Option, none, some, List, [], ◌∷◌, ◌++◌, if◌then◌else◌, Bool-cases, inl, inr,
}
use mathlib.Core.List.{append_assoc}
use codeng.Prelude.Texts
use codeng.Prelude.Texts.{text_eq, text_eq_iff, get-put}
use codeng.Workflow.Data.{Text}
use codeng.ToolRound.State.{
  Response, ToolStep, PlanItem, ById, responses_at, group_responses, tool_steps, add_step,
  finalize_round,
}

-- the responses to one call, in order
unfoldable pub responses_to : Text → List Response → List Response
responses_to id [] = []
responses_to id (r ∷ rs) =
    let rest = responses_to id rs in if text_eq r.id id then r ∷ rest else rest

abbrev extended : Option (List Response) → List Response → Option (List Response)
extended o [] = o
extended o (r ∷ rs) = some (responses_at o ++ r ∷ rs)

extended-more :
    (o : Option (List Response)) (r : Response) (rs : List Response)
    → extended (some (responses_at o ++ r ∷ [])) rs ≡ extended o (r ∷ rs)
extended-more o r [] = refl
extended-more o r (s ∷ rs) = ap some (append_assoc (responses_at o) (r ∷ []) (s ∷ rs))

get-group_responses :
    (id : Text) (rs : List Response) (d : ById)
    → Texts.get id (group_responses rs d) ≡ extended (Texts.get id d) (responses_to id rs)
unfolding group_responses responses_to
get-group_responses id [] d = refl
get-group_responses id (r ∷ rs) d =
    let v = responses_at (Texts.get r.id d) ++ r ∷ [] in
    elim (Bool-cases (text_eq r.id id)) [
      | inl same ↦
          let e : r.id ≡ id = (text_eq_iff r.id id).0 same in
          rw (same, responses_to)
            (get-group_responses id rs (Texts.put r.id v d)
              ∙ ap (λ o. extended o (responses_to id rs))
                  (get-put r.id id v d
                    ∙ rw (same) (ap (λ k. some (responses_at (Texts.get k d) ++ r ∷ [])) e))
              ∙ extended-more (Texts.get id d) r (responses_to id rs))
      | inr other ↦
          rw (other, responses_to)
            (get-group_responses id rs (Texts.put r.id v d)
              ∙ ap (λ o. extended o (responses_to id rs)) (get-put r.id id v d ∙ rw (other) refl))
    ]

-- the step of an item, if it has a message and there is a response to its call
abbrev pub answered :
    List Response → Option (List Response) → ToolStep → List ToolStep → List ToolStep
answered [] m step rest = rest
answered (r ∷ rs) none step rest = rest
answered (r ∷ rs) (some _) step rest = record step { responses = some (r ∷ rs) } ∷ rest

unfoldable pub answered_steps : List Response → List PlanItem → List ToolStep
unfolding responses_to
answered_steps rs [] = []
answered_steps rs (i ∷ is) =
    answered (responses_to i.request.id rs) i.tool_step.responses i.tool_step (answered_steps rs is)

add_step-extended :
    (fs : List Response) (m : Option (List Response)) (step : ToolStep) (rest : List ToolStep)
    → add_step (extended none fs) m step rest ≡ answered fs m step rest
add_step-extended [] m step rest = refl
add_step-extended (r ∷ rs) none step rest = refl
add_step-extended (r ∷ rs) (some o) step rest = refl

tool_steps-answered :
    (rs : List Response) (plan : List PlanItem)
    → tool_steps (group_responses rs []) plan ≡ answered_steps rs plan
unfolding tool_steps answered_steps Texts.get
tool_steps-answered rs [] = refl
tool_steps-answered rs (i ∷ is) =
    let m = i.tool_step.responses in
    ap (λ o. add_step o m i.tool_step (tool_steps (group_responses rs []) is))
      (get-group_responses i.request.id rs [])
    ∙ add_step-extended (responses_to i.request.id rs) m i.tool_step
        (tool_steps (group_responses rs []) is)
    ∙ ap (answered (responses_to i.request.id rs) m i.tool_step) (tool_steps-answered rs is)

-- At the end of a round the message of the assistant gets all responses, and the message of each call's
-- step gets the responses with the id of the call, in their order; a step without a message or without
-- a response is left out.
pub finalize_round-answered :
    (plan : List PlanItem) (rs : List Response)
    → finalize_round plan rs ≡ (rs, answered_steps rs plan)
unfolding finalize_round
finalize_round-answered plan rs = ap (λ steps. (rs, steps)) (tool_steps-answered rs plan)
