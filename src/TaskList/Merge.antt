-- ===== src/TaskList/Merge.antt =====
-- What a merge of tasks gives.
use codeng.Prelude.{
  subst, ◌≤◌, ◌≡◌, refl, arith, ap, ◌∙◌, sym, true, false, Option, none, some, List, [], ◌∷◌, ◌++◌,
  leb, if◌then◌else◌, ◌||◌, Bool-cases, inl, inr,
}
use codeng.Prelude.Texts.{text_eq, text_eq_iff}
use codeng.Workflow.Data.{Text}
use codeng.TaskList.State.{
  Task, in_progress_count, validated, by_id, pop, merge_new, has_id, append_remaining, merge_tasks,
}

-- the first task with an id
unfoldable pub find : Text → List Task → Option Task
find id [] = none
find id (t ∷ ts) = if text_eq t.id id then some t else find id ts

abbrev pub or_else : Option Task → Option Task → Option Task
or_else none b = b
or_else (some t) b = some t

-- no id occurs twice
unfoldable pub IsUnique : List Task → Type 0
unfolding has_id
IsUnique [] = Unit
IsUnique (t ∷ ts) = (has_id t.id ts ≡ false) × IsUnique ts

merge_new_lem : (d : List (Text × Task)) (ts : List Task) → merge_new d ts ≡ ts
unfolding merge_new
merge_new_lem d [] = refl
merge_new_lem d (t ∷ ts) = ground (arith, merge_new_lem (pop t.id d) ts)

find-append :
    (id : Text) (m : List Task) (t : Task)
    → find id (m ++ t ∷ []) ≡ or_else (find id m) (if text_eq t.id id then some t else none)
unfolding find
find-append id [] t = ground arith
find-append id (u ∷ m) t = ground (arith, find-append id m t)

find-none : (id : Text) (m : List Task) → find id m ≡ none → has_id id m ≡ false
unfolding find has_id
find-none id [] h = refl
find-none id (u ∷ m) h = ground (arith, find-none id m)

find-append_remaining :
    (id : Text) (m ts : List Task)
    → find id (append_remaining m ts) ≡ or_else (find id m) (find id ts)
unfolding append_remaining find
find-append_remaining id m [] = ground arith
find-append_remaining id m (t ∷ ts) = elim (Bool-cases (has_id t.id m)) [
  | inl there ↦
      rw (there, append_remaining)
        (find-append_remaining id m ts
          ∙ ground (
            arith,
            find-none id m,
            text_eq_iff t.id id,
            λ (e : t.id ≡ id). ap (λ k. has_id k m) e,
          ))
  | inr new ↦
      rw (new, append_remaining)
        (find-append_remaining id (m ++ t ∷ []) ts ∙ ground (arith, find-append id m t))
]

has_id-append :
    (id : Text) (m : List Task) (t : Task)
    → has_id id (m ++ t ∷ []) ≡ (has_id id m || text_eq t.id id)
unfolding has_id
has_id-append id [] t = ground arith
has_id-append id (u ∷ m) t = ground (arith, has_id-append id m t)

IsUnique-append :
    (m : List Task) (t : Task) → IsUnique m → has_id t.id m ≡ false → IsUnique (m ++ t ∷ [])
unfolding IsUnique has_id
IsUnique-append [] t u new = (refl, tt)
IsUnique-append (x ∷ m) t (alone, u) new = (
  ground (arith, has_id-append x.id m t, text_eq_iff t.id x.id, text_eq_iff x.id t.id),
  IsUnique-append m t u (ground arith),
)

append_remaining-IsUnique : (m ts : List Task) → IsUnique m → IsUnique (append_remaining m ts)
unfolding append_remaining
append_remaining-IsUnique m [] u = u
append_remaining-IsUnique m (t ∷ ts) u = elim (Bool-cases (has_id t.id m)) [
  | inl there ↦ rw (there, append_remaining) (append_remaining-IsUnique m ts u)
  | inr new ↦
      rw (new, append_remaining)
        (append_remaining-IsUnique (m ++ t ∷ []) ts (IsUnique-append m t u new))
]

pub validated-count :
    (ts plan : List Task) → validated ts ≡ some plan → (plan ≡ ts) × (in_progress_count plan ≤ 1)
unfolding validated
validated-count ts plan h = elim (Bool-cases (leb (in_progress_count ts) 1)) [
  | inl few ↦
      let e : plan ≡ ts = ground arith in
      let le : in_progress_count ts ≤ 1 = ground arith in
      (e, subst (λ p. in_progress_count p ≤ 1) (sym e) le)
  | inr many ↦ absurd (ground arith)
]

-- a plan that is merged from an old one and from new tasks
pub record IsMerged (existing new_tasks plan : List Task) : Type 0 where
  pub found : (id : Text) → find id plan ≡ or_else (find id new_tasks) (find id existing)
  pub unique : IsUnique plan
  pub count : in_progress_count plan ≤ 1

-- If a merge of new tasks, in which no id occurs twice, into any tasks gives a plan, each id has in it
-- its new task or else its first old one and no other id has one, no id occurs twice, and at most one
-- task is in progress.
pub merge_tasks-IsMerged :
    (existing new_tasks plan : List Task)
    → IsUnique new_tasks
    → merge_tasks existing new_tasks true ≡ some plan
    → IsMerged existing new_tasks plan
unfolding merge_tasks
merge_tasks-IsMerged existing new_tasks plan u h =
    let merged = append_remaining (merge_new (by_id existing []) new_tasks) existing in
    let (same, few) = validated-count merged plan h in
    let e : plan ≡ append_remaining new_tasks existing =
      same
      ∙ ap (λ ts. append_remaining ts existing) (merge_new_lem (by_id existing []) new_tasks) in
    record {
      found = λ id. ap (find id) e ∙ find-append_remaining id new_tasks existing;
      unique = subst IsUnique (sym e) (append_remaining-IsUnique new_tasks existing u);
      count = few;
    }
