-- ===== src/Patch/Emit.antt =====
-- How the edits of a chunk move through the loop that builds its replacement.
use codeng.Prelude.{
  ==_refl, ℕ, suc, ◌+◌, ◌≤◌, true, Option, none, some, List, [], ◌∷◌, ◌++◌, ◌≡◌, refl, arith, ap,
  ◌∙◌, sym, if◌then◌else◌,
}
use mathlib.Core.List.{append_assoc}
use codeng.Workflow.Data.{Text}
use codeng.Patch.Data.{NeedleItem, anchor, context, deletion}
use codeng.Patch.Reverse.{needle}
use codeng.Patch.Chunk.{
  replace_from, Progress, Emitted, after, emit_insertions, emit_deletions, emit_tail, all_done,
  pass_group, emit_group, fresh_progress,
}

-- a proof for each type of an item
pub item_cases :
    (P : NeedleItem → Type 0)
    → ((t : Text) → P (needle anchor t))
    → ((t : Text) → P (needle context t))
    → ((t : Text) → P (needle deletion t))
    → (x : NeedleItem) → P x
item_cases P a c d x = elim x.type as (λ ty. P (needle ty x.text)) [
  | anchor ↦ a x.text
  | context ↦ c x.text
  | deletion ↦ d x.text
]

-- the replacement, where every edit is done
abbrev pub result : Option Emitted → Option (List Text)
result none = none
result (some (lines, ps)) = if all_done ps then some lines else none

abbrev pub prefix : List Text → Option (List Text) → Option (List Text)
prefix lines none = none
prefix lines (some more) = some (lines ++ more)

pub result-after : (l : List Text) (o : Option Emitted) → result (after l o) ≡ prefix l (result o)
result-after l none = refl
result-after l (some (m, ps)) = ground arith

pub prefix-append :
    (l m : List Text) (o : Option (List Text)) → prefix (l ++ m) o ≡ prefix l (prefix m o)
prefix-append l m none = refl
prefix-append l m (some n) = ap some (append_assoc l m n)

-- an edit that the loop is through with at an index
pub record IsPast (j : ℕ) (p : Progress) : Type 0 where
  pub over : p.edit.start_pat_index + p.edit.del_count ≤ j
  pub met : p.consumed ≡ p.edit.del_count
  pub inserted : p.inserted ≡ true

IsPast-suc : (j : ℕ) (p : Progress) → IsPast j p → IsPast (suc j) p
IsPast-suc j p h = record { over = omega (arith, h.over); met = h.met; inserted = h.inserted }

emit_insertions-past :
    (j : ℕ) (p : Progress) (ps : List Progress)
    → IsPast j p
    → emit_insertions j (p ∷ ps) ≡ pass_group p (emit_insertions j ps)
unfolding emit_insertions
emit_insertions-past j p ps h = ground (arith, h.over, h.met, h.inserted)

emit_deletions-past :
    (j : ℕ) (p : Progress) (ps : List Progress)
    → IsPast j p
    → emit_deletions j (p ∷ ps) ≡ pass_group p (emit_deletions j ps)
unfolding emit_deletions
emit_deletions-past j p ps h = ground (arith, h.over, h.met, h.inserted)

emit_tail-past :
    (j : ℕ) (p : Progress) (ps : List Progress)
    → IsPast j p
    → emit_tail j (p ∷ ps) ≡ pass_group p (emit_tail j ps)
unfolding emit_tail
emit_tail-past j p ps h = ground (arith, h.over, h.met, h.inserted)

result-past-tail :
    (j : ℕ) (p : Progress) (ps : List Progress)
    → IsPast j p
    → result (some (emit_tail j (p ∷ ps))) ≡ result (some (emit_tail j ps))
unfolding all_done
result-past-tail j p ps h = rw (emit_tail-past j p ps h) (ground (arith, h.met, h.inserted))

-- an edit that the loop is through with changes nothing
abbrev Ignores : List NeedleItem → Type 0
Ignores xs =
    (j : ℕ) (lines : List Text) (p : Progress) (ps : List Progress)
    → IsPast j p
    → result (replace_from j xs lines (p ∷ ps)) ≡ result (replace_from j xs lines ps)

step-past :
    (l : List Text) (o o' : Option Emitted)
    → result o ≡ result o'
    → result (after l o) ≡ result (after l o')
step-past l o o' h = result-after l o ∙ ap (prefix l) h ∙ sym (result-after l o')

replace_from-past_one : (xs : List NeedleItem) → Ignores xs → (x : NeedleItem) → Ignores (x ∷ xs)
unfolding replace_from
replace_from-past_one xs ih =
    item_cases (λ x. Ignores (x ∷ xs))
      (λ t j lines p ps h.
        let r = emit_insertions j ps in
        rw (emit_insertions-past j p ps h, replace_from)
          (step-past r.0 _ _ (ih (suc j) lines p r.1 (IsPast-suc j p h))))
      (λ t j lines p ps h.
        elim lines
          as (λ ls.
            result (replace_from j (needle context t ∷ xs) ls (p ∷ ps))
            ≡ result (replace_from j (needle context t ∷ xs) ls ps)) [
              | [] ↦ refl
              | l ∷ ls ↦
                  let r = emit_insertions j ps in
                  rw (emit_insertions-past j p ps h, replace_from)
                    (step-past (r.0 ++ l ∷ []) _ _ (ih (suc j) ls p r.1 (IsPast-suc j p h)))
            ])
      (λ t j lines p ps h.
        elim lines
          as (λ ls.
            result (replace_from j (needle deletion t ∷ xs) ls (p ∷ ps))
            ≡ result (replace_from j (needle deletion t ∷ xs) ls ps)) [
              | [] ↦ refl
              | l ∷ ls ↦
                  let r = emit_insertions j ps in
                  let d = emit_deletions j r.1 in
                  rw (emit_insertions-past j p ps h, emit_deletions-past j p r.1 h, replace_from)
                    (step-past (r.0 ++ d.0) _ _ (ih (suc j) ls p d.1 (IsPast-suc j p h)))
            ])

pub replace_from-past : (xs : List NeedleItem) → Ignores xs
unfolding replace_from
replace_from-past [] = λ j lines p ps h. result-past-tail j p ps h
replace_from-past (x ∷ xs) = replace_from-past_one xs (replace_from-past xs) x

-- additions at an index
abbrev pub insertion : ℕ → List Text → Progress
insertion j added =
    fresh_progress (record { start_pat_index = j; del_count = 0; additions = added })

abbrev emitted : ℕ → List Text → Progress
emitted j added = record (insertion j added) { inserted = true }

emitted-IsPast : (j k : ℕ) (added : List Text) → j ≤ k → IsPast k (emitted j added)
emitted-IsPast j k added h = record { over = omega (arith, h); met = refl; inserted = refl }

emit_insertions-insertion :
    (j : ℕ) (added : List Text) (ps : List Progress)
    → emit_insertions j (insertion j added ∷ ps)
      ≡ emit_group (insertion j added) (emit_insertions j ps)
unfolding emit_insertions
emit_insertions-insertion j added ps = ground (arith, ==_refl j)

emit_tail-insertion :
    (j : ℕ) (added : List Text) (ps : List Progress)
    → emit_tail j (insertion j added ∷ ps) ≡ emit_group (insertion j added) (emit_tail j ps)
unfolding emit_tail
emit_tail-insertion j added ps = ground (arith, ==_refl j)

step-insertion :
    (added k l : List Text) (o o' : Option Emitted)
    → k ≡ added ++ l
    → result o ≡ result o'
    → result (after k o) ≡ prefix added (result (after l o'))
step-insertion added k l o o' e h =
    result-after k o
    ∙ ap (λ m. prefix m (result o)) e
    ∙ prefix-append added l (result o)
    ∙ ap (λ m. prefix added (prefix l m)) h
    ∙ ap (prefix added) (sym (result-after l o'))

result-insertion-tail :
    (j : ℕ) (added : List Text) (ps : List Progress)
    → result (some (emit_tail j (insertion j added ∷ ps)))
      ≡ prefix added (result (some (emit_tail j ps)))
unfolding all_done
result-insertion-tail j added ps = rw (emit_tail-insertion j added ps) (ground arith)

abbrev Emits : List NeedleItem → Type 0
Emits xs =
    (j : ℕ) (lines added : List Text) (ps : List Progress)
    → result (replace_from j xs lines (insertion j added ∷ ps))
      ≡ prefix added (result (replace_from j xs lines ps))

replace_from-insertion_one : (xs : List NeedleItem) (x : NeedleItem) → Emits (x ∷ xs)
unfolding replace_from
replace_from-insertion_one xs =
    item_cases (λ x. Emits (x ∷ xs))
      (λ t j lines added ps.
        let r = emit_insertions j ps in
        rw (emit_insertions-insertion j added ps, replace_from)
          (step-insertion added (added ++ r.0) r.0 _ _ refl (
            replace_from-past xs (suc j) lines (emitted j added) r.1
              (emitted-IsPast j (suc j) added (omega arith)))))
      (λ t j lines added ps.
        elim lines
          as (λ ls.
            result (replace_from j (needle context t ∷ xs) ls (insertion j added ∷ ps))
            ≡ prefix added (result (replace_from j (needle context t ∷ xs) ls ps))) [
              | [] ↦ refl
              | l ∷ ls ↦
                  let r = emit_insertions j ps in
                  rw (emit_insertions-insertion j added ps, replace_from)
                    (step-insertion added ((added ++ r.0) ++ l ∷ []) (r.0 ++ l ∷ []) _ _
                      (append_assoc added r.0 (l ∷ []))
                      (replace_from-past xs (suc j) ls (emitted j added) r.1
                        (emitted-IsPast j (suc j) added (omega arith))))
            ])
      (λ t j lines added ps.
        elim lines
          as (λ ls.
            result (replace_from j (needle deletion t ∷ xs) ls (insertion j added ∷ ps))
            ≡ prefix added (result (replace_from j (needle deletion t ∷ xs) ls ps))) [
              | [] ↦ refl
              | l ∷ ls ↦
                  let r = emit_insertions j ps in
                  let d = emit_deletions j r.1 in
                  rw
                    (
                      emit_insertions-insertion j added ps,
                      emit_deletions-past j (emitted j added) r.1
                          (emitted-IsPast j j added (omega arith)),
                      replace_from,
                    )
                    (step-insertion added ((added ++ r.0) ++ d.0) (r.0 ++ d.0) _ _
                      (append_assoc added r.0 d.0)
                      (replace_from-past xs (suc j) ls (emitted j added) d.1
                        (emitted-IsPast j (suc j) added (omega arith))))
            ])

pub replace_from-insertion : (xs : List NeedleItem) → Emits xs
unfolding replace_from
replace_from-insertion [] = λ j lines added ps. result-insertion-tail j added ps
replace_from-insertion (x ∷ xs) = replace_from-insertion_one xs x
