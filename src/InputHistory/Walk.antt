-- ===== src/InputHistory/Walk.antt =====
-- The way back through the entries and forward again.
use codeng.Prelude.{
  ap, ◌∙◌, sym, get_or, ℕ, zero, suc, ◌+◌, ◌-◌, ◌<◌, ◌≡◌, refl, arith, true, false, Option, none,
  some, List, [], ◌∷◌, leb, length, get_elem?_of_lt, is_empty,
}
use codeng.Prelude.Dict
use codeng.Workflow.Data.{Text}
use codeng.InputHistory.State.{
  edit_or, or_blank, InputHistory, rstrip_newlines, Answer, show_at, previous_from, next_from,
  navigate_previous, navigate_next,
}

abbrev pub and_then : Answer → (InputHistory → Answer) → Answer
and_then none f = none
and_then (some (text, h)) f = f h

-- the last answer of some calls
abbrev pub previous_times : ℕ → Text → InputHistory → Answer
previous_times zero current h = some (none, h)
previous_times (suc n) current h = and_then (previous_times n current h) (navigate_previous current)

abbrev pub next_times : ℕ → InputHistory → Answer
next_times zero h = some (none, h)
next_times (suc n) h = and_then (next_times n h) navigate_next

abbrev at : ℕ → InputHistory → InputHistory
at i h = record h { index = some i }

abbrev shown : ℕ → InputHistory → Text
shown i h = edit_or (Dict.get i h.edits) (get_or h.entries i [])

show_at-lt :
    (i : ℕ) (h : InputHistory)
    → i < length h.entries
    → show_at i h ≡ some (some (shown i h), at i h)
unfolding show_at
show_at-lt i h lt = rw (get_elem?_of_lt h.entries i [] lt, show_at) refl

not_empty : (xs : List Text) → 0 < length xs → is_empty xs ≡ false
not_empty [] h = absurd (omega arith)
not_empty (x ∷ xs) h = refl

previous-at :
    (j : ℕ) (current : Text) (h : InputHistory)
    → suc j < length h.entries
    → navigate_previous current (at (suc j) h) ≡ some (some (shown j h), at j h)
unfolding navigate_previous previous_from
previous-at j current h lt =
    rw (not_empty h.entries (omega (arith, lt)), navigate_previous)
      (show_at-lt j (at (suc j) h) (omega (arith, lt)))

next-at :
    (j : ℕ) (h : InputHistory)
    → j + 1 < length h.entries
    → navigate_next (at j h) ≡ some (some (shown (j + 1) h), at (j + 1) h)
unfolding navigate_next next_from
next-at j h lt =
    let more : leb (length h.entries - 1) j ≡ false = ground arith in
    rw (more, next_from) (show_at-lt (j + 1) (at j h) lt)

next-last :
    (j : ℕ) (h : InputHistory)
    → j + 1 ≡ length h.entries
    → navigate_next (at j h) ≡ some (some (or_blank h.current_buffer), record h { index = none })
unfolding navigate_next next_from
next-last j h last =
    let done : leb (length h.entries - 1) j ≡ true = ground arith in rw (done, next_from) refl

abbrev pub buffered : Text → InputHistory → InputHistory
buffered current h = record h { current_buffer = some (rstrip_newlines current) }

previous_times_lem :
    (n j : ℕ) (current : Text) (h : InputHistory)
    → h.index ≡ none
    → j + suc n ≡ length h.entries
    → previous_times (suc n) current h ≡ some (some (shown j h), at j (buffered current h))
unfolding navigate_previous previous_from
previous_times_lem zero j current h out count =
    let b = buffered current h in
    let last : length h.entries - 1 ≡ j = omega (arith, count) in
    rw (not_empty h.entries (omega (arith, count)), navigate_previous)
      (ap (λ o. previous_from o current h) out
        ∙ ap (λ i. show_at i b) last
        ∙ show_at-lt j b (omega (arith, count)))
previous_times_lem (suc n) j current h out count =
    rw (previous_times_lem n (suc j) current h out (omega (arith, count)))
      (previous-at j current (buffered current h) (omega (arith, count)))

next_times_lem :
    (n j : ℕ) (h : InputHistory)
    → j + n < length h.entries
    → (text : Option Text) × (next_times n (at j h) ≡ some (text, at (j + n) h))
next_times_lem zero j h lt = (none, ap (λ i. some (none, at i h)) (omega arith))
next_times_lem (suc n) j h lt =
    let (text, e) = next_times_lem n j h (omega (arith, lt)) in
    let one : (j + n) + 1 ≡ j + suc n = omega arith in
    (
      some (shown (j + suc n) h),
      ap (λ a. and_then a navigate_next) e
          ∙ next-at (j + n) h (omega (arith, lt))
          ∙ ap (λ i. some (some (shown i h), at i h)) one,
    )

-- From the buffer, as many calls of navigate_next as there were calls of navigate_previous, at most
-- one for each entry, come back to the buffer and answer the text that was in it, less the newlines at its end.
pub next_times-previous_times :
    (n : ℕ) (current : Text) (h : InputHistory)
    → h.index ≡ none
    → n < length h.entries
    → and_then (previous_times (suc n) current h) (next_times (suc n))
      ≡ some (some (rstrip_newlines current), buffered current h)
next_times-previous_times n current h out lt =
    let j = length h.entries - suc n in
    let b = buffered current h in
    let (text, e) = next_times_lem n j b (omega (arith, lt)) in
    ap (λ a. and_then a (next_times (suc n)))
      (previous_times_lem n j current h out (omega (arith, lt)))
    ∙ ap (λ a. and_then a navigate_next) e
    ∙ next-last (j + n) b (omega (arith, lt))
    ∙ ap (λ o. some (some (rstrip_newlines current), record b { index = o })) (sym out)
