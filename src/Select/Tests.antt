-- ===== src/Select/Tests.antt =====
-- The list on concrete keys.
use codeng.Prelude.{ℕ, true, false, none, some, List, [], ◌∷◌}
use codeng.Prelude.Int.{pos}
use codeng.Select.State.{SelectItem, init, up, down}
use codeng.Select.Valid.{IsValid}
use codeng.Select.Run.{Operation, add, remove, select, key, run_each, run_each-IsValid}

abbrev item : ℕ → SelectItem
item k = record { id = k ∷ []; text = []; value = none }

abbrev session : List Operation
session =
    add (item 7)
    ∷ select (some (pos 9))
    ∷ key true up
    ∷ remove (3 ∷ [])
    ∷ key true down
    ∷ remove (1 ∷ [])
    ∷ []

run_each-IsValid_example : IsValid (
    run_each session (init (some (item 1 ∷ item 2 ∷ item 3 ∷ item 4 ∷ item 5 ∷ item 6 ∷ [])) false))
run_each-IsValid_example =
    run_each-IsValid (some (item 1 ∷ item 2 ∷ item 3 ∷ item 4 ∷ item 5 ∷ item 6 ∷ [])) false session
