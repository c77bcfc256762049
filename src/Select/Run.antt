-- ===== src/Select/Run.antt =====
-- Every operation of `SelectListComponent` as a value, and what holds of all of them.
use codeng.Prelude.{
  ℕ, suc, ◌+◌, ◌-◌, ◌≤◌, ◌<◌, ◌≡◌, refl, arith, Bool, true, false, Option, none, some, List, [],
  ◌∷◌, ◌++◌, ◌==◌, leb, if◌then◌else◌, not, ◌&&◌, length, length-append, delete_at, is_empty,
  Bool-cases, zero, length-delete_at, subst, inl, inr, Option-cases,
}
use codeng.Prelude.Int.{ℤ, pos, negsuc, clamp}
use codeng.Workflow.Data.{Text}
use codeng.Select.State.{
  SelectItem, SelectList, sync_view_offset, index_of, set_items, init, no_items, emptied, add_item,
  index_after, remove_index, remove_item_by_id, clear_items, set_selected_index, choose,
  is_selected, index_up, index_down, at_last, move_selection_up, move_selection_down, Key, up, down,
  enter, escape, other, on_key_event, select_current, cancel,
}
use codeng.Select.Valid.{IsIndex, IsValid, sync_view_offset-IsValid, set_items-IsValid, index_of-lt}

init-IsValid : (items : Option (List SelectItem)) (allow : Bool) → IsValid (init items allow)
unfolding init
init-IsValid none allow = record { index = λ _. refl; shown = tt; full = omega arith }
init-IsValid (some items) allow = set_items-IsValid items (no_items allow)

-- an index stays one in a longer list, except for none where there have to be one
longer :
    (allow : Bool) (n m : ℕ) (s : Option ℕ)
    → n ≤ m
    → (n ≡ 0 → m ≡ 0)
    → IsIndex allow n s
    → IsIndex allow m s
longer allow n m none le same h = λ p. same (h p)
longer allow n m (some i) le same h = omega (arith, h, le)

if-IsIndex :
    (b : Bool) (l l' : SelectList)
    → (b ≡ true → IsIndex l.allow_no_selection (length l.items) l.selected_index)
    → (b ≡ false → IsIndex l'.allow_no_selection (length l'.items) l'.selected_index)
    → IsValid (sync_view_offset (if b then l else l'))
if-IsIndex true l l' h h' = sync_view_offset-IsValid l (h refl)
if-IsIndex false l l' h h' = sync_view_offset-IsValid l' (h' refl)

if-IsValid :
    (b : Bool) (l l' : SelectList)
    → (b ≡ true → IsValid l)
    → (b ≡ false → IsValid l')
    → IsValid (if b then l else l')
if-IsValid true l l' h h' = h refl
if-IsValid false l l' h h' = h' refl

add_item-IsValid : (x : SelectItem) (l : SelectList) → IsValid l → IsValid (add_item x l)
unfolding add_item
add_item-IsValid x l v =
    let items = l.items ++ x ∷ [] in
    let size : length (l.items ++ x ∷ []) ≡ suc (length l.items) =
      omega (arith, length-append l.items (x ∷ [])) in
    if-IsIndex (length items == 1)
      (record l { items = items; selected_index = some 0; view_offset = 0 })
      (record l { items = items }) (λ _. omega (arith, size))
      (λ more.
        longer l.allow_no_selection (length l.items) (length items) l.selected_index
          (omega (arith, size)) (λ zero_size. absurd (ground (arith, size))) v.index)

index_after-IsIndex :
    (allow : Bool) (index size : ℕ) (s : Option ℕ)
    → IsIndex allow (suc size) s
    → 0 < size
    → IsIndex allow size (index_after index size s)
index_after-IsIndex allow index size none h more = λ p. absurd (omega (arith, h p))
index_after-IsIndex allow index size (some i) h more = ground arith

clear_items-IsValid : (l : SelectList) → IsValid l → IsValid (clear_items l)
unfolding clear_items
clear_items-IsValid l v =
    if-IsValid (is_empty l.items) l (emptied l) (λ _. v)
      (λ _. record { index = λ _. refl; shown = tt; full = omega arith })

choose-IsValid :
    (s : Option ℕ) (l : SelectList)
    → IsIndex l.allow_no_selection (length l.items) s
    → IsValid (choose s l)
choose-IsValid s l h = sync_view_offset-IsValid _ h

index_up-IsIndex :
    (allow : Bool) (size : ℕ) (s : Option ℕ)
    → 0 < size
    → IsIndex allow size s
    → IsIndex allow size (index_up allow size s)
index_up-IsIndex true size none more h = omega arith
index_up-IsIndex false size none more h = omega arith
index_up-IsIndex true size (some zero) more h = λ p. absurd (cc p)
index_up-IsIndex false size (some zero) more h = omega arith
index_up-IsIndex true size (some (suc i)) more h = ground arith
index_up-IsIndex false size (some (suc i)) more h = ground arith

index_down-IsIndex :
    (allow : Bool) (size : ℕ) (s : Option ℕ)
    → 0 < size
    → (not allow && at_last s size) ≡ false
    → IsIndex allow size s
    → IsIndex allow size (index_down size s)
index_down-IsIndex allow size none more free h = omega arith
index_down-IsIndex allow size (some i) more free h = elim (Bool-cases (leb (size - 1) i)) [
  | inl last ↦ rw (last, index_down) (λ p. absurd (ground arith))
  | inr earlier ↦ rw (earlier, index_down) (ground arith)
]

is_empty-length : (items : List SelectItem) → is_empty items ≡ true → length items ≡ 0
is_empty-length [] h = refl
is_empty-length (x ∷ xs) h = absurd (cc h)

is_empty-size : (items : List SelectItem) → is_empty items ≡ false → 0 < length items
is_empty-size [] h = absurd (cc h)
is_empty-size (x ∷ xs) h = omega arith

move_selection_up-IsValid : (l : SelectList) → IsValid l → IsValid (move_selection_up l)
unfolding move_selection_up
move_selection_up-IsValid l v =
    let s = index_up l.allow_no_selection (length l.items) l.selected_index in
    let stays = not l.allow_no_selection && is_selected l.selected_index 0 in
    if-IsValid (is_empty l.items) l (if stays then l else choose s l) (λ _. v)
      (λ some_item.
        if-IsValid stays l (choose s l) (λ _. v)
          (λ _. choose-IsValid s l (
            index_up-IsIndex l.allow_no_selection (length l.items) l.selected_index
              (is_empty-size l.items some_item) v.index)))

move_selection_down-IsValid : (l : SelectList) → IsValid l → IsValid (move_selection_down l)
unfolding move_selection_down
move_selection_down-IsValid l v =
    let s = index_down (length l.items) l.selected_index in
    let stays = not l.allow_no_selection && at_last l.selected_index (length l.items) in
    if-IsValid (is_empty l.items) l (if stays then l else choose s l) (λ _. v)
      (λ some_item.
        if-IsValid stays l (choose s l) (λ _. v)
          (λ free. choose-IsValid s l (
            index_down-IsIndex l.allow_no_selection (length l.items) l.selected_index
              (is_empty-size l.items some_item) free v.index)))

remove_index-IsValid :
    (i : ℕ) (l : SelectList) → i < length l.items → IsValid l → IsValid (remove_index i l)
remove_index-IsValid i l lt v =
    let items = delete_at l.items i in
    let size : length items + 1 ≡ length l.items = length-delete_at l.items i lt in
    if-IsIndex (is_empty items) (record l { items = items; selected_index = none; view_offset = 0 })
      (record l { items = items; selected_index = index_after i (length items) l.selected_index })
      (λ none_left _. is_empty-length items none_left)
      (λ some_left.
        index_after-IsIndex l.allow_no_selection i (length items) l.selected_index
          (subst (λ n. IsIndex l.allow_no_selection n l.selected_index) (omega (arith, size))
            v.index)
          (is_empty-size items some_left))

remove_item_by_id-IsValid :
    (k : Text) (l : SelectList) → IsValid l → IsValid (remove_item_by_id k l)
unfolding remove_item_by_id
remove_item_by_id-IsValid k l v = elim (Option-cases (index_of k l.items)) [
  | inl missing ↦ rw (missing, remove_item_by_id) v
  | inr (i, there) ↦
      rw (there, remove_item_by_id) (remove_index-IsValid i l (index_of-lt k l.items i there) v)
]

clamp-lt : (index : ℤ) (size : ℕ) → 0 < size → clamp index (size - 1) < size
clamp-lt (pos i) size h = ground arith
clamp-lt (negsuc i) size h = omega arith

set_selected_index-IsValid :
    (i : Option ℤ) (l : SelectList) → IsValid l → IsValid (set_selected_index i l)
unfolding set_selected_index
set_selected_index-IsValid none l v =
    let taken_back : SelectList = elim l.selected_index [ none ↦ l | some i ↦ choose none l ] in
    if-IsValid (is_empty l.items) l (if not l.allow_no_selection then l else taken_back) (λ _. v)
      (λ _.
        if-IsValid (not l.allow_no_selection) l taken_back (λ _. v)
          (λ allowed. elim (Option-cases l.selected_index) [
            | inl missing ↦ rw missing v
            | inr (i, there) ↦ rw there (choose-IsValid none l (λ refused. absurd (ground arith)))
          ]))
set_selected_index-IsValid (some index) l v =
    let i = clamp index (length l.items - 1) in
    let same = is_selected l.selected_index i in
    if-IsValid (is_empty l.items) l (if same then l else choose (some i) l) (λ _. v)
      (λ some_item.
        if-IsValid same l (choose (some i) l) (λ _. v)
          (λ _.
            choose-IsValid (some i) l
              (clamp-lt index (length l.items) (is_empty-size l.items some_item))))

pub data Operation : Type 0 where
  set : List SelectItem → Operation
  add : SelectItem → Operation
  remove : Text → Operation
  select : Option ℤ → Operation
  clear : Operation
  key : Bool → Key → Operation

unfoldable pub run : Operation → SelectList → SelectList
run (set items) l = set_items items l
run (add x) l = add_item x l
run (remove k) l = remove_item_by_id k l
run (select i) l = set_selected_index i l
run clear l = clear_items l
run (key pressed k) l = on_key_event pressed k l

unfoldable pub run_each : List Operation → SelectList → SelectList
unfolding run
run_each [] l = l
run_each (o ∷ os) l = run_each os (run o l)

on_key_event-IsValid :
    (pressed : Bool) (k : Key) (l : SelectList) → IsValid l → IsValid (on_key_event pressed k l)
unfolding on_key_event select_current cancel
on_key_event-IsValid false k l v = v
on_key_event-IsValid true up l v = move_selection_up-IsValid l v
on_key_event-IsValid true down l v = move_selection_down-IsValid l v
on_key_event-IsValid true enter l v = record { index = v.index; shown = v.shown; full = v.full }
on_key_event-IsValid true escape l v = record { index = v.index; shown = v.shown; full = v.full }
on_key_event-IsValid true other l v = v

run-IsValid : (o : Operation) (l : SelectList) → IsValid l → IsValid (run o l)
unfolding run
run-IsValid (set items) l v = set_items-IsValid items l
run-IsValid (add x) l v = add_item-IsValid x l v
run-IsValid (remove k) l v = remove_item_by_id-IsValid k l v
run-IsValid (select i) l v = set_selected_index-IsValid i l v
run-IsValid clear l v = clear_items-IsValid l v
run-IsValid (key pressed k) l v = on_key_event-IsValid pressed k l v

run_each-from : (os : List Operation) (l : SelectList) → IsValid l → IsValid (run_each os l)
unfolding run_each
run_each-from [] l v = v
run_each-from (o ∷ os) l v = run_each-from os (run o l) (run-IsValid o l v)

-- Whatever operations and keys follow one another on a new list, the selection is an item of the
-- list, it is there where no selection is not allowed and there are items, the window shows it, and
-- the window does not go past the last item.
pub run_each-IsValid :
    (items : Option (List SelectItem)) (allow : Bool) (os : List Operation)
    → IsValid (run_each os (init items allow))
run_each-IsValid items allow os = run_each-from os (init items allow) (init-IsValid items allow)
