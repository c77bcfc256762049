-- ===== src/Select/State.antt =====
-- `SelectListComponent`: its fields and its operations. The subscribers are the list of what they
-- were told.
use codeng.Prelude.{
  ℕ, suc, ◌+◌, ◌-◌, min, Bool, true, false, ◌&&◌, Option, none, some, List, [], ◌∷◌, ◌++◌, ◌==◌,
  ltb, leb, if◌then◌else◌, not, length, get_elem?, delete_at, is_empty,
}
use codeng.Prelude.Int.{ℤ, clamp}
use codeng.Prelude.Texts.{text_eq}
use codeng.Workflow.Data.{Text}

pub record SelectItem : Type 0 where
  pub id : Text
  pub text : Text
  pub value : Option Text

pub record SelectList : Type 0 where
  pub items : List SelectItem
  pub selected_index : Option ℕ
  pub view_offset : ℕ
  pub allow_no_selection : Bool
  pub told : List (Option SelectItem)

abbrev pub max_visible_items : ℕ
max_visible_items = 5

-- the offset that is closest to the old one and shows the item `i`
abbrev pub offset_for : Option ℕ → ℕ → ℕ
offset_for none offset = offset
offset_for (some i) offset =
    if ltb i offset
    then i
    else if leb (offset + max_visible_items) i
    then i - max_visible_items + 1
    else offset

unfoldable pub sync_view_offset : SelectList → SelectList
sync_view_offset l = record l {
  view_offset =
      if is_empty l.items
      then 0
      else offset_for l.selected_index (min l.view_offset (length l.items - max_visible_items));
}

abbrev pub choose : Option ℕ → SelectList → SelectList
choose i l = sync_view_offset (record l { selected_index = i })

-- the place of the first item with the id
unfoldable pub index_of : Text → List SelectItem → Option ℕ
index_of k [] = none
index_of k (x ∷ xs) = elim (text_eq x.id k) [
  | true ↦ some 0
  | false ↦ elim (index_of k xs) [ none ↦ none | some i ↦ some (suc i) ]
]

unfoldable pub selected_item : SelectList → Option SelectItem
selected_item l = elim l.selected_index [ none ↦ none | some i ↦ get_elem? l.items i ]

-- the item that was selected stays so if its id is there still; else the first item is
abbrev pub kept_index : Option SelectItem → List SelectItem → ℕ
kept_index none items = 0
kept_index (some x) items = elim (index_of x.id items) [ none ↦ 0 | some i ↦ i ]

abbrev pub index_in : SelectList → List SelectItem → Option ℕ
index_in l [] = none
index_in l (x ∷ xs) = elim l.selected_index [
  | none ↦ if l.allow_no_selection then none else some 0
  | some i ↦ some (kept_index (selected_item l) (x ∷ xs))
]

unfoldable pub set_items : List SelectItem → SelectList → SelectList
unfolding sync_view_offset selected_item index_of
set_items items l =
    sync_view_offset
      (record l { items = items; selected_index = index_in l items; view_offset = 0 })

abbrev pub no_items : Bool → SelectList
no_items allow_no_selection = record {
  items = [];
  selected_index = none;
  view_offset = 0;
  allow_no_selection = allow_no_selection;
  told = [];
}

unfoldable pub init : Option (List SelectItem) → Bool → SelectList
unfolding set_items
init items allow_no_selection = elim items [
  | none ↦ no_items allow_no_selection
  | some xs ↦ set_items xs (no_items allow_no_selection)
]

unfoldable pub add_item : SelectItem → SelectList → SelectList
unfolding sync_view_offset
add_item x l =
    let items = l.items ++ x ∷ [] in
    sync_view_offset (
      if length items == 1
      then record l { items = items; selected_index = some 0; view_offset = 0 }
      else record l { items = items })

-- where the selection goes when the item at `index` was taken out and `size` are left
abbrev pub index_after : ℕ → ℕ → Option ℕ → Option ℕ
index_after index size none = none
index_after index size (some current) =
    if leb size current
    then some (size - 1)
    else if ltb index current
    then some (current - 1)
    else some current

abbrev pub remove_index : ℕ → SelectList → SelectList
remove_index index l =
    let items = delete_at l.items index in
    sync_view_offset (
      if is_empty items
      then record l { items = items; selected_index = none; view_offset = 0 }
      else record l {
        items = items;
        selected_index = index_after index (length items) l.selected_index;
      })

unfoldable pub remove_item_by_id : Text → SelectList → SelectList
unfolding index_of sync_view_offset
remove_item_by_id k l = elim (index_of k l.items) [ none ↦ l | some i ↦ remove_index i l ]

abbrev pub emptied : SelectList → SelectList
emptied l = record l { items = []; selected_index = none; view_offset = 0 }

unfoldable pub clear_items : SelectList → SelectList
clear_items l = if is_empty l.items then l else emptied l

abbrev pub is_selected : Option ℕ → ℕ → Bool
is_selected none i = false
is_selected (some j) i = i == j

unfoldable pub set_selected_index : Option ℤ → SelectList → SelectList
unfolding sync_view_offset
set_selected_index none l =
    if is_empty l.items
    then l
    else if not l.allow_no_selection
    then l
    else elim l.selected_index [ none ↦ l | some i ↦ choose none l ]
set_selected_index (some index) l =
    let i = clamp index (length l.items - 1) in
    if is_empty l.items then l else if is_selected l.selected_index i then l else choose (some i) l

unfoldable pub select_current : SelectList → SelectList
unfolding selected_item
select_current l = record l { told = l.told ++ selected_item l ∷ [] }

unfoldable pub cancel : SelectList → SelectList
cancel l = record l { told = l.told ++ none ∷ [] }

abbrev pub index_up : Bool → ℕ → Option ℕ → Option ℕ
index_up allow size none = if allow then some (size - 1) else some 0
index_up allow size (some i) = if i == 0 then (if allow then none else some 0) else some (i - 1)

-- without `allow_no_selection` the first item stays selected, and nothing else changes
unfoldable pub move_selection_up : SelectList → SelectList
unfolding sync_view_offset
move_selection_up l =
    if is_empty l.items
    then l
    else if not l.allow_no_selection && is_selected l.selected_index 0
    then l
    else choose (index_up l.allow_no_selection (length l.items) l.selected_index) l

abbrev pub at_last : Option ℕ → ℕ → Bool
at_last none size = false
at_last (some i) size = leb (size - 1) i

abbrev pub index_down : ℕ → Option ℕ → Option ℕ
index_down size none = some 0
index_down size (some i) = if leb (size - 1) i then none else some (suc i)

unfoldable pub move_selection_down : SelectList → SelectList
unfolding sync_view_offset
move_selection_down l =
    if is_empty l.items
    then l
    else if not l.allow_no_selection && at_last l.selected_index (length l.items)
    then l
    else choose (index_down (length l.items) l.selected_index) l

pub data Key : Type 0 where
  up down enter escape other : Key

-- a key that was pressed; the release of a key does nothing
unfoldable pub on_key_event : Bool → Key → SelectList → SelectList
unfolding move_selection_up move_selection_down select_current cancel
on_key_event false key l = l
on_key_event true up l = move_selection_up l
on_key_event true down l = move_selection_down l
on_key_event true enter l = select_current l
on_key_event true escape l = cancel l
on_key_event true other l = l
