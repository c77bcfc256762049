-- ===== src/Select/Valid.antt =====
-- The selection is an item of the list, the window shows it, and there is one where there has to be.
use codeng.Prelude.{
  ℕ, suc, ◌+◌, ◌-◌, ◌≤◌, ◌<◌, ◌≡◌, refl, arith, min, Bool, true, false, Option, none, some, List,
  [], ◌∷◌, if◌then◌else◌, length, is_empty, Bool-cases, inl, inr, Option-cases,
}
use codeng.Prelude.Texts.{text_eq}
use codeng.Workflow.Data.{Text}
use codeng.Select.State.{
  SelectItem, SelectList, sync_view_offset, offset_for, max_visible_items, index_of, kept_index,
  index_in, set_items,
}

-- an index of a list of `size` items; `none` only if that is allowed or there are no items
abbrev pub IsIndex : Bool → ℕ → Option ℕ → Type 0
IsIndex allow size none = (allow ≡ false) → size ≡ 0
IsIndex allow size (some i) = i < size

-- the window that starts at `offset` shows the index
abbrev pub IsShown : ℕ → Option ℕ → Type 0
IsShown offset none = Unit
IsShown offset (some i) = (offset ≤ i) × (i < offset + max_visible_items)

pub record IsValid (l : SelectList) : Type 0 where
  pub index : IsIndex l.allow_no_selection (length l.items) l.selected_index
  pub shown : IsShown l.view_offset l.selected_index
  pub full : l.view_offset ≤ length l.items - max_visible_items

offset_for-IsShown : (s : Option ℕ) (offset : ℕ) → IsShown (offset_for s offset) s
offset_for-IsShown none offset = tt
offset_for-IsShown (some i) offset = (ground arith, ground arith)

offset_for-le :
    (allow : Bool) (size : ℕ) (s : Option ℕ) (offset : ℕ)
    → IsIndex allow size s
    → offset ≤ size - max_visible_items
    → offset_for s offset ≤ size - max_visible_items
offset_for-le allow size none offset h le = le
offset_for-le allow size (some i) offset h le = ground arith

sync-full :
    (items : List SelectItem) (allow : Bool) (s : Option ℕ) (offset : ℕ)
    → IsIndex allow (length items) s
    → (if is_empty items then 0 else offset_for s (min offset (length items - max_visible_items)))
      ≤ length items - max_visible_items
sync-full [] allow s offset h = omega arith
sync-full (x ∷ xs) allow s offset h = offset_for-le allow (suc (length xs)) s _ h (omega arith)

sync-IsShown :
    (items : List SelectItem) (allow : Bool) (s : Option ℕ) (offset : ℕ)
    → IsIndex allow (length items) s
    → IsShown
        (if is_empty items then 0 else offset_for s (min offset (length items - max_visible_items)))
        s
sync-IsShown [] allow none offset h = tt
sync-IsShown [] allow (some i) offset h = absurd (omega (arith, h))
sync-IsShown (x ∷ xs) allow s offset h = offset_for-IsShown s _

pub sync_view_offset-IsValid :
    (l : SelectList)
    → IsIndex l.allow_no_selection (length l.items) l.selected_index
    → IsValid (sync_view_offset l)
unfolding sync_view_offset
sync_view_offset-IsValid l h = record {
  index = h;
  shown = sync-IsShown l.items l.allow_no_selection l.selected_index l.view_offset h;
  full = sync-full l.items l.allow_no_selection l.selected_index l.view_offset h;
}

pub index_of-lt :
    (k : Text) (items : List SelectItem) (i : ℕ) → index_of k items ≡ some i → i < length items
unfolding index_of
index_of-lt k [] i h = absurd (ground arith)
index_of-lt k (x ∷ xs) i h = elim (Bool-cases (text_eq x.id k)) [
  | inl same ↦ ground arith
  | inr differs ↦ elim (Option-cases (index_of k xs)) [
    | inl missing ↦ absurd (ground arith)
    | inr (j, there) ↦ ground (arith, index_of-lt k xs j there)
  ]
]

kept_index-lt :
    (o : Option SelectItem) (x : SelectItem) (xs : List SelectItem)
    → kept_index o (x ∷ xs) < suc (length xs)
kept_index-lt none x xs = omega arith
kept_index-lt (some y) x xs = elim (Option-cases (index_of y.id (x ∷ xs))) [
  | inl missing ↦ rw (missing, kept_index) (omega arith)
  | inr (i, there) ↦ rw (there, kept_index) (index_of-lt y.id (x ∷ xs) i there)
]

pub none_or_first : (allow : Bool) (n : ℕ) → IsIndex allow (suc n) (if allow then none else some 0)
none_or_first true n = λ h. absurd (cc h)
none_or_first false n = omega arith

index_in-IsIndex :
    (l : SelectList) (items : List SelectItem)
    → IsIndex l.allow_no_selection (length items) (index_in l items)
index_in-IsIndex l [] = λ _. refl
index_in-IsIndex l (x ∷ xs) = elim (Option-cases l.selected_index) [
  | inl missing ↦ rw (missing, index_in) (none_or_first l.allow_no_selection (length xs))
  | inr (i, there) ↦ rw (there, index_in) (kept_index-lt _ x xs)
]

pub set_items-IsValid : (items : List SelectItem) (l : SelectList) → IsValid (set_items items l)
unfolding set_items
set_items-IsValid items l = sync_view_offset-IsValid _ (index_in-IsIndex l items)
