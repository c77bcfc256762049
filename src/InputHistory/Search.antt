-- ===== src/InputHistory/Search.antt =====
-- What a search finds.
use codeng.Prelude.{
  subst, sym, get_or, ℕ, zero, suc, ◌≤◌, ◌<◌, ◌≡◌, refl, arith, true, false, none, some, List, [],
  ◌==◌, length, get_elem?, get_elem?_of_lt, is_empty, Bool-cases, inl, inr, Option, ◌⊎◌, ◌≢◌,
}
use codeng.Prelude.Strings.{contains}
use codeng.Prelude.Texts.{text_eq_iff}
use codeng.Workflow.Data.{Text}
use codeng.InputHistory.State.{
  InputHistory, Answer, search_below, search_start, search_backward, start_from, same_query,
}
use codeng.InputHistory.Valid.{IsBelow, search_start-le}

-- no entry from an index on and below another has the query
abbrev None : Text → List Text → ℕ → ℕ → Type 0
None query entries from below =
    (k : ℕ) → from ≤ k → k < below → contains query (get_or entries k []) ≡ false

-- the newest entry below an index that has the query, and its index as the place of the search
abbrev Found : Text → InputHistory → ℕ → Text → InputHistory → Type 0
Found query h below entry h' =
    (i : ℕ) × (i < below)
    × (get_elem? h.entries i ≡ some entry)
    × (contains query entry ≡ true)
    × None query h.entries (suc i) below
    × (h' ≡ record h { search_query = some query; search_index = some i })

-- or none has it, and nothing changed
abbrev pub Searched : Text → InputHistory → ℕ → Answer → Type 0
Searched query h below none = ⊥
Searched query h below (some (none, h')) = None query h.entries 0 below × (h' ≡ h)
Searched query h below (some (some entry, h')) = Found query h below entry h'

search_start-again :
    (query : Text) (h : InputHistory) (i : ℕ)
    → h.search_index ≡ some i
    → h.search_query ≡ some query
    → search_start query h ≡ i
unfolding search_start
search_start-again query h i stands same = ground (arith, text_eq_iff query query)

search_start-fresh :
    (query : Text) (h : InputHistory)
    → (h.search_index ≡ none) ⊎ (h.search_query ≢ some query)
    → search_start query h ≡ length h.entries
unfolding search_start
search_start-fresh query h fresh = go h.search_index h.search_query fresh
  where
    go :
        (o : Option ℕ) (q : Option Text)
        → (o ≡ none) ⊎ (q ≢ some query)
        → start_from o (same_query q query) (length h.entries) ≡ length h.entries
    go none q fresh = refl
    go (some i) none fresh = refl
    go (some i) (some q) fresh = ground (arith, text_eq_iff q query)

None-suc :
    (query : Text) (entries : List Text) (from n : ℕ)
    → contains query (get_or entries n []) ≡ false
    → None query entries from n
    → None query entries from (suc n)
None-suc query entries from n other rest k le lt = elim (Bool-cases (k == n)) [
  | inl last ↦
      let at : k ≡ n = ground arith in
      subst (λ m. contains query (get_or entries m []) ≡ false) (sym at) other
  | inr before ↦ rest k le (ground arith)
]

Searched-more :
    (query : Text) (h : InputHistory) (n : ℕ) (a : Answer)
    → contains query (get_or h.entries n []) ≡ false
    → Searched query h n a
    → Searched query h (suc n) a
Searched-more query h n none other s = s
Searched-more query h n (some (none, h')) other (rest, same) =
    (None-suc query h.entries 0 n other rest, same)
Searched-more query h n (some (some e, h')) other (i, lt, at, has, rest, same) =
    (i, omega (arith, lt), at, has, None-suc query h.entries (suc i) n other rest, same)

search_below-Searched :
    (query : Text) (n : ℕ) (h : InputHistory)
    → n ≤ length h.entries
    → Searched query h n (search_below query n h)
unfolding search_below
search_below-Searched query zero h le = (λ k from lt. absurd (omega arith), refl)
search_below-Searched query (suc n) h le =
    let at : get_elem? h.entries n ≡ some (get_or h.entries n []) =
      get_elem?_of_lt h.entries n [] (omega arith) in
    elim (Bool-cases (contains query (get_or h.entries n []))) [
      | inl found ↦
          rw (at, found, search_below)
            (n, omega arith, at, found, λ k from lt. absurd (omega (arith, from, lt)), refl)
      | inr other ↦
          rw (at, other, search_below)
            (Searched-more query h n (search_below query n h) other
              (search_below-Searched query n h (omega arith)))
    ]

-- In a history with entries, where the search stands at one of them or nowhere, a search for a query
-- that is not empty answers the newest entry that has it: among those before the entry at which a
-- search for the same query stands, and among all entries if none stands anywhere or its query was
-- another one. If there is none, it answers nothing and changes nothing.
pub search_backward-Searched :
    (query : Text) (h : InputHistory)
    → IsBelow (length h.entries) h.search_index
    → is_empty query ≡ false
    → is_empty h.entries ≡ false
    → ((i : ℕ)
        → h.search_index ≡ some i
        → h.search_query ≡ some query
        → Searched query h i (search_backward query h))
      × ((h.search_index ≡ none) ⊎ (h.search_query ≢ some query)
          → Searched query h (length h.entries) (search_backward query h))
unfolding search_backward
search_backward-Searched query h at asked sent =
    let below : Searched query h (search_start query h) (search_backward query h) =
      rw (asked, sent, search_backward)
        (search_below-Searched query (search_start query h) h (search_start-le query h at)) in
    (
      λ i stands same.
          subst (λ n. Searched query h n (search_backward query h))
            (search_start-again query h i stands same) below,
      λ fresh.
          subst (λ n. Searched query h n (search_backward query h))
            (search_start-fresh query h fresh) below,
    )
