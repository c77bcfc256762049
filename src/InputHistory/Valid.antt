-- ===== src/InputHistory/Valid.antt =====
-- The states of the input history that are well formed, and the single calls on them.
use codeng.Prelude.{
  get_or, ℕ, zero, suc, ◌+◌, ◌-◌, ◌≤◌, ◌<◌, ◌≡◌, arith, Bool, true, false, ◌||◌, Option, none, some,
  List, [], ◌∷◌, ◌++◌, leb, length, get_elem?, get_elem?_of_lt, is_empty, Bool-cases, inl, inr,
}
use codeng.Prelude.Strings.{contains}
use codeng.Workflow.Data.{Text}
use codeng.InputHistory.State.{
  update_at, start_from, same_query, InputHistory, rstrip_newlines, trim_entries, reset_navigation,
  is_last, add, update_current, Answer, show_at, previous_from, next_from, navigate_previous,
  navigate_next, search_below, search_start, search_backward,
}
use codeng.InputHistory.Entries.{
  Within, IsFull, repeats, IsFull-append, IsFull-trimmed, repeats-append, repeats-trimmed,
  Within-trimmed,
}

abbrev pub IsBelow : ℕ → Option ℕ → Type 0
IsBelow n none = Unit
IsBelow n (some i) = i < n

-- the indices are those of entries, the entries are at most as many as the limit, none is empty, and
-- `most` at most repeat the one before
pub record IsValid (most : ℕ) (h : InputHistory) : Type 0 where
  pub index : IsBelow (length h.entries) h.index
  pub search : IsBelow (length h.entries) h.search_index
  pub limit : Within h.max_entries (length h.entries)
  pub full : IsFull h.entries
  pub apart : repeats h.entries ≤ most

some_entries : (xs : List Text) → is_empty xs ≡ false → 0 < length xs
some_entries [] h = ground arith
some_entries (x ∷ xs) h = omega arith

start_from-le :
    (o : Option ℕ) (same : Bool) (count : ℕ) → IsBelow count o → start_from o same count ≤ count
start_from-le none same count lt = omega arith
start_from-le (some i) true count lt = omega (arith, lt)
start_from-le (some i) false count lt = omega arith

pub search_start-le :
    (query : Text) (h : InputHistory)
    → IsBelow (length h.entries) h.search_index
    → search_start query h ≤ length h.entries
unfolding search_start
search_start-le query h lt =
    start_from-le h.search_index (same_query h.search_query query) (length h.entries) lt

module _ (most : ℕ) where
  reset_navigation-IsValid : (h : InputHistory) → IsValid most h → IsValid most (reset_navigation h)
  unfolding reset_navigation
  reset_navigation-IsValid h v = record {
    index = tt;
    search = tt;
    limit = v.limit;
    full = v.full;
    apart = v.apart;
  }

  pub add-IsValid : (value : Text) (h : InputHistory) → IsValid most h → IsValid most (add value h)
  unfolding add reset_navigation trim_entries
  add-IsValid value h v = elim (Bool-cases (is_empty (rstrip_newlines value))) [
    | inl empty ↦ rw (empty, add) (reset_navigation-IsValid h v)
    | inr full ↦ elim (Bool-cases (is_last (rstrip_newlines value) h.entries)) [
      | inl again ↦ rw (full, again, add) (reset_navigation-IsValid h v)
      | inr new ↦
          rw (full, new, add)
            (record {
              index = tt;
              search = tt;
              limit = Within-trimmed h.max_entries (h.entries ++ rstrip_newlines value ∷ []);
              full =
                  IsFull-trimmed h.max_entries (h.entries ++ rstrip_newlines value ∷ [])
                    (IsFull-append h.entries (rstrip_newlines value) v.full full);
              apart = omega (
                arith,
                v.apart,
                repeats-trimmed h.max_entries (h.entries ++ rstrip_newlines value ∷ []),
                repeats-append h.entries (rstrip_newlines value) new,
              );
            })
    ]
  ]

  -- an answer without an IndexError, with a valid state
  abbrev pub Answers : Answer → Type 0
  Answers none = ⊥
  Answers (some (text, h)) = IsValid most h

  show_at-Answers :
      (i : ℕ) (h : InputHistory) → i < length h.entries → IsValid most h → Answers (show_at i h)
  unfolding show_at
  show_at-Answers i h lt v =
      rw (get_elem?_of_lt h.entries i [] lt, show_at)
        (record { index = lt; search = v.search; limit = v.limit; full = v.full; apart = v.apart })

  previous_from-Answers :
      (o : Option ℕ) (current : Text) (h : InputHistory)
      → 0 < length h.entries
      → IsBelow (length h.entries) o
      → IsValid most h
      → Answers (previous_from o current h)
  unfolding previous_from
  previous_from-Answers none current h some_sent lt v =
      show_at-Answers (length h.entries - 1)
        (record h { current_buffer = some (rstrip_newlines current) }) (omega arith)
        (record {
          index = v.index;
          search = v.search;
          limit = v.limit;
          full = v.full;
          apart = v.apart;
        })
  previous_from-Answers (some zero) current h some_sent lt v = v
  previous_from-Answers (some (suc i)) current h some_sent lt v =
      show_at-Answers i h (omega arith) v

  pub navigate_previous-Answers :
      (current : Text) (h : InputHistory) → IsValid most h → Answers (navigate_previous current h)
  unfolding navigate_previous
  navigate_previous-Answers current h v = elim (Bool-cases (is_empty h.entries)) [
    | inl none_sent ↦ rw (none_sent, navigate_previous) v
    | inr sent ↦
        rw (sent, navigate_previous)
          (previous_from-Answers h.index current h (some_entries h.entries sent) v.index v)
  ]

  next_from-Answers :
      (o : Option ℕ) (h : InputHistory)
      → IsBelow (length h.entries) o
      → IsValid most h
      → Answers (next_from o h)
  unfolding next_from
  next_from-Answers none h lt v = v
  next_from-Answers (some i) h lt v = elim (Bool-cases (leb (length h.entries - 1) i)) [
    | inl last ↦
        rw (last, next_from)
          (record {
            index = tt;
            search = v.search;
            limit = v.limit;
            full = v.full;
            apart = v.apart;
          })
    | inr more ↦ rw (more, next_from) (show_at-Answers (i + 1) h (ground arith) v)
  ]

  pub navigate_next-Answers : (h : InputHistory) → IsValid most h → Answers (navigate_next h)
  unfolding navigate_next
  navigate_next-Answers h v = next_from-Answers h.index h v.index v

  search_below-Answers :
      (query : Text) (n : ℕ) (h : InputHistory)
      → n ≤ length h.entries
      → IsValid most h
      → Answers (search_below query n h)
  unfolding search_below
  search_below-Answers query zero h le v = v
  search_below-Answers query (suc n) h le v =
      let at : get_elem? h.entries n ≡ some (get_or h.entries n []) =
        get_elem?_of_lt h.entries n [] (omega arith) in
      elim (Bool-cases (contains query (get_or h.entries n []))) [
        | inl found ↦
            rw (at, found, search_below)
              (record {
                index = v.index;
                search = omega arith;
                limit = v.limit;
                full = v.full;
                apart = v.apart;
              })
        | inr other ↦ rw (at, other, search_below) (search_below-Answers query n h (omega arith) v)
      ]

  pub search_backward-Answers :
      (query : Text) (h : InputHistory) → IsValid most h → Answers (search_backward query h)
  unfolding search_backward
  search_backward-Answers query h v = elim (Bool-cases (is_empty query || is_empty h.entries)) [
    | inl nothing ↦ rw (nothing, search_backward) v
    | inr both ↦
        rw (both, search_backward)
          (search_below-Answers query (search_start query h) h (search_start-le query h v.search) v)
  ]

  update_at-IsValid :
      (o : Option ℕ) (buffer : Option Text) (text : Text) (h : InputHistory)
      → IsValid most h
      → IsValid most (update_at o buffer text h)
  unfolding update_at
  update_at-IsValid (some i) buffer text h v = record {
    index = v.index;
    search = v.search;
    limit = v.limit;
    full = v.full;
    apart = v.apart;
  }
  update_at-IsValid none (some _) text h v = record {
    index = v.index;
    search = v.search;
    limit = v.limit;
    full = v.full;
    apart = v.apart;
  }
  update_at-IsValid none none text h v = v

  pub update_current-IsValid :
      (value : Text) (h : InputHistory) → IsValid most h → IsValid most (update_current value h)
  unfolding update_current
  update_current-IsValid value h v =
      update_at-IsValid h.index h.current_buffer (rstrip_newlines value) h v
