-- ===== src/Input/Types.antt =====
-- The names of the types of input, and the order in which their queues are looked at.
use codeng.Prelude.{
  Bool, false, ◌||◌, Option, none, some, List, [], ◌∷◌, ◌++◌, if◌then◌else◌, keep, not,
}
use codeng.Prelude.Texts.{text_eq, text_lt}
use codeng.Prelude.Strings.{codes, strip}
use codeng.Workflow.Data.{Text}

abbrev pub interactive : Text
interactive = codes "interactive"

abbrev pub http : Text
http = codes "http"

abbrev or_interactive : Text → Text
or_interactive [] = interactive
or_interactive (c ∷ cs) = c ∷ cs

unfoldable pub normalize_input_type : Option Text → Text
unfolding strip
normalize_input_type none = interactive
normalize_input_type (some t) = or_interactive (strip t)

unfoldable pub has_text : Text → List Text → Bool
has_text t [] = false
has_text t (s ∷ ss) = text_eq s t || has_text t ss

-- the set of the normalized types, as a list with no text twice
unfoldable pub unique_types : List Text → List Text
unfolding normalize_input_type has_text
unique_types [] = []
unique_types (t ∷ ts) =
    let rest = unique_types ts in
    let n = normalize_input_type (some t) in if has_text n rest then rest else n ∷ rest

unfoldable pub insert_sorted : Text → List Text → List Text
insert_sorted t [] = t ∷ []
insert_sorted t (s ∷ ss) =
    let rest = insert_sorted t ss in if text_lt s t then s ∷ rest else t ∷ s ∷ ss

unfoldable pub sorted : List Text → List Text
unfolding insert_sorted
sorted [] = []
sorted (t ∷ ts) = insert_sorted t (sorted ts)

abbrev only : Text → List Text → List Text
only t ts = keep (λ s. text_eq s t) ts

-- interactive input first, then HTTP, then the others in order
unfoldable pub ordered_input_types : List Text → List Text
unfolding unique_types sorted
ordered_input_types types =
    let unique = unique_types types in
    only interactive unique
    ++ (only http unique
        ++ sorted (keep (λ s. not (text_eq s interactive || text_eq s http)) unique))
