-- ===== src/Input/Match.antt =====
-- `_pop_matching_queued_message` finds the first message that matches.
use codeng.Prelude.{
  ◌≡◌, refl, ap, true, false, Option, none, some, List, [], ◌∷◌, ◌++◌, inl, inr, Bool-cases,
}
use codeng.Workflow.Data.{Message, UserInputMode}
use codeng.Input.State.{message_mode_matches}
use codeng.Input.Publish.{pop_matching}

-- no message of the list matches
abbrev pub NoneMatch : Option UserInputMode → List Message → Type 0
NoneMatch mode [] = Unit
NoneMatch mode (msg ∷ msgs) = (message_mode_matches msg mode ≡ false) × NoneMatch mode msgs

pub record IsFirstMatch (mode : Option UserInputMode) (msgs : List Message) (found : Message)
    (rest : List Message) : Type 0 where
  pub front : List Message
  pub back : List Message
  pub whole : msgs ≡ front ++ found ∷ back
  pub left : rest ≡ front ++ back
  pub matches : message_mode_matches found mode ≡ true
  pub earlier : NoneMatch mode front

-- what a poll of a queue may return
abbrev pub IsPopped : Option UserInputMode → List Message → Option (Message × List Message) → Type 0
IsPopped mode msgs none = NoneMatch mode msgs
IsPopped mode msgs (some (found, rest)) = IsFirstMatch mode msgs found rest

IsPopped-cons :
    (mode : Option UserInputMode) (msg : Message) (msgs : List Message)
    (r : Option (Message × List Message))
    → message_mode_matches msg mode ≡ false
    → IsPopped mode msgs r
    → IsPopped mode
        (msg ∷ msgs)
        (elim r [ none ↦ none | some (found, rest) ↦ some (found, msg ∷ rest) ])
IsPopped-cons mode msg msgs none miss h = (miss, h)
IsPopped-cons mode msg msgs (some (found, rest)) miss h = record {
  front = msg ∷ h.front;
  back = h.back;
  whole = ap (λ l. msg ∷ l) h.whole;
  left = ap (λ l. msg ∷ l) h.left;
  matches = h.matches;
  earlier = (miss, h.earlier);
}

-- The first message that matches is returned and the others keep their order; if none is returned,
-- none matches.
pub pop_matching-IsPopped :
    (mode : Option UserInputMode) (msgs : List Message)
    → IsPopped mode msgs (pop_matching mode msgs)
unfolding pop_matching
pop_matching-IsPopped mode [] = tt
pop_matching-IsPopped mode (msg ∷ msgs) = elim (Bool-cases (message_mode_matches msg mode)) [
  | inl hit ↦
      rw (hit, pop_matching)
        (record { front = []; back = msgs; whole = refl; left = refl; matches = hit; earlier = tt })
  | inr miss ↦
      rw (miss, pop_matching)
        (IsPopped-cons mode msg msgs (pop_matching mode msgs) miss
          (pop_matching-IsPopped mode msgs))
]
