-- ===== src/Patch/Printed.antt =====
-- The lines of a script, as a patch has them, and `parse_lines` on them.
use codeng.Prelude.{
  ℕ, suc, ◌≡◌, refl, ap, ◌∙◌, sym, true, false, some, List, [], ◌∷◌, ◌++◌, map, is_empty,
  Bool-cases, inl, inr,
}
use codeng.Prelude.Strings.{strip, lstrip, strip_prefix}
use codeng.Workflow.Data.{Text}
use codeng.Patch.Data.{PatchAction, update}
use codeng.Patch.Chunk.{is_blankish_line}
use codeng.Patch.Section.{
  OpenChunk, ParseState, push_deletion, push_addition, push_context, new_chunk, anchor_item,
}
use codeng.Patch.Line.{file_header, line_kind}
use codeng.Patch.Parse.{on_line, on_content, parse_line, parse_lines}
use codeng.Patch.Script.{kept, changed, Script, items_of, edits_of}
use codeng.Patch.Pushed.{push_deletions, push_additions, push_script, push_script_lem, IsSeparated}

unfoldable pub printed : Script → List Text
printed [] = []
printed (kept t ∷ bs) = (b' ' ∷ t) ∷ printed bs
printed (changed ds added ∷ bs) =
    map (λ d. b'-' ∷ d) ds ++ (map (λ a. b'+' ∷ a) added ++ printed bs)

-- a line of blanks is read as an empty one
unfoldable pub IsPrintable : Script → Type 0
IsPrintable [] = Unit
IsPrintable (kept t ∷ bs) = (is_blankish_line t ≡ true → t ≡ []) × IsPrintable bs
IsPrintable (changed ds added ∷ bs) = IsPrintable bs

-- inside an update of a file, with a chunk open
abbrev pub within : ParseState → Text → PatchAction → OpenChunk → ParseState
within s path a o = record s {
  section = some (path, record a { type = update });
  open_chunk = some o;
}

module _ (s : ParseState) (path : Text) (a : PatchAction) where
  parse_line-deletion :
      (n : ℕ) (t : Text) (o : OpenChunk)
      → parse_line n (b'-' ∷ t) (within s path a o) ≡ within s path a (push_deletion t o)
  unfolding parse_line file_header on_line on_content line_kind strip_prefix
  parse_line-deletion n t o = refl

  parse_line-addition :
      (n : ℕ) (t : Text) (o : OpenChunk)
      → parse_line n (b'+' ∷ t) (within s path a o) ≡ within s path a (push_addition t o)
  unfolding parse_line file_header on_line on_content line_kind strip_prefix
  parse_line-addition n t o = refl

  parse_line-context :
      (n : ℕ) (t : Text) (o : OpenChunk)
      → (is_blankish_line t ≡ true → t ≡ [])
      → parse_line n (b' ' ∷ t) (within s path a o) ≡ within s path a (push_context t o)
  unfolding parse_line file_header on_line on_content line_kind strip_prefix is_blankish_line strip
      lstrip
  parse_line-context n t o plain = elim (Bool-cases (is_blankish_line t)) [
    | inl blank ↦
        let e : is_empty (strip (b' ' ∷ t)) ≡ true = blank in
        rw (e) (ap (λ u. within s path a (push_context u o)) (sym (plain blank)))
    | inr full ↦ let e : is_empty (strip (b' ' ∷ t)) ≡ false = full in rw (e) refl
  ]

  parse_lines-deletions :
      (ds rest : List Text) (o : OpenChunk) (r : ParseState)
      → ((m : ℕ) → parse_lines m rest (within s path a (push_deletions ds o)) ≡ r)
      → (n : ℕ) → parse_lines n (map (λ d. b'-' ∷ d) ds ++ rest) (within s path a o) ≡ r
  unfolding parse_lines
  parse_lines-deletions [] rest o r h n = h n
  parse_lines-deletions (d ∷ ds) rest o r h n =
      ap (parse_lines (suc n) (map (λ e. b'-' ∷ e) ds ++ rest)) (parse_line-deletion n d o)
      ∙ parse_lines-deletions ds rest (push_deletion d o) r h (suc n)

  parse_lines-additions :
      (new rest : List Text) (o : OpenChunk) (r : ParseState)
      → ((m : ℕ) → parse_lines m rest (within s path a (push_additions new o)) ≡ r)
      → (n : ℕ) → parse_lines n (map (λ d. b'+' ∷ d) new ++ rest) (within s path a o) ≡ r
  unfolding parse_lines
  parse_lines-additions [] rest o r h n = h n
  parse_lines-additions (d ∷ new) rest o r h n =
      ap (parse_lines (suc n) (map (λ e. b'+' ∷ e) new ++ rest)) (parse_line-addition n d o)
      ∙ parse_lines-additions new rest (push_addition d o) r h (suc n)

  parse_lines-printed :
      (bs : Script) (o : OpenChunk) (n : ℕ)
      → IsPrintable bs
      → parse_lines n (printed bs) (within s path a o) ≡ within s path a (push_script bs o)
  unfolding parse_lines printed IsPrintable
  parse_lines-printed [] o n p = refl
  parse_lines-printed (kept t ∷ bs) o n (plain, p) =
      ap (parse_lines (suc n) (printed bs)) (parse_line-context n t o plain)
      ∙ parse_lines-printed bs (push_context t o) (suc n) p
  parse_lines-printed (changed ds added ∷ bs) o n p =
      let o1 = push_deletions ds o in
      let r = within s path a (push_script bs (push_additions added o1)) in
      parse_lines-deletions ds (map (λ d. b'+' ∷ d) added ++ printed bs) o r
        (parse_lines-additions added (printed bs) o1 r
          (λ m. parse_lines-printed bs (push_additions added o1) m p))
        n

  -- If in a script no two changes are neighbours, no change is empty, and the only blank line that is
  -- kept is the empty one, the lines of the script, each behind its mark, are parsed inside the update
  -- of a file to an open chunk with the items and the edits of the script, behind the anchors that the
  -- chunk had, and without an error.
  pub parse_lines-push_script :
      (bs : Script) (labels : List Text) (line n : ℕ)
      → IsPrintable bs
      → IsSeparated bs
      → (parse_lines n (printed bs) (within s path a (new_chunk line labels))
          ≡ within s path a (push_script bs (new_chunk line labels)))
        × ((push_script bs (new_chunk line labels)).chunk ≡ record {
          items = map anchor_item labels ++ items_of bs;
          edits = edits_of 0 bs;
          start_line = some line;
        })
  parse_lines-push_script bs labels line n p sep = (
    parse_lines-printed bs (new_chunk line labels) n p,
    push_script_lem bs (new_chunk line labels) (map anchor_item labels) [] false false 0 tt sep,
  )
