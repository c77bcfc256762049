-- ===== src/Mcp/RoundTrip.antt =====
-- `parse_internal_tool_name` on what `build_internal_tool_name` gives.
use codeng.Prelude.{
  ==_refl, ℕ, ◌≡◌, refl, arith, ap, ◌∙◌, false, ◌&&◌, none, some, [], ◌∷◌, ◌++◌, ◌==◌,
  if◌then◌else◌, is_empty, Bool-cases, inl, inr,
}
use codeng.Prelude.Strings.{codes, strip_prefix}
use codeng.Workflow.Data.{Text}
use codeng.Mcp.Naming.{
  rstrip_underscores, lstrip_underscores, sub_unsafe, or_tool, normalize_segment,
  normalize_tool_ref, build_internal_tool_name, partition, tool_ref, ref_of,
  parse_internal_tool_name,
}

-- a text that does not end with an underscore
unfoldable Ends : Text → Type 0
Ends [] = Unit
Ends (c ∷ []) = (c == b'_') ≡ false
Ends (c ∷ d ∷ cs) = Ends (d ∷ cs)

Ends-cons : (c : ℕ) (r : Text) → Ends r → Ends (if is_empty r && c == b'_' then [] else c ∷ r)
unfolding Ends
Ends-cons c [] e = elim (Bool-cases (c == b'_')) [
  | inl is ↦ rw (is) tt
  | inr other ↦ rw (other) other
]
Ends-cons c (d ∷ r) e = e

rstrip_underscores-Ends : (t : Text) → Ends (rstrip_underscores t)
unfolding rstrip_underscores Ends
rstrip_underscores-Ends [] = tt
rstrip_underscores-Ends (c ∷ cs) = Ends-cons c (rstrip_underscores cs) (rstrip_underscores-Ends cs)

or_tool-Ends : (t : Text) → Ends t → Ends (or_tool t)
unfolding Ends
or_tool-Ends [] e = refl
or_tool-Ends (c ∷ cs) e = e

normalize_segment-Ends : (value : Text) → Ends (normalize_segment value)
unfolding normalize_segment
normalize_segment-Ends value =
    or_tool-Ends (rstrip_underscores (lstrip_underscores (sub_unsafe false value)))
      (rstrip_underscores-Ends (lstrip_underscores (sub_unsafe false value)))

or_tool-full : (t : Text) → is_empty (or_tool t) ≡ false
or_tool-full [] = refl
or_tool-full (c ∷ cs) = refl

normalize_segment-full : (value : Text) → is_empty (normalize_segment value) ≡ false
unfolding normalize_segment
normalize_segment-full value =
    or_tool-full (rstrip_underscores (lstrip_underscores (sub_unsafe false value)))

partition-append :
    (s t : Text)
    → is_empty s ≡ false
    → Ends s
    → partition s ≡ none
    → partition (s ++ b'_' ∷ b'_' ∷ t) ≡ some (s, t)
unfolding partition Ends
partition-append [] t full e single = absurd (ground arith)
partition-append (c ∷ []) t full e single = rw (e, partition) refl
partition-append (c ∷ d ∷ cs) t full e single = ground (arith, partition-append (d ∷ cs) t refl e)

strip_prefix-append : (p t : Text) → strip_prefix p (p ++ t) ≡ some t
unfolding strip_prefix
strip_prefix-append [] t = refl
strip_prefix-append (c ∷ p) t = ground (arith, strip_prefix-append p t, ==_refl c)

tool_ref-full :
    (s t : Text)
    → is_empty s ≡ false
    → is_empty t ≡ false
    → tool_ref (some (s, t)) ≡ some (record { source_name = s; tool_name = t })
tool_ref-full s t full full' = ground (arith, full, full')

-- If the normalized name of a source has no double underscore, the internal name of each of its tools
-- is read back as the normalized source and the normalized tool.
pub parse_internal_tool_name-build_internal_tool_name :
    (source_name tool_name : Text)
    → partition (normalize_segment source_name) ≡ none
    → parse_internal_tool_name (build_internal_tool_name source_name tool_name)
      ≡ some (normalize_tool_ref source_name tool_name)
unfolding parse_internal_tool_name ref_of build_internal_tool_name normalize_tool_ref
parse_internal_tool_name-build_internal_tool_name source_name tool_name single =
    let s = normalize_segment source_name in
    let t = normalize_segment tool_name in
    ap ref_of (strip_prefix-append (codes "mcp__") (s ++ b'_' ∷ b'_' ∷ t))
    ∙ ap tool_ref (
        partition-append s t (normalize_segment-full source_name)
          (normalize_segment-Ends source_name) single)
    ∙ tool_ref-full s t (normalize_segment-full source_name) (normalize_segment-full tool_name)
