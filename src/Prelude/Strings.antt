-- ===== src/Prelude/Strings.antt =====
-- Operations of Python's `str` on lists of code points.
use Prim.Native.Nat.{ℕ}
use Prim.Native.Char.{code}
use Prim.Native.String.{String}
use mathlib.Core.Bool.{Bool, true, false, ◌&&◌, ◌||◌}
use mathlib.Core.List.{List, [], ◌∷◌, ◌++◌, reverse}
use mathlib.Core.Option.{Option, none, some}
use codeng.Prelude.Tests.{◌==◌, leb, if◌then◌else◌}
use codeng.Prelude.Lists.{is_empty}

-- the code points of a literal
abbrev pub codes : String → List ℕ
codes String.[] = []
codes (String.◌∷◌ c s) = code c ∷ codes s

-- the code points that `str.strip` takes off
abbrev pub is_whitespace : ℕ → Bool
is_whitespace c =
    (leb 9 c && leb c 13)
    || (leb 28 c && leb c 32)
    || c == 133
    || c == 160
    || c == 5760
    || (leb 8192 c && leb c 8202)
    || c == 8232
    || c == 8233
    || c == 8239
    || c == 8287
    || c == 12288

unfoldable pub lstrip : List ℕ → List ℕ
lstrip [] = []
lstrip (c ∷ cs) = if is_whitespace c then lstrip cs else c ∷ cs

unfoldable pub strip : List ℕ → List ℕ
unfolding lstrip
strip t = reverse (lstrip (reverse (lstrip t)))

-- Python's line boundaries
abbrev is_boundary : ℕ → Bool
is_boundary c =
    (leb 10 c && leb c 13) || (leb 28 c && leb c 30) || c == 133 || c == 8232 || c == 8233

-- `str.splitlines`: `\r\n` is one boundary, and there is no line behind the last one
unfoldable pub split_from : List ℕ → List ℕ → List (List ℕ)
split_from line [] = if is_empty line then [] else line ∷ []
split_from line (c ∷ []) = if is_boundary c then line ∷ [] else (line ++ c ∷ []) ∷ []
split_from line (c ∷ d ∷ cs) = elim (c == 13 && d == 10) [
  | true ↦ line ∷ split_from [] cs
  | false ↦ elim (is_boundary c) [
    | true ↦ line ∷ split_from [] (d ∷ cs)
    | false ↦ split_from (line ++ c ∷ []) (d ∷ cs)
  ]
]

unfoldable pub splitlines : List ℕ → List (List ℕ)
unfolding split_from
splitlines t = split_from [] t

-- `"\n".join(lines)`
unfoldable pub join_lines : List (List ℕ) → List ℕ
join_lines [] = []
join_lines (l ∷ []) = l
join_lines (l ∷ m ∷ ms) = l ++ 10 ∷ join_lines (m ∷ ms)

-- what follows a prefix, if the text starts with it
unfoldable pub strip_prefix : List ℕ → List ℕ → Option (List ℕ)
strip_prefix [] t = some t
strip_prefix (c ∷ p) [] = none
strip_prefix (c ∷ p) (d ∷ t) = let rest = strip_prefix p t in if c == d then rest else none

unfoldable pub starts_with : List ℕ → List ℕ → Bool
unfolding strip_prefix
starts_with p t = elim (strip_prefix p t) [ none ↦ false | some _ ↦ true ]

-- `p in t`
unfoldable pub contains : List ℕ → List ℕ → Bool
unfolding starts_with
contains p [] = is_empty p
contains p (c ∷ t) = starts_with p (c ∷ t) || contains p t
