-- ===== src/Editor/Valid.antt =====
-- The cursor of a `TextEditor` stands in its text.
use codeng.Prelude.{
  ℕ, Bool, true, false, if◌then◌else◌, ◌-◌, ◌≤◌, ◌<◌, ◌≡◌, refl, sym, subst, arith, Option, some,
  List, [], ◌∷◌, length, get_or, get_elem?, get_elem?_of_lt,
}
use codeng.Prelude.Strings.{split_from}
use codeng.Editor.State.{
  Line, Editor, lines_of, end_col, init, set_text, clear, emit, read, guarded, indexed,
}

-- the line of a row that is there
abbrev pub line_at : Editor → ℕ → Line
line_at e row = get_or e.lines row []

pub record IsValid (e : Editor) : Type 0 where
  pub row : e.cursor_row < length e.lines
  pub col : e.cursor_col ≤ length (line_at e e.cursor_row)

-- what an operation that may raise returns
abbrev pub Valid : Option Editor → Type 0
Valid r = (e : Editor) × (r ≡ some e) × IsValid e

pub emit-IsValid : (before e : Editor) → IsValid e → IsValid (emit before e)
unfolding emit
emit-IsValid before e v = record { row = v.row; col = v.col }

pub if-IsValid :
    (b : Bool) (x y : Editor)
    → (b ≡ true → IsValid x)
    → (b ≡ false → IsValid y)
    → IsValid (if b then x else y)
if-IsValid true x y h k = h refl
if-IsValid false x y h k = k refl

pub at_cursor :
    (e : Editor) → IsValid e → get_elem? e.lines e.cursor_row ≡ some (line_at e e.cursor_row)
at_cursor e v = get_elem?_of_lt e.lines e.cursor_row [] v.row

pub if-Valid :
    (b : Bool) (x y : Option Editor)
    → (b ≡ true → Valid x)
    → (b ≡ false → Valid y)
    → Valid (if b then x else y)
if-Valid true x y h k = h refl
if-Valid false x y h k = k refl

pub some-Valid : (e : Editor) → IsValid e → Valid (some e)
some-Valid e v = (e, refl, v)

-- a row of the text is read without an IndexError
pub read-Valid :
    (e : Editor) (row : ℕ) (f : Line → Option Editor)
    → row < length e.lines
    → Valid (f (line_at e row))
    → Valid (read e row f)
read-Valid e row f lt h = rw (get_elem?_of_lt e.lines row [] lt, read) h

module _ (e : Editor) (v : IsValid e) where
  pub guarded-Valid :
      (f : Line → Option Editor) → Valid (f (line_at e e.cursor_row)) → Valid (guarded e f)
  guarded-Valid f h = rw (at_cursor e v, guarded) h

  pub indexed-Valid :
      (f : Line → Editor) → IsValid (f (line_at e e.cursor_row)) → Valid (indexed e f)
  indexed-Valid f h =
      read-Valid e e.cursor_row (λ line. some (f line)) v.row
        (some-Valid (f (line_at e e.cursor_row)) h)

  -- an operation whose last step tells the subscribers
  pub emitted : (e' : Editor) → IsValid e' → Valid (some (emit e e'))
  emitted e' v' = some-Valid (emit e e') (emit-IsValid e e' v')

end_col-last :
    (l : Line) (ls : List Line) → end_col (l ∷ ls) ≡ length (get_or (l ∷ ls) (length ls) [])
end_col-last l [] = refl
end_col-last l (m ∷ ms) = end_col-last m ms

-- the end of a text that has a line
abbrev AtEnd : List Line → Type 0
AtEnd lines =
    (length lines - 1 < length lines)
    × (end_col lines ≤ length (get_or lines (length lines - 1) []))

at_end : (l : Line) (ls : List Line) → AtEnd (l ∷ ls)
at_end l ls =
    let same : length (l ∷ ls) - 1 ≡ length ls = omega arith in
    (omega arith, rw same (omega (arith, end_col-last l ls)))

pub lines_of-cons : (text : Line) → (l : Line) × (ls : List Line) × (lines_of text ≡ l ∷ ls)
unfolding lines_of
lines_of-cons text = go (split_from [] text) refl
  where
    go :
        (ls : List Line)
        → split_from [] text ≡ ls
        → (l : Line) × (ls : List Line) × (lines_of text ≡ l ∷ ls)
    go [] p = ([], [], rw (p, lines_of) refl)
    go (l ∷ ls) p = (l, ls, rw (p, lines_of) refl)

lines_of-AtEnd : (text : Line) → AtEnd (lines_of text)
lines_of-AtEnd text = let (l, ls, p) = lines_of-cons text in subst AtEnd (sym p) (at_end l ls)

-- A new editor is valid, whatever the text.
pub init-IsValid : (text : Line) → IsValid (init text)
unfolding init
init-IsValid text = record { row = (lines_of-AtEnd text).0; col = (lines_of-AtEnd text).1 }

pub set_text-IsValid : (value : Line) (e : Editor) → IsValid (set_text value e)
unfolding set_text emit
set_text-IsValid value e = record { row = (lines_of-AtEnd value).0; col = (lines_of-AtEnd value).1 }

pub clear-IsValid : (e : Editor) → IsValid (clear e)
unfolding clear emit
clear-IsValid e = record { row = omega arith; col = omega arith }
