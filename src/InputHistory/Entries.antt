-- ===== src/InputHistory/Entries.antt =====
-- The list of the texts that were sent: its limit, texts that are empty, and texts that repeat the one
-- before.
use codeng.Prelude.{
  ℕ, zero, suc, ◌+◌, ◌-◌, ◌≤◌, ◌≡◌, arith, false, Option, none, some, List, [], ◌∷◌, ◌++◌, length,
  if◌then◌else◌, refl, ap, drop, is_empty, length-drop,
}
use codeng.Prelude.Texts.{text_eq}
use codeng.Workflow.Data.{Text}
use codeng.InputHistory.State.{trimmed, is_last}

abbrev pub Within : Option ℕ → ℕ → Type 0
Within none n = Unit
Within (some limit) n = n ≤ limit

unfoldable pub IsFull : List Text → Type 0
IsFull [] = Unit
IsFull (x ∷ xs) = (is_empty x ≡ false) × IsFull xs

-- how many entries equal the one before them
unfoldable pub repeats : List Text → ℕ
repeats [] = 0
repeats (x ∷ []) = 0
repeats (x ∷ y ∷ ys) = (if text_eq x y then 1 else 0) + repeats (y ∷ ys)

pub IsFull-append :
    (xs : List Text) (t : Text) → IsFull xs → is_empty t ≡ false → IsFull (xs ++ t ∷ [])
unfolding IsFull
IsFull-append [] t all full = (full, tt)
IsFull-append (x ∷ xs) t (x_full, all) full = (x_full, IsFull-append xs t all full)

IsFull-drop : (n : ℕ) (xs : List Text) → IsFull xs → IsFull (drop n xs)
unfolding IsFull
IsFull-drop zero xs all = all
IsFull-drop (suc n) [] all = tt
IsFull-drop (suc n) (x ∷ xs) (x_full, all) = IsFull-drop n xs all

pub IsFull-trimmed : (limit : Option ℕ) (xs : List Text) → IsFull xs → IsFull (trimmed limit xs)
unfolding trimmed
IsFull-trimmed none xs all = all
IsFull-trimmed (some n) xs all = IsFull-drop (length xs - n) xs all

-- a text that differs from the last entry adds no repetition
pub repeats-append :
    (xs : List Text) (t : Text) → is_last t xs ≡ false → repeats (xs ++ t ∷ []) ≡ repeats xs
unfolding repeats is_last
repeats-append [] t new = refl
repeats-append (x ∷ []) t new = rw new refl
repeats-append (x ∷ y ∷ ys) t new =
    ap (λ k. (if text_eq x y then 1 else 0) + k) (repeats-append (y ∷ ys) t new)

repeats-tail : (x : Text) (xs : List Text) → repeats xs ≤ repeats (x ∷ xs)
unfolding repeats
repeats-tail x [] = omega arith
repeats-tail x (y ∷ ys) = omega arith

repeats-drop : (n : ℕ) (xs : List Text) → repeats (drop n xs) ≤ repeats xs
repeats-drop zero xs = omega arith
repeats-drop (suc n) [] = omega arith
repeats-drop (suc n) (x ∷ xs) = omega (arith, repeats-drop n xs, repeats-tail x xs)

pub repeats-trimmed : (limit : Option ℕ) (xs : List Text) → repeats (trimmed limit xs) ≤ repeats xs
unfolding trimmed
repeats-trimmed none xs = omega arith
repeats-trimmed (some n) xs = repeats-drop (length xs - n) xs

pub Within-trimmed : (limit : Option ℕ) (xs : List Text) → Within limit (length (trimmed limit xs))
unfolding trimmed
Within-trimmed none xs = tt
Within-trimmed (some n) xs = omega (arith, length-drop (length xs - n) xs)
