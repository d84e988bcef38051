-- ===== src/Http/Text/Find.antt =====
-- Where a search finds a delimiter.
use ivos.Base.{
  suc-add, zero-add, add-zero, ℕ, zero, suc, ◌+◌, ◌≤◌, ◌<◌, subst, ◌≡◌, ◌==◌, true, false, refl, ap,
  eq→==, Bool-cases, Option-cases, inl, inr, [], ◌∷◌, ◌++◌, Option, none, some, arith, length, take,
}
use ivos.Http.Text.{Text, drop, starts_with, later, find}

-- No byte of the text is `c`.
abbrev pub Lacks : (c : ℕ) → Text → Type 0
Lacks c [] = Unit {0}
Lacks c (x ∷ s) = ((c == x) ≡ false) × Lacks c s

starts_with_self : (d rest : Text) → starts_with d (d ++ rest) ≡ true
starts_with_self [] rest = refl
starts_with_self (c ∷ d) rest = ground (arith, starts_with_self d rest)

-- A place counted from `n` bytes before.
abbrev pub shift : ℕ → Option ℕ → Option ℕ
shift n none = none
shift n (some k) = some (n + k)

later-shift : (n : ℕ) (o : Option ℕ) → later (shift n o) ≡ shift (suc n) o
later-shift n none = refl
later-shift n (some k) = ground arith

shift_zero : (o : Option ℕ) → o ≡ shift 0 o
shift_zero none = refl
shift_zero (some k) = ground arith

-- A text that lacks the first byte of the delimiter is passed over.
pub find-skip :
    (c : ℕ) (d t rest : Text)
    → Lacks c t
    → find (c ∷ d) (t ++ rest) ≡ shift (length t) (find (c ∷ d) rest)
find-skip c d [] rest h = shift_zero (find (c ∷ d) rest)
find-skip c d (x ∷ t) rest (h, hs) =
    rw (h, find-skip c d t rest hs) (later-shift (length t) (find (c ∷ d) rest))

pub find-Lacks : (c : ℕ) (d t : Text) → Lacks c t → find (c ∷ d) t ≡ none
find-Lacks c d [] h = refl
find-Lacks c d (x ∷ t) (h, hs) = rw (h, find-Lacks c d t hs) refl

find_self : (d rest : Text) → find d (d ++ rest) ≡ some 0
find_self [] [] = refl
find_self [] (x ∷ rest) = refl
find_self (c ∷ d) rest = rw (eq→== c c refl, starts_with_self d rest) refl

pub find-append :
    (c : ℕ) (d t rest : Text) → Lacks c t → find (c ∷ d) (t ++ ((c ∷ d) ++ rest)) ≡ some (length t)
find-append c d t rest h =
    rw (find-skip c d t ((c ∷ d) ++ rest) h, find_self (c ∷ d) rest) (ap some (add-zero (length t)))

starts_with-drop : (d s : Text) → starts_with d s ≡ true → s ≡ d ++ drop (length d) s
starts_with-drop [] s h = refl
starts_with-drop (c ∷ d) [] h = cc
starts_with-drop (c ∷ d) (x ∷ s) h = ground (arith, starts_with-drop d s)

starts_with-take : (d s : Text) (k : ℕ) → starts_with d s ≡ false → starts_with d (take k s) ≡ false
starts_with-take [] s k h = cc
starts_with-take (c ∷ d) [] zero h = refl
starts_with-take (c ∷ d) [] (suc k) h = refl
starts_with-take (c ∷ d) (x ∷ s) zero h = refl
starts_with-take (c ∷ d) (x ∷ s) (suc k) h = ground (arith, starts_with-take d s k)

-- The text up to the place found has no delimiter, and the delimiter stands there.
pub record FoundAt (c : ℕ) (d s : Text) (p : ℕ) : Type 0 where
  pub before : find (c ∷ d) (take p s) ≡ none
  pub splits : s ≡ take p s ++ ((c ∷ d) ++ drop (p + length (c ∷ d)) s)
  pub shorter : length (drop (p + length (c ∷ d)) s) < length s

length-drop : (n : ℕ) (s : Text) → length (drop n s) ≤ length s
length-drop zero s = omega arith
length-drop (suc n) [] = omega arith
length-drop (suc n) (x ∷ s) = omega (arith, length-drop n s)

FoundAt-later :
    (c : ℕ) (d : Text) (x : ℕ) (s : Text) (p : ℕ)
    → starts_with (c ∷ d) (x ∷ s) ≡ false
    → FoundAt c d s p
    → FoundAt c d (x ∷ s) (suc p)
FoundAt-later c d x s p other f = record {
  before = rw (starts_with-take (c ∷ d) (x ∷ s) (suc p) other, f.before) refl;
  splits = rw (suc-add p (length (c ∷ d))) (ap (λ l. x ∷ l) f.splits);
  shorter = rw (suc-add p (length (c ∷ d))) (omega (arith, f.shorter));
}

FoundAt-here :
    (c : ℕ) (d : Text) (x : ℕ) (s : Text)
    → starts_with (c ∷ d) (x ∷ s) ≡ true
    → FoundAt c d (x ∷ s) 0
FoundAt-here c d x s here = record {
  before = refl;
  splits = rw (zero-add (suc (length d))) (starts_with-drop (c ∷ d) (x ∷ s) here);
  shorter = rw (zero-add (suc (length d))) (omega (arith, length-drop (length d) s));
}

pub find-FoundAt : (c : ℕ) (d s : Text) (p : ℕ) → find (c ∷ d) s ≡ some p → FoundAt c d s p
find-FoundAt c d [] p h = cc
find-FoundAt c d (x ∷ s) p h = elim (Bool-cases (starts_with (c ∷ d) (x ∷ s))) [
  | inl here ↦ subst (FoundAt c d (x ∷ s)) (ground arith) (FoundAt-here c d x s here)
  | inr other ↦ elim (Option-cases (find (c ∷ d) s)) [
    | inl missing ↦ ground arith
    | inr (k, found) ↦
        subst (FoundAt c d (x ∷ s)) (ground arith)
          (FoundAt-later c d x s k other (find-FoundAt c d s k found))
  ]
]
