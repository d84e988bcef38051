-- ===== src/Http/Text/After.antt =====
-- What stands behind a delimiter.
use ivos.Base.{
  ℕ, ◌+◌, ◌≡◌, true, false, refl, ap, ◌∙◌, eq→==, Option-cases, inl, inr, suc-add, [], ◌∷◌, ◌++◌,
  Option, none, some, length, maybe,
}
use ivos.Http.Text.{Text, drop, starts_with, find}
use ivos.Http.Text.Find.{Lacks}

-- What stands behind the first delimiter.
abbrev pub after : (delimiter s : Text) → Option Text
after delimiter s = maybe (find delimiter s) none λ p. some (drop (p + length delimiter) s)

pub after-cons :
    (d : Text) (x : ℕ) (s : Text) → starts_with d (x ∷ s) ≡ false → after d (x ∷ s) ≡ after d s
after-cons d x s other = elim (Option-cases (find d s)) [
  | inl missing ↦ rw (other, missing) refl
  | inr (p, found) ↦ rw (other, found) (ap (λ k. some (drop k (x ∷ s))) (suc-add p (length d)))
]

pub after-skip :
    (c : ℕ) (d t rest : Text) → Lacks c t → after (c ∷ d) (t ++ rest) ≡ after (c ∷ d) rest
after-skip c d [] rest h = refl
after-skip c d (x ∷ t) rest (h, hs) =
    after-cons (c ∷ d) x (t ++ rest) (rw h refl) ∙ after-skip c d t rest hs

pub starts_with-append : (t rest : Text) → starts_with t (t ++ rest) ≡ true
starts_with-append [] rest = refl
starts_with-append (x ∷ t) rest = rw (eq→== x x refl) (starts_with-append t rest)
