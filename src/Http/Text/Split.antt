-- ===== src/Http/Text/Split.antt =====
-- What `string_split` makes of a text.
use ivos.Base.{
  ℕ, zero, suc, ◌+◌, ◌<◌, ◌≡◌, refl, sym, Option-cases, inl, inr, List, [], ◌∷◌, ◌++◌, none,
  Outcome, done, arith, length, take,
}
use ivos.Http.Text.{Text, drop, find, remove_controls, split_loop, string_split}
use ivos.Http.Text.Find.{find-FoundAt}

-- The pieces with the delimiter between them.
abbrev pub join : (delimiter : Text) → List Text → Text
join delimiter [] = []
join delimiter (t ∷ []) = t
join delimiter (t ∷ u ∷ ts) = t ++ (delimiter ++ join delimiter (u ∷ ts))

-- All pieces but the last without their control characters.
abbrev pub cleaned : List Text → List Text
cleaned [] = []
cleaned (t ∷ []) = t ∷ []
cleaned (t ∷ u ∷ ts) = remove_controls t ∷ cleaned (u ∷ ts)

abbrev pub AllFree : (delimiter : Text) → List Text → Type 0
AllFree delimiter [] = Unit {0}
AllFree delimiter (t ∷ ts) = (find delimiter t ≡ none) × AllFree delimiter ts

-- A text cut at every place where the delimiter stands.
pub record Cut (delimiter input : Text) (result : Outcome (List Text)) : Type 0 where
  pub first : Text
  pub others : List Text
  pub joined : join delimiter (first ∷ others) ≡ input
  pub free : AllFree delimiter (first ∷ others)
  pub tokens : result ≡ done (cleaned (first ∷ others))

split_loop-Cut :
    (c : ℕ) (d : Text) (rounds : ℕ) (input : Text)
    → length input < rounds
    → Cut (c ∷ d) input (split_loop rounds input (c ∷ d))
unfolding split_loop
split_loop-Cut c d zero input enough = absurd (omega arith)
split_loop-Cut c d (suc rounds) input enough = elim (Option-cases (find (c ∷ d) input)) [
  | inl missing ↦ record {
    first = input;
    others = [];
    joined = refl;
    free = (missing, tt);
    tokens = rw missing refl;
  }
  | inr (p, found) ↦
      let at = find-FoundAt c d input p found in
      let rest =
        split_loop-Cut c d rounds (drop (p + length (c ∷ d)) input) (omega (arith, at.shorter)) in
      record {
        first = take p input;
        others = rest.first ∷ rest.others;
        joined = rw rest.joined (sym at.splits);
        free = (at.before, rest.free);
        tokens = rw (found, rest.tokens) refl;
      }
]

-- With a delimiter that is not empty, `string_split` returns: it cuts the text at every delimiter, the
-- pieces have none left and joined by it are the text, and from all tokens but the last the control
-- characters are gone.
pub string_split-Cut : (c : ℕ) (d input : Text) → Cut (c ∷ d) input (string_split input (c ∷ d))
unfolding string_split
string_split-Cut c d input = split_loop-Cut c d (suc (length input)) input (omega arith)
