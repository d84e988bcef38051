-- ===== src/Http/Text/Join.antt =====
-- `string_split` takes apart what was joined.
use ivos.Base.{
  suc-add, zero-add, ℕ, zero, suc, ◌+◌, ◌≤◌, ◌<◌, ◌≡◌, refl, ap, List, [], ◌∷◌, ◌++◌, none, done,
  arith, length, take,
}
use ivos.Http.Text.{Text, drop, find, split_loop, string_split}
use ivos.Http.Text.Find.{Lacks, find-append}
use ivos.Http.Text.Split.{join, cleaned}

-- The first byte of the delimiter is in no piece but perhaps the last, and the delimiter not there.
abbrev pub Pieces : (c : ℕ) (d : Text) → List Text → Type 0
Pieces c d [] = ⊥
Pieces c d (t ∷ []) = find (c ∷ d) t ≡ none
Pieces c d (t ∷ u ∷ ts) = Lacks c t × Pieces c d (u ∷ ts)

take-append : (t rest : Text) → take (length t) (t ++ rest) ≡ t
take-append [] rest = refl
take-append (x ∷ t) rest = ap (λ l. x ∷ l) (take-append t rest)

pub drop-append : (t rest : Text) → drop (length t) (t ++ rest) ≡ rest
drop-append [] rest = refl
drop-append (x ∷ t) rest = drop-append t rest

drop-drop : (n : ℕ) (t rest : Text) → drop (length t + n) (t ++ rest) ≡ drop n rest
drop-drop n [] rest = ap (λ k. drop k rest) (zero-add n)
drop-drop n (x ∷ t) rest = rw (suc-add (length t) n) (drop-drop n t rest)

pub length-append : (s t : Text) → length (s ++ t) ≡ length s + length t
length-append [] t = omega arith
length-append (x ∷ s) t = omega (arith, length-append s t)

length-join : (c : ℕ) (d t : Text) (ts : List Text) → length ts ≤ length (join (c ∷ d) (t ∷ ts))
length-join c d t [] = omega arith
length-join c d t (u ∷ ts) = omega (
  arith,
  length-join c d u ts,
  length-append t ((c ∷ d) ++ join (c ∷ d) (u ∷ ts)),
  length-append d (join (c ∷ d) (u ∷ ts)),
)

split_loop-join :
    (c : ℕ) (d t : Text) (ts : List Text) (rounds : ℕ)
    → Pieces c d (t ∷ ts)
    → length ts < rounds
    → split_loop rounds (join (c ∷ d) (t ∷ ts)) (c ∷ d) ≡ done (cleaned (t ∷ ts))
unfolding split_loop
split_loop-join c d t ts zero p enough = absurd (omega arith)
split_loop-join c d t [] (suc rounds) free enough = rw free refl
split_loop-join c d t (u ∷ ts) (suc rounds) (lacks, p) enough =
    rw
      (
        find-append c d t (join (c ∷ d) (u ∷ ts)) lacks,
        drop-drop (suc (length d)) t ((c ∷ d) ++ join (c ∷ d) (u ∷ ts)),
        drop-append d (join (c ∷ d) (u ∷ ts)),
        split_loop-join c d u ts rounds p (omega arith),
        take-append t ((c ∷ d) ++ join (c ∷ d) (u ∷ ts)),
      )
      refl

pub string_split-join :
    (c : ℕ) (d t : Text) (ts : List Text)
    → Pieces c d (t ∷ ts)
    → string_split (join (c ∷ d) (t ∷ ts)) (c ∷ d) ≡ done (cleaned (t ∷ ts))
unfolding string_split
string_split-join c d t ts p =
    split_loop-join c d t ts (suc (length (join (c ∷ d) (t ∷ ts)))) p
      (omega (arith, length-join c d t ts))
