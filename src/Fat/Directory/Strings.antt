-- ===== src/Fat/Directory/Strings.antt =====
-- The string of the prompt.
use ivos.Base.{
  ℕ, zero, suc, ◌+◌, ◌≤◌, ◌<◌, ◌≡◌, ◌==◌, false, refl, ap, none, some, List, [], ◌∷◌, ◌++◌, length,
  take, arith,
}
use ivos.Fat.Directory.{slash, left_of_last, remove_right_including, with_directory}

abbrev pub IsPlain : (name : List ℕ) → Type 0
IsPlain [] = Unit {0}
IsPlain (c ∷ cs) = ((c == slash) ≡ false) × IsPlain cs

take-all : (n : ℕ) (xs : List ℕ) → length xs ≤ n → take n xs ≡ xs
take-all zero [] h = refl
take-all zero (x ∷ xs) h = ground arith
take-all (suc n) [] h = refl
take-all (suc n) (x ∷ xs) h = ap (λ ys. x ∷ ys) (take-all n xs (omega arith))

length-++ : (xs ys : List ℕ) → length (xs ++ ys) ≡ length xs + length ys
length-++ [] ys = ground arith
length-++ (x ∷ xs) ys = rw (length-++ xs ys) (omega arith)

left_of_last-plain : (name : List ℕ) → IsPlain name → left_of_last name slash ≡ none
left_of_last-plain [] plain = refl
left_of_last-plain (c ∷ cs) (p, plain) = rw (left_of_last-plain cs plain, p) refl

left_of_last-++ :
    (path name : List ℕ) → IsPlain name → left_of_last (path ++ (slash ∷ name)) slash ≡ some path
left_of_last-++ [] name plain = rw (left_of_last-plain name plain) refl
left_of_last-++ (c ∷ cs) name plain = rw (left_of_last-++ cs name plain) refl

-- When the name of a directory has no slash and the string holds it, cutting at the last slash takes
-- off what entering the directory appended.
pub remove_right_including-with_directory :
    (path name : List ℕ)
    → IsPlain name
    → length path + length name < 1023
    → remove_right_including (with_directory path name) slash ≡ path
unfolding remove_right_including
remove_right_including-with_directory path name plain fits =
    rw
      (
        take-all 1023 (path ++ (slash ∷ name)) (rw (length-++ path (slash ∷ name)) (omega arith)),
        left_of_last-++ path name plain,
      )
      refl
