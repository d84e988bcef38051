-- ===== src/Fat/Reading/Named.antt =====
-- Which entry has the name that `read` looks for.
use ivos.Base.{
  suc-add, zero-add, ℕ, ◌+◌, ◌≡◌, ◌==◌, Bool, true, false, ◌&&◌, ◌||◌, refl, Bool-cases, List, [],
  ◌∷◌, ◌++◌, done, inl, inr, arith, length, if◌then◌else◌,
}
use ivos.Fat.Reading.{strlen, strncmp_equal, name_matches}

abbrev pub AllNonZero : List ℕ → Type 0
AllNonZero [] = Unit {0}
AllNonZero (b ∷ bs) = ((b == 0) ≡ false) × AllNonZero bs

abbrev pub equal : List ℕ → List ℕ → Bool
equal [] [] = true
equal [] (y ∷ ys) = false
equal (x ∷ xs) [] = false
equal (x ∷ xs) (y ∷ ys) = if x == y then equal xs ys else false

strlen_lem :
    (n rest : List ℕ) (k : ℕ)
    → AllNonZero n
    → strlen rest ≡ done k
    → strlen (n ++ rest) ≡ done (length n + k)
strlen_lem [] rest k h r = rw (zero-add k) r
strlen_lem (b ∷ n) rest k (h, hs) r = rw (h, strlen_lem n rest k hs r, suc-add (length n) k) refl

if-done : (b : Bool) → (if b then done true else done false) ≡ done b
if-done true = refl
if-done false = refl

if-and : (a b : Bool) → (if a then done b else done false) ≡ done (a && b)
if-and true b = refl
if-and false b = refl

strncmp_equal_lem :
    (n m a b : List ℕ) (k : ℕ)
    → AllNonZero n
    → length n ≡ length m
    → strncmp_equal (length n + k) (n ++ a) (m ++ b)
      ≡ (if equal n m then strncmp_equal k a b else done false)
strncmp_equal_lem [] [] a b k h l = rw (zero-add k) refl
strncmp_equal_lem [] (y ∷ m) a b k h l = ground arith
strncmp_equal_lem (x ∷ n) [] a b k h l = ground arith
strncmp_equal_lem (x ∷ n) (y ∷ m) a b k (h, hs) l =
    rw (suc-add (length n) k) (elim (Bool-cases (x == y)) [
      | inl e ↦ rw (e, h) (strncmp_equal_lem n m a b k hs (omega arith))
      | inr e ↦ rw e refl
    ])

-- An entry whose eleven bytes of name and extension are not zero, and whose byte behind the
-- attributes is, matches exactly when these bytes are the wanted ones and its attributes are none at
-- all or those of an archive file alone: `strlen` runs on into the attributes.
pub name_matches_iff :
    (n m rest : List ℕ) (attributes : ℕ)
    → AllNonZero n
    → length n ≡ length m
    → name_matches (n ++ (attributes ∷ 0 ∷ rest)) (m ++ (0x20 ∷ []))
      ≡ done (equal n m && (attributes == 0 || attributes == 0x20))
unfolding name_matches
name_matches_iff n m rest attributes h l = elim (Bool-cases (attributes == 0)) [
  | inl z ↦
      rw
        (
          strlen_lem n (attributes ∷ 0 ∷ rest) 0 h (rw z refl),
          strncmp_equal_lem n m (attributes ∷ 0 ∷ rest) (0x20 ∷ []) 0 h l,
          z,
        )
        (if-and (equal n m) true)
  | inr z ↦
      rw
        (
          strlen_lem n (attributes ∷ 0 ∷ rest) 1 h (rw z refl),
          strncmp_equal_lem n m (attributes ∷ 0 ∷ rest) (0x20 ∷ []) 1 h l,
          z,
        )
        (rw (if-done (attributes == 0x20)) (if-and (equal n m) (attributes == 0x20)))
]
