-- ===== src/Http/Server/Queue.antt =====
-- How often a number is in the queue /available of http_server/core/Server.cpp, and its length.
use ivos.Base.{
  ℕ, zero, suc, ◌+◌, ◌≤◌, ◌<◌, ◌==◌, ◌≡◌, ◌≢◌, refl, eq→==, ==→eq, Bool-cases, inl, inr, List, [],
  ◌∷◌, ◌++◌, arith, length, if◌then◌else◌,
}
use ivos.Http.Server.{element, client_index}

abbrev pub count : (pid : ℕ) → List ℕ → ℕ
count pid [] = 0
count pid (p ∷ ps) = (if p == pid then 1 else 0) + count pid ps

pub count-snoc :
    (pid p : ℕ) (ps : List ℕ)
    → count pid (ps ++ (p ∷ [])) ≡ count pid ps + (if p == pid then 1 else 0)
count-snoc pid p [] = omega arith
count-snoc pid p (x ∷ ps) = omega (arith, count-snoc pid p ps)

pub length-snoc {ℓ} : {A : Type ℓ} (x : A) (xs : List A) → length (xs ++ (x ∷ [])) ≡ suc (length xs)
length-snoc x [] = refl
length-snoc x (y ∷ xs) = omega (arith, length-snoc x xs)

-- All processes of the queue are in the vector.
abbrev pub IsKnown : (ps queue : List ℕ) → Type 0
IsKnown ps [] = Unit {0}
IsKnown ps (p ∷ queue) = (p ≢ 0) × (client_index p ps < length ps) × IsKnown ps queue

pub IsKnown-snoc :
    (ps : List ℕ) (p : ℕ) (queue : List ℕ)
    → p ≢ 0
    → client_index p ps < length ps
    → IsKnown ps queue
    → IsKnown ps (queue ++ (p ∷ []))
IsKnown-snoc ps p [] positive found known = (positive, found, tt)
IsKnown-snoc ps p (q ∷ queue) positive found (hp, hf, known) =
    (hp, hf, IsKnown-snoc ps p queue positive found known)

pub element-client_index :
    (p : ℕ) (ps : List ℕ) → client_index p ps < length ps → element (client_index p ps) ps ≡ p
element-client_index p [] found = absurd (omega arith)
element-client_index p (q ∷ ps) found = elim (Bool-cases (q == p)) [
  | inl here ↦ rw here (==→eq q p here)
  | inr other ↦ rw other (element-client_index p ps (ground arith))
]

pub client_index-element :
    (i : ℕ) (ps : List ℕ) → element i ps ≢ 0 → client_index (element i ps) ps < length ps
client_index-element i [] positive = absurd (positive refl)
client_index-element zero (p ∷ ps) positive = ground arith
client_index-element (suc i) (p ∷ ps) positive =
    let rest = client_index-element i ps positive in ground arith

pub element-positive : (i : ℕ) (ps : List ℕ) → element i ps ≢ 0 → i < length ps
element-positive i [] positive = absurd (positive refl)
element-positive zero (p ∷ ps) positive = omega arith
element-positive (suc i) (p ∷ ps) positive = omega (arith, element-positive i ps positive)

-- The counts of the elements of a vector, added up.
abbrev sum_counts : (ps queue : List ℕ) → ℕ
sum_counts [] queue = 0
sum_counts (p ∷ ps) queue = count p queue + sum_counts ps queue

sum_counts_le :
    (ps queue : List ℕ)
    → ((i : ℕ) → i < length ps → count (element i ps) queue ≤ 1)
    → sum_counts ps queue ≤ length ps
sum_counts_le [] queue once = omega arith
sum_counts_le (p ∷ ps) queue once =
    let first = once 0 (omega arith) in
    let rest = sum_counts_le ps queue (λ i h. once (suc i) (omega arith)) in omega arith

-- One process more in the queue.
sum_counts-more :
    (ps : List ℕ) (p : ℕ) (queue : List ℕ) → sum_counts ps queue ≤ sum_counts ps (p ∷ queue)
sum_counts-more [] p queue = omega arith
sum_counts-more (q ∷ ps) p queue = let rest = sum_counts-more ps p queue in omega arith

sum_counts-cons :
    (ps : List ℕ) (p : ℕ) (queue : List ℕ)
    → client_index p ps < length ps
    → suc (sum_counts ps queue) ≤ sum_counts ps (p ∷ queue)
sum_counts-cons [] p queue found = absurd (omega arith)
sum_counts-cons (q ∷ ps) p queue found = elim (Bool-cases (q == p)) [
  | inl here ↦
      let rest = sum_counts-more ps p queue in
      rw (eq→== p q (omega (arith, ==→eq q p here))) (omega arith)
  | inr other ↦ let rest = sum_counts-cons ps p queue (ground arith) in ground arith
]

length_le-sum_counts : (ps queue : List ℕ) → IsKnown ps queue → length queue ≤ sum_counts ps queue
length_le-sum_counts ps [] known = omega arith
length_le-sum_counts ps (p ∷ queue) (positive, found, known) =
    omega (arith, length_le-sum_counts ps queue known, sum_counts-cons ps p queue found)

-- A queue that has each process at most once and no others is no longer than the vector.
pub length_le :
    (ps queue : List ℕ)
    → IsKnown ps queue
    → ((i : ℕ) → i < length ps → count (element i ps) queue ≤ 1)
    → length queue ≤ length ps
length_le ps queue known once =
    omega (arith, length_le-sum_counts ps queue known, sum_counts_le ps queue once)
