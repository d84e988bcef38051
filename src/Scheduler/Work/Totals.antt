-- ===== src/Scheduler/Work/Totals.antt =====
-- Numbers of threads: a sum over the first `n` slots, and how often a slot stands in a queue.
use ivos.Base.{
  ℕ, zero, suc, ◌+◌, ◌≤◌, ◌<◌, ◌≡◌, ◌≢◌, refl, ap, pos, eqb_ℤ, [], ◌∷◌, ◌++◌, arith, dec_lt,
  if◌then◌else◌,
}
use ivos.Queue.Chain.{Cells}

abbrev pub total : ℕ → (ℕ → ℕ) → ℕ
total zero w = 0
total (suc n) w = total n w + w n

pub total-same : (n : ℕ) (w v : ℕ → ℕ) → ((j : ℕ) → j < n → w j ≡ v j) → total n w ≡ total n v
total-same zero w v same = refl
total-same (suc n) w v same =
    omega (arith, total-same n w v (λ j l. same j (omega arith)), same n (omega arith))

-- One summand changes.
pub total-change :
    (n i : ℕ) (w v : ℕ → ℕ)
    → i < n
    → ((j : ℕ) → j < n → j ≢ i → w j ≡ v j)
    → total n w + v i ≡ total n v + w i
total-change zero i w v l same = absurd (omega arith)
total-change (suc n) i w v l same = elim (dec_lt i n) [
  | yes below ↦ omega (
    arith,
    total-change n i w v below (λ j m ne. same j (omega arith) ne),
    same n (omega arith) (λ e. absurd (omega arith)),
  )
  | no last ↦
      let at : n ≡ i = omega arith in
      let before = total-same n w v (λ j m. same j (omega arith) (λ e. absurd (omega arith))) in
      omega (arith, before, ap w at, ap v at)
]

pub total-ge : (n i : ℕ) (w : ℕ → ℕ) → i < n → w i ≤ total n w
total-ge zero i w l = absurd (omega arith)
total-ge (suc n) i w l = elim (dec_lt i n) [
  | yes below ↦ omega (arith, total-ge n i w below)
  | no last ↦ let at : n ≡ i = omega arith in omega (arith, ap w at)
]

total-ge_two : (n i j : ℕ) (w : ℕ → ℕ) → i < j → j < n → w i + w j ≤ total n w
total-ge_two zero i j w l m = absurd (omega arith)
total-ge_two (suc n) i j w l m = elim (dec_lt j n) [
  | yes below ↦ omega (arith, total-ge_two n i j w l below)
  | no last ↦ let at : n ≡ j = omega arith in omega (arith, total-ge n i w (omega arith), ap w at)
]

-- With a sum of at most one, no two summands are there.
pub total-one : (n i j : ℕ) (w : ℕ → ℕ) → total n w ≤ 1 → i < n → j < n → w i ≡ 1 → w j ≡ 1 → i ≡ j
total-one n i j w le li lj wi wj = elim (dec_lt i j) [
  | yes l ↦ absurd (omega (arith, total-ge_two n i j w l lj))
  | no nl ↦ elim (dec_lt j i) [
    | yes l ↦ absurd (omega (arith, total-ge_two n j i w l li))
    | no nl' ↦ omega arith
  ]
]

-- A sum that is not zero has a summand that is not.
pub total-some : (n : ℕ) (w : ℕ → ℕ) → 0 < total n w → (i : ℕ) × (i < n) × (0 < w i)
total-some zero w l = absurd (omega arith)
total-some (suc n) w l = elim (dec_lt 0 (w n)) [
  | yes here ↦ (n, omega arith, here)
  | no other ↦ let (i, below, there) = total-some n w (omega arith) in (i, omega arith, there)
]

-- How often slot `j` stands in the queue.
abbrev pub listed : ℕ → Cells → ℕ
listed j [] = 0
listed j ((a, z) ∷ xs) = (if eqb_ℤ z (pos j) then 1 else 0) + listed j xs

pub listed-append : (j : ℕ) (xs ys : Cells) → listed j (xs ++ ys) ≡ listed j xs + listed j ys
listed-append j [] ys = omega arith
listed-append j ((a, z) ∷ xs) ys = omega (arith, listed-append j xs ys)

-- All items are slots of the table.
abbrev pub AllSlots : Cells → Type 0
AllSlots [] = Unit {0}
AllSlots ((a, z) ∷ xs) = ((i : ℕ) × (z ≡ pos i) × (i < 5)) × AllSlots xs

pub AllSlots-append : (xs ys : Cells) → AllSlots xs → AllSlots ys → AllSlots (xs ++ ys)
AllSlots-append [] ys hx hy = hy
AllSlots-append ((a, z) ∷ xs) ys hx hy = (hx.0, AllSlots-append xs ys hx.1 hy)

pub listed-pos : (i j a : ℕ) (xs : Cells) → j ≢ i → listed j ((a, pos i) ∷ xs) ≡ listed j xs
listed-pos i j a xs ne = ground arith

pub listed_self : (i a : ℕ) (xs : Cells) → listed i ((a, pos i) ∷ xs) ≡ listed i xs + 1
listed_self i a xs = ground arith

-- The slots of the table, one by one.
pub each_slot {ℓ} : (P : ℕ → Type ℓ) → P 0 → P 1 → P 2 → P 3 → P 4 → (j : ℕ) → j < 5 → P j
each_slot P a b c d e zero l = a
each_slot P a b c d e (suc zero) l = b
each_slot P a b c d e (suc (suc zero)) l = c
each_slot P a b c d e (suc (suc (suc zero))) l = d
each_slot P a b c d e (suc (suc (suc (suc zero)))) l = e
each_slot P a b c d e (suc (suc (suc (suc (suc j))))) l = absurd (omega arith)
