-- ===== src/Fat/Reading/Content.antt =====
-- The bytes that `read` copies.
use ivos.Base.{
  sub-zero, sym, ℕ, zero, suc, ◌+◌, ◌-◌, ◌≤◌, ◌<◌, ◌≡◌, Bool, true, refl, ap, Bool-cases, List, [],
  ◌∷◌, ◌++◌, done, inl, inr, arith, ltb, leb, ≤→leb, length, take, subst, append-nil,
}
use ivos.Fat.Disk.{Disk, bytes, fread, fseek}
use ivos.Fat.Volume.{Volume, cluster_size}
use ivos.Fat.Volume.Chain.{IsChain, Holds, AllHeld, contents, fseek-ok, get_next_cluster-ok}
use ivos.Fat.Reading.{bytes_to_read, read_chain}

sub-sub : (a b c : ℕ) → a - b - c ≡ a - (b + c)
sub-sub a b c = omega arith

suc_sub : (m k : ℕ) → suc m - suc k ≡ m - k
suc_sub m k = omega arith

none_left : (size n : ℕ) → leb size n ≡ true → size - n ≡ 0
none_left size n h = ground arith

all_read : (size n : ℕ) → size - (n + (size - n)) ≡ 0
all_read size n = omega arith

bytes_to_read-le : (size n k : ℕ) → bytes_to_read size n k ≤ k
bytes_to_read-le size n k = ground arith

take-nil : (n : ℕ) → take {A = ℕ} n [] ≡ []
take-nil zero = refl
take-nil (suc n) = refl

take-short :
    (d : Disk) (p m k : ℕ) (rest : List ℕ) → m ≤ k → take m (bytes d p k ++ rest) ≡ bytes d p m
take-short d p zero k rest h = refl
take-short d p (suc m) zero rest h = ground arith
take-short d p (suc m) (suc k) rest h =
    ap (λ bs. d.byte p ∷ bs) (take-short d (p + 1) m k rest (omega arith))

take-long :
    (d : Disk) (p m k : ℕ) (rest : List ℕ)
    → k ≤ m
    → take m (bytes d p k ++ rest) ≡ bytes d p k ++ take (m - k) rest
take-long d p m zero rest h = ap (λ j. take j rest) (sym (sub-zero m))
take-long d p zero (suc k) rest h = ground arith
take-long d p (suc m) (suc k) rest h =
    rw (suc_sub m k) (ap (λ bs. d.byte p ∷ bs) (take-long d (p + 1) m k rest (omega arith)))

-- What one round reads, and what is left for the others.
round_lem :
    (d : Disk) (p size n k : ℕ) (rest : List ℕ)
    → bytes d p (bytes_to_read size n k) ++ take (size - (n + bytes_to_read size n k)) rest
      ≡ take (size - n) (bytes d p k ++ rest)
round_lem d p size n k rest = elim (Bool-cases (ltb (size - n) k)) [
  | inl h ↦
      rw (h, take-short d p (size - n) k rest (ground arith), all_read size n)
        (append-nil (bytes d p (size - n)))
  | inr h ↦ rw (h, take-long d p (size - n) k rest (ground arith), sub-sub size n k) refl
]

-- The bytes copied are the first `file_size` bytes of the clusters of the chain.
pub read_chain-take :
    (d : Disk) (v : Volume) (ends : ℕ → Bool) (first_data rounds cluster file_size bytes_read : ℕ)
    (cs ps : List ℕ)
    → IsChain d v ends cluster cs
    → AllHeld d v first_data cs ps
    → length cs < rounds
    → read_chain d v ends first_data rounds cluster file_size bytes_read
      ≡ done (take (file_size - bytes_read) (contents d (cluster_size v) ps))
unfolding read_chain fread fseek
read_chain-take d v ends first_data zero cluster file_size bytes_read cs ps chain held enough =
    ground arith
read_chain-take d v ends first_data (suc rounds) cluster file_size bytes_read [] [] chain held
      enough =
    rw (chain, take-nil (file_size - bytes_read)) refl
read_chain-take d v ends first_data (suc rounds) cluster file_size bytes_read [] (p ∷ ps) chain held
      enough =
    elim held [ ]
read_chain-take d v ends first_data (suc rounds) cluster file_size bytes_read (c ∷ cs) [] chain held
      enough =
    elim held [ ]
read_chain-take d v ends first_data (suc rounds) cluster file_size bytes_read (c ∷ cs) (p ∷ ps)
      (same, more, chain) (here, held) enough =
    let here' = subst (λ x. Holds d v first_data x p) same here in
    elim (Bool-cases (leb file_size bytes_read)) [
      | inl all ↦ rw (more, all, none_left file_size bytes_read all) refl
      | inr left ↦
          rw
            (
              more,
              left,
              fseek-ok d v first_data cluster p here',
              ≤→leb (p + bytes_to_read file_size bytes_read (cluster_size v)) d.size (
                  omega
                    (arith, here'.content, bytes_to_read-le file_size bytes_read (cluster_size v))),
              get_next_cluster-ok d v cluster here'.small here'.link,
              read_chain-take d v ends first_data rounds _ file_size
                  (bytes_read + bytes_to_read file_size bytes_read (cluster_size v)) cs ps chain
                  held (omega arith),
            )
            (ap done (
              round_lem d p file_size bytes_read (cluster_size v) (contents d (cluster_size v) ps)))
    ]
