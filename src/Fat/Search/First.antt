-- ===== src/Fat/Search/First.antt =====
-- Which entry the search finds.
use ivos.Base.{
  ℕ, zero, suc, ◌+◌, ◌*◌, ◌/◌, ◌≤◌, ◌<◌, ◌≡◌, ◌⊎◌, Bool, true, false, refl, ap, sym, subst, List,
  [], ◌∷◌, Outcome, done, none, some, inl, inr, arith, length, ≤→leb,
}
use ivos.Fat.Disk.{Disk, fread, fseek}
use ivos.Fat.Entry.{entry_at, read_entry}
use ivos.Fat.Volume.{Volume, cluster_size, is_end_of_chain}
use ivos.Fat.Volume.Chain.{IsChain, Holds, AllHeld, fseek-ok, get_next_cluster-ok}
use ivos.Fat.Search.{find_entry, find_in_chain}

-- The entries from a place are refused by the test, except for the last.
abbrev pub IsFirst : (off before : ℕ) → (test : ℕ → Outcome Bool) → Type 0
IsFirst off zero test = test off ≡ done true
IsFirst off (suc n) test = (test off ≡ done false) × IsFirst (off + 32) n test

abbrev pub AreOthers : (off entries : ℕ) → (test : ℕ → Outcome Bool) → Type 0
AreOthers off zero test = Unit {0}
AreOthers off (suc n) test = (test off ≡ done false) × AreOthers (off + 32) n test

place_zero : (off : ℕ) → off ≡ off + 32 * 0
place_zero off = omega arith

place_suc : (off n : ℕ) → off + 32 * suc n ≡ off + 32 + 32 * n
place_suc off n = omega arith

pub find_entry-first :
    (d : Disk) (off n before : ℕ) (test : ℕ → Outcome Bool)
    → before < n
    → off + 32 * n ≤ d.size
    → IsFirst off before test
    → find_entry d test off n ≡ done (some (entry_at d (off + 32 * before)))
unfolding find_entry read_entry fread
find_entry-first d off zero before test less inside first = ground arith
find_entry-first d off (suc n) zero test less inside first =
    rw (≤→leb (off + 32) d.size (omega arith), first)
      (ap (λ o. done (some (entry_at d o))) (place_zero off))
find_entry-first d off (suc n) (suc before) test less inside (other, first) =
    rw
      (
        ≤→leb (off + 32) d.size (omega arith),
        other,
        find_entry-first d (off + 32) n before test (omega arith) (omega arith) first,
      )
      (ap (λ o. done (some (entry_at d o))) (sym (place_suc off before)))

pub find_entry-none :
    (d : Disk) (off n : ℕ) (test : ℕ → Outcome Bool)
    → off + 32 * n ≤ d.size
    → AreOthers off n test
    → find_entry d test off n ≡ done none
unfolding find_entry read_entry fread
find_entry-none d off zero test inside others = refl
find_entry-none d off (suc n) test inside (other, others) =
    rw
      (
        ≤→leb (off + 32) d.size (omega arith),
        other,
        find_entry-none d (off + 32) n test (omega arith) others,
      )
      refl

-- The first entry that passes the test of the clusters at the places, with `n` entries in each, is at `found`.
abbrev pub IsFirstIn :
    (n : ℕ) → (places : List ℕ) → (found : ℕ) → (test : ℕ → Outcome Bool) → Type 0
IsFirstIn n [] found test = ⊥
IsFirstIn n (p ∷ ps) found test =
    ((before : ℕ) × (before < n) × (found ≡ p + 32 * before) × IsFirst p before test)
    ⊎ (AreOthers p n test × IsFirstIn n ps found test)

pub find_in_chain-first :
    (d : Disk) (v : Volume) (first_data rounds cluster : ℕ) (test : ℕ → Outcome Bool)
    (cs ps : List ℕ) (found : ℕ)
    → IsChain d v is_end_of_chain cluster cs
    → AllHeld d v first_data cs ps
    → length cs < rounds
    → IsFirstIn (cluster_size v / 32) ps found test
    → find_in_chain d v test first_data rounds cluster ≡ done (some (entry_at d found))
unfolding find_in_chain fseek
find_in_chain-first d v first_data zero cluster test cs ps found chain held enough first =
    ground arith
find_in_chain-first d v first_data (suc rounds) cluster test [] [] found chain held enough first =
    elim first [ ]
find_in_chain-first d v first_data (suc rounds) cluster test [] (p ∷ ps) found chain held enough
      first =
    elim held [ ]
find_in_chain-first d v first_data (suc rounds) cluster test (c ∷ cs) [] found chain held enough
      first =
    elim held [ ]
find_in_chain-first d v first_data (suc rounds) cluster test (c ∷ cs) (p ∷ ps) found
      (same, more, chain) (here, held) enough first =
    let here' = subst (λ x. Holds d v first_data x p) same here in
    elim first [
      | inl (before, less, at, first) ↦
          rw
            (
              more,
              fseek-ok d v first_data cluster p here',
              find_entry-first d p (cluster_size v / 32) before test less
                  (omega (arith, here'.content)) first,
            )
            (ap (λ o. done (some (entry_at d o))) (sym at))
      | inr (others, first) ↦
          rw
            (
              more,
              fseek-ok d v first_data cluster p here',
              find_entry-none d p (cluster_size v / 32) test (omega (arith, here'.content)) others,
              get_next_cluster-ok d v cluster here'.small here'.link,
            )
            (find_in_chain-first d v first_data rounds _ test cs ps found chain held (omega arith)
              first)
    ]
