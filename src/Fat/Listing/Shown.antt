-- ===== src/Fat/Listing/Shown.antt =====
-- What `list_files` prints of a directory that the image holds.
use ivos.Base.{
  ℕ, zero, suc, ◌+◌, ◌*◌, ◌/◌, ◌≤◌, ◌<◌, ◌≡◌, false, refl, Bool-cases, List, [], ◌∷◌, ◌++◌, map,
  done, if◌then◌else◌, arith, ≤→leb, eq→==, ◌==◌, length, subst, map-append, inl, inr,
}
use ivos.Fat.Disk.{Disk, fread, fseek}
use ivos.Fat.Entry.{Entry, entry_at, read_entry, print_entry}
use ivos.Fat.Volume.{Volume, first_data_sector, cluster_size, is_end_of_chain}
use ivos.Fat.Volume.Chain.{IsChain, Holds, AllHeld, fseek-ok, get_next_cluster-ok}
use ivos.Fat.Listing.{is_used, list_entries, list_chain, Place, list_files}

-- The entries that stand one after the other from a place.
abbrev pub entries_at : Disk → (off n : ℕ) → List Entry
entries_at d off zero = []
entries_at d off (suc n) = entry_at d off ∷ entries_at d (off + 32) n

abbrev pub entries_of : Disk → (n : ℕ) → (places : List ℕ) → List Entry
entries_of d n [] = []
entries_of d n (p ∷ ps) = entries_at d p n ++ entries_of d n ps

abbrev pub used : List Entry → List Entry
used [] = []
used (e ∷ es) = if is_used e then e ∷ used es else used es

used-++ : (es fs : List Entry) → used (es ++ fs) ≡ used es ++ used fs
used-++ [] fs = refl
used-++ (e ∷ es) fs = elim (Bool-cases (is_used e)) [
  | inl h ↦ rw (h, used-++ es fs) refl
  | inr h ↦ rw (h, used-++ es fs) refl
]

list_entries_lem :
    (d : Disk) (off n : ℕ)
    → off + 32 * n ≤ d.size
    → list_entries d off n ≡ done (map print_entry (used (entries_at d off n)))
unfolding list_entries read_entry fread
list_entries_lem d off zero h = refl
list_entries_lem d off (suc n) h = elim (Bool-cases (is_used (entry_at d off))) [
  | inl u ↦
      rw (≤→leb (off + 32) d.size (omega arith), list_entries_lem d (off + 32) n (omega arith), u)
        refl
  | inr u ↦
      rw (≤→leb (off + 32) d.size (omega arith), list_entries_lem d (off + 32) n (omega arith), u)
        refl
]

list_chain-Shown :
    (d : Disk) (v : Volume) (first_data rounds cluster : ℕ) (cs ps : List ℕ)
    → IsChain d v is_end_of_chain cluster cs
    → AllHeld d v first_data cs ps
    → length cs < rounds
    → list_chain d v first_data rounds cluster
      ≡ done (map print_entry (used (entries_of d (cluster_size v / 32) ps)))
unfolding list_chain fseek
list_chain-Shown d v first_data zero cluster cs ps chain held enough = ground arith
list_chain-Shown d v first_data (suc rounds) cluster [] [] chain held enough = rw chain refl
list_chain-Shown d v first_data (suc rounds) cluster [] (p ∷ ps) chain held enough = elim held [ ]
list_chain-Shown d v first_data (suc rounds) cluster (c ∷ cs) [] chain held enough = elim held [ ]
list_chain-Shown d v first_data (suc rounds) cluster (c ∷ cs) (p ∷ ps) (same, more, chain)
      (here, held) enough =
    let here' = subst (λ x. Holds d v first_data x p) same here in
    rw
      (
        more,
        fseek-ok d v first_data cluster p here',
        list_entries_lem d p (cluster_size v / 32) (omega (arith, here'.content)),
        get_next_cluster-ok d v cluster here'.small here'.link,
        list_chain-Shown d v first_data rounds _ cs ps chain held (omega arith),
        used-++ (entries_at d p (cluster_size v / 32)) (entries_of d (cluster_size v / 32) ps),
        map-append print_entry (used (entries_at d p (cluster_size v / 32)))
            (used (entries_of d (cluster_size v / 32) ps)),
      )
      refl

-- In a root directory that the image holds, `ls` prints all its used entries in order, each once, and
-- nothing else.
pub list_files-Root :
    (d : Disk) (v : Volume) (p : Place) (rounds : ℕ)
    → p.current_directory_offset ≡ p.root_directory_offset
    → p.root_directory_offset + 32 * v.root_dir_entries ≤ d.size
    → list_files d v p rounds
      ≡ done (map print_entry (used (entries_at d p.root_directory_offset v.root_dir_entries)))
unfolding list_files
list_files-Root d v p rounds at_root inside =
    rw
      (
        at_root,
        eq→== p.root_directory_offset p.root_directory_offset refl,
        list_entries_lem d p.root_directory_offset v.root_dir_entries inside,
      )
      refl

-- In another directory, from whose first cluster the table leads through held clusters to a mark of
-- 0xFFFF, `ls` ends with more rounds than clusters, and prints all its used entries, each once, cluster
-- after cluster in the order of the chain.
pub list_files-Shown :
    (d : Disk) (v : Volume) (p : Place) (rounds first_data : ℕ) (cs ps : List ℕ)
    → (p.current_directory_offset == p.root_directory_offset) ≡ false
    → first_data_sector v ≡ done first_data
    → IsChain d v is_end_of_chain p.starting_cluster cs
    → AllHeld d v first_data cs ps
    → length cs < rounds
    → list_files d v p rounds
      ≡ done (map print_entry (used (entries_of d (cluster_size v / 32) ps)))
unfolding list_files
list_files-Shown d v p rounds first_data cs ps below regions chain held enough =
    rw (below, regions)
      (list_chain-Shown d v first_data rounds p.starting_cluster cs ps chain held enough)
