-- ===== src/Fat/Volume/Chain.antt =====
-- The clusters that the table links.
use ivos.Base.{
  ℕ, ◌+◌, ◌≤◌, ◌<◌, refl, ≤→leb, <→ltb, ◌≡◌, Bool, true, false, List, [], ◌∷◌, ◌++◌, done, arith,
  pos,
}
use ivos.Fat.Disk.{Disk, bytes, fread, fseek, as_int, u16_at}
use ivos.Fat.Volume.{Volume, cluster_size, cluster_offset, fat_entry_offset, get_next_cluster}

-- From `cluster` the table leads through the clusters of the list to a mark that `ends` the chain.
abbrev pub IsChain : Disk → Volume → (ends : ℕ → Bool) → ℕ → List ℕ → Type 0
IsChain d v ends cluster [] = ends cluster ≡ true
IsChain d v ends cluster (c ∷ cs) =
    (c ≡ cluster)
    × (ends cluster ≡ false)
    × IsChain d v ends (u16_at d (fat_entry_offset v cluster)) cs

-- The image holds the cluster at `place`, and its entry in the table.
pub record Holds (d : Disk) (v : Volume) (first_data cluster place : ℕ) : Type 0 where
  pub at_place : cluster_offset v first_data cluster ≡ pos place
  pub content : place + cluster_size v ≤ d.size
  pub small : d.size < 0x80000000
  pub link : fat_entry_offset v cluster + 2 ≤ d.size

-- The image holds the clusters of a list, at the places of another.
abbrev pub AllHeld : Disk → Volume → ℕ → (clusters places : List ℕ) → Type 0
AllHeld d v first_data [] [] = Unit {0}
AllHeld d v first_data [] (p ∷ ps) = ⊥
AllHeld d v first_data (c ∷ cs) [] = ⊥
AllHeld d v first_data (c ∷ cs) (p ∷ ps) = Holds d v first_data c p × AllHeld d v first_data cs ps

-- The clusters' bytes, one cluster after the other.
abbrev pub contents : Disk → (cluster_bytes : ℕ) → (places : List ℕ) → List ℕ
contents d k [] = []
contents d k (p ∷ ps) = bytes d p k ++ contents d k ps

pub fseek-ok :
    (d : Disk) (v : Volume) (first_data c p : ℕ)
    → Holds d v first_data c p
    → fseek (cluster_offset v first_data c) ≡ done p
unfolding fseek as_int
fseek-ok d v first_data c p h =
    rw (h.at_place, <→ltb p 0x80000000 (omega (arith, h.content, h.small))) refl

pub get_next_cluster-ok :
    (d : Disk) (v : Volume) (c : ℕ)
    → d.size < 0x80000000
    → fat_entry_offset v c + 2 ≤ d.size
    → get_next_cluster d v c ≡ done (u16_at d (fat_entry_offset v c))
unfolding get_next_cluster fseek as_int fread
get_next_cluster-ok d v c small h =
    rw
      (
        <→ltb (fat_entry_offset v c) 0x80000000 (omega arith),
        ≤→leb (fat_entry_offset v c + 2) d.size h,
      )
      refl
