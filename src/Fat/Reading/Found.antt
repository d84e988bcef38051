-- ===== src/Fat/Reading/Found.antt =====
-- The whole of `read`: the search for the entry, and its content.
use ivos.Base.{
  sub-zero, ℕ, ◌+◌, ◌*◌, ◌/◌, ◌≤◌, ◌<◌, ◌≡◌, ◌==◌, false, ap, List, done, some, none, length, take,
  eq→==, refl,
}
use ivos.Fat.Disk.{Disk}
use ivos.Fat.Entry.{entry_at}
use ivos.Fat.Volume.{Volume, first_data_sector, cluster_size, is_end_of_chain}
use ivos.Fat.Volume.Chain.{IsChain, AllHeld, contents}
use ivos.Fat.Search.First.{
  IsFirst, AreOthers, find_entry-none, IsFirstIn, find_entry-first, find_in_chain-first,
}
use ivos.Fat.Listing.{Place}
use ivos.Fat.Reading.{is_wanted, is_end_mark, namecmp, read}
use ivos.Fat.Reading.Content.{read_chain-take}

-- In a root directory that the image holds, `read` copies the first entry that has the wanted name,
-- when all before it are not wanted and the table leads from its first cluster through held clusters to
-- a mark of 0xFFF8 or more: with more rounds than clusters, it returns as many bytes as the size of the
-- entry says, or all there are if these are fewer, from the clusters in the order of the chain.
pub read-Content :
    (d : Disk) (v : Volume) (p : Place) (rounds : ℕ) (name ext : List ℕ) (first_data before : ℕ)
    (cs ps : List ℕ)
    → p.current_directory_offset ≡ p.root_directory_offset
    → first_data_sector v ≡ done first_data
    → before < v.root_dir_entries
    → p.current_directory_offset + 32 * v.root_dir_entries ≤ d.size
    → IsFirst p.current_directory_offset before (is_wanted d (namecmp name ext))
    → let e = entry_at d (p.current_directory_offset + 32 * before) in
      IsChain d v is_end_mark e.starting_cluster cs
      → AllHeld d v first_data cs ps
      → length cs < rounds
      → read d v p rounds name ext ≡ done (some (take e.file_size (contents d (cluster_size v) ps)))
unfolding read
read-Content d v p rounds name ext first_data before cs ps at_root regions less inside first chain
      held enough =
    rw
      (
        regions,
        eq→== p.current_directory_offset p.root_directory_offset at_root,
        find_entry-first d p.current_directory_offset v.root_dir_entries before
            (is_wanted d (namecmp name ext)) less inside first,
        read_chain-take d v is_end_mark first_data rounds _ _ 0 cs ps chain held enough,
      )
      (ap (λ n. done (some (take n (contents d (cluster_size v) ps)))) (sub-zero _))

-- When the image holds the root directory and no used entry of it has the wanted name, nothing is
-- copied and the message is printed.
pub read-Missing :
    (d : Disk) (v : Volume) (p : Place) (rounds : ℕ) (name ext : List ℕ) (first_data : ℕ)
    → p.current_directory_offset ≡ p.root_directory_offset
    → first_data_sector v ≡ done first_data
    → p.current_directory_offset + 32 * v.root_dir_entries ≤ d.size
    → AreOthers p.current_directory_offset v.root_dir_entries (is_wanted d (namecmp name ext))
    → read d v p rounds name ext ≡ done none
unfolding read
read-Missing d v p rounds name ext first_data at_root regions inside others =
    rw
      (
        regions,
        eq→== p.current_directory_offset p.root_directory_offset at_root,
        find_entry-none d p.current_directory_offset v.root_dir_entries
            (is_wanted d (namecmp name ext)) inside others,
      )
      refl

-- In another directory, whose clusters the image holds, `read` copies the first entry of the clusters
-- that has the wanted name, when the tables lead from the directory's and from the entry's first
-- cluster through held clusters to a mark of 0xFFFF: with more rounds than either has clusters, it
-- returns as many bytes as the size of the entry says, or all there are, in the order of the chain.
read-Deeper :
    (d : Disk) (v : Volume) (p : Place) (rounds : ℕ) (name ext : List ℕ) (first_data found : ℕ)
    (directory directory_places cs ps : List ℕ)
    → (p.current_directory_offset == p.root_directory_offset) ≡ false
    → first_data_sector v ≡ done first_data
    → IsChain d v is_end_of_chain p.starting_cluster directory
    → AllHeld d v first_data directory directory_places
    → length directory < rounds
    → IsFirstIn (cluster_size v / 32) directory_places found (is_wanted d (namecmp name ext))
    → IsChain d v is_end_of_chain (entry_at d found).starting_cluster cs
    → AllHeld d v first_data cs ps
    → length cs < rounds
    → read d v p rounds name ext
      ≡ done (some (take (entry_at d found).file_size (contents d (cluster_size v) ps)))
unfolding read
read-Deeper d v p rounds name ext first_data found directory directory_places cs ps below regions
      chain held enough first chain' held' enough' =
    rw
      (
        regions,
        below,
        find_in_chain-first d v first_data rounds p.starting_cluster
            (is_wanted d (namecmp name ext)) directory directory_places found chain held enough
            first,
        read_chain-take d v is_end_of_chain first_data rounds _ _ 0 cs ps chain' held' enough',
      )
      (ap (λ n. done (some (take n (contents d (cluster_size v) ps)))) (sub-zero _))
