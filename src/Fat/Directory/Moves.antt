-- ===== src/Fat/Directory/Moves.antt =====
-- Where `cd` leads.
use ivos.Base.{
  ℕ, ◌+◌, ◌*◌, ◌/◌, ◌≤◌, ◌<◌, ◌≡◌, ◌==◌, ==→eq, Bool-cases, inl, inr, <→leb, Bool, ◌⊎◌, [], ◌∷◌,
  ◌>>=◌, leb, false, true, refl, ap, List, done, length, arith, eq→==, ≤→leb, if◌then◌else◌,
}
use ivos.Fat.Disk.{Disk}
use ivos.Fat.Entry.{Entry, entry_at}
use ivos.Fat.Volume.{Volume, first_data_sector, cluster_size, is_end_of_chain}
use ivos.Fat.Volume.Chain.{IsChain, AllHeld}
use ivos.Fat.Search.First.{
  IsFirst, AreOthers, IsFirstIn, find_entry-first, find_entry-none, find_in_chain-first,
}
use ivos.Fat.Reading.{padded}
use ivos.Fat.Directory.{
  Shell, slash, moved, remove_right_including, is_directory_named, enter_from_root,
  enter_from_below, change_directory,
}
use ivos.Fat.Directory.Strings.{IsPlain, remove_right_including-with_directory}

if-same : (b : Bool) {s : Shell} → (if b then done s else done s) ≡ done s
if-same true = refl
if-same false = refl

-- From the root directory, `cd` takes the first directory entry with the name, wherever it is among
-- the entries: its cluster, its offset, and the name appended to the prompt.
pub change_directory-Down :
    (d : Disk) (v : Volume) (rounds first_data before : ℕ) (name : List ℕ) (s : Shell)
    → length name ≤ 8
    → first_data_sector v ≡ done first_data
    → s.place.current_directory_offset ≡ s.place.root_directory_offset
    → before < v.root_dir_entries
    → s.place.current_directory_offset + 32 * v.root_dir_entries ≤ d.size
    → IsFirst s.place.current_directory_offset before (is_directory_named d (padded 8 name))
    → change_directory d v rounds name s
      ≡ done
          (enter_from_root v s name (entry_at d (s.place.current_directory_offset + 32 * before)))
unfolding change_directory
change_directory-Down d v rounds first_data before name s short regions at_root less inside first =
    rw
      (
        ≤→leb (length name) 8 short,
        regions,
        eq→== s.place.current_directory_offset s.place.root_directory_offset at_root,
        find_entry-first d s.place.current_directory_offset v.root_dir_entries before
            (is_directory_named d (padded 8 name)) less inside first,
      )
      refl

-- In a root directory that the image holds, `cd` to a name longer than eight bytes, or to one that no
-- directory entry has, changes nothing.
pub change_directory-Missing :
    (d : Disk) (v : Volume) (rounds first_data : ℕ) (name : List ℕ) (s : Shell)
    → first_data_sector v ≡ done first_data
    → s.place.current_directory_offset ≡ s.place.root_directory_offset
    → s.place.current_directory_offset + 32 * v.root_dir_entries ≤ d.size
    → (8 < length name)
      ⊎ AreOthers s.place.current_directory_offset v.root_dir_entries
          (is_directory_named d (padded 8 name))
    → change_directory d v rounds name s ≡ done s
unfolding change_directory
change_directory-Missing d v rounds first_data name s regions at_root inside (inl long) =
    rw (<→leb 8 (length name) long) refl
change_directory-Missing d v rounds first_data name s regions at_root inside (inr others) =
    rw
      (
        regions,
        eq→== s.place.current_directory_offset s.place.root_directory_offset at_root,
        find_entry-none d s.place.current_directory_offset v.root_dir_entries
            (is_directory_named d (padded 8 name)) inside others,
      )
      (if-same (leb (length name) 8))

-- The place and the prompt after an entry found below the root: without a cluster it stands for the
-- root.
abbrev pub after_below : Volume → Shell → Entry → Shell
after_below v s e =
    if e.starting_cluster == 0
    then record {
      place = moved s.place s.place.root_directory_offset 0;
      current_directory = remove_right_including s.current_directory slash;
    }
    else record {
      place = moved s.place (e.starting_cluster * v.sector_size) e.starting_cluster;
      current_directory = s.current_directory;
    }

enter_from_below-after_below :
    (v : Volume) (s : Shell) (name : List ℕ) (e : Entry)
    → enter_from_below v s name e ≡ after_below v s e
enter_from_below-after_below v s name e = elim (Bool-cases (e.starting_cluster == 0)) [
  | inl z ↦ rw (z, ==→eq e.starting_cluster 0 z) refl
  | inr z ↦ let offset = e.starting_cluster * v.sector_size in rw (z, eq→== offset offset refl) refl
]

-- From another directory, whose chain of clusters the image holds, `cd` to a name of at most eight bytes
-- ends with more rounds than clusters and takes the first directory entry with the name; without a
-- cluster it stands for the root, and the prompt loses its last part; with one, the place changes and
-- the prompt does not.
pub change_directory-Below :
    (d : Disk) (v : Volume) (rounds first_data found : ℕ) (name cs ps : List ℕ) (s : Shell)
    → length name ≤ 8
    → first_data_sector v ≡ done first_data
    → (s.place.current_directory_offset == s.place.root_directory_offset) ≡ false
    → IsChain d v is_end_of_chain s.place.starting_cluster cs
    → AllHeld d v first_data cs ps
    → length cs < rounds
    → IsFirstIn (cluster_size v / 32) ps found (is_directory_named d (padded 8 name))
    → change_directory d v rounds name s ≡ done (after_below v s (entry_at d found))
unfolding change_directory
change_directory-Below d v rounds first_data found name cs ps s short regions below chain held
      enough first =
    rw
      (
        ≤→leb (length name) 8 short,
        regions,
        below,
        find_in_chain-first d v first_data rounds s.place.starting_cluster
            (is_directory_named d (padded 8 name)) cs ps found chain held enough first,
      )
      (ap done (enter_from_below-after_below v s name (entry_at d found)))

abbrev pub dots : List ℕ
dots = 0x2E ∷ 0x2E ∷ []

-- `cd` into a directory of the root and then `cd ..` is at the root again, with the prompt as it was:
-- when the image holds the root and the chain of the directory, the offset computed for it is not by
-- accident that of the root, its first entry named `..` has no cluster, as FAT has it, and its name has
-- no slash, at most eight bytes, and fits the prompt.
pub change_directory-Returns :
    (d : Disk) (v : Volume) (rounds first_data before up : ℕ) (name cs ps : List ℕ) (s : Shell)
    → length name ≤ 8
    → IsPlain name
    → length s.current_directory + length name < 1023
    → first_data_sector v ≡ done first_data
    → s.place.current_directory_offset ≡ s.place.root_directory_offset
    → before < v.root_dir_entries
    → s.place.current_directory_offset + 32 * v.root_dir_entries ≤ d.size
    → IsFirst s.place.current_directory_offset before (is_directory_named d (padded 8 name))
    → let cluster =
        (entry_at d (s.place.current_directory_offset + 32 * before)).starting_cluster in
      (cluster * v.sector_size == s.place.root_directory_offset) ≡ false
      → IsChain d v is_end_of_chain cluster cs
      → AllHeld d v first_data cs ps
      → length cs < rounds
      → IsFirstIn (cluster_size v / 32) ps up (is_directory_named d (padded 8 dots))
      → (entry_at d up).starting_cluster ≡ 0
      → (change_directory d v rounds name s >>= λ s'. change_directory d v rounds dots s')
        ≡ done (record s { place = moved s.place s.place.root_directory_offset 0 })
change_directory-Returns d v rounds first_data before up name cs ps s short plain fits regions
      at_root less inside first below chain held enough up_first no_cluster =
    rw
      (
        change_directory-Down d v rounds first_data before name s short regions at_root less inside
            first,
        change_directory-Below d v rounds first_data up dots cs ps
            (enter_from_root v s name (entry_at d (s.place.current_directory_offset + 32 * before)))
            (omega arith) regions below chain held enough up_first,
        no_cluster,
        remove_right_including-with_directory s.current_directory name plain fits,
      )
      refl
