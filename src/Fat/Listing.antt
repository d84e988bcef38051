-- ===== src/Fat/Listing.antt =====
-- `list_files` of fat/fat.c: the entries of the root directory, or of the clusters of another one.
pub mod Shown
use ivos.Base.{
  ℕ, zero, suc, ◌+◌, ◌*◌, ◌/◌, ◌==◌, not, Bool, List, [], ◌∷◌, ◌++◌, Outcome, done, runs_on, ◌>>=◌,
  if◌then◌else◌,
}
use ivos.Fat.Disk.{Disk, fseek}
use ivos.Fat.Entry.{Entry, Line, entry_size, read_entry, print_entry}
use ivos.Fat.Volume.{
  Volume, first_data_sector, cluster_size, cluster_offset, is_end_of_chain, get_next_cluster,
}

-- The variables of the program: `current_directory_offset`, `root_directory_offset` and what is used
-- of `current_directory_entry`.
pub record Place : Type 0 where
  pub current_directory_offset : ℕ
  pub root_directory_offset : ℕ
  pub starting_cluster : ℕ

-- entry.filename[0] != 0x00
abbrev pub first_byte : List ℕ → ℕ
first_byte [] = 0
first_byte (b ∷ bs) = b

abbrev pub is_used : Entry → Bool
is_used e = not (first_byte e.filename == 0)

-- The loop over the entries of a root directory, or of a cluster.
unfoldable pub list_entries : Disk → (off entries : ℕ) → Outcome (List Line)
unfolding read_entry print_entry
list_entries d off zero = done []
list_entries d off (suc n) = do
  e ← read_entry d off
  rest ← list_entries d (off + entry_size) n
  done (if is_used e then print_entry e ∷ rest else rest)

-- The loop over the clusters, for at most `rounds` clusters.
unfoldable pub list_chain : Disk → Volume → (first_data rounds cluster : ℕ) → Outcome (List Line)
unfolding list_entries get_next_cluster fseek
list_chain d v first_data zero cluster = runs_on
list_chain d v first_data (suc rounds) cluster = if is_end_of_chain cluster then done [] else do
  place ← fseek (cluster_offset v first_data cluster)
  here ← list_entries d place (cluster_size v / entry_size)
  next ← get_next_cluster d v cluster
  rest ← list_chain d v first_data rounds next
  done (here ++ rest)

unfoldable pub list_files : Disk → Volume → Place → (rounds : ℕ) → Outcome (List Line)
unfolding list_entries list_chain first_data_sector
list_files d v p rounds =
    if p.current_directory_offset == p.root_directory_offset
    then list_entries d p.current_directory_offset v.root_dir_entries
    else do first_data ← first_data_sector v; list_chain d v first_data rounds p.starting_cluster
