-- ===== src/Fat/Tree.antt =====
-- `print_tree` of fat/fat.c, less the line `/root` that starts its output.
pub mod Endless
pub mod Forest
mod Tests
use ivos.Base.{
  ℕ, zero, suc, ◌+◌, ◌*◌, ◌/◌, ◌==◌, not, ◌&&◌, Bool, List, [], ◌∷◌, ◌++◌, Outcome, done, runs_on,
  ◌>>=◌, if◌then◌else◌,
}
use ivos.Fat.Disk.{Disk, fseek}
use ivos.Fat.Entry.{Entry, entry_size, read_entry, has_bit}
use ivos.Fat.Volume.{
  Volume, first_data_sector, cluster_size, cluster_offset, is_end_of_chain, get_next_cluster,
}
use ivos.Fat.Listing.{is_used}

-- A line: how many bars stand before the name, and the two parts of the name.
pub record Branch : Type 0 where
  pub bars : ℕ
  pub name : List ℕ
  pub extension : List ℕ

abbrev pub branch : (depth : ℕ) → Entry → Branch
branch depth e = record { bars = depth + 1; name = e.filename; extension = e.ext }

abbrev pub is_directory : Entry → Bool
is_directory e = has_bit e.attributes 4

-- The entries that are passed over below the root: unused ones, the directory itself, and a directory
-- without a cluster, which stands for the root.
abbrev pub is_shown_in : (directory : ℕ) → Entry → Bool
is_shown_in directory e =
    is_used e
    && not (e.starting_cluster == directory)
    && not (is_directory e && (e.starting_cluster == 0))

-- The loop over the entries of the root, or of a cluster; `below` is the call for a directory.
unfoldable pub tree_entries :
    Disk
    → (below : Entry → Outcome (List Branch)) → (is_shown : Entry → Bool) → (depth off entries : ℕ)
    → Outcome (List Branch)
unfolding read_entry
tree_entries d below is_shown depth off zero = done []
tree_entries d below is_shown depth off (suc n) = do
  e ← read_entry d off
  inner ← if is_shown e && is_directory e then below e else done []
  rest ← tree_entries d below is_shown depth (off + entry_size) n
  done (if is_shown e then branch depth e ∷ (inner ++ rest) else rest)

-- `print_tree` of a directory, from a cluster of its chain on; every call computes the same
-- `first_data`. Each cluster and each directory below
-- takes one of the rounds.
unfoldable pub print_directory :
    Disk → Volume → (first_data rounds depth directory cluster : ℕ) → Outcome (List Branch)
unfolding tree_entries fseek get_next_cluster
print_directory d v first_data zero depth directory cluster = runs_on
print_directory d v first_data (suc rounds) depth directory cluster =
    if is_end_of_chain cluster then done [] else do
      place ← fseek (cluster_offset v first_data cluster)
      here ←
          tree_entries d
            (λ e.
              print_directory d v first_data rounds (suc depth) e.starting_cluster
                e.starting_cluster)
            (is_shown_in directory) depth place (cluster_size v / entry_size)
      next ← get_next_cluster d v cluster
      rest ← print_directory d v first_data rounds depth directory next
      done (here ++ rest)

-- The call for a directory of the root; `first_data_sector` is computed by the callee.
abbrev pub print_below_root : Disk → Volume → (rounds : ℕ) → Entry → Outcome (List Branch)
print_below_root d v rounds e = do
  first_data ← first_data_sector v
  print_directory d v first_data rounds 1 e.starting_cluster e.starting_cluster

-- print_tree(NULL, -1, in, pt, bs)
unfoldable pub print_tree : Disk → Volume → (root rounds : ℕ) → Outcome (List Branch)
unfolding tree_entries print_directory first_data_sector
print_tree d v root rounds =
    tree_entries d (print_below_root d v rounds) is_used 0 root v.root_dir_entries
