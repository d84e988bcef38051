-- ===== src/Fat/Search.antt =====
-- The search for an entry, in `change_directory` and `read` of fat/fat.c: the loops over the entries of
-- a directory, which the source writes out at each of its four uses.
pub mod First
use ivos.Base.{
  ℕ, zero, suc, ◌+◌, ◌*◌, ◌/◌, Bool, Option, none, some, Outcome, done, runs_on, ◌>>=◌,
  if◌then◌else◌,
}
use ivos.Fat.Disk.{Disk, fseek}
use ivos.Fat.Entry.{Entry, entry_size, read_entry}
use ivos.Fat.Volume.{Volume, cluster_size, cluster_offset, is_end_of_chain, get_next_cluster}

-- The loop over the entries of a root directory or of a cluster, up to the first that passes the test.
unfoldable pub find_entry :
    Disk → (test : ℕ → Outcome Bool) → (off entries : ℕ) → Outcome (Option Entry)
unfolding read_entry
find_entry d test off zero = done none
find_entry d test off (suc n) = do
  e ← read_entry d off
  found ← test off
  let rest = find_entry d test (off + entry_size) n
  if found then done (some e) else rest

-- The loop over the clusters of a directory.
unfoldable pub find_in_chain :
    Disk
    → Volume
    → (test : ℕ → Outcome Bool) → (first_data rounds cluster : ℕ) → Outcome (Option Entry)
unfolding fseek find_entry get_next_cluster
find_in_chain d v test first_data zero cluster = runs_on
find_in_chain d v test first_data (suc rounds) cluster =
    if is_end_of_chain cluster then done none else do
      place ← fseek (cluster_offset v first_data cluster)
      found ← find_entry d test place (cluster_size v / entry_size)
      elim found [
        | some e ↦ done (some e)
        | none ↦ do
          next ← get_next_cluster d v cluster
          find_in_chain d v test first_data rounds next
      ]
