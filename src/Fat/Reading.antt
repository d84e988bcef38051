-- ===== src/Fat/Reading.antt =====
-- `read` of fat/fat.c: the comparison of an entry with the wanted name, and the bytes of the file.
pub mod Content
pub mod Named
pub mod Found
use ivos.Base.{
  ℕ, zero, suc, ◌+◌, ◌-◌, ◌==◌, ltb, leb, ◌||◌, Bool, true, false, List, [], ◌∷◌, ◌++◌, Outcome,
  done, fault, runs_on, ◌>>=◌, if◌then◌else◌, Option, none, some, ◌*◌, ◌/◌,
}
use ivos.Fat.Disk.{Disk, bytes, fread, fseek}
use ivos.Fat.Entry.{Entry, entry_at, entry_size, read_entry}
use ivos.Fat.Volume.{
  Volume, first_data_sector, cluster_size, cluster_offset, is_end_of_chain, get_next_cluster,
}
use ivos.Fat.Search.{find_entry, find_in_chain}
use ivos.Fat.Listing.{Place, first_byte, is_used}

-- The test of the loop for a file of the root directory.
abbrev pub is_end_mark : ℕ → Bool
is_end_mark cluster = leb 0xFFF8 cluster

abbrev pub bytes_to_read : (file_size bytes_read cluster_bytes : ℕ) → ℕ
bytes_to_read file_size bytes_read cluster_bytes =
    if ltb (file_size - bytes_read) cluster_bytes then file_size - bytes_read else cluster_bytes

-- The loop that copies a file, for at most `rounds` tests of its condition.
unfoldable pub read_chain :
    Disk
    → Volume
    → (ends : ℕ → Bool) → (first_data rounds cluster file_size bytes_read : ℕ) → Outcome (List ℕ)
unfolding fread fseek get_next_cluster
read_chain d v ends first_data zero cluster file_size bytes_read = runs_on
read_chain d v ends first_data (suc rounds) cluster file_size bytes_read =
    if ends cluster || leb file_size bytes_read then done [] else do
      place ← fseek (cluster_offset v first_data cluster)
      here ← fread d place (bytes_to_read file_size bytes_read (cluster_size v))
      next ← get_next_cluster d v cluster
      rest ←
          read_chain d v ends first_data rounds next file_size
            (bytes_read + bytes_to_read file_size bytes_read (cluster_size v))
      done (here ++ rest)

-- The length of the string that starts the bytes of an entry; there may be no zero in them.
abbrev pub strlen : List ℕ → Outcome ℕ
strlen [] = fault
strlen (b ∷ bs) = if b == 0 then done 0 else (strlen bs >>= λ n. done (suc n))

-- strncmp(a, b, n) == 0
abbrev pub strncmp_equal : (n : ℕ) → (a b : List ℕ) → Outcome Bool
strncmp_equal zero a b = done true
strncmp_equal (suc n) [] b = fault
strncmp_equal (suc n) (x ∷ a) [] = fault
strncmp_equal (suc n) (x ∷ a) (y ∷ b) =
    let rest = strncmp_equal n a b in
    if x == y then (if x == 0 then done true else rest) else done false

-- strncmp(entry.filename, namecmp, strlen(entry.filename)) == 0; the name has no end of its own, and
-- `strlen` reads on into the fields behind it, as they lie in memory.
unfoldable pub name_matches : (entry_bytes namecmp : List ℕ) → Outcome Bool
name_matches entry_bytes namecmp = do n ← strlen entry_bytes; strncmp_equal n entry_bytes namecmp

-- The bytes of the first argument, then spaces, to a width.
abbrev pub padded : (width : ℕ) → List ℕ → List ℕ
padded zero s = []
padded (suc n) [] = 0x20 ∷ padded n []
padded (suc n) (c ∷ s) = c ∷ padded n s

-- The twelve bytes of `namecmp`, of the two parts that `strtok` gives; an empty list for no extension.
abbrev pub namecmp : (name ext : List ℕ) → List ℕ
namecmp name ext = padded 8 name ++ padded 3 ext ++ (0x20 ∷ [])

-- The test of an entry; an unused one is passed over.
unfoldable pub is_wanted : Disk → (wanted : List ℕ) → (off : ℕ) → Outcome Bool
unfolding name_matches
is_wanted d wanted off =
    if is_used (entry_at d off) then name_matches (bytes d off entry_size) wanted else done false

-- What is copied to the standard error stream; `none` is the message that there is no such file.
abbrev copy :
    Disk
    → Volume
    → (ends : ℕ → Bool) → (first_data rounds : ℕ) → Option Entry
    → Outcome (Option (List ℕ))
copy d v ends first_data rounds none = done none
copy d v ends first_data rounds (some e) = do
  content ← read_chain d v ends first_data rounds e.starting_cluster e.file_size 0
  done (some content)

unfoldable pub read :
    Disk → Volume → Place → (rounds : ℕ) → (name ext : List ℕ) → Outcome (Option (List ℕ))
unfolding first_data_sector is_wanted find_entry find_in_chain read_chain
read d v p rounds name ext = do
  first_data ← first_data_sector v
  if p.current_directory_offset == p.root_directory_offset
      then (find_entry d (is_wanted d (namecmp name ext)) p.current_directory_offset
            v.root_dir_entries
          >>= λ found. copy d v is_end_mark first_data rounds found)
      else (find_in_chain d v (is_wanted d (namecmp name ext)) first_data rounds p.starting_cluster
          >>= λ found. copy d v is_end_of_chain first_data rounds found)
