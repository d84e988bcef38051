-- ===== src/Fat/Directory.antt =====
-- `change_directory` and `remove_right_including` of fat/fat.c, and the variables of the program.
pub mod Moves
pub mod Strings
use ivos.Base.{
  ℕ, zero, suc, ◌*◌, ◌==◌, leb, ◌&&◌, Bool, Option, none, some, List, [], ◌∷◌, ◌++◌, Outcome, done,
  runs_on, ◌>>=◌, if◌then◌else◌, length, take, false,
}
use ivos.Fat.Disk.{Disk}
use ivos.Fat.Entry.{Entry, entry_at, has_bit}
use ivos.Fat.Volume.{Volume, first_data_sector}
use ivos.Fat.Search.{find_entry, find_in_chain}
use ivos.Fat.Listing.{Place, is_used}
use ivos.Fat.Reading.{strncmp_equal, padded}

-- `current_directory` is the string of the prompt.
pub record Shell : Type 0 where
  pub place : Place
  pub current_directory : List ℕ

abbrev pub slash : ℕ
slash = 0x2F

-- What is left of the last `target`, if there is one.
abbrev pub left_of_last : (str : List ℕ) → (target : ℕ) → Option (List ℕ)
left_of_last [] target = none
left_of_last (c ∷ str) target = elim (left_of_last str target) [
  | some left ↦ some (c ∷ left)
  | none ↦ if c == target then some [] else none
]

abbrev pub or_all : Option (List ℕ) → (str : List ℕ) → List ℕ
or_all none str = str
or_all (some left) str = left

unfoldable pub remove_right_including : List ℕ → ℕ → List ℕ
remove_right_including str target = or_all (left_of_last str target) str

-- The `snprintf` at the end of the string, into an array of 1024.
abbrev pub with_directory : (current_directory new_directory : List ℕ) → List ℕ
with_directory current_directory new_directory =
    take 1023 (current_directory ++ (slash ∷ new_directory))

-- A directory whose eight bytes of the name are those of `name`.
unfoldable pub is_directory_named : Disk → (name : List ℕ) → (off : ℕ) → Outcome Bool
is_directory_named d name off =
    if is_used (entry_at d off) && has_bit (entry_at d off).attributes 4
    then strncmp_equal 8 (entry_at d off).filename name
    else done false

-- The assignments to `current_directory_offset` and `current_directory_entry`.
abbrev pub moved : Place → (offset cluster : ℕ) → Place
moved p offset cluster = record {
  current_directory_offset = offset;
  root_directory_offset = p.root_directory_offset;
  starting_cluster = cluster;
}

-- The assignments for an entry found in the root directory.
abbrev pub enter_from_root : Volume → Shell → (new_directory : List ℕ) → Entry → Shell
enter_from_root v s new_directory e = record {
  place = moved s.place (e.starting_cluster * v.sector_size) e.starting_cluster;
  current_directory = with_directory s.current_directory new_directory;
}

-- The assignments for an entry found elsewhere; the second test compares the offset with what has just
-- been assigned to it.
abbrev pub enter_from_below : Volume → Shell → (new_directory : List ℕ) → Entry → Shell
enter_from_below v s new_directory e =
    let offset = e.starting_cluster * v.sector_size in
    if e.starting_cluster == 0
    then record {
      place = moved s.place s.place.root_directory_offset e.starting_cluster;
      current_directory = remove_right_including s.current_directory slash;
    }
    else if offset == e.starting_cluster * v.sector_size
    then record {
      place = moved s.place offset e.starting_cluster;
      current_directory = s.current_directory;
    }
    else record {
      place = moved s.place offset e.starting_cluster;
      current_directory = with_directory s.current_directory new_directory;
    }

-- What an assignment does when the search found an entry.
abbrev when_found : (Entry → Shell) → Shell → Option Entry → Shell
when_found enter s none = s
when_found enter s (some e) = enter e

-- A name longer than eight bytes is refused with a message.
unfoldable pub change_directory :
    Disk → Volume → (rounds : ℕ) → (new_directory : List ℕ) → Shell → Outcome Shell
unfolding first_data_sector is_directory_named find_entry find_in_chain remove_right_including
change_directory d v rounds new_directory s =
    if leb (length new_directory) 8
    then (first_data_sector v >>= λ first_data.
        let test = is_directory_named d (padded 8 new_directory) in
        if s.place.current_directory_offset == s.place.root_directory_offset
        then (find_entry d test s.place.current_directory_offset v.root_dir_entries >>= λ found.
            done (when_found (enter_from_root v s new_directory) s found))
        else (find_in_chain d v test first_data rounds s.place.starting_cluster >>= λ found.
            done (when_found (enter_from_below v s new_directory) s found)))
    else done s
