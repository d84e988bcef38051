-- ===== src/Fat/Main.antt =====
-- `main` of fat/fat.c. The option -w calls `write`, which does nothing.
pub mod Session
mod Tests
use ivos.Base.{
  ℕ, Bool, false, ◌||◌, List, [], ◌∷◌, Outcome, done, ◌>>=◌, if◌then◌else◌, Text, codes, same,
}
use ivos.Fat.Disk.{Disk}
use ivos.Fat.Volume.{mount, root_directory_offset}
use ivos.Fat.Listing.{Place}
use ivos.Fat.Directory.{Shell}
use ivos.Fat.Tree.{Branch, print_tree}
use ivos.Fat.Commands.{Shown, run}

-- The loop over the arguments, up to the first that asks for it.
unfoldable pub asks_write : (args : List Text) → Bool
asks_write [] = false
asks_write (arg ∷ args) = same arg (codes "-w") || same arg (codes "--write") || asks_write args

-- The variables of the program when the root directory is found; no entry has been entered yet.
abbrev pub first_shell : (root : ℕ) → Shell
first_shell root = record {
  place = record {
    current_directory_offset = root;
    root_directory_offset = root;
    starting_cluster = 0;
  };
  current_directory = codes "/root";
}

-- How the program ends: it says that it writes, refuses its arguments, or has shown the tree and what
-- the commands show.
pub data Ended : Type 0 where
  says_writing refuses : Ended
  ran : (tree : List Branch) → (shown : List Shown) → (last : Shell) → Ended

-- What it returns.
abbrev pub exit_code : Ended → ℕ
exit_code says_writing = 0
exit_code refuses = 1
exit_code (ran tree shown last) = 0

unfoldable pub fat_main :
    (args : List Text) → Disk → (rounds : ℕ) → (lines : List Text) → Outcome Ended
unfolding asks_write mount root_directory_offset print_tree run
fat_main (arg ∷ args) d rounds lines =
    done (if asks_write (arg ∷ args) then says_writing else refuses)
fat_main [] d rounds lines = do
  v ← mount d
  root ← root_directory_offset v
  tree ← print_tree d v root rounds
  (shown, last) ← run d v rounds lines (first_shell root)
  done (ran tree shown last)
