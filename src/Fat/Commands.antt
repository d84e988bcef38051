-- ===== src/Fat/Commands.antt =====
-- `run` and `print_info` of fat/fat.c: the commands that are typed in.
pub mod Typed
mod Tests
use ivos.Base.{
  ℕ, zero, suc, ◌+◌, ◌*◌, ◌==◌, Bool, true, false, not, Option, none, some, List, [], ◌∷◌, ◌++◌,
  Outcome, done, fault, runs_on, ◌>>=◌, if◌then◌else◌, length, Text, codes, drop, same, starts_with,
  maybe,
}
use ivos.Fat.Disk.{Disk, bytes, fread, u32_at}
use ivos.Fat.Entry.{Line}
use ivos.Fat.Volume.{Volume, boot_sector}
use ivos.Fat.Listing.{list_entries, list_files}
use ivos.Fat.Reading.{read}
use ivos.Fat.Directory.{Shell, change_directory}
use ivos.Fat.Tree.{Branch, print_tree}

-- What `print_info` shows of one of the four partitions.
pub record Partition : Type 0 where
  pub partition_type : ℕ
  pub start : ℕ
  pub length_sectors : ℕ

abbrev partition_at : Disk → (off : ℕ) → Partition
partition_at d off = record {
  partition_type = d.byte (off + 4);
  start = u32_at d (off + 8);
  length_sectors = u32_at d (off + 12);
}

pub record Info : Type 0 where
  pub partitions : List Partition
  pub volume_label : List ℕ
  pub bytes_per_sector : ℕ
  pub root : List Line

-- The line of an entry is made as `print_entry` makes it.
unfoldable pub print_info : Disk → Volume → (root : ℕ) → Outcome Info
unfolding list_entries
print_info d v root = list_entries d root v.root_dir_entries >>= λ lines. done (record {
  partitions =
      partition_at d 0x1BE
      ∷ partition_at d (0x1BE + 16)
      ∷ partition_at d (0x1BE + 32)
      ∷ partition_at d (0x1BE + 48)
      ∷ [];
  volume_label = bytes d (boot_sector v.start_sector + 43) 11;
  bytes_per_sector = v.sector_size;
  root = lines;
})

pub data Command : Type 0 where
  exits info ls no_filename no_directory tree help other : Command
  reads enters : (name : Text) → Command

-- What is behind `n` bytes of the line; behind its end the memory is not the line's.
abbrev pub argument : (n : ℕ) → (cmd : Text) → Outcome Text
argument zero cmd = done cmd
argument (suc n) [] = fault
argument (suc n) (c ∷ cmd) = argument n cmd

abbrev pub with_argument : (empty : Command) → (Text → Command) → (arg : Text) → Command
with_argument empty command [] = empty
with_argument empty command (c ∷ arg) = command (c ∷ arg)

unfoldable pub command_of : (cmd : Text) → Outcome Command
command_of cmd =
    if same cmd (codes "exit")
    then done exits
    else if same cmd (codes "info")
    then done info
    else if same cmd (codes "ls")
    then done ls
    else if starts_with (codes "read") cmd
    then (argument 5 cmd >>= λ arg. done (with_argument no_filename reads arg))
    else if starts_with (codes "cd") cmd
    then (argument 3 cmd >>= λ arg. done (with_argument no_directory enters arg))
    else if same cmd (codes "tree")
    then done tree
    else if same cmd (codes "help")
    then done help
    else done other

-- strtok(s, "."): dots are passed over, and a token ends at the next one.
abbrev pub skip_dots : Text → Text
skip_dots [] = []
skip_dots (c ∷ s) = let rest = skip_dots s in if c == 0x2E then rest else c ∷ s

abbrev pub until_dot : Text → Text
until_dot [] = []
until_dot (c ∷ s) = let rest = until_dot s in if c == 0x2E then [] else c ∷ rest

abbrev pub behind_dot : Text → Text
behind_dot [] = []
behind_dot (c ∷ s) = let rest = behind_dot s in if c == 0x2E then s else rest

-- The name and the extension; without a name `strlen` is given NULL.
abbrev pub named : (start : Text) → Outcome (Text × Text)
named [] = fault
named (c ∷ start) = done (until_dot (c ∷ start), until_dot (skip_dots (behind_dot (c ∷ start))))

unfoldable pub name_and_ext : (filename : Text) → Outcome (Text × Text)
name_and_ext filename = named (skip_dots filename)

-- What a command shows.
pub data Shown : Type 0 where
  shows_nothing says_empty says_help : Shown
  shows_info : Info → Shown
  shows_lines : List Line → Shown
  shows_file : Option (List ℕ) → Shown
  shows_tree : List Branch → Shown

-- One command, other than `exit`.
unfoldable pub perform : Disk → Volume → (rounds : ℕ) → Command → Shell → Outcome (Shown × Shell)
unfolding print_info list_files name_and_ext read change_directory print_tree
perform d v rounds exits s = done (shows_nothing, s)
perform d v rounds info s =
    print_info d v s.place.root_directory_offset >>= λ i. done (shows_info i, s)
perform d v rounds ls s = list_files d v s.place rounds >>= λ lines. done (shows_lines lines, s)
perform d v rounds no_filename s = done (says_empty, s)
perform d v rounds no_directory s = done (says_empty, s)
perform d v rounds tree s = print_tree d v s.place.root_directory_offset rounds >>= λ branches.
    done (shows_tree branches, s)
perform d v rounds help s = done (says_help, s)
perform d v rounds other s = done (shows_nothing, s)
perform d v rounds (reads filename) s = do
  (name, ext) ← name_and_ext filename
  content ← read d v s.place rounds name ext
  done (shows_file content, s)
perform d v rounds (enters directory) s =
    change_directory d v rounds directory s >>= λ s'. done (shows_nothing, s')

abbrev pub is_exit : Command → Bool
is_exit exits = true
is_exit c = false

-- The loop over the lines that are typed in; when there are no more it goes on asking.
unfoldable pub run :
    Disk → Volume → (rounds : ℕ) → (lines : List Text) → Shell → Outcome (List Shown × Shell)
unfolding command_of perform
run d v rounds [] s = runs_on
run d v rounds (line ∷ lines) s = command_of line >>= λ c.
    if is_exit c
    then done ([], s)
    else (perform d v rounds c s >>= λ (shown, s').
        run d v rounds lines s' >>= λ (rest, last). done (shown ∷ rest, last))
