-- ===== src/Fat/Entry.antt =====
-- Directory entries: `Fat16Entry` of fat/fat.h, `get_attributes` and the fields that `print_entry`
-- of fat/fat.c prints.
mod Tests
pub mod Stamps
use ivos.Base.{
  ℕ, ◌+◌, ◌*◌, ◌/◌, ◌%◌, ◌^◌, ◌==◌, not, Bool, List, Outcome, done, ◌>>=◌, if◌then◌else◌,
}
use ivos.Fat.Disk.{Disk, bytes, fread, u16_at, u32_at}

pub record Entry : Type 0 where
  pub filename : List ℕ
  pub ext : List ℕ
  pub attributes : ℕ
  pub modify_time : ℕ
  pub modify_date : ℕ
  pub starting_cluster : ℕ
  pub file_size : ℕ

abbrev pub entry_size : ℕ
entry_size = 32

-- The packed structure at a place; `reserved` is never looked at.
abbrev pub entry_at : Disk → ℕ → Entry
entry_at d off = record {
  filename = bytes d off 8;
  ext = bytes d (off + 8) 3;
  attributes = d.byte (off + 11);
  modify_time = u16_at d (off + 22);
  modify_date = u16_at d (off + 24);
  starting_cluster = u16_at d (off + 26);
  file_size = u32_at d (off + 28);
}

-- fread(&entry, sizeof(entry), 1, in)
unfoldable pub read_entry : Disk → ℕ → Outcome Entry
unfolding fread
read_entry d off = do _ ← fread d off entry_size; done (entry_at d off)

-- attributes & (1 << bit)
abbrev pub has_bit : ℕ → ℕ → Bool
has_bit attributes bit = (attributes / 2 ^ bit % 2) == 1

-- The marks that `get_attributes` returns.
pub data Mark : Type 0 where
  read_only hidden system label directory archive unknown : Mark

unfoldable pub get_attributes : ℕ → Mark
get_attributes attributes =
    if has_bit attributes 0
    then read_only
    else if has_bit attributes 1
    then hidden
    else if has_bit attributes 2
    then system
    else if has_bit attributes 3
    then label
    else if has_bit attributes 4
    then directory
    else if has_bit attributes 5
    then archive
    else unknown

pub record Stamp : Type 0 where
  pub year : ℕ
  pub month : ℕ
  pub day : ℕ
  pub hour : ℕ
  pub minute : ℕ
  pub second : ℕ

-- A shift by `k` is a division by 2 ^ k, a mask of `w` low bits a remainder by 2 ^ w.
unfoldable pub stamp : (modify_date modify_time : ℕ) → Stamp
stamp modify_date modify_time = record {
  year = modify_date / 2 ^ 9 % 128 + 1980;
  month = modify_date / 2 ^ 5 % 16;
  day = modify_date % 32;
  hour = modify_time / 2 ^ 11 % 32;
  minute = modify_time / 2 ^ 5 % 64;
  second = modify_time % 32 * 2;
}

-- A line of output.
pub record Line : Type 0 where
  pub time : Stamp
  pub mark : Mark
  pub name : List ℕ
  pub extension : List ℕ
  pub size : ℕ

unfoldable pub print_entry : Entry → Line
unfolding stamp get_attributes
print_entry e = record {
  time = stamp e.modify_date e.modify_time;
  mark = get_attributes e.attributes;
  name = e.filename;
  extension = e.ext;
  size = e.file_size;
}
