-- ===== src/Fat/Demo.antt =====
-- A small image: a root directory with the file A.TXT and the directory D, which has the file B.TXT.
use ivos.Base.{◌≡◌, done, ℕ, zero, suc, ◌-◌, leb, List, [], ◌∷◌, ◌++◌, if◌then◌else◌, arith, refl}
use ivos.Fat.Disk.{Disk}
use ivos.Fat.Entry.{entry_at}
use ivos.Fat.Listing.{is_used}
use ivos.Fat.Tree.Forest.{
  Forest, leaf, grow, IsForest, last, hidden, a_file, a_directory, ended, linked,
}
use ivos.Fat.Volume.{Volume, first_data_sector, is_end_of_chain}
use ivos.Fat.Volume.Chain.{IsChain, AllHeld}
use ivos.Fat.Listing.{Place}
use ivos.Fat.Directory.{Shell}
use ivos.Fat.Reading.{is_end_mark}

abbrev byte_of : List ℕ → ℕ → ℕ
byte_of [] n = 0
byte_of (b ∷ bs) zero = b
byte_of (b ∷ bs) (suc n) = byte_of bs n

abbrev zeros : ℕ → List ℕ
zeros zero = []
zeros (suc n) = 0 ∷ zeros n

abbrev spaces : ℕ → List ℕ
spaces zero = []
spaces (suc n) = 0x20 ∷ spaces n

abbrev txt : List ℕ
txt = 0x54 ∷ 0x58 ∷ 0x54 ∷ []

-- Name, extension, attributes, first cluster and size.
abbrev entry_bytes : (name ext : List ℕ) → (attributes cluster size : ℕ) → List ℕ
entry_bytes name ext attributes cluster size =
    name ++ ext ++ (attributes ∷ zeros 14) ++ (cluster ∷ 0 ∷ size ∷ 0 ∷ 0 ∷ 0 ∷ [])

abbrev root_bytes : List ℕ
root_bytes =
    entry_bytes (0x41 ∷ spaces 7) txt 0x20 2 40 ++ entry_bytes (0x44 ∷ spaces 7) (spaces 3) 0x10 3 0

-- The clusters 2 to 6: the file A, first part; the directory, both its clusters; A, second part; B.
abbrev cluster_bytes : List ℕ
cluster_bytes =
    (7 ∷ zeros 31)
    ++ entry_bytes (0x2E ∷ 0x2E ∷ spaces 6) (spaces 3) 0x10 0 0
    ++ entry_bytes (0x42 ∷ spaces 7) txt 0x20 6 3
    ++ (9 ∷ zeros 31)
    ++ (1 ∷ 2 ∷ 3 ∷ [])

-- The table: 2 leads to 5, and 3 to 4.
abbrev table_bytes : List ℕ
table_bytes = zeros 4 ++ (5 ∷ 0 ∷ 4 ∷ 0 ∷ []) ++ (0xFF ∷ 0xFF ∷ 0xFF ∷ 0xFF ∷ 0xFF ∷ 0xFF ∷ [])

-- The boot sector, with the partition at 0: sectors of 32 bytes, and two entries in the root.
abbrev boot_bytes : List ℕ
boot_bytes = zeros 11 ++ (32 ∷ 0 ∷ 1 ∷ 1 ∷ 0 ∷ 1 ∷ 2 ∷ zeros 4 ++ (1 ∷ []))

abbrev pub image : Disk
image = record {
  size = 2000;
  byte = λ n.
      if leb 544 n
      then byte_of root_bytes (n - 544)
      else if leb 128 n
      then byte_of cluster_bytes (n - 128)
      else if leb 32 n
      then byte_of table_bytes (n - 32)
      else byte_of boot_bytes n;
}

-- An image with directories on two levels: D in the root, and in it E, which has its parent as `..`.
abbrev pub nested : Disk
nested = record {
  size = 2000;
  byte = λ n.
      if leb 544 n
      then byte_of (entry_bytes (0x44 ∷ spaces 7) (spaces 3) 0x10 3 0) (n - 544)
      else if leb 160 n
      then byte_of
          (entry_bytes (0x45 ∷ spaces 7) (spaces 3) 0x10 4 0
            ++ entry_bytes (0x2E ∷ 0x2E ∷ spaces 6) (spaces 3) 0x10 3 0)
          (n - 160)
      else if leb 32 n
      then byte_of table_bytes (n - 32)
      else 0;
}

-- Sectors and clusters of 32 bytes.
abbrev pub volume : Volume
volume = record {
  start_sector = 0;
  sector_size = 32;
  sectors_per_cluster = 1;
  reserved_sectors = 1;
  number_of_fats = 1;
  root_dir_entries = 2;
  fat_size_sectors = 1;
}

abbrev pub at_root : Place
at_root = record {
  current_directory_offset = 544;
  root_directory_offset = 544;
  starting_cluster = 0;
}

abbrev pub in_d : Place
in_d = record { current_directory_offset = 96; root_directory_offset = 544; starting_cluster = 3 }

-- "/root"
abbrev pub prompt : List ℕ
prompt = 0x2F ∷ 0x72 ∷ 0x6F ∷ 0x6F ∷ 0x74 ∷ []

abbrev pub shell : Shell
shell = record { place = at_root; current_directory = prompt }

pub held_a : AllHeld image volume 128 (2 ∷ 5 ∷ []) (128 ∷ 224 ∷ [])
held_a = (
  record { at_place = refl; content = omega arith; small = omega arith; link = omega arith },
  (record { at_place = refl; content = omega arith; small = omega arith; link = omega arith }, tt),
)

pub held_d : AllHeld image volume 128 (3 ∷ 4 ∷ []) (160 ∷ 192 ∷ [])
held_d = (
  record { at_place = refl; content = omega arith; small = omega arith; link = omega arith },
  (record { at_place = refl; content = omega arith; small = omega arith; link = omega arith }, tt),
)

pub held_b : AllHeld image volume 128 (6 ∷ []) (256 ∷ [])
held_b =
    (record { at_place = refl; content = omega arith; small = omega arith; link = omega arith }, tt)

pub IsChain-a : IsChain image volume is_end_mark 2 (2 ∷ 5 ∷ [])
IsChain-a = (refl, refl, (refl, refl, refl))

pub IsChain-d : IsChain image volume is_end_of_chain 3 (3 ∷ 4 ∷ [])
IsChain-d = (refl, refl, (refl, refl, refl))

pub IsChain-b : IsChain image volume is_end_of_chain 6 (6 ∷ [])
IsChain-b = (refl, refl, refl)

-- `first_data_sector` of the small volume.
pub regions_small : first_data_sector volume ≡ done 128
unfolding first_data_sector
regions_small = refl

-- A.TXT, and D with B.TXT inside; `..` in D has no cluster and is not shown.
abbrev pub tree : Forest
tree =
    grow (entry_at image 544) leaf
      (grow (entry_at image 576) (grow (entry_at image 192) leaf leaf) leaf)

pub image-IsForest : IsForest image volume 128 is_used 544 2 tree 3
image-IsForest = a_file refl refl (
    a_directory {j = 3} {k = 0} refl refl
      (linked {place = 160} {j = 0} {k = 2} {f = leaf} refl held_d.0 (hidden refl last) (
        linked {place = 192} {j = 0} {k = 1} {f = grow (entry_at image 192) leaf leaf} {g = leaf}
          refl held_d.1.0 (a_file refl refl last) (ended refl)))
      last)
