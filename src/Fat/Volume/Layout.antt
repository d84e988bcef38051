-- ===== src/Fat/Volume/Layout.antt =====
-- The regions of a volume with sectors of 512 bytes.
use ivos.Base.{ℕ, zero, suc, sub_ℕ, refl, ◌+◌, ◌*◌, ◌%◌, ◌≤◌, ◌<◌, ◌≡◌, pos, done, arith}
use ivos.Fat.Disk.{as_int, fseek}
use ivos.Fat.Volume.{
  Volume, root_directory_offset, first_data_sector, cluster_offset, fat_entry_offset,
}

sub_ℕ-pos : (a b c : ℕ) → a ≡ b + c → sub_ℕ a c ≡ pos b
sub_ℕ-pos a b c h = ground arith

as_int-ok : (a b : ℕ) → a ≡ b → b < 0x80000000 → as_int a ≡ done b
unfolding as_int
as_int-ok a b h small = ground arith

fseek-sub : (a b c : ℕ) → a ≡ b + c → b < 0x80000000 → fseek (sub_ℕ a c) ≡ done b
unfolding fseek
fseek-sub a b c h small = rw (sub_ℕ-pos a b c h) (as_int-ok b b refl small)

le_mul : (n m : ℕ) → 1 ≤ n → m ≤ n * m
le_mul zero m h = elim h [ ]
le_mul (suc n) m h = omega arith

-- With sectors of 512 bytes, whole sectors of root entries, a table or more and places that fit an
-- `int`, the computations of the program agree: the root directory lies right behind the last table,
-- and cluster 2, the first, right behind the root directory; and a cluster whose number fits the
-- table has its entry before the root.
pub regions_lem :
    (v : Volume) (cluster : ℕ)
    → v.sector_size ≡ 512
    → v.root_dir_entries % 16 ≡ 0
    → 1 ≤ v.number_of_fats
    → 2 * cluster + 2 ≤ 512 * v.fat_size_sectors
    → 512 * (v.start_sector + v.reserved_sectors + v.number_of_fats * v.fat_size_sectors)
        + 32 * v.root_dir_entries
      < 0x80000000
    → let root =
        512 * (v.start_sector + v.reserved_sectors + v.number_of_fats * v.fat_size_sectors) in
      (root_directory_offset v ≡ done root)
      × (first_data_sector v ≡ done (root + 32 * v.root_dir_entries))
      × (cluster_offset v (root + 32 * v.root_dir_entries) 2 ≡ pos (root + 32 * v.root_dir_entries))
      × (fat_entry_offset v cluster + 2 ≤ root)
unfolding root_directory_offset first_data_sector
regions_lem v cluster s r f fits small = rw s (
  fseek-sub
      (512 * v.start_sector % 0x100000000
        + 512
        + (v.reserved_sectors + v.fat_size_sectors * v.number_of_fats) * 512)
      _ 512 (omega arith) (omega arith),
  as_int-ok _ _ (omega arith) small,
  sub_ℕ-pos _ _ _ (omega arith),
  (let tables = le_mul v.number_of_fats v.fat_size_sectors f in omega arith),
)
