-- ===== src/Fat/Volume.antt =====
-- The volume of fat/fat.c: what `main` reads of the partition table and the boot sector, where the
-- regions lie, and the helpers of fat/fat_helpers.c.
pub mod Layout
pub mod Chain
use ivos.Base.{
  ℕ, ◌+◌, ◌*◌, ◌/◌, ◌%◌, pos, ℤ, sub_ℕ, leb, Bool, Outcome, done, fault, ◌>>=◌, if◌then◌else◌, ◌==◌,
}
use ivos.Fat.Disk.{Disk, fread, as_int, fseek, u16_at, u32_at}

-- The fields of `PartitionTable` and `Fat16BootSector` that the program computes with.
pub record Volume : Type 0 where
  pub start_sector : ℕ
  pub sector_size : ℕ
  pub sectors_per_cluster : ℕ
  pub reserved_sectors : ℕ
  pub number_of_fats : ℕ
  pub root_dir_entries : ℕ
  pub fat_size_sectors : ℕ

-- 512 * start_sector, in an `unsigned int`.
abbrev pub boot_sector : ℕ → ℕ
boot_sector start_sector = 512 * start_sector % 0x100000000

-- The first partition of the table at 0x1BE, and its boot sector of 512 bytes.
unfoldable pub mount : Disk → Outcome Volume
unfolding fread
mount d = do
  _ ← fread d 0x1BE 64
  let start = u32_at d (0x1BE + 8)
  let boot = boot_sector start
  _ ← fread d boot 512
  done (record {
    start_sector = start;
    sector_size = u16_at d (boot + 11);
    sectors_per_cluster = d.byte (boot + 13);
    reserved_sectors = u16_at d (boot + 14);
    number_of_fats = d.byte (boot + 16);
    root_dir_entries = u16_at d (boot + 17);
    fat_size_sectors = u16_at d (boot + 22);
  })

-- fseek from behind the boot sector, then ftell.
unfoldable pub root_directory_offset : Volume → Outcome ℕ
unfolding fseek
root_directory_offset v = fseek (
    sub_ℕ
      (boot_sector v.start_sector
        + 512
        + (v.reserved_sectors + v.fat_size_sectors * v.number_of_fats) * v.sector_size)
      v.sector_size)

-- `first_data_sector` of the source, a place in bytes, computed in an `unsigned int`; a division by
-- zero is a fault.
unfoldable pub first_data_sector : Volume → Outcome ℕ
unfolding as_int
first_data_sector v =
    if v.sector_size == 0
    then fault
    else as_int (
        (v.start_sector
          + v.reserved_sectors
          + v.number_of_fats * v.fat_size_sectors
          + v.root_dir_entries * 32 / v.sector_size)
        % 0x100000000
        * v.sector_size
        % 0x100000000)

abbrev pub cluster_size : Volume → ℕ
cluster_size v = v.sectors_per_cluster * v.sector_size

-- first_data_sector + ((cluster - 2) * sectors_per_cluster) * sector_size
abbrev pub cluster_offset : Volume → (first_data cluster : ℕ) → ℤ
cluster_offset v first_data cluster =
    sub_ℕ (first_data + cluster * cluster_size v) (2 * cluster_size v)

abbrev pub is_end_of_chain : ℕ → Bool
is_end_of_chain cluster = leb 0xFFFF cluster

-- Where the table has the entry of a cluster.
abbrev pub fat_entry_offset : Volume → ℕ → ℕ
fat_entry_offset v cluster = v.start_sector * 512 + v.reserved_sectors * v.sector_size + cluster * 2

unfoldable pub get_next_cluster : Disk → Volume → ℕ → Outcome ℕ
unfolding fread fseek
get_next_cluster d v cluster = do
  off ← fseek (pos (fat_entry_offset v cluster))
  _ ← fread d off 2
  done (u16_at d off)
