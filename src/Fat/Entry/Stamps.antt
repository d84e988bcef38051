-- ===== src/Fat/Entry/Stamps.antt =====
-- The packed date and time of an entry.
use ivos.Base.{ℕ, ◌+◌, ◌*◌, ◌/◌, ◌-◌, ◌≤◌, ◌<◌, ◌≡◌, arith}
use ivos.Fat.Entry.{Stamp, stamp}

-- A moment that FAT can store: from 1980 to 2107, in steps of two seconds.
pub record IsStamp (s : Stamp) : Type 0 where
  pub from_1980 : 1980 ≤ s.year
  pub to_2107 : s.year < 2108
  pub month : s.month < 16
  pub day : s.day < 32
  pub hour : s.hour < 32
  pub minute : s.minute < 64
  pub second : s.second < 64

abbrev pub packed_date : Stamp → ℕ
packed_date s = 512 * (s.year - 1980) + 32 * s.month + s.day

abbrev pub packed_time : Stamp → ℕ
packed_time s = 2048 * s.hour + 32 * s.minute + s.second / 2

-- The printed date and time of a moment packed as FAT defines it are the moment, with its seconds
-- rounded down to an even number.
pub stamp-packed :
    (s : Stamp)
    → IsStamp s
    → stamp (packed_date s) (packed_time s) ≡ record s { second = s.second / 2 * 2 }
unfolding stamp
stamp-packed s ok = ground arith

-- Every date and time that an entry can hold is printed within the ranges of their fields, and even
-- seconds.
pub stamp-IsStamp :
    (date time : ℕ)
    → IsStamp (stamp date time) × ((stamp date time).second / 2 * 2 ≡ (stamp date time).second)
unfolding stamp
stamp-IsStamp date time = (ground arith, omega arith)
