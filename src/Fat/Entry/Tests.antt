-- ===== src/Fat/Entry/Tests.antt =====
-- The theorems on the packed date and time at 2025-04-01 12:30:15.
use ivos.Base.{◌≡◌, ◌*◌, ◌/◌, refl}
use ivos.Fat.Entry.{Stamp, stamp, get_attributes, read_only}
use ivos.Fat.Entry.Stamps.{IsStamp, stamp-IsStamp}

abbrev noon : Stamp
noon = record { year = 2025; month = 4; day = 1; hour = 12; minute = 30; second = 15 }

get_attributes-both : get_attributes 0x21 ≡ read_only
unfolding get_attributes
get_attributes-both = refl

stamp_read :
    IsStamp (stamp 23169 25551) × ((stamp 23169 25551).second / 2 * 2 ≡ (stamp 23169 25551).second)
stamp_read = stamp-IsStamp 23169 25551
