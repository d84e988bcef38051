-- ===== src/Fat/Disk.antt =====
-- The image file of fat/, as the program reads it: `fseek` and `fread` at a place.
use ivos.Base.{
  ℕ, zero, suc, ◌+◌, ◌*◌, ℤ, pos, negsuc, ltb, leb, List, [], ◌∷◌, Outcome, done, fault,
  if◌then◌else◌,
}

pub record Disk : Type 0 where
  pub size : ℕ
  pub byte : ℕ → ℕ

abbrev pub bytes : Disk → ℕ → ℕ → List ℕ
bytes d off zero = []
bytes d off (suc n) = d.byte off ∷ bytes d (off + 1) n

-- After a short read the program goes on with what its buffer held, which is a fault here; so is a
-- seek to a negative place.
unfoldable pub fread : Disk → ℕ → ℕ → Outcome (List ℕ)
fread d off n = if leb (off + n) d.size then done (bytes d off n) else fault

-- A number stored in an `int`; one that does not fit is a fault.
unfoldable pub as_int : ℕ → Outcome ℕ
as_int n = if ltb n 0x80000000 then done n else fault

unfoldable pub fseek : ℤ → Outcome ℕ
unfolding as_int
fseek (pos off) = as_int off
fseek (negsuc n) = fault

-- Little-endian numbers, as the machine of the program stores them.
abbrev pub u16_at : Disk → ℕ → ℕ
u16_at d off = d.byte off + 256 * d.byte (off + 1)

abbrev pub u32_at : Disk → ℕ → ℕ
u32_at d off = u16_at d off + 65536 * u16_at d (off + 2)
