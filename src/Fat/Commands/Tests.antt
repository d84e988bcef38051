-- ===== src/Fat/Commands/Tests.antt =====
-- Commands as they are typed in.
use ivos.Base.{◌≡◌, refl, done, fault, codes}
use ivos.Fat.Commands.{enters, command_of, name_and_ext}

name_and_ext_parts : name_and_ext (codes "B.TXT") ≡ done (codes "B", codes "TXT")
unfolding name_and_ext
name_and_ext_parts = refl

-- Without an argument the program looks behind the end of the line.
read_alone : command_of (codes "read") ≡ fault
unfolding command_of
read_alone = refl

-- Any word that starts like a command is one.
cdrom : command_of (codes "cdrom") ≡ done (enters (codes "om"))
unfolding command_of
cdrom = refl
