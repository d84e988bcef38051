-- ===== src/Fat/Main/Tests.antt =====
-- The program on the small image.
use ivos.Base.{◌≡◌, refl, List, [], ◌∷◌, ◌++◌, map, done, codes, arith}
use ivos.Fat.Demo.{image, volume, regions_small, tree, image-IsForest}
use ivos.Fat.Volume.{mount, root_directory_offset}
use ivos.Fat.Tree.Forest.{preorder}
use ivos.Fat.Commands.{Command, enters, shows_nothing, perform}
use ivos.Fat.Commands.Typed.{typed, perform_all}
use ivos.Fat.Directory.{Shell}
use ivos.Fat.Main.{first_shell, says_writing, refuses, ran, fat_main}
use ivos.Fat.Main.Session.{fat_main-session}

abbrev commands : List Command
commands = enters (codes "D") ∷ []

writes : fat_main (codes "x" ∷ codes "--write" ∷ []) image 3 [] ≡ done says_writing
unfolding fat_main
writes = refl

refused : fat_main (codes "x" ∷ []) image 3 [] ≡ done refuses
unfolding fat_main
refused = refl

image-mount : mount image ≡ done volume
unfolding mount
image-mount = refl

image-root : root_directory_offset volume ≡ done 544
unfolding root_directory_offset
image-root = refl

-- cd D
abbrev in_d : Shell
in_d = record {
  place = record {
    current_directory_offset = 96;
    root_directory_offset = 544;
    starting_cluster = 3;
  };
  current_directory = codes "/root/D";
}

performed : perform_all image volume 3 commands (first_shell 544) ≡ done (shows_nothing ∷ [], in_d)
unfolding perform
performed = refl

fat_main-session_example :
    fat_main [] image 3 (map typed commands ++ (codes "exit" ∷ codes "ls" ∷ []))
    ≡ done (ran (preorder 0 tree) (shows_nothing ∷ []) in_d)
fat_main-session_example =
    fat_main-session image volume 544 128 3 3 tree commands (codes "ls" ∷ []) (shows_nothing ∷ [])
      in_d image-mount image-root regions_small (omega arith) image-IsForest (omega arith) (tt, tt)
      performed
