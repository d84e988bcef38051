-- ===== src/Fat/Main/Session.antt =====
-- A run of the whole program.
use ivos.Base.{ℕ, ◌+◌, ◌*◌, ◌≤◌, ◌≡◌, refl, List, [], ◌∷◌, ◌++◌, map, done, Text, codes}
use ivos.Fat.Disk.{Disk}
use ivos.Fat.Volume.{Volume, mount, root_directory_offset, first_data_sector}
use ivos.Fat.Listing.{is_used}
use ivos.Fat.Directory.{Shell}
use ivos.Fat.Tree.Forest.{Forest, IsForest, preorder, print_tree-preorder}
use ivos.Fat.Commands.{Command, Shown}
use ivos.Fat.Commands.Typed.{typed, AllTyped, perform_all, run-perform_all}
use ivos.Fat.Main.{first_shell, ran, fat_main}

-- Without arguments, on an image whose root directory and the directories below it are a forest, and on
-- lines that spell commands, then `exit`: if the commands can be done one after the other from the root
-- directory, the program shows the tree, each directory before what is inside it, then what the
-- commands show, and ends in the directory that they lead to.
pub fat_main-session :
    (d : Disk) (v : Volume) (root first_data rounds height : ℕ) (f : Forest) (cs : List Command)
    (rest : List Text) (shown : List Shown) (last : Shell)
    → mount d ≡ done v
    → root_directory_offset v ≡ done root
    → first_data_sector v ≡ done first_data
    → root + 32 * v.root_dir_entries ≤ d.size
    → IsForest d v first_data is_used root v.root_dir_entries f height
    → height ≤ rounds
    → AllTyped cs
    → perform_all d v rounds cs (first_shell root) ≡ done (shown, last)
    → fat_main [] d rounds (map typed cs ++ (codes "exit" ∷ rest))
      ≡ done (ran (preorder 0 f) shown last)
unfolding fat_main
fat_main-session d v root first_data rounds height f cs rest shown last mounts at regions inside
      forest high spelt performs =
    rw
      (
        mounts,
        at,
        print_tree-preorder d v root first_data rounds height f regions inside forest high,
        run-perform_all d v rounds cs rest (first_shell root) spelt,
        performs,
      )
      refl
