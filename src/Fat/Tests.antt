-- ===== src/Fat/Tests.antt =====
-- The theorems on the reader at the small image.
use ivos.Base.{
  ℕ, ◌≡◌, ◌>>=◌, true, false, inl, refl, arith, List, [], ◌∷◌, ◌++◌, map, done, some, take,
}
use ivos.Fat.Entry.{print_entry, entry_at}
use ivos.Fat.Volume.{Volume}
use ivos.Fat.Volume.Chain.{contents}
use ivos.Fat.Listing.{list_files}
use ivos.Fat.Listing.Shown.{used, entries_of, list_files-Shown}
use ivos.Fat.Reading.{read, name_matches, is_wanted, namecmp, padded}
use ivos.Fat.Reading.Named.{name_matches_iff}
use ivos.Fat.Reading.Found.{read-Content}
use ivos.Fat.Directory.{
  Shell, slash, change_directory, remove_right_including, with_directory, is_directory_named,
}
use ivos.Fat.Directory.Strings.{remove_right_including-with_directory}
use ivos.Fat.Directory.Moves.{
  dots, change_directory-Down, change_directory-Below, change_directory-Returns,
}
use ivos.Fat.Demo.{
  regions_small, image, volume, at_root, in_d, prompt, shell, held_a, held_d, IsChain-a, IsChain-d,
}

abbrev a : List ℕ
a = 0x41 ∷ []

abbrev b : List ℕ
b = 0x42 ∷ []

abbrev d : List ℕ
d = 0x44 ∷ []

abbrev txt : List ℕ
txt = 0x54 ∷ 0x58 ∷ 0x54 ∷ []

-- A volume as the common tools make it, with sectors of 512 bytes.
abbrev card : Volume
card = record {
  start_sector = 2048;
  sector_size = 512;
  sectors_per_cluster = 4;
  reserved_sectors = 4;
  number_of_fats = 2;
  root_dir_entries = 512;
  fat_size_sectors = 64;
}

list_files_sub :
    list_files image volume in_d 3
    ≡ done (map print_entry (entry_at image 160 ∷ entry_at image 192 ∷ []))
unfolding list_files print_entry
list_files_sub = refl

list_files-Shown_example :
    list_files image volume in_d 3
    ≡ done (map print_entry (used (entries_of image 1 (160 ∷ 192 ∷ []))))
list_files-Shown_example =
    list_files-Shown image volume in_d 3 128 (3 ∷ 4 ∷ []) (160 ∷ 192 ∷ []) refl regions_small
      IsChain-d held_d (omega arith)

name_matches_iff_example :
    name_matches (a ++ txt ++ (0x21 ∷ 0 ∷ [])) (a ++ txt ++ (0x20 ∷ [])) ≡ done false
name_matches_iff_example =
    name_matches_iff (a ++ txt) (a ++ txt) [] 0x21 (refl, (refl, (refl, (refl, tt)))) refl

is_wanted-a : is_wanted image (namecmp a txt) 544 ≡ done true
unfolding is_wanted
is_wanted-a = refl

read-Content_example :
    read image volume at_root 3 a txt ≡ done (some (take 40 (contents image 32 (128 ∷ 224 ∷ []))))
read-Content_example =
    read-Content image volume at_root 3 a txt 128 0 (2 ∷ 5 ∷ []) (128 ∷ 224 ∷ []) refl regions_small
      (omega arith) (omega arith) is_wanted-a IsChain-a held_a (omega arith)

not_directory_a : is_directory_named image (padded 8 d) 544 ≡ done false
unfolding is_directory_named
not_directory_a = refl

is_directory_named-d : is_directory_named image (padded 8 d) 576 ≡ done true
unfolding is_directory_named
is_directory_named-d = refl

is_directory_named-up : is_directory_named image (padded 8 dots) 160 ≡ done true
unfolding is_directory_named
is_directory_named-up = refl

abbrev shell_in_d : Shell
shell_in_d = record { place = in_d; current_directory = prompt ++ (slash ∷ d) }

enters_d : change_directory image volume 3 d shell ≡ done shell_in_d
enters_d =
    change_directory-Down image volume 3 128 1 d shell (omega arith) regions_small refl
      (omega arith) (omega arith) (not_directory_a, is_directory_named-d)

change_directory-Below_example : change_directory image volume 3 dots shell_in_d ≡ done shell
unfolding remove_right_including
change_directory-Below_example =
    change_directory-Below image volume 3 128 160 dots (3 ∷ 4 ∷ []) (160 ∷ 192 ∷ []) shell_in_d
      (omega arith) regions_small refl IsChain-d held_d (omega arith)
      (inl (0, omega arith, omega arith, is_directory_named-up))

change_directory-Returns_example :
    (change_directory image volume 3 d shell >>= λ s. change_directory image volume 3 dots s)
    ≡ done shell
change_directory-Returns_example =
    change_directory-Returns image volume 3 128 1 160 d (3 ∷ 4 ∷ []) (160 ∷ 192 ∷ []) shell
      (omega arith) (refl, tt) (omega arith) regions_small refl (omega arith) (omega arith)
      (not_directory_a, is_directory_named-d) refl IsChain-d held_d (omega arith)
      (inl (0, omega arith, omega arith, is_directory_named-up)) refl

prompt_restored : remove_right_including (with_directory prompt d) slash ≡ prompt
prompt_restored = remove_right_including-with_directory prompt d (refl, tt) (omega arith)
