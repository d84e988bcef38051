-- ===== src/Fat/Tree/Tests.antt =====
-- The theorems on `print_tree` at the small images.
use ivos.Base.{◌≡◌, ◌≢◌, refl, arith, [], ◌∷◌, done}
use ivos.Fat.Entry.{entry_at}
use ivos.Fat.Tree.{branch, print_tree}
use ivos.Fat.Tree.Forest.{print_tree-preorder}
use ivos.Fat.Tree.Endless.{Leads, print_tree-Endless}
use ivos.Fat.Demo.{regions_small, image, nested, volume, tree, image-IsForest}

print_tree-flat :
    print_tree image volume 544 4
    ≡ done (
        branch 0 (entry_at image 544)
        ∷ branch 0 (entry_at image 576)
        ∷ branch 1 (entry_at image 192)
        ∷ [])
unfolding print_tree
print_tree-flat = refl

d_to_e : Leads nested volume 128 3 4
d_to_e = record {
  place = 160;
  holds = record {
    at_place = refl;
    content = omega arith;
    small = omega arith;
    link = omega arith;
  };
  not_end = refl;
  index = 0;
  within = omega arith;
  has = (refl, refl, refl);
}

e_to_d : Leads nested volume 128 4 3
e_to_d = record {
  place = 192;
  holds = record {
    at_place = refl;
    content = omega arith;
    small = omega arith;
    link = omega arith;
  };
  not_end = refl;
  index = 0;
  within = omega arith;
  has = (refl, refl, refl);
}

print_tree-Endless_example : print_tree nested volume 544 1000 ≢ done []
print_tree-Endless_example =
    print_tree-Endless nested volume 544 128 0 1000 3 4 regions_small (omega arith)
      (refl, refl, refl) d_to_e e_to_d []

print_tree-preorder_example :
    print_tree image volume 544 3
    ≡ done (
        branch 0 (entry_at image 544)
        ∷ branch 0 (entry_at image 576)
        ∷ branch 1 (entry_at image 192)
        ∷ [])
print_tree-preorder_example =
    print_tree-preorder image volume 544 128 3 3 tree regions_small (omega arith) image-IsForest
      (omega arith)
