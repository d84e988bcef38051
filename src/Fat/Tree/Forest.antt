-- ===== src/Fat/Tree/Forest.antt =====
-- The tree that an image holds, and its printing.
use ivos.Base.{
  max, ℕ, zero, suc, ◌+◌, ◌*◌, ◌/◌, ◌≤◌, ◌≡◌, Bool, true, false, refl, ap, sym, List, [], ◌∷◌, ◌++◌,
  append_assoc, Outcome, done, ◌>>=◌, arith, ≤→leb,
}
use ivos.Fat.Disk.{Disk, fread, fseek, u16_at}
use ivos.Fat.Entry.{Entry, entry_at, read_entry}
use ivos.Fat.Volume.{Volume, first_data_sector, cluster_size, is_end_of_chain, fat_entry_offset}
use ivos.Fat.Volume.Chain.{Holds, fseek-ok, get_next_cluster-ok}
use ivos.Fat.Listing.{is_used}
use ivos.Fat.Tree.{
  Branch, branch, is_directory, is_shown_in, tree_entries, print_directory, print_below_root,
  print_tree,
}

-- Entries one after the other, each with what is inside it, nothing for a file.
pub data Forest : Type 0 where
  leaf : Forest
  grow : (e : Entry) (inside rest : Forest) → Forest

abbrev pub join : Forest → Forest → Forest
join leaf g = g
join (grow e inside rest) g = grow e inside (join rest g)

-- Each entry before what is inside it, and that before the next.
abbrev pub preorder : (depth : ℕ) → Forest → List Branch
preorder depth leaf = []
preorder depth (grow e inside rest) =
    branch depth e ∷ (preorder (suc depth) inside ++ preorder depth rest)

module _ (d : Disk) (v : Volume) (first_data : ℕ) where
  mutual
    -- The shown ones of `n` entries from a place are a forest. Its height is that of the highest
    -- directory in it.
    pub data IsForest
        : (is_shown : Entry → Bool) → (off n : ℕ) → Forest → (height : ℕ) → Type 0 where
      last : {shown : Entry → Bool} {off : ℕ} → IsForest shown off zero leaf zero
      hidden :
          {shown : Entry → Bool} {off n k : ℕ} {f : Forest}
          → shown (entry_at d off) ≡ false
          → IsForest shown (off + 32) n f k
          → IsForest shown off (suc n) f k
      a_file :
          {shown : Entry → Bool} {off n k : ℕ} {f : Forest}
          → shown (entry_at d off) ≡ true
          → is_directory (entry_at d off) ≡ false
          → IsForest shown (off + 32) n f k
          → IsForest shown off (suc n) (grow (entry_at d off) leaf f) k
      a_directory :
          {shown : Entry → Bool} {off n j k : ℕ} {f inside : Forest}
          → shown (entry_at d off) ≡ true
          → is_directory (entry_at d off) ≡ true
          → IsDirectory (entry_at d off).starting_cluster (entry_at d off).starting_cluster inside j
          → IsForest shown (off + 32) n f k
          → IsForest shown off (suc n) (grow (entry_at d off) inside f) (max j k)

    -- The shown entries of a directory, from a cluster of its chain on. Each cluster, and the end of the
    -- chain, is a level: the height is the most of them on any way down.
    pub data IsDirectory : (directory cluster : ℕ) → Forest → (height : ℕ) → Type 0 where
      ended :
          {directory cluster : ℕ}
          → is_end_of_chain cluster ≡ true
          → IsDirectory directory cluster leaf (suc zero)
      linked :
          {directory cluster place j k : ℕ} {f g : Forest}
          → is_end_of_chain cluster ≡ false
          → Holds d v first_data cluster place
          → IsForest (is_shown_in directory) place (cluster_size v / 32) f j
          → IsDirectory directory (u16_at d (fat_entry_offset v cluster)) g k
          → IsDirectory directory cluster (join f g) (suc (max j k))

preorder-join :
    (depth : ℕ) (f g : Forest) → preorder depth (join f g) ≡ preorder depth f ++ preorder depth g
preorder-join depth leaf g = refl
preorder-join depth (grow e inside rest) g =
    ap (λ ls. branch depth e ∷ ls)
      (rw (preorder-join depth rest g)
        (sym (append_assoc (preorder (suc depth) inside) (preorder depth rest) (preorder depth g))))

module _ (d : Disk) (v : Volume) (first_data : ℕ) where
  mutual
    unfolding tree_entries print_directory read_entry fread fseek

    tree_entries_lem :
        {shown : Entry → Bool} {off n k : ℕ} {f : Forest} (r depth : ℕ)
        → IsForest d v first_data shown off n f k
        → k ≤ r
        → off + 32 * n ≤ d.size
        → tree_entries d
            (λ e.
              print_directory d v first_data r (suc depth) e.starting_cluster e.starting_cluster)
            shown
            depth
            off
            n
          ≡ done (preorder depth f)
    tree_entries_lem r depth last high inside = refl
    tree_entries_lem {off = off} {n = suc n} r depth (hidden h rest) high inside =
        rw
          (
            ≤→leb (off + 32) d.size (omega arith),
            h,
            tree_entries_lem r depth rest high (omega arith),
          )
          refl
    tree_entries_lem {off = off} {n = suc n} r depth (a_file h file rest) high inside =
        rw
          (
            ≤→leb (off + 32) d.size (omega arith),
            h,
            file,
            tree_entries_lem r depth rest high (omega arith),
          )
          refl
    tree_entries_lem {off = off} {n = suc n} r depth (a_directory h dir below rest) high inside =
        rw
          (
            ≤→leb (off + 32) d.size (omega arith),
            h,
            dir,
            print_directory_lem r (suc depth) below (omega arith),
            tree_entries_lem r depth rest (omega arith) (omega arith),
          )
          refl

    print_directory_lem :
        {directory cluster k : ℕ} {f : Forest} (r depth : ℕ)
        → IsDirectory d v first_data directory cluster f k
        → k ≤ r
        → print_directory d v first_data r depth directory cluster ≡ done (preorder depth f)
    print_directory_lem zero depth (ended e) high = ground arith
    print_directory_lem (suc r) depth (ended e) high = rw e refl
    print_directory_lem zero depth (linked open_end held here next) high = ground arith
    print_directory_lem {cluster = cluster} (suc r) depth
          (linked {place = place} {f = f} {g = g} open_end held here next) high =
        rw
          (
            open_end,
            fseek-ok d v first_data cluster place held,
            tree_entries_lem r depth here (omega arith) (omega (arith, held.content)),
            get_next_cluster-ok d v cluster held.small held.link,
            print_directory_lem r depth next (omega arith),
          )
          (ap done (sym (preorder-join depth f g)))

below_root :
    (d : Disk) (v : Volume) (first_data rounds : ℕ)
    → first_data_sector v ≡ done first_data
    → print_below_root d v rounds
      ≡ (λ e. print_directory d v first_data rounds 1 e.starting_cluster e.starting_cluster)
below_root d v first_data rounds regions =
    ap {B = Entry → Outcome (List Branch)}
      (λ (o : Outcome ℕ) (e : Entry).
        o >>= λ at. print_directory d v at rounds 1 e.starting_cluster e.starting_cluster)
      regions

-- When the root directory that the image holds and the directories below it are a forest, as many rounds
-- as its height are enough for `print_tree`, where on the way down each cluster that is passed and the
-- end of each chain count as a level: it prints every shown entry of it once, each directory before
-- what is inside it, and with bars for its level.
pub print_tree-preorder :
    (d : Disk) (v : Volume) (root first_data rounds height : ℕ) (f : Forest)
    → first_data_sector v ≡ done first_data
    → root + 32 * v.root_dir_entries ≤ d.size
    → IsForest d v first_data is_used root v.root_dir_entries f height
    → height ≤ rounds
    → print_tree d v root rounds ≡ done (preorder 0 f)
unfolding print_tree
print_tree-preorder d v root first_data rounds height f regions inside forest high =
    rw (below_root d v first_data rounds regions)
      (tree_entries_lem d v first_data rounds 0 forest high inside)
