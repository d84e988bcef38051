-- ===== src/Fat/Tree/Endless.antt =====
-- Directories that `print_tree` does not get out of.
use ivos.Base.{
  ℕ, zero, suc, ◌+◌, ◌/◌, ◌<◌, leb, ◌≢◌, subst, ◌≡◌, ◌&&◌, Bool, true, false, List, [], Outcome,
  done, runs_on, fault, ◌>>=◌, if◌then◌else◌, refl, arith, inl, inr, Bool-cases,
}
use ivos.Fat.Disk.{Disk, fread, fseek}
use ivos.Fat.Entry.{Entry, entry_at, read_entry}
use ivos.Fat.Volume.{Volume, first_data_sector, cluster_size, is_end_of_chain}
use ivos.Fat.Volume.Chain.{Holds, fseek-ok}
use ivos.Fat.Listing.{is_used}
use ivos.Fat.Tree.{
  Branch, is_directory, is_shown_in, tree_entries, print_directory, print_below_root, print_tree,
}

-- The run ends with a result.
abbrev pub Returns {ℓ} : {A : Type ℓ} → Outcome A → Type ℓ
Returns {A = A} m = (a : A) × (m ≡ done a)

bind-Returns {ℓ κ} :
    {A : Type ℓ} {B : Type κ} (m : Outcome A) (f : A → Outcome B)
    → Returns (m >>= f)
    → (a : A) × (m ≡ done a) × Returns (f a)
bind-Returns (done a) f r = (a, refl, r)
bind-Returns fault f (b, r) = ground arith
bind-Returns runs_on f (b, r) = ground arith

-- Entry number `i` from a place is a directory that is shown, with the cluster `to`.
abbrev pub HasDirectory : Disk → (is_shown : Entry → Bool) → (off i to : ℕ) → Type 0
HasDirectory d is_shown off zero to =
    (is_shown (entry_at d off) ≡ true)
    × (is_directory (entry_at d off) ≡ true)
    × ((entry_at d off).starting_cluster ≡ to)
HasDirectory d is_shown off (suc i) to = HasDirectory d is_shown (off + 32) i to

tree_entries-Returns :
    (d : Disk) (below : Entry → Outcome (List Branch)) (is_shown : Entry → Bool)
    (depth off n i to : ℕ)
    → i < n
    → HasDirectory d is_shown off i to
    → Returns (tree_entries d below is_shown depth off n)
    → (e : Entry) × (e.starting_cluster ≡ to) × Returns (below e)
unfolding tree_entries read_entry fread
tree_entries-Returns d below is_shown depth off zero i to less has r = ground arith
tree_entries-Returns d below is_shown depth off (suc n) zero to less (shown, dir, at) r =
    elim (Bool-cases (leb (off + 32) d.size)) [
      | inl fits ↦
          let r' = rw (fits, shown, dir) at r in
          let inner = bind-Returns (below (entry_at d off)) _ r' in
          (entry_at d off, at, (inner.0, inner.1))
      | inr fails ↦ let r' = rw fails at r in ground arith
    ]
tree_entries-Returns d below is_shown depth off (suc n) (suc i) to less has r =
    elim (Bool-cases (leb (off + 32) d.size)) [
      | inl fits ↦
          let r' = rw fits at r in
          let inner =
            bind-Returns
              (if is_shown (entry_at d off) && is_directory (entry_at d off)
                then below (entry_at d off)
                else done [])
              _ r' in
          let rest = bind-Returns (tree_entries d below is_shown depth (off + 32) n) _ (inner.2) in
          tree_entries-Returns d below is_shown depth (off + 32) n i to (omega arith) has
            (rest.0, rest.1)
      | inr fails ↦ let r' = rw fails at r in ground arith
    ]

-- The first cluster of directory `a` is held and shows a directory with cluster `b`.
pub record Leads (d : Disk) (v : Volume) (first_data a b : ℕ) : Type 0 where
  pub place : ℕ
  pub holds : Holds d v first_data a place
  pub not_end : is_end_of_chain a ≡ false
  pub index : ℕ
  pub within : index < cluster_size v / 32
  pub has : HasDirectory d (is_shown_in a) place index b

print_directory-Returns :
    (d : Disk) (v : Volume) (first_data rounds depth a b : ℕ)
    → Leads d v first_data a b
    → Returns (print_directory d v first_data (suc rounds) depth a a)
    → Returns (print_directory d v first_data rounds (suc depth) b b)
unfolding print_directory fseek
print_directory-Returns d v first_data rounds depth a b leads r =
    let r' = rw (leads.not_end, fseek-ok d v first_data a leads.place leads.holds) at r in
    let here =
      bind-Returns
        (tree_entries d
          (λ e.
            print_directory d v first_data rounds (suc depth) e.starting_cluster e.starting_cluster)
          (is_shown_in a) depth leads.place (cluster_size v / 32))
        _ r' in
    let inner =
      tree_entries-Returns d
        (λ e.
          print_directory d v first_data rounds (suc depth) e.starting_cluster e.starting_cluster)
        (is_shown_in a) depth leads.place (cluster_size v / 32) leads.index b leads.within leads.has
        (here.0, here.1) in
    subst (λ c. Returns (print_directory d v first_data rounds (suc depth) c c)) inner.1 inner.2

print_directory-Endless :
    (d : Disk) (v : Volume) (first_data rounds depth a b : ℕ)
    → Leads d v first_data a b
    → Leads d v first_data b a
    → (lines : List Branch) → print_directory d v first_data rounds depth a a ≢ done lines
unfolding print_directory
print_directory-Endless d v first_data zero depth a b there back lines r = ground arith
print_directory-Endless d v first_data (suc rounds) depth a b there back lines r =
    let inner = print_directory-Returns d v first_data rounds depth a b there (lines, r) in
    print_directory-Endless d v first_data rounds (suc depth) b a back there inner.0 inner.1

-- When the root directory has a directory with cluster `a`, and the directories with clusters `a` and
-- `b` show each other, as a directory and its parent `..` do, `print_tree` does not return: no number of
-- rounds is enough.
pub print_tree-Endless :
    (d : Disk) (v : Volume) (root first_data index rounds a b : ℕ)
    → first_data_sector v ≡ done first_data
    → index < v.root_dir_entries
    → HasDirectory d is_used root index a
    → Leads d v first_data a b
    → Leads d v first_data b a
    → (lines : List Branch) → print_tree d v root rounds ≢ done lines
unfolding print_tree
print_tree-Endless d v root first_data index rounds a b regions within has there back lines r =
    let inner =
      tree_entries-Returns d (print_below_root d v rounds) is_used 0 root v.root_dir_entries index a
        within has (lines, r) in
    let below = rw regions at inner.2 in
    let at_a = subst (λ c. Returns (print_directory d v first_data rounds 1 c c)) inner.1 below in
    print_directory-Endless d v first_data rounds 1 a b there back at_a.0 at_a.1
