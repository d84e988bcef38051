-- ===== src/Scheduler/Create/Result.antt =====
-- When `gt_create` fails, and which slot it fills.
use ivos.Base.{
  ℕ, zero, suc, ◌+◌, ◌<◌, ◌≤◌, ◌≡◌, ◌≢◌, ◌⊎◌, inl, inr, pos, negsuc, arith, none, some,
  Option-cases, Bool-cases, ◌==◌, ==→eq, ℕ_discrete,
}
use ivos.Scheduler.Thread.{unused, Kernel, state_of}
use ivos.Scheduler.Create.{find_unused, Request, fill_slot, gt_create}

find_unused-some :
    (left : ℕ) (k : Kernel) (p q : ℕ)
    → find_unused left k p ≡ some q
    → (p ≤ q) × (q < p + left) × (state_of k q ≡ unused)
unfolding find_unused
find_unused-some zero k p q h = ground arith
find_unused-some (suc left) k p q h = ground (arith, find_unused-some left k (p + 1) q)

find_unused-first :
    (left : ℕ) (k : Kernel) (p q j : ℕ)
    → find_unused left k p ≡ some q
    → p ≤ j
    → j < q
    → state_of k j ≢ unused
unfolding find_unused
find_unused-first zero k p q j h l u = ground arith
find_unused-first (suc left) k p q j h l u = elim (ℕ_discrete p j) [
  | yes e ↦ ground arith
  | no ne ↦ ground (arith, find_unused-first left k (p + 1) q j)
]

find_unused-none :
    (left : ℕ) (k : Kernel) (p j : ℕ)
    → find_unused left k p ≡ none
    → p ≤ j
    → j < p + left
    → state_of k j ≢ unused
unfolding find_unused
find_unused-none zero k p j h l u = absurd (omega arith)
find_unused-none (suc left) k p j h l u = elim (ℕ_discrete p j) [
  | yes e ↦ ground arith
  | no ne ↦ ground (arith, find_unused-none left k (p + 1) j)
]

-- Why a call fails.
abbrev pub Refused : Request → Kernel → Type 0
Refused r k = ((j : ℕ) → j < 5 → state_of k j ≢ unused) ⊎ (r.stack ≡ 0)

-- `p` is the first unused slot.
pub record FirstUnused (k : Kernel) (p : ℕ) : Type 0 where
  pub within : p < 5
  pub is_unused : state_of k p ≡ unused
  pub first : (j : ℕ) → j < p → state_of k j ≢ unused

-- `gt_create` returns -1 and changes nothing, and then the table is full or `malloc` has failed; or
-- it returns 0 and fills the first unused slot, and then `malloc` has not failed.
pub gt_create-cases :
    (r : Request) (k : Kernel)
    → ((gt_create r k ≡ (k, negsuc 0)) × Refused r k)
      ⊎ ((p : ℕ) × FirstUnused k p × (r.stack ≢ 0) × (gt_create r k ≡ (fill_slot r p k, pos 0)))
unfolding gt_create
gt_create-cases r k = elim (Option-cases (find_unused 5 k 0)) [
  | inl full ↦
      inl (ground (arith, full), inl (λ j l. find_unused-none 5 k 0 j full (omega arith) l))
  | inr (p, found) ↦
      let (a, b, c) = find_unused-some 5 k 0 p found in
      elim (Bool-cases (r.stack == 0)) [
        | inl out ↦ inl (ground (arith, found), inr (==→eq r.stack 0 out))
        | inr ok ↦ inr (
          p,
          record {
            within = b;
            is_unused = c;
            first = λ j l. find_unused-first 5 k 0 p j found (omega arith) l;
          },
          ground arith,
          ground (arith, found),
        )
      ]
]
