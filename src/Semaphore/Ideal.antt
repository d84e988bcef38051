-- ===== src/Semaphore/Ideal.antt =====
-- What a counting semaphore promises: how many units are left, and who waits, the longest first.
use ivos.Base.{ℕ, ◌+◌, ◌-◌, ◌≡◌, ◌==◌, ltb, List, [], ◌∷◌, ◌++◌, if◌then◌else◌, arith}

-- With the numbers of waits and of posts so far.
pub record Ideal : Type 0 where
  pub units : ℕ
  pub waiting : List ℕ
  pub waits : ℕ
  pub posts : ℕ

abbrev pub first_ideal : (units : ℕ) → Ideal
first_ideal units = record { units = units; waiting = []; waits = 0; posts = 0 }

-- Thread `j` takes a unit, or is the last to wait.
abbrev pub after_wait : (j : ℕ) → Ideal → Ideal
after_wait j a =
    if ltb 0 a.units
    then record a { units = a.units - 1; waits = a.waits + 1 }
    else record a { waiting = a.waiting ++ (j ∷ []); waits = a.waits + 1 }

-- A unit goes to the first that waits, if there is one.
abbrev give : (waiting : List ℕ) → Ideal → Ideal
give [] a = record a { units = a.units + 1; waiting = [] }
give (i ∷ rest) a = record a { waiting = rest }

abbrev pub after_post : Ideal → Ideal
after_post a = give a.waiting (record a { posts = a.posts + 1 })

-- How often a thread stands in a list.
abbrev pub occurs : ℕ → List ℕ → ℕ
occurs j [] = 0
occurs j (i ∷ is) = (if i == j then 1 else 0) + occurs j is

pub occurs-append : (j : ℕ) (xs ys : List ℕ) → occurs j (xs ++ ys) ≡ occurs j xs + occurs j ys
occurs-append j [] ys = omega arith
occurs-append j (x ∷ xs) ys = omega (arith, occurs-append j xs ys)
