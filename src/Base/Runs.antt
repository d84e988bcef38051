-- ===== src/Base/Runs.antt =====
-- What a run of a C function ends in.
use mathlib.Core.Logic.{◌≢◌}
use mathlib.Core.Path.{◌≡◌, refl}
use mathlib.Core.Bool.{Bool, true, false}
use mathlib.Core.Option.{Option, none, some}
use ivos.Base.Tests.{if◌then◌else◌}
use ivos.Base.Lists.{maybe}

-- `fault` is undefined behaviour, such as a call through a null pointer, or an
-- exception that nothing catches; `runs_on` means that the
-- rounds given to a loop were used up before it returned.
pub data Outcome {ℓ} (A : Type ℓ) : Type ℓ where
  done : A → Outcome A
  fault : Outcome A
  runs_on : Outcome A

infixl 5 ◌>>=◌ ◌>>◌
abbrev pub ◌>>=◌ {ℓ κ} : {A : Type ℓ} {B : Type κ} → Outcome A → (A → Outcome B) → Outcome B
done a >>= f = f a
fault >>= f = fault
runs_on >>= f = runs_on

abbrev pub ◌>>◌ {ℓ κ} : {A : Type ℓ} {B : Type κ} → Outcome A → Outcome B → Outcome B
m >> n = m >>= λ _. n

-- The result, if there is one, has the property.
abbrev pub Ensures {ℓ κ} : {A : Type ℓ} → (A → Type κ) → Outcome A → Type κ
Ensures P (done a) = P a
Ensures P fault = Unit
Ensures P runs_on = Unit

pub Ensures-bind {ℓ κ μ ν} :
    {A : Type ℓ} {B : Type κ} (P : A → Type μ) (Q : B → Type ν) (m : Outcome A) (f : A → Outcome B)
    → Ensures P m
    → ((a : A) → P a → Ensures Q (f a))
    → Ensures Q (m >>= f)
Ensures-bind P Q (done a) f h next = next a h
Ensures-bind P Q fault f h next = tt
Ensures-bind P Q runs_on f h next = tt

-- Whatever a run gives, if nothing is known of it.
pub Ensures-any {ℓ} : {A : Type ℓ} (m : Outcome A) → Ensures (λ _. Unit {0}) m
Ensures-any (done a) = tt
Ensures-any fault = tt
Ensures-any runs_on = tt

-- The run has no fault, and its result, if there is one, has the property.
abbrev pub Safely {ℓ} : {A : Type ℓ} → (A → Type 0) → Outcome A → Type 0
Safely P (done a) = P a
Safely P fault = ⊥
Safely P runs_on = Unit

pub Safely-after {ℓ κ} :
    {A : Type ℓ} {B : Type κ} (P : B → Type 0) (m : Outcome A) (b : B)
    → m ≢ fault
    → P b
    → Safely P (m >>= λ _. done b)
Safely-after P (done a) b safe h = h
Safely-after P fault b safe h = absurd (safe refl)
Safely-after P runs_on b safe h = tt

pub Safely-not_fault {ℓ} : {A : Type ℓ} (P : A → Type 0) (m : Outcome A) → Safely P m → m ≢ fault
Safely-not_fault P (done a) h e = cc
Safely-not_fault P fault h e = h
Safely-not_fault P runs_on h e = cc

pub Ensures-maybe {ℓ κ μ} :
    {A : Type ℓ} {B : Type κ} (P : B → Type μ) (o : Option A) (n : Outcome B) (f : A → Outcome B)
    → Ensures P n
    → ((a : A) → Ensures P (f a))
    → Ensures P (maybe o n f)
Ensures-maybe P none n f hn hf = hn
Ensures-maybe P (some a) n f hn hf = hf a

pub Ensures-if {ℓ κ} :
    {A : Type ℓ} (P : A → Type κ) (b : Bool) (m n : Outcome A)
    → (b ≡ true → Ensures P m)
    → (b ≡ false → Ensures P n)
    → Ensures P (if b then m else n)
Ensures-if P true m n hm hn = hm refl
Ensures-if P false m n hm hn = hn refl

pub Ensures-both {ℓ κ μ} :
    {A : Type ℓ} (P : A → Type κ) (Q : A → Type μ) (m : Outcome A)
    → Ensures P m
    → Ensures Q m
    → Ensures (λ a. P a × Q a) m
Ensures-both P Q (done a) p q = (p, q)
Ensures-both P Q fault p q = tt
Ensures-both P Q runs_on p q = tt
