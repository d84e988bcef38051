-- ===== src/Queue/Chain.antt =====
-- The items that a queue's pointers lead through.
use ivos.Base.{ℤ, ◌≡◌, ◌≢◌, refl, sym, ◌∙◌, List, [], ◌∷◌, ◌++◌, some, ap}
use ivos.Queue.{Ptr, null, item, Heap, Queue}

-- Address and thread index of each item, in order.
abbrev pub Cells : Type 0
Cells = List (Ptr × ℤ)

-- `a` is none of the addresses.
abbrev pub NotIn : Ptr → Cells → Type 0
NotIn a [] = Unit {0}
NotIn a ((p, v) ∷ xs) = (a ≢ p) × NotIn a xs

-- From `p`, which holds `v`, the items lead through the distinct cells `xs` to the last one, at `l`.
abbrev pub IsChain : Heap → Ptr → ℤ → Cells → Ptr → Type 0
IsChain h p v [] l = (p ≢ null) × (h p ≡ some (item v null)) × (l ≡ p)
IsChain h p v ((p', v') ∷ xs) l =
    (p ≢ null) × (h p ≡ some (item v p')) × NotIn p ((p', v') ∷ xs) × IsChain h p' v' xs l

abbrev pub IsQueue : Heap → Queue → Cells → Type 0
IsQueue h q [] = (q.head ≡ null) × (q.tail ≡ null)
IsQueue h q ((p, v) ∷ xs) = (q.head ≡ p) × IsChain h p v xs q.tail

-- A chain survives a change of the heap elsewhere.
pub IsChain-frame :
    (h g : Heap) (p : Ptr) (v : ℤ) (xs : Cells) (l : Ptr)
    → ((a : Ptr) → ¬ NotIn a ((p, v) ∷ xs) → g a ≡ h a)
    → IsChain h p v xs l
    → IsChain g p v xs l
IsChain-frame h g p v [] l same (a, b, c) = (a, same p (λ n. n.0 refl) ∙ b, c)
IsChain-frame h g p v ((p', v') ∷ xs) l same (a, b, c, d) = (
  a,
  same p (λ n. n.0 refl) ∙ b,
  c,
  IsChain-frame h g p' v' xs l (λ b' n. same b' (λ m. n m.1)) d,
)

pub IsChain-head :
    (h : Heap) (p : Ptr) (v : ℤ) (xs : Cells) (l : Ptr) → IsChain h p v xs l → p ≢ null
IsChain-head h p v [] l c = c.0
IsChain-head h p v (x ∷ xs) l c = c.0

-- The last item: at `l`, with no successor.
pub IsChain-last :
    (h : Heap) (p : Ptr) (v : ℤ) (xs : Cells) (l : Ptr)
    → IsChain h p v xs l
    → (w : ℤ) × (h l ≡ some (item w null)) × (l ≢ null) × ¬ NotIn l ((p, v) ∷ xs)
IsChain-last h p v [] l (a, b, c) = (v, ap h c ∙ b, (λ e. a (sym c ∙ e)), (λ n. n.0 c))
IsChain-last h p v ((p', v') ∷ xs) l (a, b, c, d) =
    let (w, e, f, i) = IsChain-last h p' v' xs l d in (w, e, f, λ n. i n.1)

pub NotIn-append :
    (a : Ptr) (xs : Cells) (q : Ptr) (w : ℤ) → NotIn a xs → a ≢ q → NotIn a (xs ++ (q, w) ∷ [])
NotIn-append a [] q w n ne = (ne, tt)
NotIn-append a ((p, v) ∷ xs) q w n ne = (n.0, NotIn-append a xs q w n.1 ne)
