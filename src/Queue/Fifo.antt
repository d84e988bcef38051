-- ===== src/Queue/Fifo.antt =====
-- `queue_push` and `queue_pop` against a list.
use ivos.Base.{
  ℤ, negsuc, ◌≡◌, ◌≢◌, refl, sym, ◌∙◌, ap, subst, true, false, [], ◌∷◌, ◌++◌, Option, none, some,
  arith, done, ◌==◌,
}
use ivos.Queue.{
  Ptr, null, Item, item, Heap, write, load, set_thread_idx, set_next, Allocation, Queue,
  queue_is_empty, link, queue_push, drop_head, queue_pop,
}
use ivos.Queue.Chain.{
  Cells, NotIn, IsChain, IsQueue, IsChain-frame, IsChain-head, IsChain-last, NotIn-append,
}

module _ (h : Heap) (p : Ptr) (i : Item) (ne : p ≢ null) (holds : h p ≡ some i) where
  load-ok : load p h ≡ done i
  unfolding load
  load-ok = ground arith

  set_thread_idx-ok :
      (v : ℤ) → set_thread_idx p v h ≡ done (write h p (some (record i { thread_idx = v })))
  unfolding set_thread_idx
  set_thread_idx-ok v = rw load-ok

  set_next-ok : (q : Ptr) → set_next p q h ≡ done (write h p (some (record i { next = q })))
  unfolding set_next
  set_next-ok q = rw load-ok

write_self : (h : Heap) (p : Ptr) (c : Option Item) → write h p c p ≡ c
unfolding write
write_self h p c = ground arith

write-other : (h : Heap) (p a : Ptr) (c : Option Item) → a ≢ p → write h p c a ≡ h a
unfolding write
write-other h p a c ne = ground arith

-- A chain whose last item is linked to a new one.
IsChain-append :
    (h g : Heap) (q : Ptr) (w : ℤ) (p : Ptr) (v : ℤ) (xs : Cells) (l : Ptr)
    → q ≢ null
    → ((a : Ptr) → a ≢ l → a ≢ q → g a ≡ h a)
    → ((u : ℤ) → h l ≡ some (item u null) → g l ≡ some (item u q))
    → g q ≡ some (item w null)
    → NotIn q ((p, v) ∷ xs)
    → IsChain h p v xs l
    → IsChain g p v (xs ++ (q, w) ∷ []) q
IsChain-append h g q w p v [] l nz same linked new out (a, b, c) = (
  a,
  subst (λ x. g x ≡ some (item v q)) c (linked v (ap h c ∙ b)),
  ((λ e. out.0 (sym e)), tt),
  (nz, new, refl),
)
IsChain-append h g q w p v ((p', v') ∷ xs) l nz same linked new out (a, b, c, d) =
    let (u, e, f, i) = IsChain-last h p' v' xs l d in
    (
      a,
      same p (λ x. i (subst (λ y. NotIn y ((p', v') ∷ xs)) x c)) (λ x. out.0 (sym x)) ∙ b,
      NotIn-append p ((p', v') ∷ xs) q w c (λ x. out.0 (sym x)),
      IsChain-append h g q w p' v' xs l nz same linked new out.1 d,
    )

relink :
    (u u' : ℤ) (q : Ptr) (c : Option Item)
    → c ≡ some (item u null)
    → c ≡ some (item u' null)
    → ◌≡◌ {A = Option Item} (some (item u q)) (some (item u' q))
relink u u' q c e e' = ground arith

-- The differences of two heaps.
abbrev pub SameBut : Ptr → Ptr → Heap → Heap → Type 0
SameBut p q h g = (a : Ptr) → a ≢ p → a ≢ q → g a ≡ h a

module _ (m : Allocation) (w : ℤ) (h : Heap) where
  -- The new item with its index, and with its last link.
  fresh : Heap
  fresh = write (write h m.address (some m.content)) m.address (some (item w m.content.next))

  fresh_self : fresh m.address ≡ some (item w m.content.next)
  unfolding fresh
  fresh_self = write_self _ m.address _

  fresh-other : (a : Ptr) → a ≢ m.address → fresh a ≡ h a
  unfolding fresh
  fresh-other a ne = write-other _ m.address a _ ne ∙ write-other h m.address a _ ne

module _ (m : Allocation) (q : Queue) (w : ℤ) (h : Heap) (nz : m.address ≢ null) where
  fresh-ok : set_thread_idx m.address w (write h m.address (some m.content)) ≡ done (fresh m w h)
  unfolding fresh
  fresh-ok =
      set_thread_idx-ok (write h m.address (some m.content)) m.address m.content nz
        (write_self h m.address _) w

  push_first :
      q.head ≡ null
      → queue_push m q w h
        ≡ done (
          record { head = m.address; tail = m.address },
          write (fresh m w h) m.address (some (item w null)),
        )
  unfolding queue_push link queue_is_empty
  push_first e =
      let none_yet : (q.head == null) ≡ true = ground arith in
      rw (
        fresh-ok,
        none_yet,
        set_next-ok (fresh m w h) m.address (item w m.content.next) nz (fresh_self m w h) null,
      )

  push_last :
      (u : ℤ)
      → q.head ≢ null
      → q.tail ≢ null
      → q.tail ≢ m.address
      → h q.tail ≡ some (item u null)
      → queue_push m q w h
        ≡ done (
          record q { tail = m.address },
          write
              (write (fresh m w h) q.tail (some (item u m.address)))
              m.address
              (some (item w null)),
        )
  unfolding queue_push link queue_is_empty
  push_last u full tz ne holds =
      let linked = write (fresh m w h) q.tail (some (item u m.address)) in
      let filled : (q.head == null) ≡ false = ground arith in
      rw (
        fresh-ok,
        filled,
        set_next-ok (fresh m w h) q.tail (item u null) tz (fresh-other m w h q.tail ne ∙ holds)
            m.address,
        set_next-ok linked m.address (item w m.content.next) nz
            (write-other (fresh m w h) q.tail m.address _ (λ e. ne (sym e)) ∙ fresh_self m w h)
            null,
      )

-- With memory at an address that is not in use, `queue_push` neither faults nor changes an item other
-- than the last, and the queue then stands for the old list with the new index at its end.
pub queue_push-append :
    (m : Allocation) (q : Queue) (w : ℤ) (h : Heap) (xs : Cells)
    → m.address ≢ null
    → NotIn m.address xs
    → IsQueue h q xs
    → (q' : Queue) × (g : Heap) × (queue_push m q w h ≡ done (q', g))
      × IsQueue g q' (xs ++ (m.address, w) ∷ [])
      × SameBut m.address q.tail h g
queue_push-append m q w h [] nz out is = (
  record { head = m.address; tail = m.address },
  write (fresh m w h) m.address (some (item w null)),
  push_first m q w h nz is.0,
  (refl, (nz, write_self (fresh m w h) m.address _, refl)),
  λ a ne _. write-other (fresh m w h) m.address a _ ne ∙ fresh-other m w h a ne,
)
queue_push-append m q w h ((p, v) ∷ xs) nz out (first, chain) =
    let (u, holds, tz, used) = IsChain-last h p v xs q.tail chain in
    let ne : q.tail ≢ m.address = λ e. used (subst (λ a. NotIn a ((p, v) ∷ xs)) (sym e) out) in
    let linked = write (fresh m w h) q.tail (some (item u m.address)) in
    let g = write linked m.address (some (item w null)) in
    let same : SameBut m.address q.tail h g = λ a na nt.
      write-other linked m.address a _ na
      ∙ write-other (fresh m w h) q.tail a _ nt
      ∙ fresh-other m w h a na in
    (
      record q { tail = m.address },
      g,
      push_last m q w h nz u (λ e. IsChain-head h p v xs q.tail chain (sym first ∙ e)) tz ne holds,
      (
        first,
        IsChain-append h g m.address w p v xs q.tail nz (λ a nt na. same a na nt)
            (λ u' e.
              write-other linked m.address q.tail _ ne
              ∙ write_self (fresh m w h) q.tail _
              ∙ relink u u' m.address (h q.tail) holds e)
            (write_self linked m.address _) out chain,
      ),
      same,
    )

-- On an empty queue `queue_pop` returns -1 and changes nothing.
pub queue_pop-empty :
    (q : Queue) (h : Heap) → IsQueue h q [] → queue_pop q h ≡ done (negsuc 0, q, h)
unfolding queue_pop queue_is_empty
queue_pop-empty q h is = let none_yet : (q.head == null) ≡ true = ground arith in rw none_yet

pop_run :
    (q : Queue) (h : Heap) (i : Item)
    → q.head ≢ null
    → h q.head ≡ some i
    → queue_pop q h ≡ done (i.thread_idx, drop_head q i.next, write h q.head none)
unfolding queue_pop queue_is_empty
pop_run q h i nz holds = ground (arith, holds)

IsQueue-drop_head :
    (q : Queue) (h : Heap) (p : Ptr) (v : ℤ) (xs : Cells)
    → q.head ≡ p
    → IsChain h p v xs q.tail
    → (next : Ptr) × (h p ≡ some (item v next)) × IsQueue (write h p none) (drop_head q next) xs
unfolding drop_head queue_is_empty
IsQueue-drop_head q h p v [] e c = (null, c.1, (refl, refl))
IsQueue-drop_head q h p v ((p', v') ∷ xs) e (a, b, n, c) =
    let filled : (p' == null) ≡ false = ground (arith, IsChain-head h p' v' xs q.tail c) in
    let same =
      IsChain-frame h (write h p none) p' v' xs q.tail
        (λ a' used.
          write-other h p a' none (λ x. used (subst (λ y. NotIn y ((p', v') ∷ xs)) (sym x) n)))
        c in
    (p', b, rw filled (refl, same))

-- On a queue that is not empty `queue_pop` neither faults nor changes any other item: it returns the
-- first index, frees its item, and the queue then stands for the rest of the list.
pub queue_pop-first :
    (q : Queue) (h : Heap) (p : Ptr) (v : ℤ) (xs : Cells)
    → IsQueue h q ((p, v) ∷ xs)
    → (q' : Queue) × (queue_pop q h ≡ done (v, q', write h p none)) × IsQueue (write h p none) q' xs
queue_pop-first q h p v xs (e, c) =
    let (next, holds, is) = IsQueue-drop_head q h p v xs e c in
    (
      drop_head q next,
      pop_run q h (item v next) (λ x. IsChain-head h p v xs q.tail c (sym e ∙ x)) (ap h e ∙ holds)
          ∙ ap (λ a. done (v, drop_head q next, write h a none)) e,
      is,
    )
