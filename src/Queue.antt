-- ===== src/Queue.antt =====
-- The linked queue of scheduler/g_queue.c, over an explicit heap.
mod Tests
pub mod Chain
pub mod Fifo
use ivos.Base.{
  ℕ, ℤ, negsuc, Bool, Option, none, some, Outcome, done, fault, ◌>>=◌, if◌then◌else◌, ◌==◌,
}

abbrev pub Ptr : Type 0
Ptr = ℕ

abbrev pub null : Ptr
null = 0

-- `struct queue_item`
pub record Item : Type 0 where
  pub thread_idx : ℤ
  pub next : Ptr

abbrev pub item : ℤ → Ptr → Item
item v p = record { thread_idx = v; next = p }

abbrev pub Heap : Type 0
Heap = Ptr → Option Item

unfoldable pub write : Heap → Ptr → Option Item → Heap
write h p c a = if a == p then c else h a

-- `*p`: a fault at NULL and at an address that holds no item.
unfoldable pub load : Ptr → Heap → Outcome Item
load p h = if p == null then fault else elim (h p) [ none ↦ fault | some i ↦ done i ]

unfoldable pub set_thread_idx : Ptr → ℤ → Heap → Outcome Heap
unfolding load write
set_thread_idx p v h = do i ← load p h; done (write h p (some (record i { thread_idx = v })))

unfoldable pub set_next : Ptr → Ptr → Heap → Outcome Heap
unfolding load write
set_next p q h = do i ← load p h; done (write h p (some (record i { next = q })))

unfoldable pub free : Ptr → Heap → Outcome Heap
unfolding load write
free p h = do _ ← load p h; done (write h p none)

-- What `malloc` gives: an address, NULL if memory is short, and what lies there.
pub record Allocation : Type 0 where
  pub address : Ptr
  pub content : Item

-- `struct queue_t`
pub record Queue : Type 0 where
  pub head : Ptr
  pub tail : Ptr

unfoldable pub queue_init : Queue
queue_init = record { head = null; tail = null }

unfoldable pub queue_is_empty : Queue → Bool
queue_is_empty q = q.head == null

-- The `if` of `queue_push`, with the new item at `thread`.
unfoldable pub link : Queue → Ptr → Heap → Outcome (Queue × Heap)
unfolding queue_is_empty set_next
link q thread h =
    if queue_is_empty q
    then done (record { head = thread; tail = thread }, h)
    else do h' ← set_next q.tail thread h; done (record q { tail = thread }, h')

unfoldable pub queue_push : Allocation → Queue → ℤ → Heap → Outcome (Queue × Heap)
unfolding link set_thread_idx set_next write
queue_push m q thread_idx h = do
  h1 ← set_thread_idx m.address thread_idx (write h m.address (some m.content))
  (q', h2) ← link q m.address h1
  h3 ← set_next m.address null h2
  done (q', h3)

-- The new head; a queue that is now empty gets a new tail too.
unfoldable pub drop_head : Queue → Ptr → Queue
unfolding queue_is_empty
drop_head q next =
    let moved = record q { head = next } in
    if queue_is_empty moved then record moved { tail = null } else moved

unfoldable pub queue_pop : Queue → Heap → Outcome (ℤ × Queue × Heap)
unfolding queue_is_empty drop_head load free
queue_pop q h = if queue_is_empty q then done (negsuc 0, q, h) else do
  thread ← load q.head h
  h' ← free q.head h
  done (thread.thread_idx, drop_head q thread.next, h')
