-- ===== src/Queue/Tests.antt =====
-- The theorems at a queue of one item.
use ivos.Base.{pos, ◌≡◌, refl, arith, done, [], ◌∷◌, some, none}
use ivos.Queue.{Heap, write, item, Allocation, Queue, queue_push, queue_pop}
use ivos.Queue.Chain.{IsQueue}
use ivos.Queue.Fifo.{SameBut, queue_push-append, queue_pop-first}

abbrev one_item : Heap
one_item = write (λ a. none) 16 (some (item (pos 2) 0))

abbrev one : Queue
one = record { head = 16; tail = 16 }

abbrev memory : Allocation
memory = record { address = 32; content = item (pos 0) 7 }

queue_push-append_example :
    (q' : Queue) × (g : Heap) × (queue_push memory one (pos 4) one_item ≡ done (q', g))
    × IsQueue g q' ((16, pos 2) ∷ (32, pos 4) ∷ [])
    × SameBut 32 16 one_item g
unfolding write
queue_push-append_example =
    queue_push-append memory one (pos 4) one_item ((16, pos 2) ∷ []) (omega arith)
      ((λ e. ground arith), tt) (refl, ((λ e. ground arith), refl, refl))

queue_pop-first_example :
    (q' : Queue) × (queue_pop one one_item ≡ done (pos 2, q', write one_item 16 none))
    × IsQueue (write one_item 16 none) q' []
unfolding write
queue_pop-first_example =
    queue_pop-first one one_item 16 (pos 2) [] (refl, ((λ e. ground arith), refl, refl))
