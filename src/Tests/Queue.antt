-- ===== src/Tests/Queue.antt =====
-- Values that come and go in cpp-source/queue.hpp and cpp-source/stack.hpp.
use libjaypea.Base.{ℕ, [], ◌∷◌, List, some, none, ◌≡◌, refl}
use libjaypea.Base.Tables.{find, set, remove}
use libjaypea.Queue
use libjaypea.Queue.{enqueue, dequeue}
use libjaypea.Queue.Fifo
use libjaypea.Queue.Fifo.{fifo, enqueuing, dequeuing, run-fifo}
use libjaypea.Stack
use libjaypea.Stack.{push, pop}
use libjaypea.Stack.Lifo
use libjaypea.Stack.Lifo.{lifo, pushing, popping, run-lifo}

abbrev in_and_out : List (Fifo.Operation ℕ)
in_and_out =
    dequeuing
    ∷ enqueuing 5
    ∷ enqueuing 6
    ∷ dequeuing
    ∷ enqueuing 7
    ∷ dequeuing
    ∷ dequeuing
    ∷ dequeuing
    ∷ []

run-fifo_example :
    Fifo.run in_and_out Queue.empty ≡ some (none ∷ some 5 ∷ some 6 ∷ some 7 ∷ none ∷ [])
unfolding fifo
run-fifo_example = run-fifo in_and_out

abbrev up_and_down : List (Lifo.Operation ℕ)
up_and_down = pushing 5 ∷ pushing 6 ∷ popping ∷ pushing 7 ∷ popping ∷ popping ∷ popping ∷ []

stacked : Lifo.run up_and_down Stack.empty ≡ some (some 6 ∷ some 7 ∷ some 5 ∷ none ∷ [])
unfolding lifo
stacked = run-lifo up_and_down

queue_runs : Fifo.run in_and_out Queue.empty ≡ some (none ∷ some 5 ∷ some 6 ∷ some 7 ∷ none ∷ [])
unfolding Fifo.run enqueue dequeue find set remove
queue_runs = refl
