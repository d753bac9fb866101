-- ===== src/Graph/Queue.antt =====
-- graph/pq.go, with the functions of Go's container/heap that it is given to: Init, Push, Pop and Fix.
-- The slice of pointers to items is a list of items. Every index that these functions read or write is
-- in range but for a Pop of an empty queue, which is `none` here and a panic in Go; a read out of range
-- would give `blank`. The loops take fuel: the index for `up`, which it halves, and the length for `down`.
-- Queue/Order shows that they end in time.
pub mod Array
pub mod Swaps
pub mod Order
pub mod Laws
use circular.Prelude.{
  ℕ, zero, suc, ◌+◌, ◌-◌, ◌*◌, ◌/◌, ◌<◌, String, Bool, true, false, ◌&&◌, ◌||◌, not, Option, none,
  some, List, [], ◌∷◌, ◌++◌, ltb, leb, ◌==◌, slt, if◌then◌else◌, length, set, get_last_or,
  drop_last, u64_mod,
}

pub record PqItem : Type 0 where
  pub node : String
  pub amount : ℕ
  pub delay : ℕ
  pub hops : ℕ

pub record Item : Type 0 where
  pub value : PqItem
  pub priority : ℕ
  pub index : ℕ

abbrev pub PriorityQueue : Type 0
PriorityQueue = List Item

abbrev pub blank : Item
blank = record {
  value = record { node = ""; amount = 0; delay = 0; hops = 0 };
  priority = 0;
  index = 0;
}

abbrev pub get : PriorityQueue → ℕ → Item
get [] i = blank
get (x ∷ pq) zero = x
get (x ∷ pq) (suc i) = get pq i

unfoldable pub less : PriorityQueue → ℕ → ℕ → Bool
less pq i j = slt (get pq i).priority (get pq j).priority

unfoldable pub swap : PriorityQueue → ℕ → ℕ → PriorityQueue
swap pq i j = set (set pq i (record (get pq j) { index = i })) j (record (get pq i) { index = j })

-- the methods Push and Pop, which put the last item there and take it away
unfoldable pub push_last : PriorityQueue → Item → PriorityQueue
push_last pq item = pq ++ record item { index = length pq } ∷ []

abbrev pub minus_one : ℕ
minus_one = u64_mod - 1

unfoldable pub pop_last : PriorityQueue → Option (Item × PriorityQueue)
pop_last [] = none
pop_last (x ∷ pq) = some (record (get_last_or pq x) { index = minus_one }, drop_last (x ∷ pq))

-- (j - 1) / 2, which is 0 at j = 0, since Go rounds towards zero
abbrev pub parent : ℕ → ℕ
parent j = (j - 1) / 2

-- heap.up
unfoldable pub up : ℕ → PriorityQueue → ℕ → PriorityQueue
unfolding less swap
up zero pq j = pq
up (suc fuel) pq j =
    let moved = up fuel (swap pq (parent j) j) (parent j) in
    if (parent j == j) || not (less pq j (parent j)) then pq else moved

-- the child of `i` that `down` compares `i` with
unfoldable pub smaller_child : PriorityQueue → ℕ → ℕ → ℕ
unfolding less
smaller_child pq i n =
    if ltb (2 * i + 2) n && less pq (2 * i + 2) (2 * i + 1) then 2 * i + 2 else 2 * i + 1

-- heap.down, with the index at which it stops
unfoldable pub down : ℕ → PriorityQueue → ℕ → ℕ → PriorityQueue × ℕ
unfolding less swap smaller_child
down zero pq i n = (pq, i)
down (suc fuel) pq i n =
    let j = smaller_child pq i n in
    let moved = down fuel (swap pq i j) j n in
    if leb n (2 * i + 1) || not (less pq j i) then (pq, i) else moved

-- the loop of heap.Init, which counts down to 0
unfoldable pub init_loop : ℕ → PriorityQueue → PriorityQueue
unfolding down
init_loop zero pq = pq
init_loop (suc i) pq = init_loop i (down (length pq) pq i (length pq)).0

unfoldable pub init : PriorityQueue → PriorityQueue
unfolding init_loop
init pq = init_loop (length pq / 2) pq

unfoldable pub push : PriorityQueue → Item → PriorityQueue
unfolding push_last up
push pq item = up (suc (length pq)) (push_last pq item) (length pq)

unfoldable pub pop : PriorityQueue → Option (Item × PriorityQueue)
unfolding pop_last down swap
pop [] = none
pop (x ∷ rest) = let n = length rest in pop_last (down (suc n) (swap (x ∷ rest) 0 n) 0 n).0

unfoldable pub fix : PriorityQueue → ℕ → PriorityQueue
unfolding down up
fix pq i =
    let (moved, stop) = down (length pq) pq i (length pq) in
    if ltb i stop then moved else up (suc i) moved i

-- the method `update` changes the item through its pointer, which stands at its index
unfoldable pub update : PriorityQueue → ℕ → PqItem → ℕ → PriorityQueue
unfolding fix
update pq index value priority =
    fix (set pq index (record { value = value; priority = priority; index = index })) index
