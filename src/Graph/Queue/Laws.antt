-- ===== src/Graph/Queue/Laws.antt =====
-- What heap.Push and heap.Pop do to the queue.
use circular.Prelude.{
  ℕ, zero, suc, ◌+◌, ◌<◌, ◌≤◌, ◌≡◌, refl, ◌∙◌, ap, [], ◌∷◌, length, length-append, get_last_or,
  drop_last, arith, some, inl, inr, List-cases, i64_half, u64_mod, ◌%◌,
}
use circular.Graph.Queue.{
  Item, PqItem, PriorityQueue, get, swap, parent, down, push_last, pop_last, minus_one, push, pop,
}
use circular.Graph.Queue.Array.{
  rank, key, length-swap, get-swap, key-swap, get-append_left, get_last_or-get, get-drop_last,
  length-drop_last,
}
use circular.Graph.Queue.Order.{IsHeap, IsHeapFrom, up-Restored, down-RestoredFrom}
use circular.Graph.Queue.Swaps.{
  Swaps, after_swap, up-Swaps, down-Swaps, Swaps-length, Swaps-get, total, total-Swaps,
  total-append, total-drop_last, Each, Each-Swaps, Each-append, Each-drop_last, Each-get,
  Swaps-widen, Each-of_get,
}

length-push_last : (pq : PriorityQueue) (x : Item) → length (push_last pq x) ≡ length pq + 1
unfolding push_last
length-push_last pq x = omega (arith, length-append pq (record x { index = length pq } ∷ []))

key-push_last :
    (pq : PriorityQueue) (x : Item) (c : ℕ) → c < length pq → key (push_last pq x) c ≡ key pq c
unfolding push_last
key-push_last pq x c h = rw (get-append_left pq (record x { index = length pq }) c h)

push-Swaps :
    (pq : PriorityQueue) (x : Item) → Swaps (length (push_last pq x)) (push_last pq x) (push pq x)
unfolding push
push-Swaps pq x =
    up-Swaps (suc (length pq)) _ (push_last pq x) (length pq) (omega (arith, length-push_last pq x))
      (omega arith)

-- Pushing an item keeps the heap order.
pub push-IsHeap : (pq : PriorityQueue) (x : Item) → IsHeap pq → IsHeap (push pq x)
unfolding push
push-IsHeap pq x h =
    (up-Restored (suc (length pq)) (push_last pq x) (length pq) (omega arith) (record {
      inside = omega (arith, size);
      edges =
          λ c p q r. ground (arith, size, key-push_last pq x c, key-push_last pq x (parent c), h c);
      bridged = λ c p q r s. absurd (omega (arith, size));
    })).0
  where
    size : length (push_last pq x) ≡ length pq + 1
    size = length-push_last pq x

-- A push adds exactly its item: any sum over the items grows by the share of the item.
pub total-push :
    (f : PqItem → ℕ → ℕ) (pq : PriorityQueue) (x : Item)
    → total f (push pq x) ≡ total f pq + f x.value x.priority
total-push f pq x =
    total-Swaps f (push-Swaps pq x)
    ∙ (unfold push_last in total-append f pq (record x { index = length pq }))

pub Each-push :
    (P : PqItem → ℕ → Type 0) (pq : PriorityQueue) (x : Item)
    → Each P pq
    → P x.value x.priority
    → Each P (push pq x)
Each-push P pq x a p =
    Each-Swaps P (push-Swaps pq x)
      (unfold push_last in Each-append P pq (record x { index = length pq }) a p)

-- what Pop returns: an item of the least rank, and a heap of all the others
pub record Popped (pq : PriorityQueue) (x : Item) (rest : PriorityQueue) : Type 1 where
  pub heap : IsHeap rest
  pub least : (i : ℕ) → i < length rest → rank x ≤ key rest i
  pub sums : (f : PqItem → ℕ → ℕ) → f x.value x.priority + total f rest ≡ total f pq
  pub each : (P : PqItem → ℕ → Type 0) → Each P pq → P x.value x.priority × Each P rest

module _ (x : Item) (rest : PriorityQueue) (h : IsHeap (x ∷ rest)) where
  abbrev n : ℕ
  n = length rest

  abbrev swapped : PriorityQueue
  swapped = swap (x ∷ rest) 0 n

  abbrev sunk : PriorityQueue
  sunk = (down (suc n) swapped 0 n).0

  sunk-Swaps : Swaps (suc n) (x ∷ rest) sunk
  sunk-Swaps =
      let rest_swaps = down-Swaps (suc n) n swapped 0 (omega (arith, length-swap (x ∷ rest) 0 n)) in
      after_swap (x ∷ rest) sunk 0 n (omega arith) (omega arith) (omega arith)
        (Swaps-widen (suc n) (omega arith) (omega (arith, length-swap (x ∷ rest) 0 n)) rest_swaps)

  sunk-heap : IsHeapFrom 0 n sunk
  sunk-heap =
      (down-RestoredFrom (suc n) 0 n swapped 0 (omega arith) (omega arith) (record {
        size = omega (arith, length-swap (x ∷ rest) 0 n);
        edges = λ c p q r s.
            ground (arith, h c, key-swap (x ∷ rest) 0 n c, key-swap (x ∷ rest) 0 n (parent c));
        bridged = λ c p q r s t. absurd (omega arith);
      })).0

  root_least : (fuel c : ℕ) → c < fuel → c < suc n → rank x ≤ key (x ∷ rest) c
  root_least zero c f b = absurd (omega arith)
  root_least (suc fuel) zero f b = omega arith
  root_least (suc fuel) (suc c) f b = omega (arith, h (suc c), root_least fuel (parent (suc c)))

  -- the last item after the sift is the one that was first
  last-sunk : get sunk n ≡ record x { index = n }
  last-sunk =
      Swaps-get n (omega arith)
        (down-Swaps (suc n) n swapped 0 (omega (arith, length-swap (x ∷ rest) 0 n)))
      ∙ ground (arith, get-swap (x ∷ rest) 0 n n)

  pop_step : pop (x ∷ rest) ≡ pop_last sunk
  unfolding pop
  pop_step = refl

  -- the parts of what Pop returns, where the sifted queue is `y ∷ l`
  module _ (y : Item) (l : PriorityQueue) (e : sunk ≡ y ∷ l) where
    abbrev others : PriorityQueue
    others = drop_last (y ∷ l)

    size-l : length l ≡ n
    size-l = omega (arith, ap (λ (pq : PriorityQueue). length pq) e, Swaps-length sunk-Swaps)

    last-l : get_last_or l y ≡ record x { index = n }
    last-l = get_last_or-get l y ∙ rw (← e, size-l) last-sunk

    pop-l : pop (x ∷ rest) ≡ some (record x { index = minus_one }, others)
    unfolding pop_last
    pop-l = pop_step ∙ ap pop_last e ∙ rw last-l

    key-others : (c : ℕ) → c < n → key others c ≡ key sunk c
    key-others c b = rw (get-drop_last l y c (omega (arith, size-l)), e)

    least-others : (c : ℕ) → c < n → rank x ≤ key others c
    unfolding rank
    least-others c b =
        let Above : PqItem → ℕ → Type 0 = λ v p. rank x ≤ (p + i64_half) % u64_mod in
        let all = Each-of_get Above (x ∷ rest) (λ i b'. root_least (suc i) i (omega arith) b') in
        let at =
          Each-get Above sunk c (omega (arith, Swaps-length sunk-Swaps))
            (Each-Swaps Above sunk-Swaps all) in
        omega (arith, at, key-others c b)

    others-Popped : Popped (x ∷ rest) x others
    others-Popped = record {
      heap = λ c p q r.
          let b : c < n = omega (arith, length-drop_last l y, size-l) in
          omega (arith, key-others c b, key-others (parent c) (omega arith), sunk-heap c p b r);
      least = λ c b. least-others c (omega (arith, length-drop_last l y, size-l));
      sums = λ f. rw last-l at (total-drop_last f l y) ∙ rw e at (total-Swaps f sunk-Swaps);
      each = λ P a.
          let all = rw e at (Each-Swaps P sunk-Swaps a) in
          (
            rw (← get_last_or-get l y, last-l) at (Each-get P (y ∷ l) (length l) (omega arith) all),
            Each-drop_last P l y all,
          );
    }

-- Pop of a heap with an item returns one that no other item ranks below, and leaves a heap of
-- exactly the others.
pub pop-Popped :
    (x : Item) (rest : PriorityQueue)
    → IsHeap (x ∷ rest)
    → (others : PriorityQueue) × (pop (x ∷ rest) ≡ some (record x { index = minus_one }, others))
      × Popped (x ∷ rest) x others
pop-Popped x rest h = elim (List-cases (sunk x rest h)) [
  | inl e ↦
      absurd (
        omega (arith, ap (λ (pq : PriorityQueue). length pq) e, Swaps-length (sunk-Swaps x rest h)))
  | inr (y, l, e) ↦ (others x rest h y l e, pop-l x rest h y l e, others-Popped x rest h y l e)
]
