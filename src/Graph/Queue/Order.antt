-- ===== src/Graph/Queue/Order.antt =====
-- The heap order: Push and Init establish it, and Pop returns an item of the least priority.
use native.Mathlib.Decide.{ℕ_discrete}
use circular.Prelude.{
  ℕ, zero, suc, ◌+◌, ◌*◌, ◌<◌, ◌≤◌, ◌≡◌, ◌≢◌, refl, ◌∙◌, true, ◌||◌, not, ◌==◌, leb, if◌then◌else◌,
  length, arith, inl, inr, ◌⊎◌, slt, if-cases,
}
use circular.Graph.Queue.{PriorityQueue, less, swap, parent, up, smaller_child, down}
use circular.Graph.Queue.Array.{rank, key, less-key, length-swap, key-swap}

-- In the first `n` places no item outranks its parent, from the parent `lo` on.
abbrev pub IsHeapFrom : ℕ → ℕ → PriorityQueue → Type 0
IsHeapFrom lo n pq = (c : ℕ) → 0 < c → c < n → lo ≤ parent c → key pq (parent c) ≤ key pq c

abbrev pub IsHeap : PriorityQueue → Type 0
IsHeap pq = IsHeapFrom 0 (length pq) pq

-- only the edge above `i` may be out of order
pub record UpInv (pq : PriorityQueue) (i : ℕ) : Type 0 where
  pub inside : i < length pq
  pub edges : (c : ℕ) → 0 < c → c < length pq → c ≢ i → key pq (parent c) ≤ key pq c
  pub bridged :
      (c : ℕ) → 0 < c → c < length pq → parent c ≡ i → 0 < i → key pq (parent i) ≤ key pq c

swap-UpInv :
    (pq : PriorityQueue) (i : ℕ)
    → UpInv pq i
    → 0 < i
    → key pq i < key pq (parent i)
    → UpInv (swap pq (parent i) i) (parent i)
swap-UpInv pq i v pos below =
    let size = length-swap pq (parent i) i in
    let at = λ (c : ℕ). key-swap pq (parent i) i c (omega arith) v.inside in
    record {
      inside = omega arith;
      edges = λ c p q r. ground (arith, size, at c, at (parent c), v.edges c, v.bridged c);
      bridged = λ c p q r s.
          ground (arith, size, at c, at (parent (parent i)), v.edges c, v.edges (parent i));
    }

pub up_step :
    (fuel : ℕ) (pq : PriorityQueue) (i : ℕ)
    → up (suc fuel) pq i ≡ (
        if (parent i == i) || not (less pq i (parent i))
        then pq
        else up fuel (swap pq (parent i) i) (parent i))
unfolding up
up_step fuel pq i = refl

-- the queue is a heap of as many items as `pq`
abbrev pub Restored : PriorityQueue → PriorityQueue → Type 0
Restored pq pq' = IsHeap pq' × (length pq' ≡ length pq)

pub up-Restored :
    (fuel : ℕ) (pq : PriorityQueue) (i : ℕ) → i < fuel → UpInv pq i → Restored pq (up fuel pq i)
up-Restored zero pq i f v = absurd (omega arith)
up-Restored (suc fuel) pq i f v = rw (up_step fuel pq i) (
    if-cases (Restored pq) _ pq _
      (λ stop. (λ c p q r. ground (arith, less-key pq i (parent i), v.edges c), refl))
      (λ more.
        let below : key pq i < key pq (parent i) = ground (arith, less-key pq i (parent i)) in
        let ih =
          up-Restored fuel (swap pq (parent i) i) (parent i) (ground arith)
            (swap-UpInv pq i v (ground arith) below) in
        (ih.0, ih.1 ∙ length-swap pq (parent i) i)))

-- only the edges below `i` may be out of order
pub record DownInv (lo n : ℕ) (pq : PriorityQueue) (i : ℕ) : Type 0 where
  pub size : n ≤ length pq
  pub edges : (c : ℕ) → 0 < c → c < n → lo ≤ parent c → parent c ≢ i → key pq (parent c) ≤ key pq c
  pub bridged :
      (c : ℕ) → 0 < c → c < n → parent c ≡ i → 0 < i → lo ≤ parent i → key pq (parent i) ≤ key pq c

-- `m` is a child of `i`, and no other child ranks below it
pub record IsLeastChild (pq : PriorityQueue) (i n m : ℕ) : Type 0 where
  pub inside : m < n
  pub child : (m ≡ 2 * i + 1) ⊎ (m ≡ 2 * i + 2)
  pub least : (c : ℕ) → 0 < c → c < n → parent c ≡ i → key pq m ≤ key pq c

smaller_child_cases :
    (pq : PriorityQueue) (i n : ℕ)
    → ((smaller_child pq i n ≡ 2 * i + 2)
        × (2 * i + 2 < n)
        × (key pq (2 * i + 2) ≤ key pq (2 * i + 1)))
      ⊎ ((smaller_child pq i n ≡ 2 * i + 1)
          × ((2 * i + 2 < n) → key pq (2 * i + 1) ≤ key pq (2 * i + 2)))
unfolding smaller_child rank slt
smaller_child_cases pq i n = ground arith

children : (c i : ℕ) → 0 < c → parent c ≡ i → (c ≡ 2 * i + 1) ⊎ (c ≡ 2 * i + 2)
children c i p e = omega arith

pub smaller_child-IsLeastChild :
    (pq : PriorityQueue) (i n : ℕ) → 2 * i + 1 < n → IsLeastChild pq i n (smaller_child pq i n)
smaller_child-IsLeastChild pq i n h = elim (smaller_child_cases pq i n) [
  | inl (e, b, k) ↦ rw e (record {
    inside = b;
    child = inr refl;
    least = λ c p q r. elim (children c i p r) [ inl x ↦ rw x k | inr x ↦ rw x (omega arith) ];
  })
  | inr (e, k) ↦ rw e (record {
    inside = h;
    child = inl refl;
    least = λ c p q r. elim (children c i p r) [
      | inl x ↦ rw x (omega arith)
      | inr x ↦ rw x (k (rw x at q))
    ];
  })
]

swap-DownInv :
    (lo n : ℕ) (pq : PriorityQueue) (i m : ℕ)
    → DownInv lo n pq i
    → IsLeastChild pq i n m
    → key pq m < key pq i
    → DownInv lo n (swap pq i m) m
swap-DownInv lo n pq i m v s below =
    let inside : i < length pq = omega (arith, s.inside, s.child, v.size) in
    let swapped_key = λ (j : ℕ). key-swap pq i m j inside (omega (arith, s.inside, v.size)) in
    record {
      bridged = λ j low here end free up.
          ground (arith, v.edges j, s.child, swapped_key j, swapped_key (parent m));
      edges = λ j low here end free.
          ground (arith, v.bridged m, v.edges j, s.least j, swapped_key (parent j), swapped_key j);
      size = omega (arith, v.size, length-swap pq i m);
    }

-- where `down` stops the whole range is in order
stopped :
    (pq : PriorityQueue) (lo n i : ℕ)
    → DownInv lo n pq i
    → (leb n (2 * i + 1) || not (less pq (smaller_child pq i n) i)) ≡ true
    → IsHeapFrom lo n pq
stopped pq lo n i v stop c p q r = elim (ℕ_discrete (parent c) i) [
  | no e ↦ v.edges c p q r e
  | yes e ↦
      let s = smaller_child-IsLeastChild pq i n (omega arith) in
      let le : key pq i ≤ key pq (smaller_child pq i n) =
        ground (arith, less-key pq (smaller_child pq i n) i) in
      rw e (omega (arith, le, s.least c p q e))
]

pub down_step :
    (fuel : ℕ) (pq : PriorityQueue) (i n : ℕ)
    → down (suc fuel) pq i n ≡ (
        if leb n (2 * i + 1) || not (less pq (smaller_child pq i n) i)
        then (pq, i)
        else down fuel (swap pq i (smaller_child pq i n)) (smaller_child pq i n) n)
unfolding down
down_step fuel pq i n = refl

abbrev pub RestoredFrom : ℕ → ℕ → PriorityQueue → PriorityQueue × ℕ → Type 0
RestoredFrom lo n pq r = IsHeapFrom lo n r.0 × (length r.0 ≡ length pq)

pub down-RestoredFrom :
    (fuel lo n : ℕ) (pq : PriorityQueue) (i : ℕ)
    → n < fuel + i
    → 0 < fuel
    → DownInv lo n pq i
    → RestoredFrom lo n pq (down fuel pq i n)
down-RestoredFrom zero lo n pq i f z v = absurd (omega arith)
down-RestoredFrom (suc fuel) lo n pq i f z v =
    let m = smaller_child pq i n in
    rw (down_step fuel pq i n) (
      if-cases (RestoredFrom lo n pq) _ (pq, i) _
        (λ stop. (λ c p q r. stopped pq lo n i v stop c p q r, refl))
        (λ more.
          let s = smaller_child-IsLeastChild pq i n (ground arith) in
          let below : key pq m < key pq i = ground (arith, less-key pq m i) in
          let ih =
            down-RestoredFrom fuel lo n (swap pq i m) m (omega (arith, s.child, s.inside))
              (omega (arith, s.child, s.inside)) (swap-DownInv lo n pq i m v s below) in
          (ih.0, ih.1 ∙ length-swap pq i m)))
