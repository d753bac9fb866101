-- ===== src/Graph/Queue/Swaps.antt =====
-- The queue's functions move items and lose none: what holds of each item, and any sum over them, stays.
-- The index of an item changes, and is left out of such statements.
use circular.Prelude.{
  ℕ, zero, suc, ◌+◌, ◌*◌, ◌<◌, ◌≤◌, ◌≡◌, refl, ◌∙◌, ◌||◌, not, [], ◌∷◌, ◌++◌, ◌==◌, leb, length,
  set, get_last_or, drop_last, arith, if-cases, All, All-append,
}
use circular.Graph.Queue.{
  Item, PqItem, PriorityQueue, get, less, swap, parent, up, smaller_child, down,
}
use circular.Graph.Queue.Array.{length-set, get-set, length-swap, get-swap}
use circular.Graph.Queue.Order.{down_step, smaller_child-IsLeastChild}

-- `pq'` comes from `pq` by swaps of places below `n`
pub data Swaps (n : ℕ) : PriorityQueue → PriorityQueue → Type 0 where
  none_made : (pq : PriorityQueue) → Swaps n pq pq
  after_swap :
      (pq pq' : PriorityQueue) (i j : ℕ)
      → i < n
      → j < n
      → n ≤ length pq
      → Swaps n (swap pq i j) pq'
      → Swaps n pq pq'

pub up-Swaps :
    (fuel n : ℕ) (pq : PriorityQueue) (i : ℕ) → i < n → n ≤ length pq → Swaps n pq (up fuel pq i)
unfolding up
up-Swaps zero n pq i h l = none_made pq
up-Swaps (suc fuel) n pq i h l =
    let above : parent i < n = omega arith in
    let rest =
      up-Swaps fuel n (swap pq (parent i) i) (parent i) above
        (omega (arith, length-swap pq (parent i) i)) in
    if-cases (Swaps n pq) ((parent i == i) || not (less pq i (parent i))) pq
      (up fuel (swap pq (parent i) i) (parent i)) (λ stop. none_made pq)
      (λ more. after_swap pq _ (parent i) i above h l rest)

pub down-Swaps :
    (fuel n : ℕ) (pq : PriorityQueue) (i : ℕ) → n ≤ length pq → Swaps n pq (down fuel pq i n).0
down-Swaps zero n pq i l = unfold down in none_made pq
down-Swaps (suc fuel) n pq i l =
    let m = smaller_child pq i n in
    rw (down_step fuel pq i n) (
      if-cases (λ (r : PriorityQueue × ℕ). Swaps n pq r.0) (leb n (2 * i + 1) || not (less pq m i))
        (pq, i) (down fuel (swap pq i m) m n) (λ stop. none_made pq)
        (λ more.
          let s = smaller_child-IsLeastChild pq i n (ground arith) in
          let inside : m < n = s.inside in
          after_swap pq _ i m (omega (arith, s.child, s.inside)) inside l
            (down-Swaps fuel n (swap pq i m) m (omega (arith, length-swap pq i m)))))

pub Swaps-length : {n : ℕ} {pq pq' : PriorityQueue} → Swaps n pq pq' → length pq' ≡ length pq
Swaps-length (none_made pq) = refl
Swaps-length (after_swap pq pq' i j hi hj l s) = Swaps-length s ∙ length-swap pq i j

pub Swaps-get :
    {n : ℕ} {pq pq' : PriorityQueue} (c : ℕ) → n ≤ c → Swaps n pq pq' → get pq' c ≡ get pq c
Swaps-get c h (none_made pq) = refl
Swaps-get c h (after_swap pq pq' i j hi hj l s) =
    Swaps-get c h s ∙ ground (arith, get-swap pq i j c)

pub Swaps-widen :
    {n : ℕ} {pq pq' : PriorityQueue} (m : ℕ)
    → n ≤ m
    → m ≤ length pq
    → Swaps n pq pq'
    → Swaps m pq pq'
Swaps-widen m h b (none_made pq) = none_made pq
Swaps-widen m h b (after_swap pq pq' i j hi hj l s) =
    after_swap pq pq' i j (omega arith) (omega arith) b
      (Swaps-widen m h (omega (arith, length-swap pq i j)) s)

-- the sum of a weight over the items
abbrev pub total : (PqItem → ℕ → ℕ) → PriorityQueue → ℕ
total f [] = 0
total f (x ∷ pq) = f x.value x.priority + total f pq

module _ (f : PqItem → ℕ → ℕ) where
  abbrev pub weight : Item → ℕ
  weight x = f x.value x.priority

  total-set :
      (pq : PriorityQueue) (i : ℕ) (x : Item)
      → i < length pq
      → total f (set pq i x) + weight (get pq i) ≡ total f pq + weight x
  total-set [] i x h = absurd (omega arith)
  total-set (y ∷ pq) zero x h = omega arith
  total-set (y ∷ pq) (suc i) x h = omega (arith, total-set pq i x)

  total-swap :
      (pq : PriorityQueue) (i j : ℕ)
      → i < length pq
      → j < length pq
      → total f (swap pq i j) ≡ total f pq
  unfolding swap
  total-swap pq i j hi hj =
      let x : Item = record (get pq j) { index = i } in
      let y : Item = record (get pq i) { index = j } in
      let same : weight (get (set pq i x) j) ≡ weight (get pq j) =
        ground (arith, get-set pq i j x) in
      omega (
        arith,
        same,
        total-set pq i x hi,
        total-set (set pq i x) j y (omega (arith, length-set pq i x)),
      )

  pub total-Swaps : {n : ℕ} {pq pq' : PriorityQueue} → Swaps n pq pq' → total f pq' ≡ total f pq
  total-Swaps (none_made pq) = refl
  total-Swaps (after_swap pq pq' i j hi hj l s) =
      total-Swaps s ∙ total-swap pq i j (omega arith) (omega arith)

  pub total-append :
      (pq : PriorityQueue) (x : Item) → total f (pq ++ x ∷ []) ≡ total f pq + weight x
  total-append [] x = omega arith
  total-append (y ∷ pq) x = omega (arith, total-append pq x)

  pub total-drop_last :
      (pq : PriorityQueue) (x : Item)
      → weight (get_last_or pq x) + total f (drop_last (x ∷ pq)) ≡ total f (x ∷ pq)
  total-drop_last [] x = omega arith
  total-drop_last (y ∷ pq) x = omega (arith, total-drop_last pq y)

-- a statement of each item's value and priority
abbrev pub Each : (PqItem → ℕ → Type 0) → PriorityQueue → Type 0
Each P = All (λ x. P x.value x.priority)

pub Each-map :
    (P Q : PqItem → ℕ → Type 0) (pq : PriorityQueue)
    → ((v : PqItem) (p : ℕ) → P v p → Q v p)
    → Each P pq
    → Each Q pq
Each-map P Q [] f a = tt
Each-map P Q (x ∷ pq) f a = (f x.value x.priority a.0, Each-map P Q pq f a.1)

module _ (P : PqItem → ℕ → Type 0) where
  pub Each-get :
      (pq : PriorityQueue) (i : ℕ)
      → i < length pq
      → Each P pq
      → P (get pq i).value (get pq i).priority
  Each-get [] i h a = absurd (omega arith)
  Each-get (x ∷ pq) zero h a = a.0
  Each-get (x ∷ pq) (suc i) h a = Each-get pq i (omega arith) a.1

  pub Each-of_get :
      (pq : PriorityQueue)
      → ((i : ℕ) → i < length pq → P (get pq i).value (get pq i).priority)
      → Each P pq
  Each-of_get [] h = tt
  Each-of_get (x ∷ pq) h = (h 0 (omega arith), Each-of_get pq (λ i b. h (suc i) (omega arith)))

  Each-set :
      (pq : PriorityQueue) (i : ℕ) (x : Item)
      → P x.value x.priority
      → Each P pq
      → Each P (set pq i x)
  Each-set [] i x p a = a
  Each-set (y ∷ pq) zero x p a = (p, a.1)
  Each-set (y ∷ pq) (suc i) x p a = (a.0, Each-set pq i x p a.1)

  Each-swap :
      (pq : PriorityQueue) (i j : ℕ)
      → i < length pq
      → j < length pq
      → Each P pq
      → Each P (swap pq i j)
  unfolding swap
  Each-swap pq i j hi hj a =
      Each-set (set pq i _) j _ (Each-get pq i hi a) (Each-set pq i _ (Each-get pq j hj a) a)

  pub Each-Swaps : {n : ℕ} {pq pq' : PriorityQueue} → Swaps n pq pq' → Each P pq → Each P pq'
  Each-Swaps (none_made pq) a = a
  Each-Swaps (after_swap pq pq' i j hi hj l s) a =
      Each-Swaps s (Each-swap pq i j (omega arith) (omega arith) a)

  pub Each-append :
      (pq : PriorityQueue) (x : Item) → Each P pq → P x.value x.priority → Each P (pq ++ x ∷ [])
  Each-append pq x a p = All-append _ pq (x ∷ []) a (p, tt)

  pub Each-drop_last :
      (pq : PriorityQueue) (x : Item) → Each P (x ∷ pq) → Each P (drop_last (x ∷ pq))
  Each-drop_last [] x a = tt
  Each-drop_last (y ∷ pq) x a = (a.0, Each-drop_last pq y a.1)
