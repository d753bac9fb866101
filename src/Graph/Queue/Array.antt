-- ===== src/Graph/Queue/Array.antt =====
-- The queue as an array: what a swap leaves at each index.
use circular.Prelude.{
  ℕ, zero, suc, ◌+◌, ◌<◌, ◌≡◌, refl, ap, [], ◌∷◌, ◌++◌, ◌==◌, if◌then◌else◌, length, set,
  get_last_or, drop_last, arith, u64_mod, i64_half, ◌%◌, slt, ltb,
}
use circular.Graph.Queue.{Item, PriorityQueue, get, less, swap}

-- the order of the priorities, as the order of numbers
unfoldable pub rank : Item → ℕ
rank x = (x.priority + i64_half) % u64_mod

abbrev pub key : PriorityQueue → ℕ → ℕ
key pq i = rank (get pq i)

pub less-key : (pq : PriorityQueue) (i j : ℕ) → less pq i j ≡ ltb (key pq i) (key pq j)
unfolding less slt rank
less-key pq i j = refl

pub length-set : (pq : PriorityQueue) (i : ℕ) (x : Item) → length (set pq i x) ≡ length pq
length-set [] i x = refl
length-set (y ∷ pq) zero x = refl
length-set (y ∷ pq) (suc i) x = ap suc (length-set pq i x)

pub get-set :
    (pq : PriorityQueue) (i j : ℕ) (x : Item)
    → i < length pq
    → get (set pq i x) j ≡ (if i == j then x else get pq j)
get-set [] i j x h = absurd (omega arith)
get-set (y ∷ pq) zero zero x h = refl
get-set (y ∷ pq) zero (suc j) x h = ground arith
get-set (y ∷ pq) (suc i) zero x h = ground arith
get-set (y ∷ pq) (suc i) (suc j) x h = ground (arith, get-set pq i j x)

pub length-swap : (pq : PriorityQueue) (i j : ℕ) → length (swap pq i j) ≡ length pq
unfolding swap
length-swap pq i j = omega (
  arith,
  length-set (set pq i (record (get pq j) { index = i })) j (record (get pq i) { index = j }),
  length-set pq i (record (get pq j) { index = i }),
)

pub key-swap :
    (pq : PriorityQueue) (i j c : ℕ)
    → i < length pq
    → j < length pq
    → key (swap pq i j) c ≡ (if j == c then key pq i else if i == c then key pq j else key pq c)
unfolding swap rank
key-swap pq i j c hi hj = ground (
  arith,
  get-set (set pq i (record (get pq j) { index = i })) j c (record (get pq i) { index = j }),
  get-set pq i c (record (get pq j) { index = i }),
  length-set pq i (record (get pq j) { index = i }),
)

pub get-swap :
    (pq : PriorityQueue) (i j c : ℕ)
    → i < length pq
    → j < length pq
    → get (swap pq i j) c ≡ (
        if j == c
        then record (get pq i) { index = j }
        else if i == c
        then record (get pq j) { index = i }
        else get pq c)
unfolding swap
get-swap pq i j c hi hj = ground (
  arith,
  get-set (set pq i (record (get pq j) { index = i })) j c (record (get pq i) { index = j }),
  get-set pq i c (record (get pq j) { index = i }),
  length-set pq i (record (get pq j) { index = i }),
)

pub get-append_left :
    (pq : PriorityQueue) (x : Item) (c : ℕ) → c < length pq → get (pq ++ x ∷ []) c ≡ get pq c
get-append_left [] x c h = absurd (omega arith)
get-append_left (y ∷ pq) x zero h = refl
get-append_left (y ∷ pq) x (suc c) h = get-append_left pq x c (omega arith)

pub get-append_last : (pq : PriorityQueue) (x : Item) → get (pq ++ x ∷ []) (length pq) ≡ x
get-append_last [] x = refl
get-append_last (y ∷ pq) x = get-append_last pq x

pub get_last_or-get : (pq : PriorityQueue) (x : Item) → get_last_or pq x ≡ get (x ∷ pq) (length pq)
get_last_or-get [] x = refl
get_last_or-get (y ∷ pq) x = get_last_or-get pq y

pub get-drop_last :
    (pq : PriorityQueue) (x : Item) (c : ℕ)
    → c < length pq
    → get (drop_last (x ∷ pq)) c ≡ get (x ∷ pq) c
get-drop_last [] x c h = absurd (omega arith)
get-drop_last (y ∷ pq) x zero h = refl
get-drop_last (y ∷ pq) x (suc c) h = get-drop_last pq y c (omega arith)

pub length-drop_last : (pq : PriorityQueue) (x : Item) → length (drop_last (x ∷ pq)) ≡ length pq
length-drop_last [] x = refl
length-drop_last (y ∷ pq) x = ap suc (length-drop_last pq y)
