-- ===== src/Graph/Pathfinder/Once.antt =====
-- Each node is expanded at most once: of the items in the queue, at most one has the distance of its node
-- for a priority, and none if the node has been expanded.
use circular.Prelude.{
  ℕ, ◌+◌, ◌<◌, ◌≤◌, ◌≡◌, ◌≢◌, refl, sym, subst, ap, ◌∙◌, String, Bool, true, false, [], ◌∷◌, Map,
  lookup, str_eq, eq_iff, ne→str_eq, if◌then◌else◌, ◌==◌, arith, Bool-cases, inl, inr,
}
use circular.Graph.Network.{Edge, neighbours}
use circular.Graph.Queue.{PqItem, Item, PriorityQueue, push}
use circular.Graph.Queue.Swaps.{total, Each, Each-map}
use circular.Graph.Queue.Laws.{total-push}
use circular.Graph.Pathfinder.{Search, distance_of, edge_size, links_size}

-- `s'` has a better distance for `v`, and an item of that priority in its queue
pub record IsImproved (D : ℕ) (s s' : Search) (v : String) : Type 0 where
  pub item : Item
  pub node : item.value.node ≡ v
  pub pushed : s'.queue ≡ push s.queue item
  pub ahead : D ≤ item.priority
  pub lower : item.priority < distance_of s v
  pub here : distance_of s' v ≡ item.priority
  pub elsewhere : (w : String) → w ≢ v → distance_of s' w ≡ distance_of s w

-- 1 for an item of the node and the distance, else 0
abbrev pub fresh : String → ℕ → PqItem → ℕ → ℕ
fresh v d item p = if str_eq item.node v then (if p == d then 1 else 0) else 0

abbrev pub size : PriorityQueue → ℕ
size = total (λ item p. 1)

pub record Once (done : String → Bool) (D : ℕ) (s : Search) : Type 0 where
  pub count : (v : String) → total (fresh v (distance_of s v)) s.queue ≤ (if done v then 0 else 1)
  pub settled : (v : String) → done v ≡ true → distance_of s v ≤ D

total-zero :
    (f : PqItem → ℕ → ℕ) (pq : PriorityQueue) → Each (λ item p. f item p ≡ 0) pq → total f pq ≡ 0
total-zero f [] a = refl
total-zero f (x ∷ pq) a = omega (arith, a.0, total-zero f pq a.1)

abbrev pub NoBetter : Search → Type 0
NoBetter s = Each (λ item p. distance_of s item.node ≤ p) s.queue

module _ (done : String → Bool) (D : ℕ) (s s' : Search) (v : String) (o : Once done D s)
    (n : NoBetter s) (m : IsImproved D s s' v) where
  none_fresh : total (fresh v (distance_of s' v)) s.queue ≡ 0
  none_fresh = total-zero (fresh v (distance_of s' v)) s.queue (
      Each-map (λ item p. distance_of s item.node ≤ p) _ s.queue
        (λ item p b. elim (Bool-cases (str_eq item.node v)) [
          | inl t ↦
              ground (arith, b, m.lower, m.here, ap (distance_of s) ((eq_iff item.node v).0 t))
          | inr f ↦ ground (arith, f)
        ])
        n)

  not_done : done v ≡ false
  not_done = elim (Bool-cases (done v)) [
    | inl t ↦ absurd (omega (arith, o.settled v t, m.ahead, m.lower))
    | inr f ↦ f
  ]

  count-push :
      (w : String)
      → total (fresh w (distance_of s' w)) s'.queue
        ≡ total (fresh w (distance_of s' w)) s.queue
          + fresh w (distance_of s' w) m.item.value m.item.priority
  count-push w =
      ap (total (fresh w (distance_of s' w))) m.pushed
      ∙ total-push (fresh w (distance_of s' w)) s.queue m.item

  count-here : total (fresh v (distance_of s' v)) s'.queue ≤ (if done v then 0 else 1)
  count-here = ground (arith, count-push v, none_fresh, not_done)

  count-elsewhere :
      (w : String) → w ≢ v → total (fresh w (distance_of s' w)) s'.queue ≤ (if done w then 0 else 1)
  count-elsewhere w n =
      let apart = ne→str_eq m.item.value.node w (λ e. n (sym e ∙ m.node)) in
      let same : total (fresh w (distance_of s' w)) s.queue
          ≡ total (fresh w (distance_of s w)) s.queue =
        ap (λ d. total (fresh w d) s.queue) (m.elsewhere w n) in
      let zero : fresh w (distance_of s' w) m.item.value m.item.priority ≡ 0 =
        ground (arith, apart) in
      subst (λ x. x ≤ (if done w then 0 else 1)) (sym (count-push w))
        (rw (same, zero) (omega (arith, o.count w)))

  -- A better distance for a node makes it wait once more, if it has not been expanded.
  pub Once-improved : Once done D s'
  Once-improved = record {
    count = λ w. elim (Bool-cases (str_eq w v)) [
      | inl t ↦
          subst (λ x. total (fresh x (distance_of s' x)) s'.queue ≤ (if done x then 0 else 1))
            (sym ((eq_iff w v).0 t)) count-here
      | inr f ↦ count-elsewhere w (λ e. absurd (ground (arith, f, eq_iff w v, e)))
    ];
    settled = λ w t.
        let n : w ≢ v = λ (e : w ≡ v). absurd (cc (t, not_done, ap done e)) in
        omega (arith, m.elsewhere w n, o.settled w t);
  }

  pub size-improved : size s'.queue ≡ size s.queue + 1
  size-improved = ap size m.pushed ∙ total-push (λ item p. 1) s.queue m.item

-- the short channel ids of the nodes that are not expanded yet
abbrev pub remaining : (String → Bool) → Map (Map Edge) → ℕ
remaining done [] = 0
remaining done ((u, m) ∷ links) = (if done u then 0 else edge_size m) + remaining done links

abbrev pub mark : String → (String → Bool) → String → Bool
mark u done w = if str_eq u w then true else done w

remaining-mark_le :
    (u : String) (done : String → Bool) (links : Map (Map Edge))
    → remaining (mark u done) links ≤ remaining done links
remaining-mark_le u done [] = omega arith
remaining-mark_le u done ((w, m) ∷ links) = ground (arith, remaining-mark_le u done links)

-- The expansion of a node uses up its edges.
pub remaining-mark :
    (u : String) (done : String → Bool) (links : Map (Map Edge))
    → done u ≡ false
    → edge_size (neighbours links u) + remaining (mark u done) links ≤ remaining done links
unfolding lookup edge_size
remaining-mark u done [] n = omega arith
remaining-mark u done ((w, m) ∷ links) n = elim (Bool-cases (str_eq w u)) [
  | inl t ↦
      let e = (eq_iff w u).0 t in
      rw t (ground (arith, remaining-mark_le u done links, ap done e, n, eq_iff u w, e))
  | inr f ↦ rw f (ground (arith, remaining-mark u done links n, eq_iff u w, eq_iff w u, f))
]

pub remaining-none : (links : Map (Map Edge)) → remaining (λ u. false) links ≡ links_size links
unfolding links_size
remaining-none [] = refl
remaining-none ((u, m) ∷ links) = omega (arith, remaining-none links)
