-- ===== src/Graph/Pathfinder/Round.antt =====
-- One round of the main loop keeps the invariant: an item is popped, and its node is left or expanded.
use circular.Prelude.{
  ℕ, ◌+◌, ◌<◌, ◌≤◌, ◌≡◌, inl, inr, sym, subst, ap, ◌∙◌, String, Bool, false, Option, none, some,
  List, ◌∷◌, Map, str_eq, eq_iff, if◌then◌else◌, slt, sle, slt_lem, sle_lem, ltb→ge, leb→gt, arith,
  Bool-cases, if-cases, i64_half,
}
use circular.Graph.Route.{RouteHop}
use circular.Graph.Network.{Graph, neighbours}
use circular.Graph.Network.Routed.{neighbours-follow}
use circular.Graph.Queue.{PqItem, Item, PriorityQueue, get, minus_one}
use circular.Graph.Queue.Array.{rank, key}
use circular.Graph.Queue.Swaps.{Each, Each-get, Each-of_get, total}
use circular.Graph.Queue.Laws.{Popped}
use circular.Graph.Pathfinder.{Search, distance_of, max_distance, try_neighbours, visit}
use circular.Graph.Pathfinder.Once.{Once, fresh, size, remaining, mark, remaining-mark}
use circular.Graph.Pathfinder.Invariant.{Inv, IsWaiting, HasChain-settle, IsCurrent}
use circular.Graph.Pathfinder.Expand.{Assumptions, try_neighbours-keeps}

rank-lt :
    (x : Item) (pq : PriorityQueue) (i : ℕ)
    → x.priority < max_distance
    → (get pq i).priority < max_distance
    → rank x ≤ key pq i
    → x.priority ≤ (get pq i).priority
unfolding rank
rank-lt x pq i b c h = omega arith

module _ (ends : String → String × String) (g : Graph) (exclude : Map Bool) (dst : String)
    (amount max_hops : ℕ) (a : Assumptions ends g amount) (few : max_hops < i64_half) where
  abbrev pub Holds : ℕ → Search → Type 0
  Holds = Inv g exclude dst amount max_hops

  abbrev pub Waits : ℕ → Search → PqItem → ℕ → Type 0
  Waits = IsWaiting g exclude dst amount max_hops

  module _ (D : ℕ) (s : Search) (i : Holds D s) (x : Item) (rest others : PriorityQueue)
      (q : s.queue ≡ x ∷ rest) (popped : Popped (x ∷ rest) x others) where
    abbrev pub after : Search
    after = record s { queue = others }

    first : Waits D s x.value x.priority
    first = (popped.each (Waits D s) (subst (Each (Waits D s)) q i.waiting)).0

    left : Each (Waits D s) others
    left = (popped.each (Waits D s) (subst (Each (Waits D s)) q i.waiting)).1

    settle : (y : PqItem) (p : ℕ) → x.priority ≤ p → Waits D s y p → Waits x.priority after y p
    settle y p b w = record {
      ahead = b;
      below = w.below;
      no_better = w.no_better;
      amounts = w.amounts;
      current = λ e.
          let (hops, c, d, l) = w.current e in
          (
            hops,
            HasChain-settle g exclude dst amount max_hops D x.priority s others y.node hops
                first.ahead c,
            d,
            l,
          );
    }

    -- the search comes to the priority of the item that it pops
    pub after-Inv : Holds x.priority after
    after-Inv = record {
      heap = popped.heap;
      arrived = i.arrived;
      bounded = i.bounded;
      waiting = Each-of_get (Waits x.priority after) others (λ c b.
          let w = Each-get (Waits D s) others c b left in
          settle _ _ (rank-lt x others c first.below w.below (popped.least c b)) w);
      chained = λ v h e.
          let (hops, c) = i.chained v h e in
          (
            hops,
            HasChain-settle g exclude dst amount max_hops D x.priority s others v (h ∷ hops)
                first.ahead c,
          );
      reached = i.reached;
    }

    -- what the item says of its node, where its priority is the distance
    node-IsCurrent :
        slt (distance_of s x.value.node) x.priority ≡ false
        → sle max_hops x.value.hops ≡ false
        → (hops : List RouteHop) × IsCurrent g exclude dst amount max_hops x.priority after x.value
            hops
    node-IsCurrent t u =
        let near = i.bounded x.value.node in
        let behind : x.priority ≤ distance_of s x.value.node = ltb→ge _ _ (
          sym (
            slt_lem (distance_of s x.value.node) x.priority (omega arith)
              (omega (arith, first.below)))
          ∙ t) in
        let same : x.priority ≡ distance_of s x.value.node = omega (arith, first.no_better) in
        let (hops, c, d, l) = first.current same in
        let room =
          leb→gt _ _ (sym (sle_lem max_hops x.value.hops few (omega (arith, c.short))) ∙ u) in
        (
          hops,
          record {
            here = sym same;
            chain =
                HasChain-settle g exclude dst amount max_hops D x.priority s others x.value.node
                  hops first.ahead c;
            delays = d;
            counted = l;
            room = omega arith;
            amounts = first.amounts;
          },
        )

    abbrev popped_item : Item
    popped_item = record x { index = minus_one }

    module _ (done : String → Bool) (once : Once done D s) where
      -- an item that is popped late takes nothing away
      after-Once : Once done x.priority after
      after-Once = record {
        count = λ v.
            let d = distance_of s v in
            let now : total (fresh v d) (x ∷ rest) ≤ (if done v then 0 else 1) =
              subst (λ pq. total (fresh v d) pq ≤ (if done v then 0 else 1)) q (once.count v) in
            omega (arith, popped.sums (fresh v d), now);
        settled = λ v t. omega (arith, once.settled v t, first.ahead);
      }

      size-after : size s.queue ≡ size others + 1
      size-after = ap size q ∙ omega (arith, popped.sums (λ item p. 1))

      module _ (same : x.priority ≡ distance_of s x.value.node) where
        abbrev u : String
        u = x.value.node

        -- the items of the node that is expanded, with the one that is popped
        count-u : total (fresh u (distance_of s u)) others + 1 ≤ (if done u then 0 else 1)
        count-u =
            let d = distance_of s u in
            let now : total (fresh u d) (x ∷ rest) ≤ (if done u then 0 else 1) =
              subst (λ pq. total (fresh u d) pq ≤ (if done u then 0 else 1)) q (once.count u) in
            let one : fresh u d x.value x.priority ≡ 1 = ground (arith, eq_iff u u, same) in
            omega (arith, popped.sums (fresh u d), now, one)

        fresh-u : done u ≡ false
        fresh-u = elim (Bool-cases (done u)) [
          | inl t ↦ absurd (ground (arith, count-u, t))
          | inr f ↦ f
        ]

        mark-Once : Once (mark u done) x.priority after
        mark-Once = record {
          count = λ v. elim (Bool-cases (str_eq u v)) [
            | inl t ↦
                subst
                  (λ w. total (fresh w (distance_of s w)) others ≤ (if mark u done w then 0 else 1))
                  ((eq_iff u v).0 t) (ground (arith, count-u, fresh-u, eq_iff u u))
            | inr f ↦ rw f (after-Once.count v)
          ];
          settled = λ v t. elim (Bool-cases (str_eq u v)) [
            | inl e ↦ omega (arith, ap (distance_of s) ((eq_iff u v).0 e), same)
            | inr f ↦ after-Once.settled v (ground (arith, t, f))
          ];
        }

      -- The search stops, or it goes on from a state with the invariant and with less left to do.
      abbrev pub GoesOn : Option Search → Type 0
      GoesOn none = Unit
      GoesOn (some t) =
          Holds x.priority t
          × ((done' : String → Bool) × Once done' x.priority t
              × (size t.queue + remaining done' g.inbound
                  < size s.queue + remaining done g.inbound))

      ignored : GoesOn (some after)
      ignored = (after-Inv, (done, after-Once, omega (arith, size-after)))

      expanded :
          (hops : List RouteHop)
          → IsCurrent g exclude dst amount max_hops x.priority after x.value hops
          → GoesOn
              (some (try_neighbours g exclude x.value (neighbours g.inbound x.value.node) after))
      expanded hops c =
          let same = sym c.here in
          let m = neighbours g.inbound x.value.node in
          let e =
            try_neighbours-keeps ends g exclude dst amount max_hops a (mark x.value.node done)
              x.priority x.value hops (size others) m after
              (neighbours-follow ends g.inbound x.value.node a.well_formed.routed)
              (record { inv = after-Inv; current = c; once = mark-Once same; few = omega arith }) in
          (
            e.inv,
            (
              mark x.value.node done,
              e.once,
              omega (
                arith,
                e.few,
                size-after,
                remaining-mark x.value.node done g.inbound (fresh-u same),
              ),
            ),
          )

      pub visit-keeps : (src : String) → GoesOn (visit g exclude src max_hops popped_item after)
      unfolding visit
      visit-keeps src =
          if-cases GoesOn (slt (distance_of s x.value.node) x.priority) (some after) _
            (λ late. ignored)
            (λ current.
              if-cases GoesOn (str_eq x.value.node src) none _ (λ found. tt)
                (λ inner.
                  if-cases GoesOn (sle max_hops x.value.hops) (some after) _ (λ long. ignored)
                    (λ room. let (hops, c) = node-IsCurrent current room in expanded hops c)))
