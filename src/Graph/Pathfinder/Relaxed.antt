-- ===== src/Graph/Pathfinder/Relaxed.antt =====
-- A relaxed channel keeps the invariant of the search, and improves at most one distance.
use circular.Prelude.{
  subst, subst₂, ℕ, suc, ◌+◌, ◌^◌, ◌<◌, ◌≤◌, ◌≡◌, ◌≢◌, ◌⊎◌, inl, inr, refl, sym, ap, ◌∙◌, String,
  Bool, true, false, some, List, ◌∷◌, Map, lookup, insert, lookup-insert, get_or, str_eq, eq_iff,
  if-cases, ltb→lt, if◌then◌else◌, add64, add64_lem, slt, slt_lem, ltb, arith, Bool-cases,
}
use circular.Graph.Channel.{Channel, compute_fee, can_forward}
use circular.Graph.Channel.Fees.{IsProtocol, max_amount, compute_fee-eq-exact_fee, exact_fee-lt}
use circular.Graph.Route.{RouteHop}
use circular.Graph.Network.{Graph, id_of}
use circular.Graph.Queue.{PqItem, push}
use circular.Graph.Queue.Swaps.{Each-map}
use circular.Graph.Queue.Laws.{push-IsHeap, Each-push}
use circular.Graph.Pathfinder.{Search, distance_of, max_distance, relax}
use circular.Graph.Pathfinder.Once.{IsImproved}
use circular.Graph.Pathfinder.Trace.{amount_of, Trace, IsUpdate, Trace-update}
use circular.Graph.Pathfinder.Invariant.{IsReached, HasChain, IsWaiting, Inv, IsCurrent}

module _ (g : Graph) (exclude : Map Bool) (dst : String) (amount max_hops : ℕ) where
  abbrev IsLinked : ℕ → Search → String → List RouteHop → Type 0
  IsLinked = HasChain g exclude dst amount max_hops

  abbrev Waits : ℕ → Search → PqItem → ℕ → Type 0
  Waits = IsWaiting g exclude dst amount max_hops

  abbrev Holds : ℕ → Search → Type 0
  Holds = Inv g exclude dst amount max_hops

  abbrev Expands : ℕ → Search → PqItem → List RouteHop → Type 0
  Expands = IsCurrent g exclude dst amount max_hops

  module _ (D : ℕ) (s : Search) (item : PqItem) (hops : List RouteHop) (i : Holds D s)
      (k : Expands D s item hops) (v : String) (c : Channel)
      (known : lookup (id_of c) g.channels ≡ some c) (from : c.source ≡ v)
      (to : c.destination ≡ item.node) (allowed : get_or false (lookup v exclude) ≡ false)
      (forwards : can_forward c item.amount ≡ true) (protocol : IsProtocol c)
      (small : amount + max_distance < max_amount) where
    abbrev fee : ℕ
    fee = compute_fee c item.amount

    D-le : D ≤ max_distance
    D-le = omega (arith, i.bounded item.node, k.here)

    fee-lt : fee < 2 ^ 55
    fee-lt =
        let in_range : item.amount < max_amount = omega (arith, k.amounts, D-le) in
        rw (compute_fee-eq-exact_fee c item.amount protocol in_range)
          (exact_fee-lt c item.amount protocol in_range)

    distance_sum : add64 (distance_of s item.node) fee ≡ D + fee
    distance_sum = rw k.here (add64_lem D fee (omega (arith, D-le, fee-lt)))

    amount_sum : add64 item.amount fee ≡ item.amount + fee
    amount_sum = add64_lem item.amount fee (omega (arith, D-le, fee-lt, k.amounts))

    -- the test of the code is the comparison of the two sums
    test_lem :
        slt (add64 (distance_of s item.node) fee) (distance_of s v)
        ≡ ltb (D + fee) (distance_of s v)
    test_lem = rw distance_sum (
        slt_lem (D + fee) (distance_of s v) (omega (arith, D-le, fee-lt))
          (omega (arith, i.bounded v)))

    abbrev new_hop : RouteHop
    new_hop = record {
      channel = c;
      milli_satoshi = item.amount + fee;
      delay = add64 item.delay c.delay;
    }

    abbrev new_item : PqItem
    new_item = record {
      node = v;
      amount = item.amount + fee;
      delay = add64 item.delay c.delay;
      hops = suc item.hops;
    }

    abbrev improved : Search
    improved = record {
      distance = insert v (D + fee) s.distance;
      hop = insert v new_hop s.hop;
      queue = push s.queue (record { value = new_item; priority = D + fee; index = 0 });
    }

    relax_cases :
        relax g exclude item v c s ≡ (if ltb (D + fee) (distance_of s v) then improved else s)
    unfolding relax
    relax_cases = rw (test_lem, distance_sum, amount_sum)

    module _ (b : D + fee < distance_of s v) where
      update : IsUpdate g exclude dst amount s improved v new_hop (D + fee)
      update = record {
        distance_at = λ w. ground (arith, lookup-insert v w (D + fee) s.distance);
        hop_at = λ w. lookup-insert v w new_hop s.hop;
      }

      v-ne-dst : v ≢ dst
      v-ne-dst e = omega (arith, ap (distance_of s) e, i.arrived)

      node-ne-v : item.node ≢ v
      node-ne-v e = omega (arith, ap (distance_of s) e, k.here)

      distance-v : distance_of improved v ≡ D + fee
      distance-v = ground (arith, update.distance_at v, eq_iff v v)

      distance-ne : (w : String) → w ≢ v → distance_of improved w ≡ distance_of s w
      distance-ne w n = ground (arith, update.distance_at w, eq_iff v w, λ (e : w ≡ v). n e)

      distance-le : (w : String) → distance_of improved w ≤ distance_of s w
      distance-le w = ground (arith, update.distance_at w, eq_iff v w)

      chain-ne :
          (w : String) (hs : List RouteHop) → w ≢ v → IsLinked D s w hs → IsLinked D improved w hs
      chain-ne w hs n h = record {
        trace =
            Trace-update g exclude dst amount D s improved v new_hop (D + fee) update (omega arith)
              w hs n h.trace;
        costs = omega (arith, h.costs, distance-ne w n);
        short = h.short;
      }

      chain-node : IsLinked D improved item.node hops
      chain-node = chain-ne item.node hops node-ne-v k.chain

      amount_node : amount_of amount hops ≡ item.amount
      amount_node = omega (arith, k.chain.costs, k.here, k.amounts)

      chain-v : IsLinked D improved v (new_hop ∷ hops)
      chain-v = record {
        trace = (
          record {
            inner = v-ne-dst;
            recorded = ground (arith, update.hop_at v, eq_iff v v);
            from = from;
            settled =
                subst (λ x. distance_of improved x ≤ D) (sym to)
                  (omega (arith, k.here, distance-ne item.node node-ne-v));
            usable = record {
              known = known;
              allowed = subst (λ x. get_or false (lookup x exclude) ≡ false) (sym from) allowed;
              forwards = rw amount_node forwards;
              cost = rw amount_node;
              wait = rw k.delays;
            };
          },
          subst (λ x. Trace g exclude dst amount D improved x hops) (sym to) chain-node.trace,
        );
        costs = omega (arith, distance-v, k.amounts);
        short = omega (arith, k.room);
      }

      IsWaiting-old : (x : PqItem) (p : ℕ) → Waits D s x p → Waits D improved x p
      IsWaiting-old x p w = record {
        ahead = w.ahead;
        below = w.below;
        no_better = omega (arith, w.no_better, distance-le x.node);
        amounts = w.amounts;
        current = λ e.
            let n : x.node ≢ v = λ (q : x.node ≡ v). absurd (
              omega (
                arith,
                ap (distance_of s) q,
                ap (distance_of improved) q,
                distance-v,
                w.no_better,
              )) in
            let (hs, c', d', l) = w.current (e ∙ distance-ne x.node n) in
            (hs, chain-ne x.node hs n c', d', l);
      }

      IsWaiting-new : Waits D improved new_item (D + fee)
      IsWaiting-new = record {
        ahead = omega arith;
        below = omega (arith, i.bounded v);
        no_better = omega (arith, distance-v);
        amounts = omega (arith, k.amounts);
        current = λ e. (new_hop ∷ hops, chain-v, refl, omega (arith, k.counted));
      }

      chained-improved :
          (w : String) (h : RouteHop)
          → lookup w improved.hop ≡ some h
          → (hs : List RouteHop) × IsLinked D improved w (h ∷ hs)
      chained-improved w h e = elim (Bool-cases (str_eq v w)) [
        | inl t ↦
            let same : h ≡ new_hop = ground (arith, e, update.hop_at w, t) in
            (
              hops,
              subst₂ (λ x y. IsLinked D improved x (y ∷ hops)) ((eq_iff v w).0 t) (sym same)
                  chain-v,
            )
        | inr f ↦
            let n : w ≢ v = λ (q : w ≡ v). absurd (ground (arith, f, q, eq_iff v w)) in
            let old : lookup w s.hop ≡ some h = ground (arith, e, update.hop_at w, f) in
            let (hs, c') = i.chained w h old in (hs, chain-ne w (h ∷ hs) n c')
      ]

      IsReached-improved :
          (w : String) → distance_of improved w < max_distance → IsReached g dst improved w
      IsReached-improved w b' = elim (Bool-cases (str_eq v w)) [
        | inl t ↦ inr (inr (new_hop, ground (arith, update.hop_at w, t)))
        | inr f ↦
            let same_d : lookup w improved.distance ≡ lookup w s.distance =
              ground (arith, lookup-insert v w (D + fee) s.distance, f) in
            let same_h : lookup w improved.hop ≡ lookup w s.hop =
              ground (arith, update.hop_at w, f) in
            let near : distance_of s w < max_distance = rw (ap (get_or 0) same_d) at b' in
            elim (i.reached w near) [
              | inl e ↦ inl e
              | inr r ↦ inr (elim r [ inl e ↦ inl e | inr (h, e) ↦ inr (h, same_h ∙ e) ])
            ]
      ]

      improved-Inv : Holds D improved
      improved-Inv = record {
        heap = push-IsHeap s.queue _ i.heap;
        arrived = omega (arith, i.arrived, distance-le dst);
        bounded = λ w. omega (arith, i.bounded w, distance-le w);
        waiting =
            Each-push (Waits D improved) s.queue _
              (Each-map (Waits D s) (Waits D improved) s.queue IsWaiting-old i.waiting)
              IsWaiting-new;
        chained = chained-improved;
        reached = IsReached-improved;
      }

      improved-IsCurrent : Expands D improved item hops
      improved-IsCurrent = record {
        here = distance-ne item.node node-ne-v ∙ k.here;
        chain = chain-node;
        delays = k.delays;
        counted = k.counted;
        room = k.room;
        amounts = k.amounts;
      }

    -- Whether or not the channel is a better way, the invariant holds afterwards.
    pub relax-keeps :
        Holds D (relax g exclude item v c s) × Expands D (relax g exclude item v c s) item hops
    relax-keeps = rw relax_cases (
        if-cases (λ t. Holds D t × Expands D t item hops) (ltb (D + fee) (distance_of s v)) improved
          s (λ b. (improved-Inv (ltb→lt _ _ b), improved-IsCurrent (ltb→lt _ _ b))) (λ b. (i, k)))

    improved-IsImproved : D + fee < distance_of s v → IsImproved D s improved v
    improved-IsImproved b = record {
      item = record { value = new_item; priority = D + fee; index = 0 };
      node = refl;
      pushed = refl;
      ahead = omega arith;
      lower = b;
      here = distance-v b;
      elsewhere = distance-ne b;
    }

    -- A relaxed channel leaves the search as it is or improves the distance of the node that it comes from.
    pub relax-IsImproved :
        (relax g exclude item v c s ≡ s) ⊎ IsImproved D s (relax g exclude item v c s) v
    relax-IsImproved = rw relax_cases (
        if-cases (λ t. (t ≡ s) ⊎ IsImproved D s t v) (ltb (D + fee) (distance_of s v)) improved s
          (λ b. inr (improved-IsImproved (ltb→lt _ _ b))) (λ b. inl refl))
