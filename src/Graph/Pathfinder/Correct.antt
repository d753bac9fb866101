-- ===== src/Graph/Pathfinder/Correct.antt =====
-- The search as a whole: what it returns is a route.
use circular.Prelude.{
  ℕ, suc, ◌+◌, ◌<◌, ◌≤◌, ◌≡◌, ◌≢◌, ◌⊎◌, inl, inr, refl, sym, subst, ap, ◌∙◌, String, Bool, false,
  none, some, List, [], ◌∷◌, Map, lookup, lookup-insert, get_or, str_eq, eq_iff, if◌then◌else◌,
  length, arith, Bool-cases, Option-cases, i64_half, ◌==◌,
}
use circular.Errors.{Result, ok, err, no_route, no_such_node}
use circular.Graph.Route.{RouteHop}
use circular.Graph.Network.{Graph, Edge}
use circular.Graph.Queue.{Item}
use circular.Graph.Queue.Order.{IsHeap}
use circular.Graph.Queue.Swaps.{Each, total}
use circular.Graph.Pathfinder.{
  Search, distance_of, max_distance, unreached, start, main_loop, finish, links_size, dijkstra,
}
use circular.Graph.Pathfinder.Trace.{IsRoute, Trace, Trace-IsRoute, read_hops-Trace}
use circular.Graph.Pathfinder.Invariant.{IsReached}
use circular.Graph.Pathfinder.Expand.{Assumptions}
use circular.Graph.Pathfinder.Round.{Holds, Waits}
use circular.Graph.Pathfinder.Loop.{main_loop-keeps}
use circular.Graph.Pathfinder.Once.{Once, fresh, size, remaining, remaining-none}

-- what the search may return for a source that the graph has
abbrev pub IsFound : Graph → Map Bool → String → ℕ → ℕ → String → Result (List RouteHop) → Type 0
IsFound g exclude dst amount max_hops src r =
    (r ≡ err no_route)
    ⊎ ((hops : List RouteHop) × (r ≡ ok hops)
        × IsRoute g exclude dst amount src hops
        × (length hops ≤ max_hops))

module _ (ends : String → String × String) (g : Graph) (exclude : Map Bool) (dst : String)
    (amount max_hops : ℕ) (a : Assumptions ends g amount) (few : max_hops < i64_half) where
  unreached-bounded :
      (v : String) (links : Map (Map Edge)) → get_or 0 (lookup v (unreached links)) ≤ max_distance
  unfolding unreached lookup
  unreached-bounded v [] = omega arith
  unreached-bounded v ((u, m) ∷ links) = ground (arith, unreached-bounded v links)

  unreached-known :
      (v : String) (links : Map (Map Edge))
      → get_or 0 (lookup v (unreached links)) < max_distance
      → lookup v links ≡ none
  unfolding unreached lookup
  unreached-known v [] b = refl
  unreached-known v ((u, m) ∷ links) b = ground (arith, unreached-known v links)

  abbrev first_item : Item
  first_item = record {
    value = record { node = dst; amount = amount; delay = 0; hops = 0 };
    priority = 0;
    index = 0;
  }

  abbrev begun : Search
  begun = start g dst amount

  begun-queue : begun.queue ≡ first_item ∷ []
  unfolding start
  begun-queue = refl

  begun-distance :
      (v : String)
      → distance_of begun v
        ≡ (if str_eq dst v then 0 else get_or 0 (lookup v (unreached g.inbound)))
  unfolding start
  begun-distance v = ground (arith, lookup-insert dst v 0 (unreached g.inbound))

  begun-hop : (v : String) (h : RouteHop) → lookup v begun.hop ≢ some h
  unfolding start lookup
  begun-hop v h e = absurd (cc e)

  begun-Waits : Waits ends g exclude dst amount max_hops a few 0 begun first_item.value 0
  begun-Waits = record {
    ahead = omega arith;
    below = omega arith;
    no_better = ground (arith, begun-distance dst, eq_iff dst dst);
    amounts = omega arith;
    current = λ e. (
      [],
      record {
        trace = refl;
        costs = ground (arith, begun-distance dst, eq_iff dst dst);
        short = omega arith;
      },
      refl,
      refl,
    );
  }

  start-Inv : Holds ends g exclude dst amount max_hops a few 0 begun
  start-Inv = record {
    heap = subst IsHeap (sym begun-queue) (λ c p q. absurd (omega arith));
    arrived = ground (arith, begun-distance dst, eq_iff dst dst);
    bounded = λ v. ground (arith, begun-distance v, unreached-bounded v g.inbound);
    waiting =
        subst (Each (Waits ends g exclude dst amount max_hops a few 0 begun)) (sym begun-queue)
          (begun-Waits, tt);
    chained = λ v h e. absurd (begun-hop v h e);
    reached = λ v b. elim (Bool-cases (str_eq dst v)) [
      | inl t ↦ inr (inl (sym ((eq_iff dst v).0 t)))
      | inr f ↦ inl (unreached-known v g.inbound (ground (arith, begun-distance v, f)))
    ];
  }

  finish-IsFound :
      (src : String) (D : ℕ) (s : Search)
      → Holds ends g exclude dst amount max_hops a few D s
      → lookup src g.inbound ≢ none
      → (r : Result (List RouteHop)) × (finish src dst max_hops s ≡ some r)
        × IsFound g exclude dst amount max_hops src r
  unfolding finish
  finish-IsFound src D s i known = elim (Bool-cases (distance_of s src == max_distance)) [
    | inl t ↦ (err no_route, rw (t, finish), inl refl)
    | inr f ↦
        let near : distance_of s src < max_distance = ground (arith, i.bounded src, f) in
        let (hops, trace, short) = found (i.reached src near) in
        (
          ok hops,
          rw (f, finish)
              (read_hops-Trace g exclude dst amount D s (suc max_hops) src hops (omega arith)
                trace),
          inr (hops, refl, Trace-IsRoute g exclude dst amount D s src hops trace, short),
        )
  ]
    where
      found :
          IsReached g dst s src
          → (hops : List RouteHop) × Trace g exclude dst amount D s src hops
            × (length hops ≤ max_hops)
      found (inl e) = absurd (known e)
      found (inr (inl e)) = ([], e, omega arith)
      found (inr (inr (h, e))) = let (hops, c) = i.chained src h e in (h ∷ hops, c.trace, c.short)

  unfolding_dijkstra :
      (src : String)
      → lookup dst g.inbound ≢ none
      → lookup src g.inbound ≢ none
      → (t : Search) → main_loop g exclude src max_hops (links_size g.inbound + 2) begun ≡ some t
      → dijkstra g exclude src dst amount max_hops ≡ finish src dst max_hops t
  unfolding dijkstra
  unfolding_dijkstra src p q t e = elim (Option-cases (lookup dst g.inbound)) [
    | inl n ↦ absurd (p n)
    | inr (m, n) ↦ elim (Option-cases (lookup src g.inbound)) [
      | inl n' ↦ absurd (q n')
      | inr (m', n') ↦ rw (n, dijkstra) (rw (n', dijkstra) (rw (e, dijkstra)))
    ]
  ]

  begun-Once : Once (λ u. false) 0 begun
  begun-Once = record {
    count = λ v.
        subst (λ pq. total (fresh v (distance_of begun v)) pq ≤ 1) (sym begun-queue) (ground arith);
    settled = λ v t. absurd (cc t);
  }

  -- On a well-formed graph whose fee fields fit 32 bits, for an amount below 2 ^ 41 - 2 ^ 31 msat
  -- and fewer than 2 ^ 63 hops, and for a source and a destination that the graph has, the search
  -- terminates and returns either no route, or hops that lead from the source to the destination
  -- over channels of the graph, from no excluded node, at most max_hops of them, each of which can
  -- forward what the rest needs and adds its fee and its delay; it never panics.
  pub dijkstra-IsFound :
      (src : String)
      → lookup dst g.inbound ≢ none
      → lookup src g.inbound ≢ none
      → (r : Result (List RouteHop)) × (dijkstra g exclude src dst amount max_hops ≡ some r)
        × IsFound g exclude dst amount max_hops src r
  dijkstra-IsFound src p q =
      let room : size begun.queue + remaining (λ u. false) g.inbound < links_size g.inbound + 2 =
        omega (arith, ap size begun-queue, remaining-none g.inbound) in
      let (t, e, E, i) =
        main_loop-keeps ends g exclude dst amount max_hops a few src (links_size g.inbound + 2) 0
          (λ u. false) begun start-Inv begun-Once room in
      let (r, e', found) = finish-IsFound src E t i q in
      (r, unfolding_dijkstra src p q t e ∙ e', found)

  pub dijkstra-Returned :
      (src : String)
      → (r : Result (List RouteHop)) × (dijkstra g exclude src dst amount max_hops ≡ some r)
        × ((r ≡ err no_such_node) ⊎ IsFound g exclude dst amount max_hops src r)
  unfolding dijkstra
  dijkstra-Returned src = elim (Option-cases (lookup dst g.inbound)) [
    | inl e ↦ (err no_such_node, rw (e, dijkstra), inl refl)
    | inr (m, e) ↦ elim (Option-cases (lookup src g.inbound)) [
      | inl e' ↦ (err no_such_node, rw (e, dijkstra) (rw (e', dijkstra)), inl refl)
      | inr (m', e') ↦
          let (r, q, found) =
            dijkstra-IsFound src (λ n. absurd (cc (n, e))) (λ n. absurd (cc (n, e'))) in
          (r, q, inr found)
    ]
  ]
