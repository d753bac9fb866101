-- ===== src/Graph/Pathfinder/Expand.antt =====
-- The expansion of a node keeps the invariant: one channel, one edge, all neighbours.
use circular.Prelude.{
  ℕ, ◌+◌, ◌<◌, ◌≤◌, ◌≡◌, sym, subst, ap, ◌∙◌, String, Bool, false, some, List, [], ◌∷◌, Map, lookup,
  get_or, arith, Option-cases, inl, inr, Entries, if-cases, ◌⊎◌, length,
}
use circular.Graph.Channel.{Channel, can_forward}
use circular.Graph.Channel.Fees.{IsProtocol, max_amount}
use circular.Graph.Route.{RouteHop}
use circular.Graph.Network.{Graph, Edge, channel_id, id_of}
use circular.Graph.Network.Routed.{EdgeFollows}
use circular.Graph.Network.WellFormed.{IsWellFormed}
use circular.Graph.Queue.{PqItem}
use circular.Graph.Queue.Swaps.{Each-map}
use circular.Graph.Pathfinder.{
  Search, max_distance, relax, try_scid, try_edge, try_neighbours, edge_size,
}
use circular.Graph.Pathfinder.Once.{Once, IsImproved, NoBetter, Once-improved, size-improved, size}
use circular.Graph.Pathfinder.Invariant.{Inv, IsWaiting, IsCurrent}
use circular.Graph.Pathfinder.Relaxed.{relax-keeps, relax-IsImproved}

-- What the search relies on: the graph is well-formed, the fee fields of its channels fit 32 bits, and the
-- amount leaves room for the fees below 2 ^ 41 msat.
pub record Assumptions (ends : String → String × String) (g : Graph) (amount : ℕ) : Type 0 where
  pub well_formed : IsWellFormed ends g
  pub protocol : (k : String) (c : Channel) → lookup k g.channels ≡ some c → IsProtocol c
  pub small : amount + max_distance < max_amount

module _ (ends : String → String × String) (g : Graph) (exclude : Map Bool) (dst : String)
    (amount max_hops : ℕ) (a : Assumptions ends g amount) (done : String → Bool) (D : ℕ)
    (item : PqItem) (hops : List RouteHop) where
  -- the state while the node of `item` is expanded, with a queue of at most `n` items
  pub record Expanding (n : ℕ) (s : Search) : Type 0 where
    pub inv : Inv g exclude dst amount max_hops D s
    pub current : IsCurrent g exclude dst amount max_hops D s item hops
    pub once : Once done D s
    pub few : size s.queue ≤ n

  widen : (n m : ℕ) (s : Search) → n ≤ m → Expanding n s → Expanding m s
  widen n m s b x = record {
    inv = x.inv;
    current = x.current;
    once = x.once;
    few = omega (arith, x.few);
  }

  no_better : (n : ℕ) (s : Search) → Expanding n s → NoBetter s
  no_better n s x =
      Each-map (IsWaiting g exclude dst amount max_hops D s) _ s.queue (λ y p w. w.no_better)
        x.inv.waiting

  -- what the invariant says of the state after the relaxed channel, with the items that wait there
  relaxed :
      (n : ℕ) (s s' : Search) (v : String)
      → Expanding n s
      → Inv g exclude dst amount max_hops D s'
        × IsCurrent g exclude dst amount max_hops D s' item hops
      → (s' ≡ s) ⊎ IsImproved D s s' v
      → Expanding (n + 1) s'
  relaxed n s s' v x k (inl e) =
      subst (Expanding (n + 1)) (sym e) (widen n (n + 1) s (omega arith) x)
  relaxed n s s' v x k (inr m) = record {
    inv = k.0;
    current = k.1;
    once = Once-improved done D s s' v x.once (no_better n s x) m;
    few = omega (arith, x.few, size-improved done D s s' v x.once (no_better n s x) m);
  }

  try_scid-keeps :
      (n : ℕ) (v scid : String) (s : Search)
      → get_or false (lookup v exclude) ≡ false
      → ends (channel_id scid v item.node) ≡ (v, item.node)
      → Expanding n s
      → Expanding (n + 1) (try_scid g exclude item v scid s)
  unfolding try_scid
  try_scid-keeps n v scid s allowed f x =
      let id = channel_id scid v item.node in
      elim (Option-cases (lookup id g.channels)) [
        | inl e ↦ rw (e, try_scid) (widen n (n + 1) s (omega arith) x)
        | inr (c, e) ↦
            let placed = sym (a.well_formed.placed id c e) ∙ f in
            let known : lookup (id_of c) g.channels ≡ some c =
              subst (λ x. lookup x g.channels ≡ some c) (a.well_formed.keyed id c e) e in
            rw (e, try_scid)
              (if-cases (Expanding (n + 1)) (can_forward c item.amount) (relax g exclude item v c s)
                s
                (λ forwards.
                  relaxed n s _ v x
                    (relax-keeps g exclude dst amount max_hops D s item hops x.inv x.current v c
                      known (ap (λ p. p.0) placed) (ap (λ p. p.1) placed) allowed forwards
                      (a.protocol id c e) a.small)
                    (relax-IsImproved g exclude dst amount max_hops D s item hops x.inv x.current v
                      c known (ap (λ p. p.0) placed) (ap (λ p. p.1) placed) allowed forwards
                      (a.protocol id c e) a.small))
                (λ stopped. widen n (n + 1) s (omega arith) x))
      ]

  try_edge-keeps :
      (n : ℕ) (v : String) (edge : Edge) (s : Search)
      → get_or false (lookup v exclude) ≡ false
      → EdgeFollows ends item.node v edge
      → Expanding n s
      → Expanding (n + length edge) (try_edge g exclude item v edge s)
  unfolding try_edge
  try_edge-keeps n v [] s allowed f x = widen n _ s (omega arith) x
  try_edge-keeps n v (scid ∷ edge) s allowed f x = widen (n + 1 + length edge) _ _ (omega arith) (
      try_edge-keeps (n + 1) v edge (try_scid g exclude item v scid s) allowed f.1
        (try_scid-keeps n v scid s allowed f.0 x))

  -- All neighbours of the node that is expanded may be tried; each short channel id adds at most one item.
  pub try_neighbours-keeps :
      (n : ℕ) (m : Map Edge) (s : Search)
      → Entries (EdgeFollows ends item.node) m
      → Expanding n s
      → Expanding (n + edge_size m) (try_neighbours g exclude item m s)
  unfolding try_neighbours edge_size
  try_neighbours-keeps n [] s f x = widen n _ s (omega arith) x
  try_neighbours-keeps n ((v, edge) ∷ m) s f x =
      widen (n + length edge + edge_size m) _ _ (omega arith) (
        try_neighbours-keeps (n + length edge) m _ f.1 (
          if-cases (Expanding (n + length edge)) (get_or false (lookup v exclude)) s
            (try_edge g exclude item v edge s) (λ excluded. widen n _ s (omega arith) x)
            (λ allowed. try_edge-keeps n v edge s allowed f.0 x)))
