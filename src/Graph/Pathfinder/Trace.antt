-- ===== src/Graph/Pathfinder/Trace.antt =====
-- What the maps `distance` and `hop` say of a node: the chain of hops from it to the destination.
use circular.Prelude.{
  ℕ, zero, suc, ◌+◌, ◌<◌, ◌≤◌, ◌≡◌, ◌≢◌, ap, String, Bool, true, false, some, List, [], ◌∷◌, Map,
  lookup, get_or, str_eq, eq_iff, ne→str_eq, if◌then◌else◌, add64, length, arith,
}
use circular.Errors.{ok}
use circular.Graph.Channel.{compute_fee, can_forward}
use circular.Graph.Route.{RouteHop}
use circular.Graph.Network.{Graph, id_of}
use circular.Graph.Queue.{PriorityQueue}
use circular.Graph.Pathfinder.{Search, distance_of, read_hops}

-- what has to arrive at the first node of a chain for `amount` to arrive at its end, and how long it may wait
abbrev pub amount_of : ℕ → List RouteHop → ℕ
amount_of amount [] = amount
amount_of amount (h ∷ hops) = h.milli_satoshi

abbrev pub delay_of : List RouteHop → ℕ
delay_of [] = 0
delay_of (h ∷ hops) = h.delay

module _ (g : Graph) (exclude : Map Bool) where
  -- `h` is a hop over a channel of the graph from a node that is not excluded; the channel can forward the
  -- amount `a` that the next hop needs, and the hop takes the fee on top.
  pub record IsUsable (h : RouteHop) (a d : ℕ) : Type 0 where
    pub known : lookup (id_of h.channel) g.channels ≡ some h.channel
    pub allowed : get_or false (lookup h.channel.source exclude) ≡ false
    pub forwards : can_forward h.channel a ≡ true
    pub cost : h.milli_satoshi ≡ a + compute_fee h.channel a
    pub wait : h.delay ≡ add64 d h.channel.delay

  -- The hops lead from `v` to `dst`, each usable for what the rest of them needs.
  abbrev pub IsRoute : String → ℕ → String → List RouteHop → Type 0
  IsRoute dst amount v [] = v ≡ dst
  IsRoute dst amount v (h ∷ hops) =
      (h.channel.source ≡ v)
      × IsUsable h (amount_of amount hops) (delay_of hops)
      × IsRoute dst amount h.channel.destination hops

  module _ (dst : String) (amount : ℕ) where
    -- one hop of a chain that the search has recorded; the node that it leads to is settled: its distance
    -- is at most that of the node that the search has come to
    pub record IsStep (D : ℕ) (s : Search) (v : String) (h : RouteHop) (hops : List RouteHop)
        : Type 0 where
      pub inner : v ≢ dst
      pub recorded : lookup v s.hop ≡ some h
      pub from : h.channel.source ≡ v
      pub settled : distance_of s h.channel.destination ≤ D
      pub usable : IsUsable h (amount_of amount hops) (delay_of hops)

    abbrev pub Trace : ℕ → Search → String → List RouteHop → Type 0
    Trace D s v [] = v ≡ dst
    Trace D s v (h ∷ hops) = IsStep D s v h hops × Trace D s h.channel.destination hops

    pub Trace-IsRoute :
        (D : ℕ) (s : Search) (v : String) (hops : List RouteHop)
        → Trace D s v hops
        → IsRoute dst amount v hops
    Trace-IsRoute D s v [] t = t
    Trace-IsRoute D s v (h ∷ hops) t =
        (t.0.from, t.0.usable, Trace-IsRoute D s h.channel.destination hops t.1)

    -- the search goes on to a greater distance, and its queue changes
    pub Trace-settle :
        (D E : ℕ) (s : Search) (q : PriorityQueue) (v : String) (hops : List RouteHop)
        → D ≤ E
        → Trace D s v hops
        → Trace E (record s { queue = q }) v hops
    Trace-settle D E s q v [] b t = t
    Trace-settle D E s q v (h ∷ hops) b t = (
      record {
        inner = t.0.inner;
        recorded = t.0.recorded;
        from = t.0.from;
        settled = omega (arith, t.0.settled);
        usable = t.0.usable;
      },
      Trace-settle D E s q h.channel.destination hops b t.1,
    )

    -- `s'` is `s` with another hop and distance for `w`
    pub record IsUpdate (s s' : Search) (w : String) (h : RouteHop) (d : ℕ) : Type 0 where
      pub distance_at :
          (v : String) → distance_of s' v ≡ (if str_eq w v then d else distance_of s v)
      pub hop_at : (v : String) → lookup v s'.hop ≡ (if str_eq w v then some h else lookup v s.hop)

    -- A node that is not settled stands inside no chain, so that its update changes none but its own.
    pub Trace-update :
        (D : ℕ) (s s' : Search) (w : String) (h₀ : RouteHop) (d : ℕ)
        → IsUpdate s s' w h₀ d
        → D < distance_of s w
        → (v : String) (hops : List RouteHop) → v ≢ w
        → Trace D s v hops
        → Trace D s' v hops
    Trace-update D s s' w h₀ d u b v [] n t = t
    Trace-update D s s' w h₀ d u b v (h ∷ hops) n t =
        let next = h.channel.destination in
        let apart : next ≢ w = λ e. absurd (omega (arith, ap (distance_of s) e, t.0.settled)) in
        (
          record {
            inner = t.0.inner;
            recorded = ground (arith, u.hop_at v, eq_iff w v, t.0.recorded, λ (e : v ≡ w). n e);
            from = t.0.from;
            settled =
                ground (
                  arith,
                  u.distance_at next,
                  eq_iff w next,
                  t.0.settled,
                  λ (e : next ≡ w). apart e,
                );
            usable = t.0.usable;
          },
          Trace-update D s s' w h₀ d u b next hops apart t.1,
        )

    -- The loop that reads a chain back returns it, if it gets a round for each hop and one more.
    pub read_hops-Trace :
        (D : ℕ) (s : Search) (fuel : ℕ) (v : String) (hops : List RouteHop)
        → length hops < fuel
        → Trace D s v hops
        → read_hops fuel s.hop dst v ≡ some (ok hops)
    unfolding read_hops
    read_hops-Trace D s zero v hops b t = absurd (omega arith)
    read_hops-Trace D s (suc fuel) v [] b t = rw ((eq_iff v dst).1 t, read_hops)
    read_hops-Trace D s (suc fuel) v (h ∷ hops) b t =
        let ih = read_hops-Trace D s fuel h.channel.destination hops (omega arith) t.1 in
        rw (ne→str_eq v dst t.0.inner, read_hops)
          (rw (t.0.recorded, read_hops) (rw (ih, read_hops)))
