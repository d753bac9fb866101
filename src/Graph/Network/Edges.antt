-- ===== src/Graph/Network/Edges.antt =====
-- The adjacency list: what AddChannel and DeleteChannel do to each edge, and channel ids.
use circular.Prelude.{
  ℕ, zero, suc, ◌+◌, ◌-◌, ◌≡◌, ◌≢◌, refl, ap, String, none, some, [], ◌∷◌, ◌++◌, ◌&&◌, Map, lookup,
  insert, lookup-insert, get_or, str_eq, eq_iff, if◌then◌else◌, arith, Option-cases, inl, inr, set,
  get_elem?, ◌∙◌, get_last_or, drop_last,
}
use circular.Graph.Channel.{Channel}
use circular.Graph.Network.{
  Edge, neighbours, edge_of, allocate, allocate_outer, allocate_inner, set_edge, Graph, add_channel,
  remove, index_of, delete_channel,
}

-- how often an edge lists a short channel id
abbrev pub count : String → Edge → ℕ
count scid [] = 0
count scid (s ∷ edge) = (if str_eq s scid then 1 else 0) + count scid edge

pub count-append : (scid : String) (e f : Edge) → count scid (e ++ f) ≡ count scid e + count scid f
count-append scid [] f = omega arith
count-append scid (s ∷ e) f = omega (arith, count-append scid e f)

neighbours-insert :
    (links : Map (Map Edge)) (to u : String) (m : Map Edge)
    → neighbours (insert to m links) u ≡ (if str_eq to u then m else neighbours links u)
neighbours-insert links to u m = rw (lookup-insert to u m links) (ground arith)

pub edge_of-set_edge :
    (links : Map (Map Edge)) (to from : String) (e : Edge) (u v : String)
    → edge_of (set_edge links to from e) u v
      ≡ (if str_eq to u && str_eq from v then e else edge_of links u v)
unfolding set_edge
edge_of-set_edge links to from e u v =
    rw (neighbours-insert links to u (insert from e (neighbours links to)))
      (ground (arith, lookup-insert from v e (neighbours links to), eq_iff to u))

neighbours-allocate_outer :
    (links : Map (Map Edge)) (a u : String)
    → neighbours (allocate_outer links a) u ≡ neighbours links u
unfolding allocate_outer
neighbours-allocate_outer links a u =
    ground (arith, lookup-insert {V = Map Edge} a u [] links, eq_iff a u)

edge_of-allocate_inner :
    (links : Map (Map Edge)) (a b u v : String)
    → edge_of (allocate_inner links a b) u v ≡ edge_of links u v
unfolding allocate_inner
edge_of-allocate_inner links a b u v = ground (
  arith,
  lookup-insert a u (insert b [] (neighbours links a)) links,
  lookup-insert {V = Edge} b v [] (neighbours links a),
  eq_iff a u,
  eq_iff b v,
)

edge_of-allocate :
    (links : Map (Map Edge)) (a b u v : String)
    → edge_of (allocate links a b) u v ≡ edge_of links u v
unfolding allocate
edge_of-allocate links a b u v =
    edge_of-allocate_inner (allocate_outer links a) a b u v
    ∙ ap (λ m. get_or [] (lookup v m)) (neighbours-allocate_outer links a u)

-- AddChannel appends the short channel id to the edge of the channel, and changes no other edge.
pub edge_of-add_channel :
    (c : Channel) (g : Graph) (u v : String)
    → edge_of (add_channel c g).0.inbound u v ≡ (
        if str_eq c.destination u && str_eq c.source v
        then edge_of g.inbound u v ++ c.short_channel_id ∷ []
        else edge_of g.inbound u v)
unfolding add_channel
edge_of-add_channel c g u v =
    let links = allocate g.inbound c.destination c.source in
    rw (edge_of-set_edge links c.destination c.source _ u v) (
      ground (
        arith,
        edge_of-allocate g.inbound c.destination c.source u v,
        edge_of-allocate g.inbound c.destination c.source c.destination c.source,
        eq_iff c.destination u,
        eq_iff c.source v,
      ))

-- removing an entry by the swap with the last one keeps the others, as often as they were
count-drop_last :
    (x s : String) (l : Edge)
    → count x (drop_last (s ∷ l)) + count x (get_last_or l s ∷ []) ≡ count x (s ∷ l)
count-drop_last x s [] = omega arith
count-drop_last x s (t ∷ l) = omega (arith, count-drop_last x t l)

count-set :
    (x : String) (i : ℕ) (s v : String) (l : Edge)
    → get_elem? l i ≡ some s
    → count x (set l i v) + count x (s ∷ []) ≡ count x l + count x (v ∷ [])
count-set x i s v [] h = cc
count-set x zero s v (t ∷ l) h = ground (arith, h)
count-set x (suc i) s v (t ∷ l) h = omega (arith, count-set x i s v l h)

get_last_or_idem : (l : Edge) (d : String) → get_last_or l (get_last_or l d) ≡ get_last_or l d
get_last_or_idem [] d = refl
get_last_or_idem (x ∷ l) d = refl

last-set :
    (l : Edge) (i : ℕ) (d : String) → get_last_or (set l i (get_last_or l d)) d ≡ get_last_or l d
last-set [] i d = refl
last-set (x ∷ l) zero d = get_last_or_idem l x
last-set (x ∷ l) (suc i) d = last-set l i x

count-drop_last_of :
    (x d : String) (l m : Edge) (i : ℕ) (v : String)
    → l ≡ set m i v
    → m ≢ []
    → count x (drop_last l) + count x (get_last_or l d ∷ []) ≡ count x l
count-drop_last_of x d l [] i v e n = absurd (n refl)
count-drop_last_of x d l (t ∷ m) zero v e n = rw e (count-drop_last x v m)
count-drop_last_of x d l (t ∷ m) (suc i) v e n = rw e (count-drop_last x t (set m i v))

count-remove :
    (x : String) (i : ℕ) (s : String) (l : Edge)
    → get_elem? l i ≡ some s
    → count x (remove l i) + count x (s ∷ []) ≡ count x l
unfolding remove
count-remove x i s l h =
    let v = get_last_or l "" in
    let kept =
      rw (last-set l i "") at
        (count-drop_last_of x "" (set l i v) l i v refl (λ e. cc (rw e at h))) in
    omega (arith, kept, count-set x i s v l h)

get_elem?-index_of :
    (scid : String) (l : Edge) (i : ℕ) → index_of scid l ≡ some i → get_elem? l i ≡ some scid
unfolding index_of
get_elem?-index_of scid [] i h = cc
get_elem?-index_of scid (s ∷ l) zero h = ground (arith, eq_iff s scid, h)
get_elem?-index_of scid (s ∷ l) (suc i) h = ground (arith, get_elem?-index_of scid l i)

count-index_of : (scid : String) (l : Edge) → index_of scid l ≡ none → count scid l ≡ 0
unfolding index_of
count-index_of scid [] h = refl
count-index_of scid (s ∷ l) h = ground (arith, count-index_of scid l)

-- DeleteChannel takes the short channel id once from the edge of the channel, if it is there, and leaves
-- every other count as it is.
pub count-delete_channel :
    (c : Channel) (g : Graph) (u v x : String)
    → count x (edge_of (delete_channel c g).inbound u v)
      ≡ count x (edge_of g.inbound u v)
        - (if str_eq c.destination u && str_eq c.source v && str_eq c.short_channel_id x
            then 1
            else 0)
unfolding delete_channel
count-delete_channel c g u v x =
    let edge = edge_of g.inbound c.destination c.source in
    elim (Option-cases (index_of c.short_channel_id edge)) [
      | inl e ↦
          rw (e, delete_channel)
            (ground (
              arith,
              count-index_of c.short_channel_id edge e,
              eq_iff c.destination u,
              eq_iff c.source v,
              eq_iff c.short_channel_id x,
            ))
      | inr (i, e) ↦
          rw (e, delete_channel)
            (rw (edge_of-set_edge g.inbound c.destination c.source (remove edge i) u v) (
              ground (
                arith,
                count-remove x i c.short_channel_id edge
                    (get_elem?-index_of c.short_channel_id edge i e),
                eq_iff c.destination u,
                eq_iff c.source v,
              )))
    ]
