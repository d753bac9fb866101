-- ===== src/Graph/Network/Routed.antt =====
-- Every short channel id of the adjacency list belongs to a channel between the nodes that it stands for.
use circular.Prelude.{
  ℕ, zero, suc, ◌≡◌, String, [], ◌∷◌, Map, lookup, Entries, Entries-lookup, Entries-insert, All,
  All-append, set, get_last_or, drop_last, Option-cases, inl, inr,
}
use circular.Graph.Channel.{Channel}
use circular.Graph.Network.{
  Edge, neighbours, edge_of, allocate, allocate_outer, allocate_inner, set_edge, Graph, channel_id,
  id_of, add_channel, remove, index_of, delete_channel,
}

module _ (P : String → Type 0) where
  All-get_last_or : (l : Edge) (d : String) → P d → All P l → P (get_last_or l d)
  All-get_last_or [] d p a = p
  All-get_last_or (x ∷ l) d p a = All-get_last_or l x a.0 a.1

  All-drop_last : (l : Edge) → All P l → All P (drop_last l)
  All-drop_last [] a = tt
  All-drop_last (x ∷ []) a = tt
  All-drop_last (x ∷ y ∷ l) a = (a.0, All-drop_last (y ∷ l) a.1)

  All-set : (l : Edge) (i : ℕ) (x : String) → P x → All P l → All P (set l i x)
  All-set [] i x p a = tt
  All-set (y ∷ l) zero x p a = (p, a.1)
  All-set (y ∷ l) (suc i) x p a = (a.0, All-set l i x p a.1)

  All-remove : (l : Edge) (i : ℕ) → All P l → All P (remove l i)
  unfolding remove
  All-remove [] i a = tt
  All-remove (x ∷ l) i a =
      All-drop_last (set (x ∷ l) i (get_last_or l x))
        (All-set (x ∷ l) i _ (All-get_last_or l x a.0 a.1) a)

-- `ends` says between which nodes the channel of an id runs.
module _ (ends : String → String × String) where
  abbrev pub EdgeFollows : String → String → Edge → Type 0
  EdgeFollows to from = All (λ scid. ends (channel_id scid from to) ≡ (from, to))

  abbrev pub IsRouted : Map (Map Edge) → Type 0
  IsRouted = Entries (λ to. Entries (EdgeFollows to))

  pub neighbours-follow :
      (links : Map (Map Edge)) (u : String)
      → IsRouted links
      → Entries (EdgeFollows u) (neighbours links u)
  neighbours-follow links u r = elim (Option-cases (lookup u links)) [
    | inl e ↦ rw e tt
    | inr (m, e) ↦ rw e (Entries-lookup _ u m links r e)
  ]

  edge-follows :
      (links : Map (Map Edge)) (u v : String) → IsRouted links → EdgeFollows u v (edge_of links u v)
  edge-follows links u v r = elim (Option-cases (lookup v (neighbours links u))) [
    | inl e ↦ rw e tt
    | inr (m, e) ↦ rw e (Entries-lookup _ v m (neighbours links u) (neighbours-follow links u r) e)
  ]

  set_edge-IsRouted :
      (links : Map (Map Edge)) (u v : String) (e : Edge)
      → IsRouted links
      → EdgeFollows u v e
      → IsRouted (set_edge links u v e)
  unfolding set_edge
  set_edge-IsRouted links u v e r f =
      Entries-insert _ u _ links
        (Entries-insert _ v e (neighbours links u) f (neighbours-follow links u r)) r

  allocate_outer-IsRouted :
      (links : Map (Map Edge)) (u : String) → IsRouted links → IsRouted (allocate_outer links u)
  unfolding allocate_outer
  allocate_outer-IsRouted links u r = elim (Option-cases (lookup u links)) [
    | inl e ↦ rw (e, allocate_outer) (Entries-insert _ u [] links tt r)
    | inr (m, e) ↦ rw (e, allocate_outer) r
  ]

  allocate_inner-IsRouted :
      (links : Map (Map Edge)) (u v : String) → IsRouted links → IsRouted (allocate_inner links u v)
  unfolding allocate_inner
  allocate_inner-IsRouted links u v r = elim (Option-cases (lookup v (neighbours links u))) [
    | inl e ↦
        rw (e, allocate_inner)
          (Entries-insert _ u _ links
            (Entries-insert _ v [] (neighbours links u) tt (neighbours-follow links u r)) r)
    | inr (m, e) ↦ rw (e, allocate_inner) r
  ]

  pub add_channel-IsRouted :
      (c : Channel) (g : Graph)
      → IsRouted g.inbound
      → ends (id_of c) ≡ (c.source, c.destination)
      → IsRouted (add_channel c g).0.inbound
  unfolding add_channel
  add_channel-IsRouted c g r f =
      let outer = allocate_outer-IsRouted g.inbound c.destination r in
      let links =
        allocate_inner-IsRouted (allocate_outer g.inbound c.destination) c.destination c.source
          outer in
      set_edge-IsRouted (allocate g.inbound c.destination c.source) c.destination c.source _ links (
        All-append _ _ (c.short_channel_id ∷ []) (edge-follows _ c.destination c.source links)
          (f, tt))

  pub delete_channel-IsRouted :
      (c : Channel) (g : Graph) → IsRouted g.inbound → IsRouted (delete_channel c g).inbound
  unfolding delete_channel
  delete_channel-IsRouted c g r =
      let edge = edge_of g.inbound c.destination c.source in
      elim (Option-cases (index_of c.short_channel_id edge)) [
        | inl e ↦ rw (e, delete_channel) r
        | inr (i, e) ↦
            rw (e, delete_channel)
              (set_edge-IsRouted g.inbound c.destination c.source (remove edge i) r
                (All-remove _ edge i (edge-follows g.inbound c.destination c.source r)))
      ]
