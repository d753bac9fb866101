-- ===== src/Graph/Network/WellFormed.antt =====
-- The adjacency list and the map of channels tell the same story, whatever operations were made.
use Prim.Native.String.{◌++◌ as str_append, count as count_chars}
use text.Mathlib.TextLemmas.{length-append as count_chars-append, append_inj}
use circular.Prelude.{
  ℕ, ◌+◌, ◌≡◌, refl, sym, ap, ◌∙◌, String, none, some, List, [], ◌∷◌, ◌&&◌, Map, lookup, insert,
  delete, lookup-insert, lookup-delete, str_eq, eq_iff, if◌then◌else◌, arith, Option-cases, inl,
  inr, str_lt, All, Bool-cases,
}
use circular.Lightning.{LightningChannel}
use circular.Util.{get_direction}
use circular.Graph.Channel.{Channel, new_channel}
use circular.Graph.Network.{
  edge_of, Graph, new_graph, channel_id, id_of, add_channel, refresh_channel, refresh_channels,
  delete_channel,
}
use circular.Graph.Network.Routed.{IsRouted, add_channel-IsRouted, delete_channel-IsRouted}
use circular.Graph.Network.Edges.{count, count-append, edge_of-add_channel, count-delete_channel}

count-get_direction : (a b : String) → count_chars (get_direction a b) ≡ 1
unfolding get_direction
count-get_direction a b = elim (Bool-cases (str_lt a b)) [ inl e ↦ rw e | inr e ↦ rw e ]

count-suffix : (a b : String) → count_chars (str_append "/" (get_direction a b)) ≡ 2
count-suffix a b =
    omega (arith, count_chars-append "/" (get_direction a b), count-get_direction a b)

-- A channel id determines the short channel id.
channel_id_inj : (s t a b c d : String) → channel_id s a b ≡ channel_id t c d → s ≡ t
unfolding channel_id
channel_id_inj s t a b c d e =
    (append_inj e (
      omega (
        arith,
        ap count_chars e,
        count_chars-append s (str_append "/" (get_direction a b)),
        count_chars-append t (str_append "/" (get_direction c d)),
        count-suffix a b,
        count-suffix c d,
      ))).0

-- 1 if the map has a channel of this short channel id from one node to the other, 0 otherwise
abbrev pub listed : String → String → String → Map Channel → ℕ
listed scid from to m = elim (lookup (channel_id scid from to) m) [
  | none ↦ 0
  | some c ↦ if str_eq c.source from && str_eq c.destination to then 1 else 0
]

pub channels-delete_channel :
    (c : Channel) (g : Graph) → (delete_channel c g).channels ≡ delete (id_of c) g.channels
unfolding delete_channel
channels-delete_channel c g = ground arith

delete_channel-channels :
    (c : Channel) (g : Graph) (k : String) (d : Channel)
    → lookup k (delete_channel c g).channels ≡ some d
    → lookup k g.channels ≡ some d
delete_channel-channels c g k d e =
    ground (arith, rw (channels-delete_channel c g, lookup-delete (id_of c) k g.channels) at e)

-- `ends` says between which nodes the channel of an id runs: gossip never moves a channel.
module _ (ends : String → String × String) where
  abbrev pub Follows : LightningChannel → Type 0
  Follows c =
      ends (channel_id c.short_channel_id c.source c.destination) ≡ (c.source, c.destination)

  -- Each channel stands under its id; the adjacency list has each channel of the map once, and no other;
  -- and it has each between its own nodes.
  pub record IsWellFormed (g : Graph) : Type 0 where
    pub keyed : (k : String) (c : Channel) → lookup k g.channels ≡ some c → k ≡ id_of c
    pub placed :
        (k : String) (c : Channel)
        → lookup k g.channels ≡ some c
        → ends k ≡ (c.source, c.destination)
    pub synced :
        (scid from to : String)
        → count scid (edge_of g.inbound to from) ≡ listed scid from to g.channels
    pub routed : IsRouted ends g.inbound

  pub IsWellFormed-new_graph : IsWellFormed new_graph
  unfolding lookup
  IsWellFormed-new_graph = record {
    keyed = λ k c e. cc;
    placed = λ k c e. cc;
    synced = λ scid from to. refl;
    routed = tt;
  }

  -- what the map holds once `c` is inserted under its id
  module _ (g : Graph) (w : IsWellFormed g) (c : Channel) (f : Follows c.gossip) where
    insert-keyed :
        (k : String) (d : Channel)
        → lookup k (insert (id_of c) c g.channels) ≡ some d
        → (k ≡ id_of d) × (ends k ≡ (d.source, d.destination))
    insert-keyed k d e = ground (
      arith,
      rw (lookup-insert (id_of c) k c g.channels) at e,
      eq_iff (id_of c) k,
      w.keyed k d,
      w.placed k d,
    )

    -- a channel that was there runs between the same nodes
    listed-insert_old :
        (old : Channel)
        → lookup (id_of c) g.channels ≡ some old
        → (scid from to : String)
        → listed scid from to (insert (id_of c) c g.channels) ≡ listed scid from to g.channels
    listed-insert_old old e scid from to =
        rw (lookup-insert (id_of c) (channel_id scid from to) c g.channels, listed)
          (ground (arith, eq_iff (id_of c) (channel_id scid from to), w.placed (id_of c) old e, f))

    -- a new one is listed from now on
    listed-insert_new :
        lookup (id_of c) g.channels ≡ none
        → (scid from to : String)
        → listed scid from to (insert (id_of c) c g.channels)
          ≡ listed scid from to g.channels
            + (if str_eq c.destination to && str_eq c.source from && str_eq c.short_channel_id scid
                then 1
                else 0)
    listed-insert_new e scid from to =
        rw (lookup-insert (id_of c) (channel_id scid from to) c g.channels, listed)
          (ground (
            arith,
            eq_iff (id_of c) (channel_id scid from to),
            eq_iff c.destination to,
            eq_iff c.source from,
            eq_iff c.short_channel_id scid,
            channel_id_inj c.short_channel_id scid c.source c.destination from to,
          ))

  -- AddChannel and the insertion under the id, for a channel that the map does not have
  pub add-IsWellFormed :
      (g : Graph) (c : Channel) (max_htlc min_htlc : ℕ)
      → IsWellFormed g
      → Follows c.gossip
      → lookup (id_of c) g.channels ≡ none
      → IsWellFormed (record (add_channel c g).0 {
        channels =
            insert
              (id_of c)
              (record c { max_htlc_msat = max_htlc; min_htlc_msat = min_htlc })
              g.channels;
      })
  add-IsWellFormed g c max_htlc min_htlc w f n =
      let d : Channel = record c { max_htlc_msat = max_htlc; min_htlc_msat = min_htlc } in
      record {
        keyed = λ k d' e. (insert-keyed g w d f k d' e).0;
        placed = λ k d' e. (insert-keyed g w d f k d' e).1;
        synced = λ scid from to. rw (edge_of-add_channel c g to from) (
            ground (
              arith,
              w.synced scid from to,
              listed-insert_new g w d f n scid from to,
              count-append scid (edge_of g.inbound to from) (c.short_channel_id ∷ []),
            ));
        routed = add_channel-IsRouted ends c g w.routed f;
      }

  -- Gossip about a channel, new or known, keeps the two views of the graph in step.
  pub refresh_channel-IsWellFormed :
      (c : LightningChannel) (g : Graph)
      → IsWellFormed g
      → Follows c
      → IsWellFormed (refresh_channel c g)
  unfolding refresh_channel
  refresh_channel-IsWellFormed c g w f =
      elim (Option-cases
        (lookup (channel_id c.short_channel_id c.source c.destination) g.channels)) [
          | inl e ↦
              rw (e, refresh_channel)
                (unfold add_channel in add-IsWellFormed g (new_channel c _ 0) _ _ w f e)
          | inr (old, e) ↦
              let d = new_channel c old.liquidity old.timestamp in
              rw (e, refresh_channel)
                (record {
                  keyed = λ k d' q. (insert-keyed g w d f k d' q).0;
                  placed = λ k d' q. (insert-keyed g w d f k d' q).1;
                  synced = λ scid from to.
                      w.synced scid from to ∙ sym (listed-insert_old g w d f old e scid from to);
                  routed = w.routed;
                })
        ]

  -- A list of gossip, each entry for nodes that its channel id always has, keeps the graph
  -- well-formed: each channel stands under its id, and the adjacency list has each channel of the
  -- map once, under its own nodes, and no other.
  pub refresh_channels-IsWellFormed :
      (list : List LightningChannel) (g : Graph)
      → IsWellFormed g
      → All Follows list
      → IsWellFormed (refresh_channels list g)
  unfolding refresh_channels
  refresh_channels-IsWellFormed [] g w f = w
  refresh_channels-IsWellFormed (c ∷ list) g w f =
      refresh_channels-IsWellFormed list (refresh_channel c g)
        (refresh_channel-IsWellFormed c g w f.0) f.1

  -- The deletion of a channel of the map keeps the graph well-formed.
  pub delete_channel-IsWellFormed :
      (k : String) (c : Channel) (g : Graph)
      → IsWellFormed g
      → lookup k g.channels ≡ some c
      → IsWellFormed (delete_channel c g)
  delete_channel-IsWellFormed k c g w e =
      let e' = rw (w.keyed k c e) at e in
      record {
        keyed = λ k d q. w.keyed k d (delete_channel-channels c g k d q);
        placed = λ k d q. w.placed k d (delete_channel-channels c g k d q);
        synced = λ scid from to.
            rw
              (
                count-delete_channel c g to from scid,
                channels-delete_channel c g,
                listed,
                lookup-delete (id_of c) (channel_id scid from to) g.channels,
              )
              (ground (
                arith,
                w.synced scid from to,
                e',
                eq_iff (id_of c) (channel_id scid from to),
                eq_iff c.destination to,
                eq_iff c.source from,
                eq_iff c.short_channel_id scid,
                channel_id_inj c.short_channel_id scid c.source c.destination from to,
              ));
        routed = delete_channel-IsRouted ends c g w.routed;
      }
