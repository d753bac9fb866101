-- ===== src/Node/PeerLaws.antt =====
-- What the functions on the peers find and change.
use mathlib.Core.Option
use circular.Prelude.{
  ℕ, ◌+◌, ◌*◌, ◌<◌, ◌≤◌, ◌≡◌, ◌≢◌, refl, subst, ap, String, Bool, true, false, none, some, List, [],
  ◌∷◌, inl, inr, add64, sub64, mul64, add64_lem, sub64_lem, mul64_lem, u64_mod, Map, lookup, insert,
  lookup-insert, str_eq, eq_iff, ltb, ltb→lt, ltb→ge, if◌then◌else◌, All, arith, Option-cases,
  if-cases,
}
use circular.Errors.{ok, err}
use circular.Lightning.{PeerChannel, Peer}
use circular.Node.Peers.{
  best_of, set_connected, find_channel, best_channel, get_best_peer_channel, change_balance,
  change_peer, update_channel_balance, on_connect, on_disconnect,
}

All-le :
    (metric : PeerChannel → ℕ) (a b : ℕ) (channels : List PeerChannel)
    → a ≤ b
    → All (λ c. metric c ≤ a) channels
    → All (λ c. metric c ≤ b) channels
All-le metric a b [] h l = tt
All-le metric a b (c ∷ channels) h l = (omega (arith, l.0), All-le metric a b channels h l.1)

best_channel-ge :
    (metric : PeerChannel → ℕ) (best : PeerChannel) (channels : List PeerChannel)
    → (metric best ≤ metric (best_channel metric best channels))
      × All (λ c. metric c ≤ metric (best_channel metric best channels)) channels
unfolding best_channel
best_channel-ge metric best [] = (omega arith, tt)
best_channel-ge metric best (c ∷ channels) =
    if-cases
      (λ next.
        (metric best ≤ metric (best_channel metric next channels))
        × ((metric c ≤ metric (best_channel metric next channels))
            × All (λ d. metric d ≤ metric (best_channel metric next channels)) channels))
      (ltb (metric best) (metric c)) c best
      (λ t.
        let (l, rest) = best_channel-ge metric c channels in
        (omega (arith, l, ltb→lt _ _ t), (l, rest)))
      (λ t.
        let (l, rest) = best_channel-ge metric best channels in
        (l, (omega (arith, l, ltb→ge _ _ t), rest)))

best_of-ge :
    (metric : PeerChannel → ℕ) (channels : List PeerChannel) (best : PeerChannel)
    → best_of metric channels ≡ ok best
    → All (λ c. metric c ≤ metric best) channels
unfolding best_of
best_of-ge metric [] best q = absurd (cc q)
best_of-ge metric (c ∷ channels) best q =
    let same : best_channel metric c (c ∷ channels) ≡ best =
      ap (λ r. elim r [ ok b ↦ b | err e ↦ best ]) q in
    subst (λ b. All (λ d. metric d ≤ metric b) (c ∷ channels)) same
      (best_channel-ge metric c (c ∷ channels)).1

-- The channel that GetBestPeerChannel returns for a peer of the map measures at least as much as
-- each channel of the peer.
pub get_best_peer_channel-ge :
    (peers : Map Peer) (id : String) (metric : PeerChannel → ℕ) (peer : Peer) (best : PeerChannel)
    → lookup id peers ≡ some peer
    → get_best_peer_channel peers id metric ≡ ok best
    → All (λ c. metric c ≤ metric best) peer.channels
unfolding get_best_peer_channel
get_best_peer_channel-ge peers id metric peer best e q =
    best_of-ge metric peer.channels best (rw (e, get_best_peer_channel) at q)

-- the balances of the channels of an id, and of all the others
abbrev pub balance_of : String → List PeerChannel → ℕ
balance_of scid [] = 0
balance_of scid (c ∷ channels) =
    if str_eq c.short_channel_id scid then c.milli_satoshi_to_us else balance_of scid channels

balance_of-change :
    (scid asked : String) (f : ℕ → ℕ) (channels : List PeerChannel)
    → find_channel scid channels ≢ none
    → balance_of asked (change_balance scid f channels)
      ≡ (if str_eq scid asked then f (balance_of asked channels) else balance_of asked channels)
unfolding change_balance find_channel
balance_of-change scid asked f [] n = absurd (n refl)
balance_of-change scid asked f (c ∷ channels) n = ground (
  arith,
  eq_iff scid asked,
  eq_iff c.short_channel_id scid,
  eq_iff c.short_channel_id asked,
  balance_of-change scid asked f channels,
)

lookup-set_connected :
    (b : Bool) (id asked : String) (peers : Map Peer)
    → lookup asked (set_connected b id peers) ≡ (
        if str_eq id asked
        then Option.map (λ (p : Peer). record p { connected = b }) (lookup asked peers)
        else lookup asked peers)
lookup-set_connected b id asked peers = elim (Option-cases (lookup id peers)) [
  | inl e ↦ ground (arith, e, eq_iff id asked)
  | inr (p, e) ↦
      ground (arith, e, eq_iff id asked, lookup-insert id asked (record p { connected = b }) peers)
]

-- A peer of the map that connects or disconnects is marked so, and no other peer changes.
pub lookup-on_connect :
    (id asked : String) (peers : Map Peer)
    → (lookup asked (on_connect id peers) ≡ (
        if str_eq id asked
        then Option.map (λ (p : Peer). record p { connected = true }) (lookup asked peers)
        else lookup asked peers))
      × (lookup asked (on_disconnect id peers) ≡ (
          if str_eq id asked
          then Option.map (λ (p : Peer). record p { connected = false }) (lookup asked peers)
          else lookup asked peers))
unfolding on_connect on_disconnect
lookup-on_connect id asked peers =
    (lookup-set_connected true id asked peers, lookup-set_connected false id asked peers)

-- For two different peers of the map, each with a channel of its id, a payment that the outgoing
-- channel can pay and that the balance of the incoming channel has room for moves exactly its
-- amount from one balance to the other.
pub update_channel_balance-moves :
    (peers : Map Peer) (out_peer in_peer out_scid in_scid : String) (amount : ℕ) (p q : Peer)
    → out_peer ≢ in_peer
    → lookup out_peer peers ≡ some p
    → lookup in_peer peers ≡ some q
    → find_channel out_scid p.channels ≢ none
    → find_channel in_scid q.channels ≢ none
    → amount * 1000 ≤ balance_of out_scid p.channels
    → balance_of out_scid p.channels < u64_mod
    → balance_of in_scid q.channels + amount * 1000 < u64_mod
    → (peers' : Map Peer) × (p' q' : Peer) × (update_channel_balance peers out_peer in_peer out_scid
          in_scid amount
        ≡ ok peers')
      × (lookup out_peer peers' ≡ some p')
      × (lookup in_peer peers' ≡ some q')
      × (balance_of out_scid p'.channels + amount * 1000 ≡ balance_of out_scid p.channels)
      × (balance_of in_scid q'.channels ≡ balance_of in_scid q.channels + amount * 1000)
unfolding update_channel_balance change_peer
update_channel_balance-moves peers out_peer in_peer out_scid in_scid amount p q n e₁ e₂ f₁ f₂ b c
      d =
    let pays = λ (x : ℕ). sub64 x (mul64 amount 1000) in
    let gets = λ (x : ℕ). add64 x (mul64 amount 1000) in
    let p' : Peer = record p { channels = change_balance out_scid pays p.channels } in
    let q' : Peer = record q { channels = change_balance in_scid gets q.channels } in
    let paid : Map Peer = insert out_peer p' peers in
    let still : lookup in_peer paid ≡ some q = ground (
      arith,
      lookup-insert out_peer in_peer p' peers,
      eq_iff out_peer in_peer,
      λ (e : out_peer ≡ in_peer). n e,
      e₂,
    ) in
    let word : mul64 amount 1000 ≡ amount * 1000 = mul64_lem amount 1000 (omega arith) in
    let less = balance_of-change out_scid out_scid pays p.channels f₁ in
    let more = balance_of-change in_scid in_scid gets q.channels f₂ in
    (
      insert in_peer q' paid,
      p',
      q',
      rw (e₁, change_peer) (rw (still, change_peer)),
      ground (
        arith,
        lookup-insert in_peer out_peer q' paid,
        lookup-insert out_peer out_peer p' peers,
        eq_iff in_peer out_peer,
        eq_iff out_peer out_peer,
        λ (e : out_peer ≡ in_peer). n e,
      ),
      ground (arith, lookup-insert in_peer in_peer q' paid, eq_iff in_peer in_peer),
      ground (
        arith,
        less,
        eq_iff out_scid out_scid,
        word,
        sub64_lem (balance_of out_scid p.channels) (amount * 1000),
      ),
      ground (
        arith,
        more,
        eq_iff in_scid in_scid,
        word,
        add64_lem (balance_of in_scid q.channels) (amount * 1000),
      ),
    )
