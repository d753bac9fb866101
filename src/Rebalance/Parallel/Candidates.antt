-- ===== src/Rebalance/Parallel/Candidates.antt =====
-- candidates.go of rebalance/parallel: the channels that a call may use.
use circular.Prelude.{
  ◌≡◌, ◌≢◌, ◌⊎◌, ◌∙◌, subst, ap, List-cases, String, Bool, true, false, Option, none, some, List,
  [], ◌∷◌, ◌++◌, Map, lookup, str_eq, if◌then◌else◌, All, All-append, Bool-cases, inl, inr,
}
use circular.Errors.{Result, ok, err, ◌>>=◌, >>=-eq-ok, no_candidates, Result-cases}
use circular.Lightning.{PeerChannel, Peer}
use circular.Util.{get_map_values}
use circular.Graph.Channel.{Channel}
use circular.Graph.Network.{Graph}
use circular.Node.Peers.{get_graph_channel_from_peer_channel}

-- GetCandidatesList, with a list and without: a peer of the list that the node lacks is skipped
unfoldable pub listed_peers : Map Peer → List String → List Peer
listed_peers peers [] = []
listed_peers peers (id ∷ ids) = elim (lookup id peers) [
  | none ↦ listed_peers peers ids
  | some p ↦ p ∷ listed_peers peers ids
]

unfoldable pub get_candidates_list : Map Peer → Option (List String) → List Peer
unfolding listed_peers
get_candidates_list peers none = get_map_values peers
get_candidates_list peers (some ids) = listed_peers peers ids

module _ (g : Graph) (is_good : PeerChannel → Result Bool) (direction : String → String) where
  -- the inner loop of FindCandidates: a channel that the graph lacks is skipped
  unfoldable pub channel_candidates : String → List PeerChannel → Result (List Channel)
  channel_candidates id [] = ok []
  channel_candidates id (channel ∷ channels) = do
    good ← is_good channel
    rest ← channel_candidates id channels
    ok (
        if good
        then elim (get_graph_channel_from_peer_channel g channel (direction id)) [
          | err e ↦ rest
          | ok candidate ↦ candidate ∷ rest
        ]
        else rest)

  unfoldable pub peer_candidates : String → List Peer → Result (List Channel)
  unfolding channel_candidates
  peer_candidates exclude [] = ok []
  peer_candidates exclude (p ∷ peers) = do
    found ← (if str_eq p.id exclude then ok [] else channel_candidates p.id p.channels)
    rest ← peer_candidates exclude peers
    ok (found ++ rest)

  unfoldable pub find_candidates : String → List Peer → Result (List Channel)
  unfolding peer_candidates
  find_candidates exclude peers = do
    candidates ← peer_candidates exclude peers
    elim candidates [ [] ↦ err no_candidates | c ∷ rest ↦ ok (c ∷ rest) ]

  -- a channel of the list that the rules call good, and that stands for `c` in the graph
  abbrev pub IsChannelOf : String → List PeerChannel → Channel → Type 0
  IsChannelOf id [] c = ⊥
  IsChannelOf id (channel ∷ channels) c =
      ((is_good channel ≡ ok true)
        × (get_graph_channel_from_peer_channel g channel (direction id) ≡ ok c))
      ⊎ IsChannelOf id channels c

  -- such a channel of a peer of the list that is not excluded
  abbrev pub IsCandidate : String → List Peer → Channel → Type 0
  IsCandidate exclude [] c = ⊥
  IsCandidate exclude (p ∷ peers) c =
      ((str_eq p.id exclude ≡ false) × IsChannelOf p.id p.channels c) ⊎ IsCandidate exclude peers c

  All-map :
      {A : Type 0} (P Q : A → Type 0) → ((x : A) → P x → Q x) → (l : List A) → All P l → All Q l
  All-map P Q f [] a = tt
  All-map P Q f (x ∷ l) a = (f x a.0, All-map P Q f l a.1)

  channel_candidates-IsChannelOf :
      (id : String) (channels : List PeerChannel) (found : List Channel)
      → channel_candidates id channels ≡ ok found
      → All (IsChannelOf id channels) found
  unfolding channel_candidates
  channel_candidates-IsChannelOf id [] found e =
      subst (All (IsChannelOf id []))
        (ap (λ (x : Result (List Channel)). elim x [ ok l ↦ l | err z ↦ [] ]) e) tt
  channel_candidates-IsChannelOf id (channel ∷ channels) found e =
      let (good, q, e₁) = >>=-eq-ok (is_good channel) _ e in
      let (rest, q', e₂) = >>=-eq-ok (channel_candidates id channels) _ e₁ in
      let later : All (IsChannelOf id (channel ∷ channels)) rest =
        All-map (IsChannelOf id channels) (IsChannelOf id (channel ∷ channels)) (λ c m. inr m) rest
          (channel_candidates-IsChannelOf id channels rest q') in
      subst (All (IsChannelOf id (channel ∷ channels)))
        (ap (λ (x : Result (List Channel)). elim x [ ok l ↦ l | err z ↦ [] ]) e₂)
        (elim (Bool-cases good) [
          | inr f ↦ rw f later
          | inl t ↦
              elim (Result-cases (get_graph_channel_from_peer_channel g channel (direction id))) [
                | inl (z, f) ↦ rw (t, f) later
                | inr (c, f) ↦ rw (t, f) (inl (q ∙ ap ok t, f), later)
              ]
        ])

  peer_candidates-IsCandidate :
      (exclude : String) (peers : List Peer) (found : List Channel)
      → peer_candidates exclude peers ≡ ok found
      → All (IsCandidate exclude peers) found
  unfolding peer_candidates
  peer_candidates-IsCandidate exclude [] found e =
      subst (All (IsCandidate exclude []))
        (ap (λ (x : Result (List Channel)). elim x [ ok l ↦ l | err z ↦ [] ]) e) tt
  peer_candidates-IsCandidate exclude (p ∷ peers) found e =
      let (own, q, e₁) =
        >>=-eq-ok (if str_eq p.id exclude then ok [] else channel_candidates p.id p.channels) _ e in
      let (rest, q', e₂) = >>=-eq-ok (peer_candidates exclude peers) _ e₁ in
      let later : All (IsCandidate exclude (p ∷ peers)) rest =
        All-map (IsCandidate exclude peers) (IsCandidate exclude (p ∷ peers)) (λ c m. inr m) rest
          (peer_candidates-IsCandidate exclude peers rest q') in
      let mine : All (IsCandidate exclude (p ∷ peers)) own =
        elim (Bool-cases (str_eq p.id exclude)) [
          | inl t ↦
              subst (All (IsCandidate exclude (p ∷ peers)))
                (ap (λ (x : Result (List Channel)). elim x [ ok l ↦ l | err z ↦ [] ]) (rw t at q))
                tt
          | inr t ↦
              All-map (IsChannelOf p.id p.channels) (IsCandidate exclude (p ∷ peers))
                (λ c m. inl (t, m)) own
                (channel_candidates-IsChannelOf p.id p.channels own (rw t at q))
        ] in
      subst (All (IsCandidate exclude (p ∷ peers)))
        (ap (λ (x : Result (List Channel)). elim x [ ok l ↦ l | err z ↦ [] ]) e₂)
        (All-append _ own rest mine later)

  -- Where FindCandidates returns channels, it returns at least one, and each stands for a channel
  -- that the rules call good, of a peer that is not excluded.
  pub find_candidates-IsCandidate :
      (exclude : String) (peers : List Peer) (found : List Channel)
      → find_candidates exclude peers ≡ ok found
      → (found ≢ []) × All (IsCandidate exclude peers) found
  unfolding find_candidates
  find_candidates-IsCandidate exclude peers found e =
      let (candidates, q, e₁) = >>=-eq-ok (peer_candidates exclude peers) _ e in
      let all = peer_candidates-IsCandidate exclude peers candidates q in
      elim (List-cases candidates) [
        | inl n ↦ absurd (cc (rw n at e₁))
        | inr (c, rest, n) ↦
            let same : c ∷ rest ≡ found =
              ap (λ (x : Result (List Channel)). elim x [ ok l ↦ l | err z ↦ [] ]) (rw n at e₁) in
            (
              λ none_found. absurd (cc (same ∙ none_found)),
              subst (All (IsCandidate exclude peers)) (n ∙ same) all,
            )
      ]
