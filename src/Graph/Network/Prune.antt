-- ===== src/Graph/Network/Prune.antt =====
-- PruneChannels removes the channels that gossip has not updated for 14 days, and nothing else.
use circular.Prelude.{
  ℕ, ◌≡◌, refl, ap, String, Bool, false, ◌||◌, Option, none, some, [], ◌∷◌, Map, lookup,
  lookup-delete, str_eq, eq_iff, if◌then◌else◌, arith, Option-cases, Bool-cases, inl, inr,
}
use circular.Graph.Channel.{Channel}
use circular.Graph.Network.{Graph, id_of, delete_channel, is_stale, prune_loop, prune_channels}
use circular.Graph.Network.WellFormed.{
  IsWellFormed, channels-delete_channel, delete_channel-IsWellFormed,
}

-- what pruning leaves of an entry
abbrev pub unless_stale : ℕ → Option Channel → Option Channel
unless_stale now none = none
unless_stale now (some c) = if is_stale now c then none else some c

-- one round of the loop, for the entry of one key
abbrev round : ℕ → String → Graph → Graph
round now k g = elim (lookup k g.channels) [
  | none ↦ g
  | some c ↦ if is_stale now c then delete_channel c g else g
]

abbrev has_key : String → Map Channel → Bool
has_key k [] = false
has_key k ((j, c) ∷ m) = str_eq j k || has_key k m

lookup-has_key : (k : String) (m : Map Channel) → has_key k m ≡ false → lookup k m ≡ none
unfolding lookup
lookup-has_key k [] h = refl
lookup-has_key k ((j, c) ∷ m) h = ground (arith, lookup-has_key k m)

module _ (ends : String → String × String) (now : ℕ) where
  round-IsWellFormed :
      (k : String) (g : Graph) → IsWellFormed ends g → IsWellFormed ends (round now k g)
  round-IsWellFormed k g w = elim (Option-cases (lookup k g.channels)) [
    | inl e ↦ rw (e, round) w
    | inr (c, e) ↦ elim (Bool-cases (is_stale now c)) [
      | inl s ↦ rw (e, round, s) (delete_channel-IsWellFormed ends k c g w e)
      | inr s ↦ rw (e, round, s) w
    ]
  ]

  lookup-round :
      (k j : String) (g : Graph)
      → IsWellFormed ends g
      → lookup j (round now k g).channels
        ≡ (if str_eq k j then unless_stale now (lookup j g.channels) else lookup j g.channels)
  lookup-round k j g w = elim (Option-cases (lookup k g.channels)) [
    | inl e ↦ ground (arith, e, eq_iff k j)
    | inr (c, e) ↦ ground (
      arith,
      e,
      eq_iff k j,
      w.keyed k c e,
      ap (lookup j) (channels-delete_channel c g),
      lookup-delete (id_of c) j g.channels,
    )
  ]

  loop-IsWellFormed :
      (entries : Map Channel) (g : Graph)
      → IsWellFormed ends g
      → IsWellFormed ends (prune_loop now entries g)
  unfolding prune_loop
  loop-IsWellFormed [] g w = w
  loop-IsWellFormed ((k, _) ∷ entries) g w =
      loop-IsWellFormed entries (round now k g) (round-IsWellFormed k g w)

  lookup-loop :
      (entries : Map Channel) (j : String) (g : Graph)
      → IsWellFormed ends g
      → lookup j (prune_loop now entries g).channels ≡ (
          if has_key j entries then unless_stale now (lookup j g.channels) else lookup j g.channels)
  unfolding prune_loop
  lookup-loop [] j g w = refl
  lookup-loop ((k, c) ∷ entries) j g w = ground (
    arith,
    lookup-loop entries j (round now k g) (round-IsWellFormed k g w),
    lookup-round k j g w,
    eq_iff k j,
  )

  -- On a well-formed graph pruning keeps each channel that is not stale, unchanged, and removes
  -- each that is.
  pub lookup-prune_channels :
      (j : String) (g : Graph)
      → IsWellFormed ends g
      → lookup j (prune_channels now g).channels ≡ unless_stale now (lookup j g.channels)
  unfolding prune_channels
  lookup-prune_channels j g w =
      ground (arith, lookup-loop g.channels j g w, lookup-has_key j g.channels)

  -- Pruning a well-formed graph gives a well-formed graph.
  pub prune_channels-IsWellFormed :
      (g : Graph) → IsWellFormed ends g → IsWellFormed ends (prune_channels now g)
  unfolding prune_channels
  prune_channels-IsWellFormed g w = loop-IsWellFormed g.channels g w
