-- ===== src/Node/Files/Loaded.antt =====
-- The graph that LoadGraphFromFile builds from the channels of the file.
use circular.Prelude.{
  ◌≡◌, ◌≢◌, refl, sym, subst, ap, ◌∙◌, String, none, [], ◌∷◌, Map, lookup, insert, lookup-insert,
  str_eq, eq_iff, Bool-cases, inl, inr, Entries,
}
use circular.Graph.Channel.{Channel}
use circular.Graph.Network.{Graph, new_graph, id_of, add_channel}
use circular.Graph.Network.WellFormed.{
  IsWellFormed, IsWellFormed-new_graph, Follows, add-IsWellFormed, listed,
}
use circular.Errors.{Error, Result, ok, err, no_graph_to_load, Result-cases, >>=-eq-ok}
use circular.Node.Files.{
  Files, add_channels, loaded, path_of, open_graph, or_new, load_graph_from_file,
  get_graph_from_file,
}

-- a map of Go has each key once
abbrev pub IsDistinct : Map Channel → Type 0
IsDistinct [] = Unit
IsDistinct ((k, c) ∷ m) = (lookup k m ≡ none) × IsDistinct m

-- the channels do not matter for the adjacency list
inbound-add_channels :
    (m : Map Channel) (g : Graph) (x y : Map Channel)
    → (add_channels m (record g { channels = x })).inbound
      ≡ (add_channels m (record g { channels = y })).inbound
unfolding add_channels add_channel
inbound-add_channels [] g x y = refl
inbound-add_channels ((k, c) ∷ m) g x y =
    inbound-add_channels m (add_channel c g).0 (insert k (add_channel c g).1 x)
      (insert k (add_channel c g).1 y)

-- each channel of the list is in the map at the end
lookup-add_channels :
    (m : Map Channel) (g : Graph) (x y : Map Channel) (j : String)
    → (lookup j m ≡ none → lookup j x ≡ lookup j y)
    → lookup j (add_channels m (record g { channels = x })).channels
      ≡ lookup j (add_channels m (record g { channels = y })).channels
unfolding add_channels add_channel lookup
lookup-add_channels [] g x y j h = h refl
lookup-add_channels ((k, c) ∷ m) g x y j h =
    let d = (add_channel c g).1 in
    lookup-add_channels m (add_channel c g).0 (insert k d x) (insert k d y) j (λ e.
      lookup-insert k j d x
      ∙ elim (Bool-cases (str_eq k j)) [ inl t ↦ rw t refl | inr t ↦ rw t (h (rw t e)) ]
      ∙ sym (lookup-insert k j d y))

head-found : (k : String) (c : Channel) (m : Map Channel) → lookup k ((k, c) ∷ m) ≢ none
unfolding lookup
head-found k c m q = absurd (cc (rw ((eq_iff k k).1 refl) at q))

ok_inj : {g h : Graph} → ok g ≡ ok h → g ≡ h
ok_inj {g} q = ap (λ (x : Result Graph). elim x [ ok y ↦ y | err e ↦ g ]) q

module _ (ends : String → String × String) where
  -- each channel stands under its id, between its own nodes
  abbrev pub ArePlaced : Map Channel → Type 0
  ArePlaced = Entries (λ k c. (k ≡ id_of c) × Follows ends c.gossip)

  IsWellFormed-same :
      (g h : Graph)
      → IsWellFormed ends g
      → h.inbound ≡ g.inbound
      → ((j : String) → lookup j h.channels ≡ lookup j g.channels)
      → IsWellFormed ends h
  IsWellFormed-same g h w e same = record {
    keyed = λ k c q. w.keyed k c (sym (same k) ∙ q);
    placed = λ k c q. w.placed k c (sym (same k) ∙ q);
    synced = λ scid from to. rw (e, same _, listed) (w.synced scid from to);
    routed = rw e w.routed;
  }

  add_channels-IsWellFormed :
      (m : Map Channel) (g : Graph)
      → IsWellFormed ends g
      → IsDistinct m
      → ArePlaced m
      → ((j : String) → lookup j m ≢ none → lookup j g.channels ≡ none)
      → IsWellFormed ends (add_channels m g)
  unfolding add_channels lookup
  add_channels-IsWellFormed [] g w d p fresh = w
  add_channels-IsWellFormed ((k, c) ∷ m) g w (n, d) ((e, f), p) fresh =
      let added = (add_channel c g).1 in
      let begun =
        subst
          (λ key.
            IsWellFormed ends
              (record (add_channel c g).0 { channels = insert key added g.channels }))
          (sym e)
          (add-IsWellFormed ends g c _ _ w f
            (subst (λ key. lookup key g.channels ≡ none) e (fresh k (head-found k c m)))) in
      add_channels-IsWellFormed m _ begun d p (λ j h.
        lookup-insert k j added g.channels ∙ elim (Bool-cases (str_eq k j)) [
          | inl t ↦ absurd (h (subst (λ i. lookup i m ≡ none) ((eq_iff k j).0 t) n))
          | inr t ↦ rw t (fresh j (λ q. h (rw t at q)))
        ])

  loaded-IsWellFormed :
      (m : Map Channel) → IsDistinct m → ArePlaced m → IsWellFormed ends (loaded m)
  unfolding lookup
  loaded-IsWellFormed m d p =
      IsWellFormed-same (add_channels m new_graph) (loaded m)
        (add_channels-IsWellFormed m new_graph (IsWellFormed-new_graph ends) d p (λ j h. refl))
        (inbound-add_channels m new_graph m [])
        (λ j. lookup-add_channels m new_graph m [] j (λ e. e))

  or_new-IsWellFormed : (e : Error) (g : Graph) → or_new e ≡ ok g → IsWellFormed ends g
  or_new-IsWellFormed no_graph_to_load g q =
      subst (IsWellFormed ends) (ok_inj q) (IsWellFormed-new_graph ends)
  or_new-IsWellFormed _ g q = absurd (cc q)

  -- what is opened under a name decodes to channels that stand once, under their ids and between their own
  -- nodes
  abbrev pub IsSound : {T L : Type 0} → Files T L → String → L → Type 0
  IsSound {T} files name l =
      (text : T) (m : Map Channel)
      → open_graph files name l ≡ ok text
      → files.decode text ≡ ok m
      → IsDistinct m × ArePlaced m

  -- The graph that the program begins with, of the file, of the old file or new, is well-formed, if
  -- what the file decodes to has each channel once, under its id and between its own nodes.
  pub get_graph_from_file-IsWellFormed :
      {T L : Type 0} (files : Files T L) (dir filename : String) (l : L) (g : Graph)
      → IsSound files (path_of dir filename) l
      → get_graph_from_file files dir filename l ≡ ok g
      → IsWellFormed ends g
  unfolding get_graph_from_file load_graph_from_file
  get_graph_from_file-IsWellFormed files dir filename l g sound q =
      elim (Result-cases (load_graph_from_file files dir filename l)) [
        | inl (e, f) ↦ or_new-IsWellFormed e g (rw (f, get_graph_from_file) at q)
        | inr (h, f) ↦
            let (text, opened, rest) = >>=-eq-ok (open_graph files (path_of dir filename) l) _ f in
            let (m, decoded, made) = >>=-eq-ok (files.decode text) _ rest in
            let (d, p) = sound text m opened decoded in
            subst (IsWellFormed ends) (ok_inj (made ∙ (rw (f, get_graph_from_file) at q)))
              (loaded-IsWellFormed m d p)
      ]
