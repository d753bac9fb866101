-- ===== src/Node/Files/Roundtrip.antt =====
-- SaveGraphToFile and then LoadGraphFromFile: the channels that come back.
use circular.Prelude.{
  ℕ, ◌≡◌, refl, subst, ap, ◌∙◌, String, Option, none, some, [], ◌∷◌, Map, lookup, insert,
  lookup-insert, str_eq, eq_iff, arith, Bool-cases, Option-cases, inl, inr, Entries,
}
use circular.Errors.{ok, Result-cases}
use circular.Graph.Htlc.{parse_msat}
use circular.Graph.Channel.{Channel}
use circular.Graph.Network.{Graph, new_graph, add_channel}
use circular.Node.Files.{
  Files, old_name, tmp_name, path_of, add_channels, loaded, open_graph, load_graph_from_file,
  make_dir, keep_old, serialize_to_file, save_graph_to_file,
}
use circular.Node.Files.Renames.{restored, IsFiles, longer, old-tmp, longer'}
use circular.Node.Files.Loaded.{IsDistinct}
use circular.Node.Files.Safe.{serialize_to_file-Written}

-- the limits of the channel are those that its gossip states
abbrev pub IsParsed : Channel → Type 0
IsParsed c =
    (c.max_htlc_msat ≡ parse_msat c.gossip.htlc_maximum)
    × (c.min_htlc_msat ≡ parse_msat c.gossip.htlc_minimum)

-- AddChannel reads the limits again that the file does not have
read_again :
    (c : Channel) (g : Graph)
    → IsParsed c
    → (add_channel (record c { max_htlc_msat = 0; min_htlc_msat = 0 }) g).1 ≡ c
unfolding add_channel
read_again c g (e, e') = ground (arith, e, e')

abbrev or_else : Option Channel → Option Channel → Option Channel
or_else (some c) other = some c
or_else none other = other

lookup-restored-none :
    (j : String) (m : Map Channel) → lookup j m ≡ none → lookup j (restored m) ≡ none
unfolding lookup
lookup-restored-none j [] e = refl
lookup-restored-none j ((k, c) ∷ m) e = ground (arith, e, lookup-restored-none j m)

-- the channel of a key that the rest of the file does not have
lookup-first :
    (k j : String) (c added : Channel) (m channels : Map Channel)
    → lookup k m ≡ none
    → added ≡ c
    → or_else (lookup j m) (lookup j (insert k added channels))
      ≡ or_else (lookup j ((k, c) ∷ m)) (lookup j channels)
unfolding lookup
lookup-first k j c added m channels n same = elim (Bool-cases (str_eq k j)) [
  | inl t ↦
      let none_later : lookup j m ≡ none = subst (λ i. lookup i m ≡ none) ((eq_iff k j).0 t) n in
      rw (lookup-insert k j added channels, t, none_later) (ap some same)
  | inr t ↦ rw (lookup-insert k j added channels, t) refl
]

lookup-add_channels :
    (m : Map Channel) (g : Graph) (j : String)
    → IsDistinct m
    → Entries (λ k c. IsParsed c) m
    → lookup j (add_channels (restored m) g).channels ≡ or_else (lookup j m) (lookup j g.channels)
unfolding add_channels add_channel lookup
lookup-add_channels [] g j d p = refl
lookup-add_channels ((k, c) ∷ m) g j (n, d) (p, ps) =
    let c' : Channel = record c { max_htlc_msat = 0; min_htlc_msat = 0 } in
    let added = add_channel c' g in
    let ih =
      lookup-add_channels m (record added.0 { channels = insert k added.1 added.0.channels }) j d
        ps in
    ih ∙ lookup-first k j c added.1 m g.channels n (read_again c g p)

-- What LoadGraphFromFile makes of the channels of the file: each is there again under its key, and no other.
lookup-loaded :
    (m : Map Channel) (j : String)
    → IsDistinct m
    → Entries (λ k c. IsParsed c) m
    → lookup j (loaded (restored m)).channels ≡ lookup j m
unfolding lookup
lookup-loaded m j d p =
    let begun : Graph = record new_graph { channels = restored m } in
    lookup-add_channels m begun j d p ∙ elim (Option-cases (lookup j m)) [
      | inl e ↦ rw e (lookup-restored-none j m e)
      | inr (c, e) ↦ rw e refl
    ]

module _ {T L : Type 0} (files : Files T L) (laws : IsFiles files) where
  -- the first Rename leaves the new file alone
  tmp-keep_old :
      (name : String) (l : L)
      → files.open_file (tmp_name name) (keep_old files name l) ≡ files.open_file (tmp_name name) l
  tmp-keep_old name l = elim (Bool-cases (files.exists name l)) [
    | inr f ↦ rw f refl
    | inl t ↦ rw t (
        laws.rename-open name (old_name name) (tmp_name name) l (longer' name ".tmp" refl)
          (old-tmp name))
  ]

  -- what a load reads after the files were saved with success
  saved-text :
      (dir filename : String) (g : Graph) (l : L) (n : ℕ)
      → (save_graph_to_file files dir filename g l).0 ≡ ok n
      → (text : T) × (files.open_file
            (path_of dir filename)
            (save_graph_to_file files dir filename g l).1
          ≡ ok text)
        × (files.decode text ≡ ok (restored g.channels))
  unfolding save_graph_to_file
  saved-text dir filename g l n e =
      let name = path_of dir filename in
      let made = make_dir files dir l in
      let written = serialize_to_file files name g made.1 in
      elim (Result-cases made.0) [
        | inl (z, q) ↦ absurd (cc (rw (q, save_graph_to_file) at e))
        | inr (n', q) ↦
            let e' = rw (q, save_graph_to_file) at e in
            elim (Result-cases written.0) [
              | inl (z, q') ↦ absurd (cc (rw (q', save_graph_to_file) at e'))
              | inr (n'', q') ↦
                  let moves = rw (q', save_graph_to_file) at e' in
                  let (_, new) = serialize_to_file-Written files laws name g made.1 in
                  let (text, (there, decoded)) = new n'' q' in
                  let k = keep_old files name written.1 in
                  let (moved, _) =
                    laws.rename-moved (tmp_name name) name k n moves (longer name ".tmp" refl) in
                  (
                    text,
                    rw (q, save_graph_to_file)
                        (rw (q', save_graph_to_file) (moved ∙ tmp-keep_old name written.1 ∙ there)),
                    decoded,
                  )
            ]
      ]

  opened :
      (name : String) (l : L) (text : T)
      → files.open_file name l ≡ ok text
      → open_graph files name l ≡ ok text
  unfolding open_graph
  opened name l text e = rw (e, open_graph) refl

  load_graph_from_file-ok :
      (dir filename : String) (l : L) (text : T) (m : Map Channel)
      → open_graph files (path_of dir filename) l ≡ ok text
      → files.decode text ≡ ok m
      → load_graph_from_file files dir filename l ≡ ok (loaded m)
  unfolding load_graph_from_file
  load_graph_from_file-ok dir filename l text m e q = rw (e, load_graph_from_file) (rw q refl)

  -- After a SaveGraphToFile that reports no error, LoadGraphFromFile succeeds and returns a graph
  -- that has the same channel under each id, its belief and its limits included, and no other; if
  -- the map of the graph has each id once, the limits of each channel are those that its gossip
  -- states, a write changes its own file alone, a rename moves one, a file that is there can be
  -- opened, and what was encoded decodes to the exported fields.
  pub load-save_graph_to_file :
      (dir filename : String) (g : Graph) (l : L) (n : ℕ)
      → IsDistinct g.channels
      → Entries (λ k c. IsParsed c) g.channels
      → (save_graph_to_file files dir filename g l).0 ≡ ok n
      → (h : Graph) × (load_graph_from_file files dir filename
            (save_graph_to_file files dir filename g l).1
          ≡ ok h)
        × ((j : String) → lookup j h.channels ≡ lookup j g.channels)
  load-save_graph_to_file dir filename g l n d p e =
      let (text, read, decoded) = saved-text dir filename g l n e in
      (
        loaded (restored g.channels),
        load_graph_from_file-ok dir filename _ text _ (opened _ _ text read) decoded,
        λ j. lookup-loaded g.channels j d p,
      )
