-- ===== src/Node/Files/Safe.antt =====
-- SaveGraphToFile does not lose the graph: whichever of its calls fail, what LoadGraphFromFile then opens is what
-- it would have opened before, or the new graph.
use circular.Prelude.{
  ℕ, ◌≡◌, refl, sym, ap, ◌∙◌, String, false, Map, str_eq, if-cases, Bool-cases, ◌⊎◌, inl, inr,
}
use circular.Errors.{Result, ok, err, Result-cases, no_graph_to_load}
use circular.Graph.Channel.{Channel}
use circular.Graph.Network.{Graph}
use circular.Node.Files.{
  Files, old_name, tmp_name, path_of, open_graph, serialize_to_file, make_dir, keep_old,
  save_graph_to_file,
}
use circular.Node.Files.Renames.{restored, IsFiles, longer, longer', tmp-old, old-tmp}

module _ {T L : Type 0} (files : Files T L) (laws : IsFiles files) (name : String) where
  abbrev first : Result T → Result T → Result T
  first (ok text) other = ok text
  first (err e) (ok text) = ok text
  first (err e) (err e') = err no_graph_to_load

  open_graph-first :
      (l : L)
      → open_graph files name l ≡ first (files.open_file name l) (files.open_file (old_name name) l)
  unfolding open_graph
  open_graph-first l = elim (Result-cases (files.open_file name l)) [
    | inr (text, q) ↦ rw (q, open_graph) refl
    | inl (e, q) ↦ elim (Result-cases (files.open_file (old_name name) l)) [
      | inr (text, q') ↦ rw (q, open_graph) (rw (q', open_graph) refl)
      | inl (e', q') ↦ rw (q, open_graph) (rw (q', open_graph) refl)
    ]
  ]

  open_graph-eq :
      (l l' : L)
      → files.open_file name l' ≡ files.open_file name l
      → files.open_file (old_name name) l' ≡ files.open_file (old_name name) l
      → open_graph files name l' ≡ open_graph files name l
  unfolding open_graph
  open_graph-eq l l' e e' =
      open_graph-first l'
      ∙ ap (λ x. first x (files.open_file (old_name name) l')) e
      ∙ ap (first (files.open_file name l)) e'
      ∙ sym (open_graph-first l)

  open_graph-ok :
      (l : L) (text : T) → files.open_file name l ≡ ok text → open_graph files name l ≡ ok text
  unfolding open_graph
  open_graph-ok l text e = rw (e, open_graph) refl

  -- what is opened in `l'`, where it was `l` before
  abbrev pub IsKeptOrNew : Map Channel → L → L → Type 0
  IsKeptOrNew m l l' =
      (open_graph files name l' ≡ open_graph files name l)
      ⊎ ((text : T) × ((open_graph files name l' ≡ ok text)
            × (files.decode text ≡ ok (restored m))))

  module _ (m : Map Channel) (l : L) (text : T) (new : files.open_file (tmp_name name) l ≡ ok text)
      (decoded : files.decode text ≡ ok (restored m)) where
    -- the last Rename, after the first has put the files into `k`
    replaced :
        (k : L)
        → files.open_file (tmp_name name) k ≡ ok text
        → (open_graph files name k ≡ open_graph files name l)
        → IsKeptOrNew m l (files.rename (tmp_name name) name k).1
    replaced k there same = elim (Result-cases (files.rename (tmp_name name) name k).0) [
      | inl (e, q) ↦ inl (
          open_graph-eq k _ (laws.rename-failed (tmp_name name) name name k e q)
            (laws.rename-failed (tmp_name name) name (old_name name) k e q)
          ∙ same)
      | inr (n, q) ↦
          let (moved, _) = laws.rename-moved (tmp_name name) name k n q (longer name ".tmp" refl) in
          inr (text, (open_graph-ok _ text (moved ∙ there), decoded))
    ]

    -- the first Rename
    kept : IsKeptOrNew m l (files.rename (tmp_name name) name (keep_old files name l)).1
    unfolding open_graph
    kept = elim (Bool-cases (files.exists name l)) [
      | inr f ↦ rw f (replaced l new refl)
      | inl t ↦
          let k = (files.rename name (old_name name) l).1 in
          let there =
            laws.rename-open name (old_name name) (tmp_name name) l (longer' name ".tmp" refl)
              (old-tmp name)
            ∙ new in
          let (before, b) = laws.exists-open name l t in
          rw t (
            replaced k there (elim (Result-cases (files.rename name (old_name name) l).0) [
              | inl (e, q) ↦
                  open_graph-eq l k (laws.rename-failed name (old_name name) name l e q)
                    (laws.rename-failed name (old_name name) (old_name name) l e q)
              | inr (n, q) ↦
                  let (moved, (e, gone)) =
                    laws.rename-moved name (old_name name) l n q (longer' name ".old" refl) in
                  rw (gone, moved ∙ b, b, open_graph) refl
            ]))
    ]

  -- the opened files of `l'` are those of `l`
  abbrev pub Same : L → L → Type 0
  Same l l' =
      (files.open_file name l' ≡ files.open_file name l)
      × (files.open_file (old_name name) l' ≡ files.open_file (old_name name) l)

  make_dir-Same : (dir : String) (l : L) → Same l (make_dir files dir l).1
  make_dir-Same dir l =
      if-cases (λ (x : Result ℕ × L). Same l x.1) (files.is_missing dir l) (files.mkdir dir l)
        (ok 0, l) (λ t. (laws.mkdir-open dir name l, laws.mkdir-open dir (old_name name) l))
        (λ t. (refl, refl))

  abbrev pub New : Map Channel → L → Type 0
  New m k =
      (text : T) × ((files.open_file (tmp_name name) k ≡ ok text)
        × (files.decode text ≡ ok (restored m)))

  abbrev pub Written : Map Channel → L → Result ℕ × L → Type 0
  Written m l p = Same l p.1 × ((n : ℕ) → p.0 ≡ ok n → New m p.1)

  pub serialize_to_file-Written :
      (g : Graph) (l : L) → Written g.channels l (serialize_to_file files name g l)
  unfolding serialize_to_file
  serialize_to_file-Written g l =
      let tmp = tmp_name name in
      let k = (files.create tmp l).1 in
      let near = λ (j : String) (e : str_eq tmp j ≡ false). laws.create-open tmp j l e in
      let far = λ (j : String) (e : str_eq tmp j ≡ false).
        laws.encode-open tmp j g.channels k e ∙ near j e in
      let shown = longer name ".tmp" refl in
      elim (Result-cases (files.create tmp l).0) [
        | inl (e, q) ↦
            rw (q, serialize_to_file)
              ((near name shown, near (old_name name) (tmp-old name)), λ n q'. absurd (cc q'))
        | inr (n, q) ↦
            rw (q, serialize_to_file)
              (
                (far name shown, far (old_name name) (tmp-old name)),
                λ n' q'. laws.encode-decode tmp g.channels k n' q',
              )
      ]

  kept_if_unchanged : (m : Map Channel) (l k : L) → Same l k → IsKeptOrNew m l k
  kept_if_unchanged m l k (e, e') = inl (open_graph-eq l k e e')

  kept_after : (m : Map Channel) (l k j : L) → Same l k → IsKeptOrNew m k j → IsKeptOrNew m l j
  kept_after m l k j (e, e') (inl q) = inl (q ∙ open_graph-eq l k e e')
  kept_after m l k j (e, e') (inr new) = inr new

-- Whichever calls of SaveGraphToFile fail, what LoadGraphFromFile opens afterwards is what it would
-- have opened before, or a text that decodes to the channels of the graph that was saved, if a
-- write changes its own file alone, a rename moves one, and a file that is there can be opened.
pub save_graph_to_file-IsKeptOrNew :
    {T L : Type 0} (files : Files T L) (laws : IsFiles files) (dir filename : String) (g : Graph)
    (l : L)
    → IsKeptOrNew files laws
        (path_of dir filename)
        g.channels
        l
        (save_graph_to_file files dir filename g l).1
unfolding save_graph_to_file
save_graph_to_file-IsKeptOrNew files laws dir filename g l =
    let name = path_of dir filename in
    let made = make_dir files dir l in
    let first_same = make_dir-Same files laws name dir l in
    let written = serialize_to_file files name g made.1 in
    let (second_same, new) = serialize_to_file-Written files laws name g made.1 in
    elim (Result-cases made.0) [
      | inl (e, q) ↦
          rw (q, save_graph_to_file)
            (kept_if_unchanged files laws name g.channels l made.1 first_same)
      | inr (n, q) ↦ elim (Result-cases written.0) [
        | inl (e, q') ↦
            rw (q, save_graph_to_file)
              (rw (q', save_graph_to_file)
                (kept_after files laws name g.channels l made.1 written.1 first_same
                  (kept_if_unchanged files laws name g.channels made.1 written.1 second_same)))
        | inr (n', q') ↦
            let (text, (there, decoded)) = new n' q' in
            rw (q, save_graph_to_file)
              (rw (q', save_graph_to_file)
                (kept_after files laws name g.channels l made.1 _ first_same (
                  kept_after files laws name g.channels made.1 written.1 _ second_same
                    (kept files laws name g.channels written.1 text there decoded))))
      ]
    ]
