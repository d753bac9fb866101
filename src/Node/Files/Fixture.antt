-- ===== src/Node/Files/Fixture.antt =====
-- Files that are an association list from their names to their channels.
use circular.Prelude.{
  ℕ, ◌≡◌, refl, sym, ap, subst, ◌∙◌, String, Bool, true, false, Option, none, some, [], Map, lookup,
  insert, delete, lookup-insert, lookup-delete, str_eq, eq_iff, Option-cases, inl, inr,
}
use circular.Errors.{Error, Result, ok, err, library}
use circular.Graph.Channel.{Channel}
use circular.Node.Files.{Files}
use circular.Node.Files.Renames.{restored, IsFiles}

abbrev pub Disk : Type 0
Disk = Map (Map Channel)

abbrev read_file : Option (Map Channel) → Result (Map Channel)
read_file none = err (library "no such file or directory")
read_file (some m) = ok m

abbrev is_there : Option (Map Channel) → Bool
is_there none = false
is_there (some m) = true

abbrev move : String → String → Disk → Option (Map Channel) → Result ℕ × Disk
move i j l none = (err (library "no such file or directory"), l)
move i j l (some m) = (ok 0, delete i (insert j m l))

abbrev pub disk : Files (Map Channel) Disk
disk = record {
  open_file = λ k l. read_file (lookup k l);
  decode = λ m. ok m;
  exists = λ k l. is_there (lookup k l);
  is_missing = λ dir l. false;
  mkdir = λ dir l. (ok 0, l);
  create = λ k l. (ok 0, insert k [] l);
  encode = λ k m l. (ok 0, insert k (restored m) l);
  rename = λ i j l. move i j l (lookup i l);
}

unmoved :
    (j k : String) (m : Map Channel) (l : Disk)
    → str_eq j k ≡ false
    → lookup k (insert j m l) ≡ lookup k l
unmoved j k m l e = lookup-insert j k m l ∙ rw e refl

put : (k : String) (m : Map Channel) (l : Disk) → lookup k (insert k m l) ≡ some m
put k m l = lookup-insert k k m l ∙ rw ((eq_iff k k).1 refl) refl

moved :
    (i j : String) (m : Map Channel) (l : Disk)
    → str_eq i j ≡ false
    → (read_file (lookup j (delete i (insert j m l))) ≡ ok m)
      × ((z : Error) × (read_file (lookup i (delete i (insert j m l))) ≡ err z))
moved i j m l e =
    let there : lookup j (delete i (insert j m l)) ≡ some m =
      lookup-delete i j (insert j m l) ∙ rw e (put j m l) in
    let gone : lookup i (delete i (insert j m l)) ≡ none =
      lookup-delete i i (insert j m l) ∙ rw ((eq_iff i i).1 refl) refl in
    (ap read_file there, (library "no such file or directory", ap read_file gone))

pub disk-IsFiles : IsFiles disk
disk-IsFiles = record {
  mkdir-open = λ dir k l. refl;
  create-open = λ j k l e. ap read_file (unmoved j k [] l e);
  encode-open = λ j k m l e. ap read_file (unmoved j k (restored m) l e);
  encode-decode = λ k m l n e. (restored m, (ap read_file (put k (restored m) l), refl));
  rename-failed = λ i j k l e q. elim (Option-cases (lookup i l)) [
    | inl f ↦ ap (λ (x : Option (Map Channel)). read_file (lookup k (move i j l x).1)) f
    | inr (m, f) ↦ absurd (cc (rw f at q))
  ];
  rename-moved = λ i j l n q e. elim (Option-cases (lookup i l)) [
    | inl f ↦ absurd (cc (rw f at q))
    | inr (m, f) ↦
        subst
          (λ x.
            (read_file (lookup j (move i j l x).1) ≡ read_file x)
            × ((z : Error) × (read_file (lookup i (move i j l x).1) ≡ err z)))
          (sym f) (moved i j m l e)
  ];
  rename-open = λ i j k l e e'. elim (Option-cases (lookup i l)) [
    | inl f ↦ ap (λ (x : Option (Map Channel)). read_file (lookup k (move i j l x).1)) f
    | inr (m, f) ↦
        ap (λ (x : Option (Map Channel)). read_file (lookup k (move i j l x).1)) f
        ∙ ap read_file (lookup-delete i k (insert j m l) ∙ rw e (unmoved j k m l e'))
  ];
  exists-open = λ k l e. elim (Option-cases (lookup k l)) [
    | inl f ↦ absurd (cc (rw f at e))
    | inr (m, f) ↦ (m, ap read_file f)
  ];
}
