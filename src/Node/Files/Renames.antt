-- ===== src/Node/Files/Renames.antt =====
-- What the file calls of node/file.go do to the files, and that the names of the three files differ.
use Prim.Native.String.{◌++◌ as str_append, count as count_chars}
use text.Mathlib.TextLemmas.{length-append as count_chars-append, append_inj}
use circular.Prelude.{
  ℕ, ◌≡◌, ◌≢◌, refl, sym, ap, String, true, false, [], ◌∷◌, Map, str_eq, eq_iff, ne→str_eq, arith,
}
use circular.Errors.{Error, ok, err}
use circular.Graph.Channel.{Channel}
use circular.Node.Files.{Files, old_name, tmp_name}

-- the fields of a channel that its JSON does not have are 0 when it is decoded
abbrev pub restored : Map Channel → Map Channel
restored [] = []
restored ((id, c) ∷ channels) =
    (id, record c { max_htlc_msat = 0; min_htlc_msat = 0 }) ∷ restored channels

-- what the calls do to the files: a write changes its own file alone, a rename moves one, and a file that is
-- there can be opened
pub record IsFiles {T L : Type 0} (files : Files T L) : Type 0 where
  pub mkdir-open :
      (dir k : String) (l : L) → files.open_file k (files.mkdir dir l).1 ≡ files.open_file k l
  pub create-open :
      (j k : String) (l : L)
      → str_eq j k ≡ false
      → files.open_file k (files.create j l).1 ≡ files.open_file k l
  pub encode-open :
      (j k : String) (m : Map Channel) (l : L)
      → str_eq j k ≡ false
      → files.open_file k (files.encode j m l).1 ≡ files.open_file k l
  pub encode-decode :
      (k : String) (m : Map Channel) (l : L) (n : ℕ)
      → (files.encode k m l).0 ≡ ok n
      → (text : T) × ((files.open_file k (files.encode k m l).1 ≡ ok text)
          × (files.decode text ≡ ok (restored m)))
  pub rename-failed :
      (i j k : String) (l : L) (e : Error)
      → (files.rename i j l).0 ≡ err e
      → files.open_file k (files.rename i j l).1 ≡ files.open_file k l
  pub rename-moved :
      (i j : String) (l : L) (n : ℕ)
      → (files.rename i j l).0 ≡ ok n
      → str_eq i j ≡ false
      → (files.open_file j (files.rename i j l).1 ≡ files.open_file i l)
        × ((e : Error) × (files.open_file i (files.rename i j l).1 ≡ err e))
  pub rename-open :
      (i j k : String) (l : L)
      → str_eq i k ≡ false
      → str_eq j k ≡ false
      → files.open_file k (files.rename i j l).1 ≡ files.open_file k l
  pub exists-open :
      (k : String) (l : L) → files.exists k l ≡ true → (text : T) × (files.open_file k l ≡ ok text)

-- the three names differ
pub longer :
    (name suffix : String) → count_chars suffix ≡ 4 → str_eq (str_append name suffix) name ≡ false
longer name suffix c =
    ne→str_eq _ _ (λ e. absurd (omega (arith, ap count_chars e, count_chars-append name suffix, c)))

pub longer' :
    (name suffix : String) → count_chars suffix ≡ 4 → str_eq name (str_append name suffix) ≡ false
longer' name suffix c =
    ne→str_eq _ _ (λ e. absurd (omega (arith, ap count_chars e, count_chars-append name suffix, c)))

abbrev old_suffix : String
old_suffix = ".old"

abbrev tmp_suffix : String
tmp_suffix = ".tmp"

suffixes-ne : tmp_suffix ≢ old_suffix
suffixes-ne e = absurd (ground (arith, eq_iff tmp_suffix old_suffix, e))

pub tmp-old : (name : String) → str_eq (tmp_name name) (old_name name) ≡ false
tmp-old name = ne→str_eq _ _ (λ e. suffixes-ne (append_inj {s₁ = name} {s₂ = name} e refl).1)

pub old-tmp : (name : String) → str_eq (old_name name) (tmp_name name) ≡ false
old-tmp name = ne→str_eq _ _ (λ e. suffixes-ne (sym (append_inj {s₁ = name} {s₂ = name} e refl).1))
