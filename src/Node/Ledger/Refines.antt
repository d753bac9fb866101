-- ===== src/Node/Ledger/Refines.antt =====
-- The node refines the ledger of its payments, if the writes of its database succeed.
use Prim.Native.String.{◌++◌ as str_append, count as count_chars}
use text.Mathlib.TextLemmas.{length-append as count_chars-append, append_inj}
use circular.Prelude.{
  ℕ, ◌+◌, ◌≡◌, ◌≢◌, refl, subst, ap, ◌∙◌, String, Bool, true, false, if◌then◌else◌, str_eq, eq_iff,
  ne→str_eq, Bool-cases, inl, inr, arith,
}
use circular.Errors.{Result, ok, err, key_not_found, Result-cases}
use circular.Node.Store.{Badger, IsTransactional, Json, Saved, save_to_db}
use circular.Node.State.{Node, Client}
use circular.Node.Payments.{timeout_key, manage_timeout}
use circular.Node.Ledger.{
  Phase, unknown, pending, timed_out, reused, begun, ended, Ledger, enter, IsHash, Entered, Tracks,
}

pub count-key :
    (prefix hash : String)
    → IsHash hash
    → count_chars (str_append prefix hash) ≡ count_chars prefix + 64
count-key prefix hash h = omega (arith, count_chars-append prefix hash)

pub keys-ne : (k j : String) → count_chars k ≢ count_chars j → str_eq k j ≡ false
keys-ne k j n = ne→str_eq k j (λ e. n (ap count_chars e))

timeout_key-eq : (a b : String) → str_eq (timeout_key a) (timeout_key b) ≡ str_eq a b
timeout_key-eq a b = ground (
  arith,
  eq_iff (timeout_key a) (timeout_key b),
  eq_iff a b,
  λ (e : a ≡ b). ap timeout_key e,
  λ (e : timeout_key a ≡ timeout_key b). (append_inj {s₁ = "timeout_"} {s₂ = "timeout_"} e refl).1,
)

-- the writes succeed
pub record IsReliable {D : Type 0} (b : Badger D) : Type 0 where
  pub sets : (k v : String) (d : D) → (n : ℕ) × ((b.set_entry k v d).0 ≡ ok n)
  pub removes : (k : String) (d : D) → (n : ℕ) × ((b.remove k d).0 ≡ ok n)

module _ {D L : Type 0} (b : Badger D) (json : Json) (client : Client L) (t : IsTransactional b)
    (r : IsReliable b) where
  read-set :
      (k j v : String) (d : D)
      → b.read j (b.set_entry k v d).1 ≡ (if str_eq k j then ok v else b.read j d)
  read-set k j v d = let (n, e) = r.sets k v d in t.read-set k j v d n e

  read-remove :
      (k j : String) (d : D)
      → b.read j (b.remove k d).1 ≡ (if str_eq k j then err key_not_found else b.read j d)
  read-remove k j d = let (n, e) = r.removes k d in t.read-remove k j d n e

  -- the entry of a timeout is as it was, and the other is new
  Entered-begun :
      (p : Phase) (preimage : String) (x y : Result String)
      → Entered p x y
      → Entered (begun preimage p) (ok preimage) y
  Entered-begun unknown preimage x y (a, c) = (refl, c)
  Entered-begun (pending _) preimage x y (a, c) = (refl, c)
  Entered-begun timed_out preimage x y (a, c) = (refl, c)
  Entered-begun (reused _) preimage x y (a, c) = (refl, c)

  -- the entry of a payment that is pending goes
  Entered-ended :
      (p : Phase) (preimage : String) (x y : Result String)
      → x ≡ ok preimage
      → Entered p x y
      → Entered (ended p) (err key_not_found) y
  Entered-ended unknown preimage x y e (a, c) = absurd (cc (e, a))
  Entered-ended (pending _) preimage x y e (a, c) = (refl, c)
  Entered-ended timed_out preimage x y e (a, c) = absurd (cc (e, a))
  Entered-ended (reused _) preimage x y e (a, c) = (refl, c)

  -- a database of which nothing is read otherwise at the entries of payments
  abbrev pub Same : D → D → Type 0
  Same d d' =
      (hash : String)
      → IsHash hash
      → (b.read hash d' ≡ b.read hash d)
        × (b.read (timeout_key hash) d' ≡ b.read (timeout_key hash) d)

  pub save-Same :
      (save_stats : Bool) (prefix hash : String) (value : Saved) (d : D)
      → count_chars prefix ≡ 2
      → IsHash hash
      → Same d (save_to_db b json save_stats (str_append prefix hash) value d).1
  unfolding save_to_db
  save-Same save_stats prefix hash value d c h j i =
      let key = str_append prefix hash in
      let a = keys-ne key j (λ e. absurd (omega (arith, count-key prefix hash h, e))) in
      let a' =
        keys-ne key (timeout_key j)
          (λ e. absurd (omega (arith, count-key prefix hash h, count-key "timeout_" j i, e))) in
      elim (Bool-cases save_stats) [
        | inr f ↦ rw f (refl, refl)
        | inl s ↦ elim (Result-cases (json.marshal value)) [
          | inl (e, q) ↦ rw (s, save_to_db) (rw (q, save_to_db) (refl, refl))
          | inr (text, q) ↦
              rw (s, save_to_db)
                (rw (q, save_to_db)
                  (read-set key j text d ∙ rw a, read-set key (timeout_key j) text d ∙ rw a'))
        ]
      ]

  pub Tracks-Same :
      (n : Node D L) (l : Ledger) (d : D)
      → Tracks b n l
      → Same n.db d
      → Tracks b (record n { db = d }) l
  Tracks-Same n l d k s = record {
    phases = λ hash h. let (e, e') = s hash h in rw (e, e') (k.phases hash h);
    updates = k.updates;
  }

  -- the entries of one payment change, and those of the others do not
  enter-Tracks :
      (hash : String) (p : Phase) (n : Node D L) (l : Ledger) (d : D)
      → Tracks b n l
      → Entered p (b.read hash d) (b.read (timeout_key hash) d)
      → ((j : String)
          → IsHash j
          → str_eq hash j ≡ false
          → (b.read j d ≡ b.read j n.db) × (b.read (timeout_key j) d ≡ b.read (timeout_key j) n.db))
      → Tracks b (record n { db = d }) (enter hash p l)
  enter-Tracks hash p n l d k own others = record {
    phases = λ j h. elim (Bool-cases (str_eq hash j)) [
      | inl e ↦
          rw e (
            subst (λ x. Entered p (b.read x d) (b.read (timeout_key x) d)) ((eq_iff hash j).0 e)
              own)
      | inr e ↦ let (q, q') = others j h e in rw (e, q, q') (k.phases j h)
    ];
    updates = k.updates;
  }

  module _ (hash : String) (h : IsHash hash) where
    -- an entry under a hash is not one under a timeout
    hash-timeout :
        (j : String)
        → IsHash j
        → (str_eq hash (timeout_key j) ≡ false) × (str_eq (timeout_key hash) j ≡ false)
    hash-timeout j i = (
      keys-ne hash (timeout_key j) (λ e. absurd (omega (arith, count-key "timeout_" j i, e))),
      keys-ne (timeout_key hash) j (λ e. absurd (omega (arith, count-key "timeout_" hash h, e))),
    )

    self : str_eq hash hash ≡ true
    self = (eq_iff hash hash).1 refl

    pub set_hash-Tracks :
        (preimage : String) (n : Node D L) (l : Ledger)
        → Tracks b n l
        → Tracks b
            (record n { db = (b.set_entry hash preimage n.db).1 })
            (enter hash (begun preimage (l.phase hash)) l)
    set_hash-Tracks preimage n l k =
        enter-Tracks hash (begun preimage (l.phase hash)) n l _ k
          (rw
            (
              read-set hash hash preimage n.db,
              self,
              read-set hash (timeout_key hash) preimage n.db,
              (hash-timeout hash h).0,
            )
            (Entered-begun (l.phase hash) preimage _ _ (k.phases hash h)))
          (λ j i e. (
            read-set hash j preimage n.db ∙ rw e,
            read-set hash (timeout_key j) preimage n.db ∙ rw ((hash-timeout j i).0),
          ))

    pub remove_hash-Tracks :
        (preimage : String) (n : Node D L) (l : Ledger)
        → Tracks b n l
        → b.read hash n.db ≡ ok preimage
        → Tracks b (record n { db = (b.remove hash n.db).1 }) (enter hash (ended (l.phase hash)) l)
    remove_hash-Tracks preimage n l k there =
        enter-Tracks hash (ended (l.phase hash)) n l _ k
          (rw
            (
              read-remove hash hash n.db,
              self,
              read-remove hash (timeout_key hash) n.db,
              (hash-timeout hash h).0,
            )
            (Entered-ended (l.phase hash) preimage _ _ there (k.phases hash h)))
          (λ j i e. (
            read-remove hash j n.db ∙ rw e,
            read-remove hash (timeout_key j) n.db ∙ rw ((hash-timeout j i).0),
          ))

    pub remove_timeout-Tracks :
        (n : Node D L) (l : Ledger)
        → Tracks b n l
        → b.read hash n.db ≡ err key_not_found
        → Tracks b (record n { db = (b.remove (timeout_key hash) n.db).1 }) (enter hash unknown l)
    remove_timeout-Tracks n l k none_there =
        enter-Tracks hash unknown n l _ k
          (
            read-remove (timeout_key hash) hash n.db ∙ rw ((hash-timeout hash h).1) none_there,
            read-remove (timeout_key hash) (timeout_key hash) n.db
                ∙ rw (timeout_key-eq hash hash, self),
          )
          (λ j i e. (
            read-remove (timeout_key hash) j n.db ∙ rw ((hash-timeout j i).1),
            read-remove (timeout_key hash) (timeout_key j) n.db ∙ rw (timeout_key-eq hash j, e),
          ))

    pub manage_timeout-Tracks :
        (n : Node D L) (l : Ledger)
        → Tracks b n l
        → Tracks b (manage_timeout b json client hash n).1 (enter hash timed_out l)
    unfolding manage_timeout
    manage_timeout-Tracks n l k =
        let d = (b.remove hash n.db).1 in
        enter-Tracks hash timed_out n l _ k
          (
            read-set (timeout_key hash) hash "timeout" d
                ∙ rw ((hash-timeout hash h).1) (read-remove hash hash n.db ∙ rw self),
            read-set (timeout_key hash) (timeout_key hash) "timeout" d
                ∙ rw (timeout_key-eq hash hash, self),
          )
          (λ j i e. (
            read-set (timeout_key hash) j "timeout" d
                ∙ rw ((hash-timeout j i).1) (read-remove hash j n.db ∙ rw e),
            read-set (timeout_key hash) (timeout_key j) "timeout" d
                ∙ rw (timeout_key-eq hash j, e)
                    (read-remove hash (timeout_key j) n.db ∙ rw ((hash-timeout j i).0)),
          ))
