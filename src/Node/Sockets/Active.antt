-- ===== src/Node/Sockets/Active.antt =====
-- node/websocket.go: the list of active sockets. Its abstract view is the open connections in any order: one more for
-- each that opens, and one less for each that meets its end of file.
use native.Mathlib.Decide.{ℕ_discrete}
use mathlib.Core.List.{
  Perm, Mem, erase, perm_cons_erase, perm-cons, perm_append_singleton, erase_of_not-mem, mem-cons,
  mem-cons_self, not-mem-nil,
}
use mathlib.Core.List.Perm
use mathlib.Core.Logic.Or
use circular.Prelude.{
  ℕ, zero, suc, ◌≡◌, List, [], ◌∷◌, none, some, drop_last, get_last_or, get_elem?, set, arith,
  Option-cases, inl, inr,
}
use circular.Errors.{ok, err}
use circular.Node.Sockets.Requests.{WebsocketMessage, Backend}
use circular.Node.Sockets.{
  Sockets, Event, opened, received, unreadable, closed, answered, tried, index_of, remove_socket,
  handle, handle_all,
}

-- the open connections
abbrev pub connect : {V : Type 0} → Event V → List ℕ → List ℕ
connect (opened ws) open_ones = ws ∷ open_ones
connect (closed ws) open_ones = erase ℕ_discrete open_ones ws
connect _ open_ones = open_ones

pub connections : {V : Type 0} → List (Event V) → List ℕ → List ℕ
connections [] open_ones = open_ones
connections (e ∷ events) open_ones = connections events (connect e open_ones)

last-Perm :
    (x : ℕ) (xs : List ℕ) (d : ℕ) → Perm (x ∷ xs) (get_last_or (x ∷ xs) d ∷ drop_last (x ∷ xs))
last-Perm x [] d = Perm.rfl
last-Perm x (y ∷ xs) d =
    Perm.trans (Perm.cons x (last-Perm y xs d)) (Perm.swap (get_last_or (y ∷ xs) d) x _)

-- what a write of the last element over another, and a cut, do to a list
set_last-Perm :
    (xs : List ℕ) (i ws d : ℕ)
    → get_elem? xs i ≡ some ws
    → Perm xs (ws ∷ drop_last (set xs i (get_last_or xs d)))
set_last-Perm [] i ws d e = absurd (cc e)
set_last-Perm (x ∷ []) zero ws d e = Perm.cons' (ground arith) Perm.rfl
set_last-Perm (x ∷ y ∷ xs) zero ws d e = Perm.cons' (ground arith) (last-Perm y xs x)
set_last-Perm (x ∷ []) (suc i) ws d e = absurd (cc e)
set_last-Perm (x ∷ y ∷ xs) (suc zero) ws d e =
    Perm.trans (Perm.cons x (set_last-Perm (y ∷ xs) zero ws x e)) (Perm.swap ws x _)
set_last-Perm (x ∷ y ∷ xs) (suc (suc i)) ws d e =
    Perm.trans (Perm.cons x (set_last-Perm (y ∷ xs) (suc i) ws x e)) (Perm.swap ws x _)

-- where the search finds the socket, and where it does not
get_elem?-index_of : (ws i : ℕ) (l : List ℕ) → index_of ws l ≡ some i → get_elem? l i ≡ some ws
unfolding index_of
get_elem?-index_of ws i [] e = absurd (cc e)
get_elem?-index_of ws zero (x ∷ l) e = ground (arith, Option-cases (index_of ws l))
get_elem?-index_of ws (suc i) (x ∷ l) e =
    ground (arith, Option-cases (index_of ws l), get_elem?-index_of ws i l)

index_of-none : (ws : ℕ) (l : List ℕ) → index_of ws l ≡ none → ¬ Mem ws l
unfolding index_of
index_of-none ws [] e m = not-mem-nil m
index_of-none ws (x ∷ l) e m =
    Or.elim (hlevel) (mem-cons.0 m) (λ same. ground (arith, Option-cases (index_of ws l)))
      (index_of-none ws l (ground (arith, Option-cases (index_of ws l))))

remove_socket-Perm : (ws : ℕ) (l : List ℕ) → Perm (remove_socket ws l) (erase ℕ_discrete l ws)
unfolding remove_socket
remove_socket-Perm ws l = elim (Option-cases (index_of ws l)) [
  | inl e ↦ rw (e, remove_socket, erase_of_not-mem ℕ_discrete (index_of-none ws l e)) Perm.rfl
  | inr (i, e) ↦
      let found = set_last-Perm l i ws ws (get_elem?-index_of ws i l e) in
      rw (e, remove_socket)
        ((perm-cons ws).0 (
          Perm.trans (Perm.symm found)
            (perm_cons_erase ℕ_discrete ((Perm.mem_iff found).1 (mem-cons_self)))))
]

module _ {V I N P L : Type 0} (b : Backend V I N P L) (empty : WebsocketMessage V) where
  handle-Perm :
      (e : Event V) (s : Sockets V L) (l : List ℕ)
      → Perm s.active l
      → Perm (handle b empty e s).active (connect e l)
  unfolding handle
  handle-Perm (opened ws) s l p = Perm.trans (perm_append_singleton ws s.active) (Perm.cons ws p)
  handle-Perm (received ws fields) s l p = p
  handle-Perm (unreadable ws fields) s l p = p
  handle-Perm (closed ws) s l p =
      Perm.trans (remove_socket-Perm ws s.active) (Perm.erase ℕ_discrete ws p)
  handle-Perm (answered i (err e)) s l p = elim (Option-cases (get_elem? s.pending i)) [
    | inl q ↦ rw (q, handle) p
    | inr (r, q) ↦ rw (q, handle) p
  ]
  handle-Perm (answered i (ok res)) s l p = elim (Option-cases (get_elem? s.pending i)) [
    | inl q ↦ rw (q, handle) p
    | inr (r, q) ↦ rw (q, handle) p
  ]
  handle-Perm (tried route) s l p = p

  -- If the active sockets are, in some order, the open connections, they still are after any events
  -- of any connections, where the open connections gain one for each that opens and lose one for
  -- each that meets its end of file.
  pub handle_all-Perm :
      (events : List (Event V)) (s : Sockets V L) (l : List ℕ)
      → Perm s.active l
      → Perm (handle_all b empty events s).active (connections events l)
  unfolding handle_all connections
  handle_all-Perm [] s l p = p
  handle_all-Perm (e ∷ events) s l p =
      handle_all-Perm events (handle b empty e s) (connect e l) (handle-Perm e s l p)
