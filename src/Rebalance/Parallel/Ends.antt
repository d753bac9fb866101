-- ===== src/Rebalance/Parallel/Ends.antt =====
-- Call of circular-pull and of circular-push returns, whatever the rebalances send.
use circular.Prelude.{
  ℕ, ◌+◌, ◌/◌, ◌<◌, ◌≡◌, refl, String, Bool, true, false, Option, some, List, [], length, inl, inr,
  i64_half, u64_mod, if◌then◌else◌, str_eq,
}
use circular.Errors.{Result, ok, err, Result-cases, no_required_parameter, ◌>>=◌, >>=-eq-ok}
use circular.Graph.Channel.{Channel}
use circular.Singleton.{Node}
use circular.Rebalance.Params.{Rebalance}
use circular.Rebalance.Run.{Outcome}
use circular.Rebalance.Parallel.{Parallel, validate_generic_parameters}
use circular.Rebalance.Parallel.Report.{Report}
use circular.Rebalance.Parallel.Candidates.{find_candidates, get_candidates_list}
use circular.Rebalance.Parallel.Methods.{
  Methods, Floats, Limits, pull_defaults, push_defaults, validate_parameters, pull_methods,
  push_methods,
}
use circular.Node.Peers.{get_outgoing_channel_from_scid, get_incoming_channel_from_scid}
use circular.Rebalance.Parallel.Wait.{call_with, call_pull, call_push}
use circular.Rebalance.Parallel.Accounts.{validated-Accounts, any_candidates}
use circular.Rebalance.Parallel.Settled.{fire_and_wait-returns}

module _ {W F : Type 0} (node : Node W) (receive : List Rebalance → W → (ℕ × Outcome) × W)
    (sends : (l : List Rebalance) (w : W) → 0 < length l → (receive l w).0.0 < length l)
    (floats : Floats F) (s : Parallel) (idle : s.running ≡ []) (fresh : s.amount_rebalanced ≡ 0)
    (rest : s.in_flight_amount ≡ 0) (few : s.splits < i64_half)
    (room : s.amount + s.split_amount < u64_mod) where
  abbrev Returns : Option (Result (Report × W)) → Type 0
  Returns o = (r : Result (Report × W)) × (o ≡ some r)

  call_with-Returns :
      (target : Channel) (exclude : String) (methods : Methods W) (nodes : Option (List String))
      (w : W) (n : ℕ)
      → validate_generic_parameters s ≡ ok n
      → Returns (call_with node receive target exclude methods nodes s w)
  unfolding call_with
  call_with-Returns target exclude methods nodes w n v =
      elim (Result-cases (
        find_candidates (node.get_graph w) (λ channel. methods.is_good_candidate channel w)
          (λ id. methods.get_candidate_direction id w) exclude
          (get_candidates_list (node.get_peers w) nodes))) [
            | inl (e, q) ↦ (err e, rw (q, call_with) refl)
            | inr (candidates, q) ↦
                let a = validated-Accounts s n v idle fresh rest few room in
                let begun : Parallel = record s { candidates = candidates } in
                let (r, q') =
                  fire_and_wait-returns node target methods receive sends
                    (s.amount / s.split_amount) begun w (any_candidates _ s candidates a) in
                (r, rw (q, call_with) q')
          ]

  generic :
      (l : Limits F) (n : ℕ)
      → validate_parameters floats l s ≡ ok n
      → (m : ℕ) × (validate_generic_parameters s ≡ ok m)
  unfolding validate_parameters
  generic l n e = let (m, q, _) = >>=-eq-ok (validate_generic_parameters s) _ e in (m, q)

  checked :
      (missing : Bool) (v : Result ℕ) (next : Result Channel) (c : Channel)
      → (if missing then err no_required_parameter else (v >>= λ n. next)) ≡ ok c
      → (n : ℕ) × (v ≡ ok n)
  checked true v next c e = absurd (cc e)
  checked false v next c e = let (n, q, _) = >>=-eq-ok v _ e in (n, q)

  -- Call of circular-pull and Call of circular-push return, a report or an error, whatever the
  -- rebalances send and however the world changes meanwhile, if each result is that of a rebalance
  -- that runs, the state begins with nothing running, rebalanced or in flight, fewer than 2 ^ 63
  -- splits are allowed at once, and the amount and a split are together below 2 ^ 64 msat.
  pub calls-Returns :
      (given : Limits F) (w : W)
      → Returns (call_pull node receive floats given s w)
        × Returns (call_push node receive floats given s w)
  unfolding call_pull call_push
  calls-Returns given w = (pulled, pushed)
    where
      l : Limits F
      l = pull_defaults floats given

      m : Limits F
      m = push_defaults floats given

      pulled : Returns (call_pull node receive floats given s w)
      pulled =
          elim (Result-cases (
            if str_eq given.scid ""
            then err no_required_parameter
            else (validate_parameters floats l s >>= λ n.
                get_incoming_channel_from_scid (node.get_id w) (node.get_peers w) (node.get_graph w)
                  l.scid))) [
                    | inl (e, q) ↦ (err e, rw (q, call_pull) refl)
                    | inr (target, q) ↦
                        let (n, v) =
                          checked (str_eq given.scid "") (validate_parameters floats l s) _ target
                            q in
                        let (n', v') = generic l n v in
                        let (r, q') =
                          call_with-Returns target target.source (pull_methods floats node l s)
                            l.nodes w n' v' in
                        (r, rw (q, call_pull) q')
                  ]

      pushed : Returns (call_push node receive floats given s w)
      pushed =
          elim (Result-cases (
            if str_eq given.scid ""
            then err no_required_parameter
            else (validate_parameters floats m s >>= λ n.
                get_outgoing_channel_from_scid (node.get_id w) (node.get_peers w) (node.get_graph w)
                  m.scid))) [
                    | inl (e, q) ↦ (err e, rw (q, call_push) refl)
                    | inr (target, q) ↦
                        let (n, v) =
                          checked (str_eq given.scid "") (validate_parameters floats m s) _ target
                            q in
                        let (n', v') = generic m n v in
                        let (r, q') =
                          call_with-Returns target target.destination (push_methods floats node m s)
                            m.nodes w n' v' in
                        (r, rw (q, call_push) q')
                  ]
