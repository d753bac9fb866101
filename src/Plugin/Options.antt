-- ===== src/Plugin/Options.antt =====
-- cmd/circular/options.go: the options of the plugin.
use circular.Prelude.{
  ℕ, ◌≡◌, refl, sym, ap, ◌∙◌, String, Bool, true, some, str_eq, if◌then◌else◌, inl, inr,
}
use circular.Errors.{Result, ok, err, ◌>>=◌, >>=-eq-ok, Result-cases, panic}
use circular.Node.Options.{OptionValue, int, bool, string, Options, option_websocket_endpoint}
use circular.Node.Init.Services.{HasOptions}
use circular.Plugin.Registry.{
  int_kind, bool_kind, string_kind, kind_of, Registry, IsRegistry, IsGiven,
}

abbrev pub default_graph_refresh_interval : ℕ
default_graph_refresh_interval = 10

abbrev pub default_peer_refresh_interval : ℕ
default_peer_refresh_interval = 30

abbrev pub default_liquidity_reset_interval : ℕ
default_liquidity_reset_interval = 300

abbrev pub default_websocket_endpoint : String
default_websocket_endpoint = "0.0.0.0:8222"

of_int_kind : (v : OptionValue) → kind_of v ≡ int_kind → (n : ℕ) × (v ≡ int n)
of_int_kind (int n) e = (n, refl)
of_int_kind (bool x) e = absurd (cc e)
of_int_kind (string s) e = absurd (cc e)

of_bool_kind : (v : OptionValue) → kind_of v ≡ bool_kind → (x : Bool) × (v ≡ bool x)
of_bool_kind (int n) e = absurd (cc e)
of_bool_kind (bool x) e = (x, refl)
of_bool_kind (string s) e = absurd (cc e)

of_string_kind : (v : OptionValue) → kind_of v ≡ string_kind → (s : String) × (v ≡ string s)
of_string_kind (int n) e = absurd (cc e)
of_string_kind (bool x) e = absurd (cc e)
of_string_kind (string s) e = (s, refl)

module _ {G : Type 0} (r : Registry G) where
  -- an error ends the program
  abbrev register_or_exit : String → String → OptionValue → G → Result G
  register_or_exit name description v g =
      let done = r.register_option name description v g in
      elim done.0 [ err e ↦ err panic | ok _ ↦ ok done.1 ]

  unfoldable pub register_options : G → Result G
  register_options g = do
    a ←
        register_or_exit "circular-graph-refresh"
          "How often the gossip graph gets refreshed (minutes)" (int default_graph_refresh_interval)
          g
    b ←
        register_or_exit "circular-peer-refresh" "How often the peer list gets refreshed (seconds)"
          (int default_peer_refresh_interval) a
    c ←
        register_or_exit "circular-liquidity-refresh"
          "The period of time after which the liquidity is reset (minutes)"
          (int default_liquidity_reset_interval) b
    d ←
        register_or_exit "circular-save-stats" "Whether circular should save stats in the database"
          (bool true) c
    register_or_exit option_websocket_endpoint
        "Endpoint on which circular should expose its WebSocket; set empty to disable"
        (string default_websocket_endpoint) d

  module _ (law : IsRegistry r) where
    kind-register_or_exit :
        (name description : String) (v : OptionValue) (g h : G)
        → register_or_exit name description v g ≡ ok h
        → (j : String) → r.kind_at j h ≡ (if str_eq name j then some (kind_of v) else r.kind_at j g)
    kind-register_or_exit name description v g h e j =
        elim (Result-cases (r.register_option name description v g).0) [
          | inl (problem, q) ↦ absurd (cc (rw (q, register_or_exit) at e))
          | inr (n, q) ↦
              let same =
                ap (λ (x : Result G). elim x [ ok y ↦ y | err z ↦ g ])
                  (rw (q, register_or_exit) at e) in
              ap (r.kind_at j) (sym same) ∙ law.kind-register name description v g n q j
        ]

    -- after the five registrations each option has the type of its default
    kinds-register_options :
        (g h : G)
        → register_options g ≡ ok h
        → (r.kind_at "circular-graph-refresh" h ≡ some int_kind)
          × (r.kind_at "circular-peer-refresh" h ≡ some int_kind)
          × (r.kind_at "circular-liquidity-refresh" h ≡ some int_kind)
          × (r.kind_at "circular-save-stats" h ≡ some bool_kind)
          × (r.kind_at option_websocket_endpoint h ≡ some string_kind)
    unfolding register_options
    kinds-register_options g h done =
        let (a, to_a, rest_a) = >>=-eq-ok (register_or_exit _ _ _ g) _ done in
        let (b, to_b, rest_b) = >>=-eq-ok (register_or_exit _ _ _ a) _ rest_a in
        let (c, to_c, rest_c) = >>=-eq-ok (register_or_exit _ _ _ b) _ rest_b in
        let (d, to_d, to_h) = >>=-eq-ok (register_or_exit _ _ _ c) _ rest_c in
        let at_a = kind-register_or_exit _ _ _ g a to_a in
        let at_b = kind-register_or_exit _ _ _ a b to_b in
        let at_c = kind-register_or_exit _ _ _ b c to_c in
        let at_d = kind-register_or_exit _ _ _ c d to_d in
        let at_h = kind-register_or_exit _ _ _ d h to_h in
        (
          at_h _ ∙ at_d _ ∙ at_c _ ∙ at_b _ ∙ at_a _,
          at_h _ ∙ at_d _ ∙ at_c _ ∙ at_b _,
          at_h _ ∙ at_d _ ∙ at_c _,
          at_h _ ∙ at_d _,
          at_h _,
        )

    pub register_options-HasOptions :
        (g h : G) (options : Options)
        → register_options g ≡ ok h
        → IsGiven r h options
        → (graph_minutes : ℕ) × (peer_seconds : ℕ) × (minutes : ℕ) × (save : Bool)
          × (endpoint : String) × HasOptions options graph_minutes peer_seconds minutes save
              endpoint
    register_options-HasOptions g h options done given =
        let (graph_kind, peer_kind, liquidity_kind, save_kind, websocket_kind) =
          kinds-register_options g h done in
        let (v₁, e₁, k₁) = given _ _ graph_kind in
        let (v₂, e₂, k₂) = given _ _ peer_kind in
        let (v₃, e₃, k₃) = given _ _ liquidity_kind in
        let (v₄, e₄, k₄) = given _ _ save_kind in
        let (v₅, e₅, k₅) = given _ _ websocket_kind in
        let (a, q₁) = of_int_kind v₁ k₁ in
        let (p, q₂) = of_int_kind v₂ k₂ in
        let (m, q₃) = of_int_kind v₃ k₃ in
        let (s, q₄) = of_bool_kind v₄ k₄ in
        let (w, q₅) = of_string_kind v₅ k₅ in
        (
          a,
          p,
          m,
          s,
          w,
          record {
            graph_refresh = e₁ ∙ ap some q₁;
            peer_refresh = e₂ ∙ ap some q₂;
            liquidity_refresh = e₃ ∙ ap some q₃;
            save_stats = e₄ ∙ ap some q₄;
            websocket = e₅ ∙ ap some q₅;
          },
        )
