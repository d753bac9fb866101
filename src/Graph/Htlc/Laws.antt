-- ===== src/Graph/Htlc/Laws.antt =====
-- The limit that is read back from a printed amount.
use Prim.Native.Char.{code}
use Prim.Native.String.{◌++◌ as str_append}
use text.Mathlib.TextLemmas.{nil-append, cons-append}
use circular.Prelude.{
  ℕ, ◌+◌, ◌-◌, ◌*◌, ◌≤◌, ◌<◌, ◌≡◌, refl, ap, ◌∙◌, ◌⊎◌, inl, inr, String, List, [], ◌∷◌, ◌++◌,
  u64_mod, arith, All,
}
use circular.Graph.Htlc.{codes, trim_suffix, parse_digits, parse_uint, parse_msat}

-- The value of a text of digits, most significant first.
unfoldable pub decimal : ℕ → List ℕ → ℕ
decimal n [] = n
decimal n (c ∷ s) = decimal (n * 10 + (c - b'0')) s

abbrev pub IsDigit : ℕ → Type 0
IsDigit c = (b'0' ≤ c) × (c ≤ b'9')

decimal-ge : (n : ℕ) (s : List ℕ) → n ≤ decimal n s
unfolding decimal
decimal-ge n [] = omega arith
decimal-ge n (c ∷ s) = omega (arith, decimal-ge (n * 10 + (c - b'0')) s)

pub parse_digits-decimal :
    (n : ℕ) (s : List ℕ) → All IsDigit s → decimal n s < u64_mod → parse_digits n s ≡ decimal n s
unfolding parse_digits decimal
parse_digits-decimal n [] d h = refl
parse_digits-decimal n (c ∷ s) d h =
    ground (
      arith,
      decimal-ge (n * 10 + (c - b'0')) s,
      parse_digits-decimal (n * 10 + (c - b'0')) s d.1 h,
    )

-- A list of digits has no suffix "msat", whatever follows.
trim_suffix-digits :
    (s : List ℕ) → All IsDigit s → trim_suffix (s ++ codes "msat") (codes "msat") ≡ s
unfolding trim_suffix
trim_suffix-digits [] d = refl
trim_suffix-digits (c ∷ s) d = ground (arith, trim_suffix-digits s d.1)

-- Digits have nothing to trim.
trim_suffix-none : (s : List ℕ) → All IsDigit s → trim_suffix s (codes "msat") ≡ s
unfolding trim_suffix
trim_suffix-none [] d = refl
trim_suffix-none (c ∷ s) d = ground (arith, trim_suffix-none s d.1)

codes-append : (s t : String) → codes (str_append s t) ≡ codes s ++ codes t
codes-append String.[] t = ap codes (nil-append t)
codes-append (String.◌∷◌ c s) t =
    ap codes (cons-append c s t) ∙ ap (λ l. code c ∷ l) (codes-append s t)

-- the text of an amount, with its unit or without
abbrev pub IsAmount : String → String → Type 0
IsAmount text s = (text ≡ str_append s "msat") ⊎ (text ≡ s)

pub parse_msat-decimal :
    (text s : String)
    → IsAmount text s
    → All IsDigit (codes s)
    → decimal 0 (codes s) < u64_mod
    → parse_msat text ≡ decimal 0 (codes s)
unfolding parse_msat parse_uint
parse_msat-decimal text s (inl e) d h =
    rw (e, codes-append s "msat", trim_suffix-digits (codes s) d)
      (parse_digits-decimal 0 (codes s) d h)
parse_msat-decimal text s (inr e) d h =
    rw (e, trim_suffix-none (codes s) d) (parse_digits-decimal 0 (codes s) d h)
