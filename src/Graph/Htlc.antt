-- ===== src/Graph/Htlc.antt =====
-- The HTLC limits of a channel, read from texts such as "1000msat":
-- strconv.ParseUint(strings.TrimSuffix(s, "msat"), 10, 64), with the error dropped. NewChannel and
-- AddChannel of graph/channel.go and graph/graph.go and GetStats of graph/stats.go make this call.
-- The two functions of Go's standard library walk bytes; here they walk code points, which gives the
-- same value: neither a digit nor a letter of "msat" stands inside a longer character.
pub mod Laws
use Prim.Native.Char.{code}
use circular.Prelude.{
  ℕ, ◌+◌, ◌-◌, ◌*◌, ◌<◌, String, Bool, true, false, ◌&&◌, List, [], ◌∷◌, ltb, leb, ◌==◌,
  if◌then◌else◌, u64_mod,
}

abbrev pub codes : String → List ℕ
codes String.[] = []
codes (String.◌∷◌ c s) = code c ∷ codes s

unfoldable pub same_codes : List ℕ → List ℕ → Bool
same_codes [] [] = true
same_codes (c ∷ s) (d ∷ t) = c == d && same_codes s t
same_codes s t = false

-- strings.TrimSuffix, for a suffix that is not empty
unfoldable pub trim_suffix : List ℕ → List ℕ → List ℕ
unfolding same_codes
trim_suffix [] suffix = []
trim_suffix (c ∷ s) suffix = if same_codes (c ∷ s) suffix then [] else c ∷ trim_suffix s suffix

abbrev pub max_uint64 : ℕ
max_uint64 = u64_mod - 1

-- the loop of strconv.ParseUint in base 10 at 64 bits; a value that is too large ends it at once
unfoldable pub parse_digits : ℕ → List ℕ → ℕ
parse_digits n [] = n
parse_digits n (c ∷ s) =
    let n' = n * 10 + (c - b'0') in
    let rest = parse_digits n' s in
    if leb b'0' c && leb c b'9' then (if ltb max_uint64 n' then max_uint64 else rest) else 0

-- the value of strconv.ParseUint, which is 0 on a syntax error
unfoldable pub parse_uint : List ℕ → ℕ
unfolding parse_digits
parse_uint s = parse_digits 0 s

unfoldable pub parse_msat : String → ℕ
unfolding trim_suffix parse_uint
parse_msat s = parse_uint (trim_suffix (codes s) (codes "msat"))
