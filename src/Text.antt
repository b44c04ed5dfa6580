-- ===== src/Text.antt =====
-- Go strings, and what the server takes from the packages strings, strconv and encoding/hex.
-- A text is the list of its bytes. `to_lower` and `trim_space` act on ASCII bytes, as
-- strings.ToLower and strings.TrimSpace do on an ASCII text; a byte above 127 is left alone.
pub mod Search
pub mod Case
pub mod Encoding
pub mod Sort
use Prim.Native.Char.{code}
use Prim.Native.String.{String}
use sentinel_protocol.Base.{
  ℕ, zero, suc, ◌+◌, ◌-◌, ◌/◌, ◌%◌, Bool, true, false, ◌&&◌, ◌||◌, List, [], ◌∷◌, ◌++◌, map, ltb,
  leb, ◌==◌, if◌then◌else◌, ℕ_discrete, ℤ, pos, negsuc, length, take, ◌≡◌, refl, ap₂,
}

abbrev pub Text : Type 0
Text = List ℕ

cons_dec : {x y : ℕ} {s t : List ℕ} → Dec (x ≡ y) → Dec (s ≡ t) → Dec (x ∷ s ≡ y ∷ t)
cons_dec (yes p) (yes q) = yes (ap₂ ◌∷◌ p q)
cons_dec (yes p) (no n) = no (λ e. n (cc))
cons_dec (no n) _ = no (λ e. n (cc))

unfoldable pub Text-discrete : Discrete (List ℕ)
unfolding ℕ_discrete cons_dec
Text-discrete [] [] = yes refl
Text-discrete [] (y ∷ t) = no (λ e. cc)
Text-discrete (x ∷ s) [] = no (λ e. cc)
Text-discrete (x ∷ s) (y ∷ t) = cons_dec (ℕ_discrete x y) (Text-discrete s t)

-- A literal. It stays folded in proofs.
unfoldable pub text : String → List ℕ
text String.[] = []
text (String.◌∷◌ c s) = code c ∷ text s

unfoldable pub lower : ℕ → ℕ
lower c = if leb b'A' c && leb c b'Z' then c + 32 else c

-- strings.ToLower
unfoldable pub to_lower : List ℕ → List ℕ
unfolding lower
to_lower = map lower

unfoldable pub upper : ℕ → ℕ
upper c = if leb b'a' c && leb c b'z' then c - 32 else c

-- strings.ToUpper
unfoldable pub to_upper : List ℕ → List ℕ
unfolding upper
to_upper = map upper

unfoldable pub is_space : ℕ → Bool
is_space c = (leb 9 c && leb c 13) || c == 32

unfoldable pub trim_left : List ℕ → List ℕ
unfolding is_space
trim_left [] = []
trim_left (c ∷ s) = if is_space c then trim_left s else c ∷ s

abbrev kept : Bool → ℕ → List ℕ → List ℕ
kept true c [] = []
kept _ c s = c ∷ s

unfoldable pub trim_right : List ℕ → List ℕ
unfolding is_space
trim_right [] = []
trim_right (c ∷ s) = kept (is_space c) c (trim_right s)

-- strings.TrimSpace
unfoldable pub trim_space : List ℕ → List ℕ
unfolding trim_left trim_right
trim_space s = trim_right (trim_left s)

unfoldable pub is_prefix : List ℕ → List ℕ → Bool
is_prefix [] s = true
is_prefix (c ∷ t) [] = false
is_prefix (c ∷ t) (x ∷ s) = c == x && is_prefix t s

-- strings.Contains(s, t)
unfoldable pub contains : List ℕ → List ℕ → Bool
unfolding is_prefix
contains [] t = is_prefix t []
contains (x ∷ s) t = is_prefix t (x ∷ s) || contains s t

-- `s == ""`
abbrev pub is_empty : List ℕ → Bool
is_empty [] = true
is_empty (c ∷ s) = false

-- One of the texts sought, in lower case, stands in `s`.
unfoldable pub has_any : List ℕ → List (List ℕ) → Bool
has_any s [] = false
has_any s (n ∷ needles) = contains s (to_lower n) || has_any s needles

-- strings.Join(parts, sep)
unfoldable pub join : List ℕ → List (List ℕ) → List ℕ
join sep [] = []
join sep (s ∷ []) = s
join sep (s ∷ t ∷ r) = s ++ (sep ++ join sep (t ∷ r))

-- The digits of `n` in front of `out`; each round divides by ten, so `suc n` rounds are enough.
unfoldable pub emit : ℕ → ℕ → List ℕ → List ℕ
emit zero n out = out
emit (suc fuel) n out = elim (ltb n 10) [
  | true ↦ (48 + n) ∷ out
  | false ↦ emit fuel (n / 10) ((48 + n % 10) ∷ out)
]

-- The verb %d, of a number that is not negative and of an `int`.
unfoldable pub decimal : ℕ → List ℕ
unfolding emit
decimal n = emit (suc n) n []

unfoldable pub decimal_int : ℤ → List ℕ
unfolding decimal
decimal_int (pos n) = decimal n
decimal_int (negsuc n) = b'-' ∷ decimal (n + 1)

unfoldable pub hex_digit : ℕ → ℕ
hex_digit d = if ltb d 10 then 48 + d else 87 + d

-- hex.EncodeToString
unfoldable pub hex_encode : List ℕ → List ℕ
unfolding hex_digit
hex_encode [] = []
hex_encode (b ∷ s) = hex_digit (b / 16) ∷ hex_digit (b % 16) ∷ hex_encode s

lower_text : to_lower (text "Rm -RF {Z}") ≡ text "rm -rf {z}"
unfolding to_lower text
lower_text = refl

trimmed : trim_space (text "  a b\t\n ") ≡ text "a b"
unfolding trim_space text
trimmed = refl

found : contains (text "please run sudo ls") (text "sudo") ≡ true
unfolding contains text
found = refl

printed : decimal 1708012345678 ≡ text "1708012345678"
unfolding decimal text
printed = refl

encoded : hex_encode (0 ∷ 171 ∷ 255 ∷ []) ≡ text "00abff"
unfolding hex_encode text
encoded = refl
