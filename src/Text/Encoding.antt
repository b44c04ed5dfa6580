-- ===== src/Text/Encoding.antt =====
-- The decimal and hexadecimal forms of numbers and bytes are injective and have no separator bar.
use sentinel_protocol.Base.{
  ℕ, zero, suc, ◌+◌, ◌-◌, ◌*◌, ◌/◌, ◌%◌, ◌≤◌, ◌<◌, ◌≡◌, refl, sym, ap, ap₂, ◌∙◌, ◌≢◌, true, List,
  [], ◌∷◌, arith, ltb, Bool-cases, inl, inr, All,
}
use sentinel_protocol.Text.{emit, decimal, hex_digit, hex_encode}

-- The number that digits stand for, after a number that was read.
abbrev value : ℕ → List ℕ → ℕ
value n [] = n
value n (c ∷ s) = value (n * 10 + (c - 48)) s

value-emit : (fuel n : ℕ) (out : List ℕ) → n < fuel → value 0 (emit fuel n out) ≡ value n out
unfolding emit
value-emit zero n out h = absurd (omega arith)
value-emit (suc fuel) n out h = elim (Bool-cases (ltb n 10)) [
  | inl short ↦ rw (short, emit) (ap (λ (m : ℕ). value m out) (omega arith))
  | inr long ↦
      let big : 10 ≤ n = ground arith in
      rw (long, emit)
        (value-emit fuel (n / 10) ((48 + n % 10) ∷ out) (omega arith)
          ∙ ap (λ (m : ℕ). value m out) (omega arith))
]

abbrev pub NoBar : List ℕ → Type 0
NoBar = All (λ c. c ≢ b'|')

digit_low : (n : ℕ) → ltb n 10 ≡ true → 48 + n ≢ b'|'
digit_low n h = ground arith

emit-NoBar : (fuel n : ℕ) (out : List ℕ) → NoBar out → NoBar (emit fuel n out)
unfolding emit
emit-NoBar zero n out h = h
emit-NoBar (suc fuel) n out h = elim (Bool-cases (ltb n 10)) [
  | inl short ↦ rw (short, emit) ((λ e. absurd (digit_low n short e)), h)
  | inr long ↦
      rw (long, emit) (emit-NoBar fuel (n / 10) ((48 + n % 10) ∷ out) ((λ e. omega arith), h))
]

pub decimal-NoBar : (n : ℕ) → NoBar (decimal n)
unfolding decimal
decimal-NoBar n = emit-NoBar (suc n) n [] tt

pub decimal-injective : (m n : ℕ) → decimal m ≡ decimal n → m ≡ n
unfolding decimal
decimal-injective m n e =
    sym (value-emit (suc m) m [] (omega arith))
    ∙ (ap (value 0) e ∙ value-emit (suc n) n [] (omega arith))

hex_digit-injective : (c d : ℕ) → hex_digit c ≡ hex_digit d → c ≡ d
unfolding hex_digit
hex_digit-injective c d e = ground arith

pub hex_encode-injective : (s t : List ℕ) → hex_encode s ≡ hex_encode t → s ≡ t
unfolding hex_encode
hex_encode-injective [] [] e = refl
hex_encode-injective [] (c ∷ t) e = cc
hex_encode-injective (b ∷ s) [] e = cc
hex_encode-injective (b ∷ s) (c ∷ t) e =
    let high = hex_digit-injective (b / 16) (c / 16) (cc) in
    let low = hex_digit-injective (b % 16) (c % 16) (cc) in
    ap₂ ◌∷◌ (omega (arith, high, low)) (hex_encode-injective s t (cc))

hex_digit-NoBar : (d : ℕ) → d < 16 → hex_digit d ≢ b'|'
unfolding hex_digit
hex_digit-NoBar d h = ground arith

pub hex_encode-NoBar : (s : List ℕ) → All (λ b. b < 256) s → NoBar (hex_encode s)
unfolding hex_encode
hex_encode-NoBar [] h = tt
hex_encode-NoBar (b ∷ s) h = (
  hex_digit-NoBar (b / 16) (omega (arith, h.0)),
  (hex_digit-NoBar (b % 16) (omega arith), hex_encode-NoBar s h.1),
)
