-- ===== src/Http/Text/Decimal.antt =====
-- `std::to_string` of a number, and how a reader takes it back.
use ivos.Base.{
  ℕ, zero, suc, ◌+◌, ◌*◌, ◌/◌, ◌%◌, ◌-◌, ◌<◌, ◌≡◌, true, ◌&&◌, refl, ◌∙◌, Bool-cases, inl, inr, [],
  ◌∷◌, ◌++◌, arith, ltb, leb, if◌then◌else◌,
}
use ivos.Http.Text.{Text}
use ivos.Http.Text.Find.{Lacks}

decimal_loop : (rounds n : ℕ) → Text → Text
decimal_loop zero n digits = digits
decimal_loop (suc rounds) n digits =
    let longer = decimal_loop rounds (n / 10) ((48 + n % 10) ∷ digits) in
    if ltb n 10 then (48 + n) ∷ digits else longer

unfoldable pub decimal : ℕ → Text
unfolding decimal_loop
decimal n = decimal_loop (suc n) n []

-- The number at the start of a text, up to the first byte that is no digit; `before` is what has been
-- read.
abbrev pub read_number : (before : ℕ) → Text → ℕ
read_number before [] = before
read_number before (c ∷ s) =
    let rest = read_number (10 * before + (c - 48)) s in
    if leb 48 c && leb c 57 then rest else before

is_digit : (k : ℕ) → k < 10 → (leb 48 (48 + k) && leb (48 + k) 57) ≡ true
is_digit k h = ground arith

digits_of : (n : ℕ) → 10 * (n / 10) + (48 + n % 10 - 48) ≡ n
digits_of n = omega arith

read_last_digit :
    (n : ℕ) (digits : Text) → read_number (n / 10) ((48 + n % 10) ∷ digits) ≡ read_number n digits
read_last_digit n digits = rw (is_digit (n % 10) (omega arith), digits_of n) refl

read_number-decimal_loop :
    (rounds n : ℕ) (digits : Text)
    → n < rounds
    → read_number 0 (decimal_loop rounds n digits) ≡ read_number n digits
unfolding decimal_loop
read_number-decimal_loop zero n digits h = absurd (omega arith)
read_number-decimal_loop (suc rounds) n digits h = elim (Bool-cases (ltb n 10)) [
  | inl small ↦ rw small (ground arith)
  | inr large ↦ rw large (
      read_number-decimal_loop rounds (n / 10) ((48 + n % 10) ∷ digits) (ground arith)
      ∙ read_last_digit n digits)
]

decimal_loop-append :
    (rounds n : ℕ) (digits rest : Text)
    → decimal_loop rounds n digits ++ rest ≡ decimal_loop rounds n (digits ++ rest)
unfolding decimal_loop
decimal_loop-append zero n digits rest = refl
decimal_loop-append (suc rounds) n digits rest = elim (Bool-cases (ltb n 10)) [
  | inl small ↦ rw small refl
  | inr large ↦ rw large (decimal_loop-append rounds (n / 10) ((48 + n % 10) ∷ digits) rest)
]

Lacks-decimal_loop :
    (c rounds n : ℕ) (digits : Text)
    → c < 48
    → Lacks c digits
    → Lacks c (decimal_loop rounds n digits)
unfolding decimal_loop
Lacks-decimal_loop c zero n digits low h = h
Lacks-decimal_loop c (suc rounds) n digits low h = elim (Bool-cases (ltb n 10)) [
  | inl small ↦ rw small (ground arith, h)
  | inr large ↦
      rw large (Lacks-decimal_loop c rounds (n / 10) ((48 + n % 10) ∷ digits) low (ground arith, h))
]

pub Lacks-decimal : (c n : ℕ) → c < 48 → Lacks c (decimal n)
unfolding decimal
Lacks-decimal c n low = Lacks-decimal_loop c (suc n) n [] low tt

-- Before a carriage return, the number is read back.
pub read_number-decimal : (n : ℕ) (rest : Text) → read_number 0 (decimal n ++ (13 ∷ rest)) ≡ n
unfolding decimal
read_number-decimal n rest =
    rw (decimal_loop-append (suc n) n [] (13 ∷ rest))
      (read_number-decimal_loop (suc n) n (13 ∷ rest) (omega arith))
