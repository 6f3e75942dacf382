-- ===== src/Base/Decimal/Digits.antt =====
-- The digits of a number: how many they are, and the number that they give back.
use ponswars.Base.{
  ℕ, zero, suc, ◌+◌, ◌-◌, ◌*◌, ◌/◌, ◌%◌, ◌≤◌, ◌<◌, ◌≡◌, refl, ap, ◌∙◌, true, Bool-cases, inl, inr,
  [], ◌∷◌, ◌++◌, length, ltb, arith,
}
use ponswars.Base.Text.{Text}
use ponswars.Base.Decimal.{digits_from, zeros, is_digit, all_digits, parse_int}

pub parse_int-digits_from :
    (fuel n : ℕ) (rest : Text) → n ≤ fuel → parse_int 0 (digits_from fuel n rest) ≡ parse_int n rest
unfolding parse_int digits_from
parse_int-digits_from zero n rest h = let e : n ≡ 0 = omega arith in rw e refl
parse_int-digits_from (suc fuel) n rest h = elim (Bool-cases (ltb n 10)) [
  | inl e ↦ rw e (ap (λ v. parse_int v rest) (ground arith))
  | inr e ↦ rw e (
      parse_int-digits_from fuel (n / 10) ((b'0' + n % 10) ∷ rest) (ground arith)
      ∙ ap (λ v. parse_int v rest) (omega arith))
]

pub digit : (n : ℕ) → is_digit (b'0' + n % 10) ≡ true
unfolding is_digit
digit n = ground arith

pub all_digits-nil : all_digits [] ≡ true
unfolding all_digits
all_digits-nil = refl

pub all_digits-digits_from :
    (fuel n : ℕ) (rest : Text)
    → all_digits rest ≡ true
    → all_digits (digits_from fuel n rest) ≡ true
unfolding digits_from all_digits
all_digits-digits_from zero n rest h = rw (digit n, h) refl
all_digits-digits_from (suc fuel) n rest h = elim (Bool-cases (ltb n 10)) [
  | inl e ↦ rw (e, digit n, h) refl
  | inr e ↦ rw e (all_digits-digits_from fuel (n / 10) _ (rw (digit n, h) refl))
]

-- A power of ten.
abbrev pub ten_to : ℕ → ℕ
ten_to zero = 1
ten_to (suc k) = 10 * ten_to k

pub ten_to_pos : (k : ℕ) → 1 ≤ ten_to k
ten_to_pos zero = omega arith
ten_to_pos (suc k) = omega (arith, ten_to_pos k)

pub length-digits_from-le :
    (fuel n k : ℕ) (rest : Text)
    → n < ten_to (suc k)
    → length (digits_from fuel n rest) ≤ suc k + length rest
unfolding digits_from
length-digits_from-le zero n k rest h = omega arith
length-digits_from-le (suc fuel) n zero rest h = elim (Bool-cases (ltb n 10)) [
  | inl e ↦ rw e (omega arith)
  | inr e ↦ absurd (ground arith)
]
length-digits_from-le (suc fuel) n (suc k) rest h = elim (Bool-cases (ltb n 10)) [
  | inl e ↦ rw e (omega arith)
  | inr e ↦
      let r = length-digits_from-le fuel (n / 10) k ((b'0' + n % 10) ∷ rest) (omega arith) in
      rw e (omega (arith, r))
]

pub length-digits_from-ge :
    (fuel n k : ℕ) (rest : Text)
    → n ≤ fuel
    → ten_to k ≤ n
    → suc k + length rest ≤ length (digits_from fuel n rest)
unfolding digits_from
length-digits_from-ge zero n k rest l h = absurd (omega (arith, ten_to_pos k))
length-digits_from-ge (suc fuel) n zero rest l h = elim (Bool-cases (ltb n 10)) [
  | inl e ↦ rw e (omega arith)
  | inr e ↦
      let r =
        length-digits_from-ge fuel (n / 10) zero ((b'0' + n % 10) ∷ rest) (ground arith)
          (ground arith) in
      rw e (omega (arith, r))
]
length-digits_from-ge (suc fuel) n (suc k) rest l h = elim (Bool-cases (ltb n 10)) [
  | inl e ↦ absurd (ground (arith, ten_to_pos k))
  | inr e ↦
      let r =
        length-digits_from-ge fuel (n / 10) k ((b'0' + n % 10) ∷ rest) (ground arith)
          (omega arith) in
      rw e (omega (arith, r))
]

pub length-zeros : (n : ℕ) → length (zeros n) ≡ n
unfolding zeros
length-zeros zero = refl
length-zeros (suc n) = ap suc (length-zeros n)

pub parse_int-zeros : (n : ℕ) (t : Text) → parse_int 0 (zeros n ++ t) ≡ parse_int 0 t
unfolding zeros parse_int
parse_int-zeros zero t = refl
parse_int-zeros (suc n) t = parse_int-zeros n t

pub all_digits-zeros : (n : ℕ) (t : Text) → all_digits t ≡ true → all_digits (zeros n ++ t) ≡ true
unfolding zeros all_digits is_digit
all_digits-zeros zero t h = h
all_digits-zeros (suc n) t h = all_digits-zeros n t h

pub parse_int-append : (v : ℕ) (a b : Text) → parse_int v (a ++ b) ≡ parse_int (parse_int v a) b
unfolding parse_int
parse_int-append v [] b = refl
parse_int-append v (c ∷ a) b = parse_int-append (10 * v + (c - b'0')) a b

-- A number that is read on goes up by a place for each digit.
pub parse_int_from : (v : ℕ) (t : Text) → parse_int v t ≡ v * ten_to (length t) + parse_int 0 t
unfolding parse_int
parse_int_from v [] = omega arith
parse_int_from v (c ∷ t) =
    let e : parse_int 0 (c ∷ t) ≡ (10 * 0 + (c - b'0')) * ten_to (length t) + parse_int 0 t =
      parse_int_from (10 * 0 + (c - b'0')) t in
    parse_int_from (10 * v + (c - b'0')) t ∙ omega (arith, e)
