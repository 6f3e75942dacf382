-- ===== src/Shared/Money/Parsing.antt =====
-- What a decimal text is read as (`parseDecimalToBaseUnits` in packages/shared-types/src/money.ts).
use ponswars.Base.{
  ℕ, zero, suc, ◌+◌, ◌-◌, ◌/◌, ◌≤◌, ◌==◌, ◌≡◌, refl, sym, ap, ◌∙◌, true, false, Bool-cases, inl,
  inr, [], ◌∷◌, ◌++◌, none, some, length, length-append, ltb, arith, List, ◌≢◌, ◌⊎◌, take, drop, ok,
  subst,
}
use ponswars.Base.Text.{Text}
use ponswars.Base.Decimal.{digits_from, to_decimal, zeros, pad_end, is_digit, all_digits, parse_int}
use ponswars.Base.Decimal.Digits.{all_digits-digits_from, all_digits-nil, length-zeros}
use ponswars.Shared.Money.{
  parse_decimal_to_base_units, split_point, is_whole, fraction_of, base_units_of, trim_zeros,
  render,
}

pub take-drop {ℓ} : {A : Type ℓ} (k : ℕ) (xs : List A) → take k xs ++ drop k xs ≡ xs
take-drop zero xs = refl
take-drop (suc k) [] = refl
take-drop (suc k) (x ∷ xs) = ap (λ ys. x ∷ ys) (take-drop k xs)

pub length-take {ℓ} : {A : Type ℓ} (k : ℕ) (xs : List A) → k ≤ length xs → length (take k xs) ≡ k
length-take zero xs h = refl
length-take (suc k) [] h = absurd (omega arith)
length-take (suc k) (x ∷ xs) h = ap suc (length-take k xs (omega arith))

take_all {ℓ} : {A : Type ℓ} (k : ℕ) (xs : List A) → length xs ≤ k → take k xs ≡ xs
take_all zero [] h = refl
take_all zero (x ∷ xs) h = absurd (omega arith)
take_all (suc k) [] h = refl
take_all (suc k) (x ∷ xs) h = ap (λ ys. x ∷ ys) (take_all k xs (omega arith))

pub all_digits-append :
    (xs ys : Text) → all_digits (xs ++ ys) ≡ true → (all_digits xs ≡ true) × (all_digits ys ≡ true)
unfolding all_digits
all_digits-append [] ys h = (refl, h)
all_digits-append (x ∷ xs) ys h = elim (Bool-cases (is_digit x)) [
  | inl e ↦ let e' : all_digits (xs ++ ys) ≡ true = rw e at h in rw e (all_digits-append xs ys e')
  | inr e ↦ let e' : false ≡ true = rw e at h in cc
]

-- The text has a first character, and it is not a zero.
abbrev pub IsLed : Text → Type 0
IsLed [] = ⊥
IsLed (c ∷ cs) = c ≢ b'0'

pub digits_from-IsLed :
    (fuel n : ℕ) (rest : Text) → 1 ≤ n → n ≤ fuel → IsLed (digits_from fuel n rest)
unfolding digits_from
digits_from-IsLed zero n rest h l = absurd (omega arith)
digits_from-IsLed (suc fuel) n rest h l = elim (Bool-cases (ltb n 10)) [
  | inl e ↦ rw e (λ q. ground arith)
  | inr e ↦ rw e (digits_from-IsLed fuel (n / 10) _ (ground arith) (omega arith))
]

IsLed-length : (t : Text) → IsLed t → 1 ≤ length t
IsLed-length [] h = absurd h
IsLed-length (c ∷ cs) h = omega arith

pub IsLed-take : (k : ℕ) (t : Text) → 1 ≤ k → IsLed t → IsLed (take k t)
IsLed-take zero t l h = absurd (omega arith)
IsLed-take (suc k) [] l h = h
IsLed-take (suc k) (c ∷ cs) l h = h

pub is_whole_of :
    (w : Text)
    → all_digits w ≡ true
    → (length w ≡ 1) ⊎ (IsLed w × (1 ≤ length w))
    → is_whole w ≡ true
unfolding is_whole all_digits is_digit
is_whole_of [] a (inl h) = absurd (omega arith)
is_whole_of [] a (inr h) = absurd (h.0)
is_whole_of (c ∷ []) a h = ground arith
is_whole_of (c ∷ (d ∷ cs)) a (inl h) = absurd (omega arith)
is_whole_of (c ∷ (d ∷ cs)) a (inr (n, h)) = ground arith

-- A text of digits has no point.
split_point-digits :
    (w rest : Text)
    → all_digits w ≡ true
    → (split_point w ≡ (w, none)) × (split_point (w ++ (b'.' ∷ rest)) ≡ (w, some rest))
unfolding split_point all_digits is_digit
split_point-digits [] rest h = (refl, refl)
split_point-digits (c ∷ cs) rest h =
    let t : all_digits cs ≡ true = ground arith in
    let n : (c == b'.') ≡ false = ground arith in
    let (p, q) = split_point-digits cs rest t in (rw (p, n) refl, rw (q, n) refl)

-- What is trimmed is zeros.
trim_zeros_lem : (f : Text) → (j : ℕ) × (f ≡ trim_zeros f ++ zeros j)
unfolding trim_zeros zeros
trim_zeros_lem [] = (0, refl)
trim_zeros_lem (c ∷ cs) = trimmed_by c cs (trim_zeros cs) refl (trim_zeros_lem cs)
  where
    trimmed_by :
        (c : ℕ) (cs t : Text)
        → trim_zeros cs ≡ t
        → (j : ℕ) × (cs ≡ trim_zeros cs ++ zeros j)
        → (j : ℕ) × (c ∷ cs ≡ trim_zeros (c ∷ cs) ++ zeros j)
    trimmed_by c cs [] e (j, h) = elim (Bool-cases (c == b'0')) [
      | inl z ↦ (suc j, rw (z, e) (ground (arith, h)))
      | inr n ↦ (j, rw n (ap (λ (x : Text). c ∷ x) h))
    ]
    trimmed_by c cs (d ∷ ds) e (j, h) = (
      j,
      elim (Bool-cases (c == b'0')) [
        | inl z ↦ rw (z, e) (ground (arith, h))
        | inr n ↦ rw n (ap (λ (x : Text). c ∷ x) h)
      ],
    )

-- The text of the two parts is read as their digits.
parse_rendered :
    (d : ℕ) (w t : Text) (j : ℕ)
    → is_whole w ≡ true
    → all_digits w ≡ true
    → all_digits t ≡ true
    → length t + j ≡ d
    → parse_decimal_to_base_units (render w t) d ≡ ok (parse_int 0 (w ++ (t ++ zeros j)))
unfolding parse_decimal_to_base_units render fraction_of base_units_of pad_end
parse_rendered d w [] j h a b l =
    let e : d ≡ j = omega arith in
    let n : ltb j 0 ≡ false = ground arith in
    rw (split_point-digits w [] a).0 (
      rw (h, e)
        (rw (n, take_all {A = ℕ} j [] (omega arith))
          (ap (λ (k : ℕ). ok (parse_int 0 (w ++ zeros k))) (omega arith))))
parse_rendered d w (c ∷ t) j h a b l =
    let n : ltb d (length (c ∷ t)) ≡ false = ground arith in
    let e : d - length (c ∷ t) ≡ j = omega arith in
    rw (split_point-digits w (c ∷ t) a).1
      (rw (h, b, n) (rw (take_all d (c ∷ t) (omega arith)) (rw e refl)))

-- A whole part and all decimals are read as the number that their digits form, once the zeros at the
-- end are trimmed.
pub parse_trimmed :
    (d : ℕ) (w f : Text)
    → is_whole w ≡ true
    → all_digits w ≡ true
    → all_digits f ≡ true
    → length f ≡ d
    → parse_decimal_to_base_units (render w (trim_zeros f)) d ≡ ok (parse_int 0 (w ++ f))
parse_trimmed d w f h a b l =
    let (j, e) = trim_zeros_lem f in
    let c =
      (all_digits-append (trim_zeros f) (zeros j)
        (subst (λ (t : Text). all_digits t ≡ true) e b)).0 in
    let m : length (trim_zeros f) + j ≡ d =
      omega
        (arith, length-append (trim_zeros f) (zeros j), length-zeros j, ap (length {A = ℕ}) e, l) in
    parse_rendered d w (trim_zeros f) j h a c m
    ∙ ap (λ (t : Text). ok (parse_int 0 (w ++ t))) (sym e)

-- The digits of a number are a whole part.
pub is_whole-to_decimal : (n : ℕ) → is_whole (to_decimal n) ≡ true
unfolding to_decimal
is_whole-to_decimal zero = is_whole_of _ (all_digits-digits_from 0 0 [] all_digits-nil) (inl refl)
is_whole-to_decimal (suc n) =
    let t = digits_from (suc n) (suc n) [] in
    let led = digits_from-IsLed (suc n) (suc n) [] (omega arith) (omega arith) in
    is_whole_of t (all_digits-digits_from (suc n) (suc n) [] all_digits-nil)
      (inr (led, IsLed-length t led))
