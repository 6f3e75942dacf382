-- ===== src/BattleMath/Prng/Draws.antt =====
-- What a draw gives (`nextBelow` in packages/battle-math/src/prng.ts).
use ponswars.Base.{
  ℕ, zero, suc, ◌+◌, ◌*◌, ◌^◌, ◌%◌, ◌≤◌, ◌<◌, ◌==◌, ◌≡◌, ◌⊎◌, refl, inl, inr, List, [], ◌∷◌, some,
  length, get_elem?, ltb, leb, Bool-cases, false, ◌++◌, Result, ok, err, out_of_fuel, arith,
}
use ponswars.Base.Hashing.{Hashing}
use ponswars.BattleMath.Prng.{
  DeterministicPrng, big_endian, refill, next_byte, next_bytes, read_big_endian, draw_below,
  next_below,
}
use native.Mathlib.Nat.{mod-lt}

pub get_elem?_within {ℓ} :
    {A : Type ℓ} (xs : List A) (i : ℕ) → i < length xs → (x : A) × (get_elem? xs i ≡ some x)
get_elem?_within [] i h = absurd (omega arith)
get_elem?_within (x ∷ xs) zero h = (x, refl)
get_elem?_within (x ∷ xs) (suc i) h = get_elem?_within xs i (omega arith)

-- Reads a byte within the block.
read_within :
    (h : Hashing) (p : DeterministicPrng)
    → leb (length p.block) p.offset ≡ false
    → (b : ℕ) × (q : DeterministicPrng) × (next_byte h p ≡ ok (b, q)) × (q.counter ≤ p.counter)
unfolding next_byte
read_within h p e =
    let (b, g) = get_elem?_within p.block p.offset (ground arith) in
    (b, record p { offset = p.offset + 1 }, rw (e, g) refl, omega arith)

-- A generator with a counter below its bound gives a byte, and counts one block at most.
next_byte_gives :
    (h : Hashing) (p : DeterministicPrng)
    → p.counter < 2 ^ 64
    → (b : ℕ) × (q : DeterministicPrng) × (next_byte h p ≡ ok (b, q)) × (q.counter ≤ p.counter + 1)
unfolding next_byte refill
next_byte_gives h p c = elim (Bool-cases (leb (length p.block) p.offset)) [
  | inl e ↦
      let message = h.utf8 p.domain ++ (p.seed ++ big_endian 8 p.counter) in
      let (b, g) = get_elem?_within (h.sha256 message) 0 (omega (arith, h.digest_length message)) in
      let below : leb (2 ^ 64) p.counter ≡ false = ground arith in
      (
        b,
        record {
          seed = p.seed;
          domain = p.domain;
          counter = p.counter + 1;
          block = h.sha256 message;
          offset = 1;
        },
        rw (e, below, g) refl,
        omega arith,
      )
  | inr e ↦ let (b, q, g, l) = read_within h p e in (b, q, g, omega arith)
]

next_bytes_gives :
    (h : Hashing) (n : ℕ) (p : DeterministicPrng)
    → p.counter + n ≤ 2 ^ 64
    → (bs : List ℕ) × (q : DeterministicPrng) × (next_bytes h n p ≡ ok (bs, q))
      × (q.counter ≤ p.counter + n)
unfolding next_bytes
next_bytes_gives h zero p c = ([], p, refl, omega arith)
next_bytes_gives h (suc n) p c =
    let (b, q, g, l) = next_byte_gives h p (omega arith) in
    let (bs, r, k, m) = next_bytes_gives h n q (omega arith) in
    (b ∷ bs, r, rw (g, k) refl, omega arith)

-- The only ways a draw below a bound can end: with a number below the bound, or with its fuel.
abbrev pub DrawsBelow : ℕ → Result (ℕ × DeterministicPrng) → Type 0
DrawsBelow bound drawn =
    ((v : ℕ) × (q : DeterministicPrng) × (drawn ≡ ok (v, q)) × (v < bound))
    ⊎ (drawn ≡ err out_of_fuel)

draw_below_gives :
    (h : Hashing) (fuel limit bound : ℕ) (p : DeterministicPrng)
    → 0 < bound
    → p.counter + 4 * fuel ≤ 2 ^ 64
    → DrawsBelow bound (draw_below h fuel limit bound p)
unfolding draw_below
draw_below_gives h zero limit bound p b c = inr refl
draw_below_gives h (suc fuel) limit bound p b c =
    let (bs, q, g, l) = next_bytes_gives h 4 p (omega arith) in
    rw g (elim (Bool-cases (ltb (read_big_endian 0 bs) limit)) [
      | inl e ↦ rw e (inl (read_big_endian 0 bs % bound, q, refl, mod-lt _ b))
      | inr e ↦ rw e (draw_below_gives h fuel limit bound q b (omega arith))
    ])

-- A fresh generator draws a number below any positive safe bound, as far as its fuel reaches.
pub next_below_gives :
    (h : Hashing) (fuel bound : ℕ) (p : DeterministicPrng)
    → 0 < bound
    → bound < 2 ^ 53
    → p.counter ≡ 0
    → fuel ≤ 2 ^ 60
    → DrawsBelow bound (next_below h fuel bound p)
unfolding next_below
next_below_gives h fuel bound p b s c f =
    let over : leb (2 ^ 53) bound ≡ false = ground arith in
    let positive : (bound == 0) ≡ false = ground arith in
    rw (over, positive)
      (elim (Bool-cases (bound == 1)) [
        | inl e ↦ rw e (inl (0, p, refl, b))
        | inr e ↦ rw e (draw_below_gives h fuel _ bound p b (omega arith))
      ])
