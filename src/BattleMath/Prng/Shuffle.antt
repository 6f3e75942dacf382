-- ===== src/BattleMath/Prng/Shuffle.antt =====
-- Draws and shuffles (`nextBelow` and `shuffle` in packages/battle-math/src/prng.ts).
use native.Mathlib.Nat.{mod-lt}
use ponswars.Base.{
  ℕ, zero, suc, ◌<◌, ◌+◌, ◌-◌, ◌%◌, ◌≡◌, inl, inr, Bool-cases, List, Option-cases, get_elem?,
  length, SameEntries, swap-SameEntries, Result, Error, ok, err, subst, sym, ◌∙◌, >>=-eq-ok,
  ok-injective, ltb, arith, sum_of, ap,
}
use ponswars.Base.Hashing.{Hashing}
use ponswars.BattleMath.Prng.{
  DeterministicPrng, next_bytes, read_big_endian, draw_below, next_below, shuffle_from, shuffle,
  swap_found,
}

not_ok {ℓ} : {A : Type ℓ} {e : Error} {a : A} → ◌≡◌ {A = Result A} (err e) (ok a) → ⊥
not_ok h = cc

draw_below-lt :
    (h : Hashing) (fuel limit bound : ℕ) (p q : DeterministicPrng) {v : ℕ}
    → 0 < bound
    → draw_below h fuel limit bound p ≡ ok (v, q)
    → v < bound
unfolding draw_below
draw_below-lt h zero limit bound p q b e = cc
draw_below-lt h (suc fuel) limit bound p q b e =
    let ((bytes, after), _, f) = >>=-eq-ok (next_bytes h 4 p) _ e in
    elim (Bool-cases (ltb (read_big_endian 0 bytes) limit)) [
      | inl t ↦
          let g : read_big_endian 0 bytes % bound ≡ _ = ap (λ r. r.0) (ok-injective (rw t at f)) in
          omega (arith, g, mod-lt (read_big_endian 0 bytes) b)
      | inr t ↦ draw_below-lt h fuel limit bound after q b (rw t at f)
    ]

module _ {ℓ} {A : Type ℓ} where
  swap_found-SameEntries :
      (out : List A) (i j : ℕ) {swapped : List A}
      → swap_found out i j (get_elem? out i) (get_elem? out j) ≡ ok swapped
      → SameEntries swapped out
  unfolding swap_found
  swap_found-SameEntries out i j h f = elim (Option-cases (get_elem? out i)) [
    | inl e ↦ absurd (not_ok (rw e at h))
    | inr (a, e) ↦ elim (Option-cases (get_elem? out j)) [
      | inl g ↦ absurd (not_ok (rw (e, g) at h))
      | inr (b, g) ↦
          subst (λ s. sum_of f s ≡ sum_of f out) (ok-injective (rw (e, g) at h))
            (swap-SameEntries out i j a b e g f)
    ]
  ]

  shuffle_from-SameEntries :
      (h : Hashing) (fuel i : ℕ) (out : List A) (p q : DeterministicPrng) {result : List A}
      → shuffle_from h fuel i out p ≡ ok (result, q)
      → SameEntries result out
  unfolding shuffle_from
  shuffle_from-SameEntries h fuel zero out p q e f =
      ap (sum_of f) (sym (ap (λ r. r.0) (ok-injective e)))
  shuffle_from-SameEntries h fuel (suc i) out p q e f =
      let ((j, after), _, g) = >>=-eq-ok (next_below h fuel (suc i + 1) p) _ e in
      let (swapped, s, k) =
        >>=-eq-ok (swap_found out (suc i) j (get_elem? out (suc i)) (get_elem? out j)) _ g in
      shuffle_from-SameEntries h fuel i swapped after q k f
      ∙ swap_found-SameEntries out (suc i) j s f

  -- A shuffle that returns gives the items that it was given, each as often, whatever bytes the
  -- generator drew.
  pub shuffle-SameEntries :
      (hashing : Hashing) (fuel : ℕ) (items : List A) (prng after : DeterministicPrng)
      {out : List A}
      → shuffle hashing fuel items prng ≡ ok (out, after)
      → SameEntries out items
  unfolding shuffle
  shuffle-SameEntries hashing fuel items prng after e =
      shuffle_from-SameEntries hashing fuel (length items - 1) items prng after e
