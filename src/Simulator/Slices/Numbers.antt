-- ===== src/Simulator/Slices/Numbers.antt =====
-- What get_slice of a number cuts out.
use native.Mathlib.Nat.{
  pow-suc, pow-le-pow_right, zero-add, suc-add, mod-lt, mul-pos, mul_comm, div-lt_iff_lt-mul,
  div-add-mod', zero-div,
}
use native.Mathlib.Decide.{dec_lt}
use hgdb.Prelude.{
  ℕ, zero, suc, ◌+◌, ◌-◌, ◌*◌, ◌/◌, ◌%◌, ◌^◌, ◌<◌, ◌≤◌, ltb, ◌≡◌, refl, ◌⊎◌, inl, inr, sym, ap, ◌∙◌,
  ◌&&◌, if◌then◌else◌, none, some, arith,
}
use hgdb.Prelude.Int.{ℤ, pos, to_word, of_word}
use hgdb.Simulator.Slices.{get_slice}

pow-add : (a b : ℕ) → 2 ^ (a + b) ≡ 2 ^ a * 2 ^ b
pow-add zero b = rw zero-add (omega arith)
pow-add (suc a) b = rw (suc-add a b, pow-suc 2 (a + b), pow-suc 2 a) (grind (arith, pow-add a b))

pow-pos : (a : ℕ) → 0 < 2 ^ a
pow-pos zero = omega arith
pow-pos (suc a) = omega (arith, pow-pos a, pow-suc 2 a)

-- A number in the three parts that a mask and a shift make of it.
div_parts :
    (v m k : ℕ)
    → 0 < m
    → 0 < k
    → (v % (m * k) / m < k) × (v ≡ v / (m * k) * (m * k) + v % (m * k) / m * m + v % (m * k) % m)
div_parts v m k p q =
    let small : v % (m * k) < m * k = mod-lt v (mul-pos p q) in
    let small' : v % (m * k) < k * m = rw (mul_comm k m) small in
    (
      (div-lt_iff_lt-mul p).1 small',
      sym (div-add-mod' v (m * k)) ∙ omega (arith, div-add-mod' (v % (m * k)) m),
    )

defined_slice :
    (n hi lo : ℕ)
    → hi < 63
    → lo ≤ hi
    → n < 2 ^ 63
    → (if ltb (hi + 1) 64 && ltb lo 64 then some (of_word n) else none) ≡ some (pos n)
unfolding of_word
defined_slice n hi lo p q r = ground arith

undefined_slice :
    (v : ℤ) (hi lo : ℕ) → 63 ≤ hi → (if ltb (hi + 1) 64 && ltb lo 64 then some v else none) ≡ none
undefined_slice v hi lo p = ground arith

-- The mask of no bits.
empty_slice :
    (v lo : ℕ)
    → (if ltb 0 64 && ltb lo 64 then some (of_word (v % 2 ^ 0 / 2 ^ lo)) else none)
      ≡ (if ltb lo 64 then some (pos 0) else none)
unfolding of_word
empty_slice v lo =
    let nothing : v % 2 ^ 0 / 2 ^ lo ≡ 0 =
      let rest : v % 2 ^ 0 ≡ 0 = omega arith in ap (λ n. n / 2 ^ lo) rest ∙ zero-div (2 ^ lo) in
    rw nothing refl

-- What get_slice cuts out with bounds in order: with the highest bound of 32 bits, 0, or it is undefined
-- if `lo` is 64 or more; else it is undefined from bit 63 on; else it is the number of the bits from
-- `lo` to `hi`: what is left of the pattern are the bits above, and those below `lo`.
pub get_slice_parts :
    (value : ℤ) (hi lo : ℕ)
    → lo ≤ hi
    → hi < 2 ^ 32
    → (hi + 1 ≡ 2 ^ 32) × (get_slice value hi lo ≡ (if ltb lo 64 then some (pos 0) else none))
      ⊎ (63 ≤ hi) × (hi + 1 < 2 ^ 32) × (get_slice value hi lo ≡ none)
      ⊎ (hi < 63)
        × ((n above below : ℕ) × (get_slice value hi lo ≡ some (pos n))
            × (n < 2 ^ (hi + 1 - lo))
            × (below < 2 ^ lo)
            × (to_word value ≡ above * 2 ^ (hi + 1) + n * 2 ^ lo + below))
unfolding get_slice
get_slice_parts value hi lo h bound = elim (dec_lt (hi + 1) (2 ^ 32)) [
  | no at_end ↦
      let wrapped : (hi + 1) % 2 ^ 32 ≡ 0 = omega arith in
      inl (omega arith, rw wrapped (empty_slice (to_word value) lo))
  | yes small ↦
      let kept : (hi + 1) % 2 ^ 32 ≡ hi + 1 = omega arith in
      elim (dec_lt hi 63) [
        | no out ↦ inr (inl (omega arith, small, rw kept (undefined_slice _ hi lo (omega arith))))
        | yes inside ↦
            let w = to_word value in
            let m = 2 ^ lo in
            let k = 2 ^ (hi + 1 - lo) in
            let product : 2 ^ (hi + 1) ≡ m * k =
              ap (λ e. 2 ^ e) (omega arith) ∙ pow-add lo (hi + 1 - lo) in
            let (below, parts) = div_parts w m k (pow-pos lo) (pow-pos (hi + 1 - lo)) in
            let narrow : k ≤ 2 ^ 63 = pow-le-pow_right (omega arith) {j = 63} (omega arith) in
            inr (
              inr (
                inside,
                (
                  w % (m * k) / m,
                  w / (m * k),
                  w % (m * k) % m,
                  rw (kept, product) (defined_slice (w % (m * k) / m) hi lo inside h (omega arith)),
                  below,
                  mod-lt (w % (m * k)) (pow-pos lo),
                  rw product parts,
                ),
              ))
      ]
]
