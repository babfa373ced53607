-- ===== src/Softfp/Arith/Root/Loop.antt =====
-- The digits that the square root loop of `lib/softfp/src/fp.rs` finds.
use Prim.Native.Nat.{◌≤◌}
use native.Mathlib.Nat.{mod-eq_of_lt, pow-suc}
use r2vm.Base.{
  leb-true, leb-false, ℕ, zero, suc, ◌+◌, ◌-◌, ◌*◌, ◌/◌, ◌%◌, ◌^◌, ◌<◌, ◌≡◌, refl, ap, sym, ◌∙◌,
  bit_or, ◌==◌, leb, sll, wrapping_add, wrapping_sub, Bool-cases, inl, inr, true, false,
  if◌then◌else◌, some, arith, pow_pos, pow_le, pow_add,
}
use r2vm.Softfp.Format.{Format, RoundingMode}
use r2vm.Softfp.Round.Sticky.{bit_or_one}
use r2vm.Softfp.Round.Packed.{IsFormat, holder_powers}
use r2vm.Softfp.Round.Encoded.{scaled_le}
use r2vm.Softfp.Arith.Divide.{concluded}
use r2vm.Softfp.Arith.Divide.Loop.{half, wrap_sub}
use r2vm.Softfp.Arith.Root.{root_loop, root_significand}

bit_ne_zero : (j : ℕ) → (2 ^ j == 0) ≡ false
bit_ne_zero j = ground (arith, pow_pos j)

-- The squares before and after a digit, with `d` what is left over.
digit_square :
    (r d t : ℕ) → (r + t * 2) * (r + t * 2) + d * 2 * (t * 2) ≡ r * r + (r + t + d) * (t * 2 * 2)
digit_square r d t = grind arith

rejoined : (r t left : ℕ) → r + t ≤ left → r + t + (left - (r + t)) ≡ left
rejoined r t left p = omega arith

next_square : (q : ℕ) → (q + 2) * (q + 2) ≡ q * q + (4 * q + 4)
next_square q = grind arith

sum_square : (d x : ℕ) → d * d + x * d ≡ (d + x) * d
sum_square d x = grind arith

rejoined_at : {d s : ℕ} → d ≤ s → d + (s - d) ≡ s
rejoined_at p = omega arith

taken_square :
    (r left t u : ℕ)
    → t ≡ u * 2
    → r + t ≤ left
    → (r + t * 2) * (r + t * 2) + (left - (r + t)) * 2 * (u * 2 * 2) ≡ r * r + left * (t * 2 * 2)
taken_square r left t u e p =
    ap (λ (x : ℕ). (r + t * 2) * (r + t * 2) + (left - (r + t)) * 2 * (x * 2)) (sym e)
    ∙ digit_square r (left - (r + t)) t
    ∙ ap (λ (x : ℕ). r * r + x * (t * 2 * 2)) (rejoined r t left p)

skipped_square :
    (r left t u : ℕ) → t ≡ u * 2 → r * r + left * 2 * (u * 2 * 2) ≡ r * r + left * (t * 2 * 2)
skipped_square r left t u e = rw e (grind arith)

module _ (f : Format) where
  -- What the loop finds from a state whose current half bit is `2 ^ j`.
  record Found (j result left : ℕ) : Type 0 where
    q : ℕ
    rest : ℕ
    run : root_loop f (suc (suc j)) (2 ^ j) result left ≡ some (q, rest)
    square : q * q + rest * 2 ≡ result * result + left * (2 ^ j * 2 * 2)
    small : rest < 2 * q + 2
    even : q % 2 ≡ 0

  unrolled :
      (n half_bit result left : ℕ)
      → root_loop f (suc n) half_bit result left ≡ (
          if half_bit == 0
          then some (result, left)
          else root_loop f n
              (half_bit / 2)
              (if leb (wrapping_add f.holder result half_bit) left
                then wrapping_add f.holder result (sll f.holder half_bit 1)
                else result)
              (sll f.holder
                (if leb (wrapping_add f.holder result half_bit) left
                  then left - wrapping_add f.holder result half_bit
                  else left)
                1))
  unfolding root_loop
  unrolled n half_bit result left = refl

  round_taken :
      (n half_bit result left : ℕ)
      → (half_bit == 0) ≡ false
      → result + half_bit ≤ left
      → result + half_bit * 2 < 2 ^ f.holder
      → (left - (result + half_bit)) * 2 < 2 ^ f.holder
      → root_loop f (suc n) half_bit result left
        ≡ root_loop f n (half_bit / 2) (result + half_bit * 2) ((left - (result + half_bit)) * 2)
  round_taken n half_bit result left z p q r =
      unrolled n half_bit result left
      ∙ rw (z, tried, doubled, mod-eq_of_lt q, leb-true (result + half_bit) left p, mod-eq_of_lt r)
          refl
    where
      tried : (result + half_bit) % 2 ^ f.holder ≡ result + half_bit
      tried = mod-eq_of_lt (omega (arith, q))

      doubled : half_bit * 2 % 2 ^ f.holder ≡ half_bit * 2
      doubled = mod-eq_of_lt (omega (arith, q))

  round_skipped :
      (n half_bit result left : ℕ)
      → (half_bit == 0) ≡ false
      → left < result + half_bit
      → result + half_bit < 2 ^ f.holder
      → left * 2 < 2 ^ f.holder
      → root_loop f (suc n) half_bit result left ≡ root_loop f n (half_bit / 2) result (left * 2)
  round_skipped n half_bit result left z p q r =
      unrolled n half_bit result left
      ∙ rw (z, mod-eq_of_lt q, leb-false (result + half_bit) left p, mod-eq_of_lt r) refl

  -- The loop ends when the half bit is 0.
  ended : (n result left : ℕ) → root_loop f (suc n) 0 result left ≡ some (result, left)
  unfolding root_loop
  ended n result left = refl

  loop_lem :
      (j result left : ℕ)
      → 2 * (result + 2 ^ j * 2 * 2) ≤ 2 ^ f.holder
      → left < 2 * result + 2 ^ j * 2 * 2
      → result % 2 ≡ 0
      → Found j result left
  loop_lem zero result left p q e = elim (Bool-cases (leb (result + 1) left)) [
    | inl fits ↦ record {
      q = result + 2;
      rest = (left - (result + 1)) * 2;
      run =
          round_taken 1 1 result left refl (ground arith) (omega arith) (omega arith)
          ∙ ended 0 (result + 2) ((left - (result + 1)) * 2);
      square =
          digit_square result (left - (result + 1)) 1
          ∙ ap (λ (t : ℕ). result * result + t * 4) (rejoined result 1 left (ground arith));
      small = ground arith;
      even = omega arith;
    }
    | inr short ↦ record {
      q = result;
      rest = left * 2;
      run =
          round_skipped 1 1 result left refl (ground arith) (omega arith) (ground arith)
          ∙ ended 0 result (left * 2);
      square = omega arith;
      small = ground arith;
      even = e;
    }
  ]
  loop_lem (suc j) result left p q e = elim (Bool-cases (leb (result + 2 ^ suc j) left)) [
    | inl fits ↦
        let later =
          loop_lem j (result + 2 ^ suc j * 2) ((left - (result + 2 ^ suc j)) * 2)
            (omega (arith, pow-suc 2 j)) (ground (arith, pow-suc 2 j)) (omega arith) in
        record {
          q = later.q;
          rest = later.rest;
          run =
              round_taken (suc (suc j)) (2 ^ suc j) result left (bit_ne_zero (suc j)) (ground arith)
                (omega (arith, pow_pos (suc j))) (ground (arith, pow_pos (suc j)))
              ∙ ap
                  (λ (t : ℕ).
                    root_loop f (suc (suc j)) t (result + 2 ^ suc j * 2)
                      ((left - (result + 2 ^ suc j)) * 2))
                  (half j)
              ∙ later.run;
          square =
              later.square
              ∙ taken_square result left (2 ^ suc j) (2 ^ j) (pow-suc 2 j) (ground arith);
          small = later.small;
          even = later.even;
        }
    | inr short ↦
        let later =
          loop_lem j result (left * 2) (omega (arith, pow-suc 2 j)) (ground (arith, pow-suc 2 j))
            e in
        record {
          q = later.q;
          rest = later.rest;
          run =
              round_skipped (suc (suc j)) (2 ^ suc j) result left (bit_ne_zero (suc j))
                (ground arith) (omega (arith, pow_pos (suc j))) (ground (arith, pow_pos (suc j)))
              ∙ ap (λ (t : ℕ). root_loop f (suc (suc j)) t result (left * 2)) (half j)
              ∙ later.run;
          square = later.square ∙ skipped_square result left (2 ^ suc j) (2 ^ j) (pow-suc 2 j);
          small = later.small;
          even = later.even;
        }
  ]

  -- A square root with a last bit for what is left: an even root is exact, and an odd one stands for
  -- all that lies between its neighbours.
  pub data IsRoot (n : ℕ) : ℕ → Type 0 where
    exact : (q : ℕ) → q % 2 ≡ 0 → q * q ≡ n → IsRoot n q
    between : (q : ℕ) → q % 2 ≡ 0 → q * q < n → n < (q + 2) * (q + 2) → IsRoot n (q + 1)

  -- The root of a significand in [1, 4) is found, with all its digits and the sticky bit.
  pub root_significand-IsRoot :
      (v : IsFormat f) (s : ℕ)
      → 2 ^ (f.significand_width + 2) ≤ s
      → s < 4 * 2 ^ (f.significand_width + 2)
      → (q : ℕ) × (root_significand f s ≡ some q) × IsRoot (s * 2 ^ (f.significand_width + 2)) q
  unfolding root_significand
  root_significand-IsRoot v s p h = elim (Bool-cases (found.rest == 0)) [
    | inl done ↦ (
      found.q,
      run ∙ ap (λ b. some (if b then found.q else bit_or found.q 1)) done,
      IsRoot.exact found.q found.even (omega (arith, total, is_zero done)),
    )
    | inr more ↦ (
      found.q + 1,
      run
          ∙ ap (λ b. some (if b then found.q else bit_or found.q 1)) more
          ∙ ap some (omega (arith, bit_or_one found.q, found.even)),
      IsRoot.between found.q found.even (omega (arith, total, is_positive more))
          (omega (arith, total, found.small, next_square found.q)),
    )
  ]
    where
      powers :
          (2 ^ (f.significand_width + 2) ≡ 2 ^ f.significand_width * 2 * 2)
          × (4 * 2 ^ (f.significand_width + 2) ≤ 2 ^ f.holder)
      powers = (
        omega (arith, pow_add f.significand_width 2),
        omega (
          arith,
          holder_powers f RoundingMode.ties_to_even v,
          pow_add f.significand_width 2,
          scaled_le 8 (2 ^ f.exponent_width) (2 ^ f.significand_width)
              (pow_le 3 f.exponent_width v.exponent_low),
        ),
      )

      found :
          Found f.significand_width
            (2 ^ (f.significand_width + 2))
            (s - 2 ^ (f.significand_width + 2))
      found =
          loop_lem f.significand_width (2 ^ (f.significand_width + 2))
            (s - 2 ^ (f.significand_width + 2)) (omega (arith, powers)) (omega (arith, powers))
            (omega (arith, powers))

      total : found.q * found.q + found.rest * 2 ≡ s * 2 ^ (f.significand_width + 2)
      total =
          found.square
          ∙ ap
              (λ (t : ℕ).
                2 ^ (f.significand_width + 2) * 2 ^ (f.significand_width + 2)
                + (s - 2 ^ (f.significand_width + 2)) * t)
              (sym (powers.0))
          ∙ sum_square (2 ^ (f.significand_width + 2)) (s - 2 ^ (f.significand_width + 2))
          ∙ ap (λ (t : ℕ). t * 2 ^ (f.significand_width + 2)) (rejoined_at p)

      rounds : f.significand_width + 2 ≡ suc (suc f.significand_width)
      rounds = omega arith

      run : root_significand f s ≡ concluded f (some (found.q, found.rest))
      run =
          ap
            (λ n. concluded f (
              root_loop f n (2 ^ f.significand_width) (2 ^ (f.significand_width + 2))
                (wrapping_sub f.holder s (2 ^ (f.significand_width + 2)))))
            rounds
          ∙ ap
              (λ x. concluded f (
                root_loop f (suc (suc f.significand_width)) (2 ^ f.significand_width)
                  (2 ^ (f.significand_width + 2)) x))
              (wrap_sub s (2 ^ (f.significand_width + 2)) (2 ^ f.holder) p (omega (arith, powers)))
          ∙ ap (concluded f) found.run

      is_zero : (found.rest == 0) ≡ true → found.rest ≡ 0
      is_zero e = ground arith

      is_positive : (found.rest == 0) ≡ false → 0 < found.rest
      is_positive e = ground arith
