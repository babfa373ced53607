-- ===== src/Softfp/Arith/Divide/Loop.antt =====
-- The digits that the division loop of `lib/softfp/src/fp.rs` finds.
use Prim.Native.Nat.{◌≤◌}
use native.Mathlib.Nat.{
  mod-eq_of_lt, pow-suc, div-eq_of_lt, mul-add-div_right, add-mul-mod_self_right, mod-eq-sub-mod,
}
use r2vm.Base.{
  leb-true, leb-false, ℕ, zero, suc, ◌+◌, ◌-◌, ◌*◌, ◌/◌, ◌%◌, ◌^◌, ◌<◌, ◌≡◌, refl, ap, ◌∙◌, bit_or,
  ◌==◌, leb, sll, wrapping_add, wrapping_sub, Bool-cases, inl, inr, ◌⊎◌, ltb, false, if◌then◌else◌,
  some, arith, pow_pos, pow_le, pow_add,
}
use r2vm.Softfp.Format.{Format, RoundingMode}
use r2vm.Softfp.Round.Sticky.{bit_or_one}
use r2vm.Softfp.Round.Encoded.{scaled_le}
use r2vm.Softfp.Round.Packed.{IsFormat, holder_powers}
use r2vm.Softfp.Arith.Divide.{divide_loop, divide_significands, concluded}

not_one : (j : ℕ) → (2 ^ suc j == 1) ≡ false
not_one j = ground (arith, pow-suc 2 j, pow_pos j)

pub half : (j : ℕ) → 2 ^ suc j / 2 ≡ 2 ^ j
half j = omega (arith, pow-suc 2 j)

shifted_digit : (q b d t : ℕ) → (q + t * 2) * b + d * 2 * t ≡ q * b + (b + d) * (t * 2)
shifted_digit q b d t = grind arith

taken_value :
    (q b r j : ℕ) → b ≤ r → (q + 2 ^ suc j) * b + (r - b) * 2 * 2 ^ j ≡ q * b + r * 2 ^ suc j
taken_value q b r j p =
    rw (pow-suc 2 j)
      (shifted_digit q b (r - b) (2 ^ j) ∙ ap (λ (t : ℕ). q * b + t * (2 ^ j * 2)) (rejoined p))
  where
    rejoined : b ≤ r → b + (r - b) ≡ r
    rejoined p = omega arith

skipped_value : (q b r j : ℕ) → q * b + r * 2 * 2 ^ j ≡ q * b + r * 2 ^ suc j
skipped_value q b r j = rw (pow-suc 2 j) (grind arith)

pub quotient_parts : (q b r : ℕ) → r < b → ((q * b + r) / b ≡ q) × ((q * b + r) % b ≡ r) × (r < b)
quotient_parts q b r p = (
  mul-add-div_right {m = b} (omega arith) q r ∙ omega (arith, div-eq_of_lt p),
  ap (λ (t : ℕ). t % b) (flipped q b r) ∙ add-mul-mod_self_right r q b ∙ mod-eq_of_lt p,
  p,
)
  where
    flipped : (q b r : ℕ) → q * b + r ≡ r + q * b
    flipped q b r = omega arith

pub wrap_sub : (a b m : ℕ) → b ≤ a → a - b < m → (a + m - b) % m ≡ a - b
wrap_sub a b m p q =
    mod-eq-sub-mod (omega arith) ∙ ap (λ (t : ℕ). t % m) (difference a b m p) ∙ mod-eq_of_lt q
  where
    difference : (a b m : ℕ) → b ≤ a → a + m - b - m ≡ a - b
    difference a b m p = omega arith

-- A quotient that may be one too small, with its remainder.
quotient_cases :
    (q b r : ℕ)
    → r < 2 * b
    → (((q * b + r) / b ≡ q) × ((q * b + r) % b ≡ r) × (r < b))
      ⊎ (((q * b + r) / b ≡ q + 1) × ((q * b + r) % b ≡ r - b) × (b ≤ r))
quotient_cases q b r p = elim (Bool-cases (ltb r b)) [
  | inl below ↦ inl (quotient_parts q b r (ground arith))
  | inr above ↦
      let parts = quotient_parts (q + 1) b (r - b) (ground arith) in
      inr (
        ap (λ (t : ℕ). t / b) (split (ground arith)) ∙ parts.0,
        ap (λ (t : ℕ). t % b) (split (ground arith)) ∙ parts.1,
        ground arith,
      )
]
  where
    split : b ≤ r → q * b + r ≡ (q + 1) * b + (r - b)
    split h = omega arith

-- The last bit stands for the rest of a division.
sticky_quotient :
    (n q b r : ℕ)
    → q * b + r ≡ n
    → r < 2 * b
    → q % 2 ≡ 0
    → (if r == 0 then q else bit_or q 1) ≡ (if n % b == 0 then n / b else n / b / 2 * 2 + 1)
sticky_quotient n q b r e p h = ground (arith, bit_or_one q, exact)
  where
    exact : ((n / b ≡ q) × (n % b ≡ r) × (r < b)) ⊎ ((n / b ≡ q + 1) × (n % b ≡ r - b) × (b ≤ r))
    exact = rw (← e) (quotient_cases q b r p)

module _ (f : Format) where
  -- What the loop finds from a state whose current bit is `2 ^ j`.
  record Found (j b quotient remainder : ℕ) : Type 0 where
    q : ℕ
    r : ℕ
    run : divide_loop f (suc j) b (2 ^ j) quotient remainder ≡ some (q, r)
    value : q * b + r ≡ quotient * b + remainder * 2 ^ j
    small : r < 2 * b
    even : q % 2 ≡ 0

  -- One round.
  unrolled :
      (n b bit quotient remainder : ℕ)
      → divide_loop f (suc n) b bit quotient remainder ≡ (
          if bit == 1
          then some (quotient, remainder)
          else divide_loop f n b
              (bit / 2)
              (if leb b remainder then wrapping_add f.holder quotient bit else quotient)
              (sll f.holder (if leb b remainder then remainder - b else remainder) 1))
  unfolding divide_loop
  unrolled n b bit quotient remainder = refl

  round_taken :
      (j b quotient remainder : ℕ)
      → b ≤ remainder
      → quotient + 2 ^ suc j < 2 ^ f.holder
      → (remainder - b) * 2 < 2 ^ f.holder
      → divide_loop f (suc (suc j)) b (2 ^ suc j) quotient remainder
        ≡ divide_loop f (suc j) b (2 ^ j) (quotient + 2 ^ suc j) ((remainder - b) * 2)
  round_taken j b quotient remainder p q r =
      unrolled (suc j) b (2 ^ suc j) quotient remainder
      ∙ rw (not_one j, leb-true b remainder p, half j, mod-eq_of_lt q, mod-eq_of_lt r) refl

  round_skipped :
      (j b quotient remainder : ℕ)
      → remainder < b
      → remainder * 2 < 2 ^ f.holder
      → divide_loop f (suc (suc j)) b (2 ^ suc j) quotient remainder
        ≡ divide_loop f (suc j) b (2 ^ j) quotient (remainder * 2)
  round_skipped j b quotient remainder p r =
      unrolled (suc j) b (2 ^ suc j) quotient remainder
      ∙ rw (not_one j, leb-false b remainder p, half j, mod-eq_of_lt r) refl

  loop_lem :
      (j b quotient remainder : ℕ)
      → 2 * b < 2 ^ f.holder
      → quotient + 2 * 2 ^ j < 2 ^ f.holder
      → remainder < 2 * b
      → quotient % 2 ≡ 0
      → Found j b quotient remainder
  unfolding divide_loop
  loop_lem zero b quotient remainder p q r e = record {
    q = quotient;
    r = remainder;
    run = refl;
    value = omega arith;
    small = r;
    even = e;
  }
  loop_lem (suc j) b quotient remainder p q r e = elim (Bool-cases (leb b remainder)) [
    | inl fits ↦
        let rest =
          loop_lem j b (quotient + 2 ^ suc j) ((remainder - b) * 2) p (omega (arith, pow-suc 2 j))
            (ground arith) (omega (arith, pow-suc 2 j)) in
        record {
          q = rest.q;
          r = rest.r;
          run =
              round_taken j b quotient remainder (ground arith)
                (omega (arith, pow_pos j, pow-suc 2 j)) (ground arith)
              ∙ rest.run;
          value = rest.value ∙ taken_value quotient b remainder j (ground arith);
          small = rest.small;
          even = rest.even;
        }
    | inr short ↦
        let rest =
          loop_lem j b quotient (remainder * 2) p (omega (arith, pow-suc 2 j, pow_pos j))
            (ground arith) e in
        record {
          q = rest.q;
          r = rest.r;
          run = round_skipped j b quotient remainder (ground arith) (ground arith) ∙ rest.run;
          value = rest.value ∙ skipped_value quotient b remainder j;
          small = rest.small;
          even = rest.even;
        }
  ]

  module _ (v : IsFormat f) where
    pub powers :
        (2 ^ (f.significand_width + 2) ≡ 2 * 2 ^ (f.significand_width + 1))
        × (2 ^ (f.significand_width + 3) ≡ 4 * 2 ^ (f.significand_width + 1))
        × (2 ^ (f.significand_width + 3) * 2 ≤ 2 ^ f.holder)
    powers = (
      omega (arith, pow_add f.significand_width 1, pow_add f.significand_width 2),
      omega (arith, pow_add f.significand_width 1, pow_add f.significand_width 3),
      omega (
        arith,
        holder_powers f RoundingMode.ties_to_even v,
        pow_add f.significand_width 3,
        scaled_le 8 (2 ^ f.exponent_width) (2 ^ f.significand_width)
            (pow_le 3 f.exponent_width v.exponent_low),
      ),
    )

    pub divide_significands_lem :
        (a b : ℕ)
        → b ≤ a
        → a < 2 * b
        → b < 2 ^ (f.significand_width + 3)
        → divide_significands f a b
          ≡ some (
              if a * 2 ^ (f.significand_width + 2) % b == 0
              then a * 2 ^ (f.significand_width + 2) / b
              else a * 2 ^ (f.significand_width + 2) / b / 2 * 2 + 1)
    unfolding divide_significands
    divide_significands_lem a b p q h =
        ap
          (λ n. concluded f (
            divide_loop f n b (2 ^ (f.significand_width + 1)) (2 ^ (f.significand_width + 2))
              (sll f.holder (wrapping_sub f.holder a b) 1)))
          rounds
        ∙ ap
            (λ x. concluded f (
              divide_loop f (suc (f.significand_width + 1)) b (2 ^ (f.significand_width + 1))
                (2 ^ (f.significand_width + 2)) x))
            start
        ∙ ap (concluded f) found.run
        ∙ (ap some (
            sticky_quotient (a * 2 ^ (f.significand_width + 2)) found.q b found.r
              (found.value ∙ total) found.small found.even))
      where
        rounds : f.significand_width + 2 ≡ suc (f.significand_width + 1)
        rounds = omega arith

        start : sll f.holder (wrapping_sub f.holder a b) 1 ≡ (a - b) * 2
        start =
            ap (λ (t : ℕ). t * 2 ^ 1 % 2 ^ f.holder)
              (wrap_sub a b (2 ^ f.holder) p (omega (arith, powers)))
            ∙ mod-eq_of_lt (omega (arith, powers))

        doubled_total : (t d : ℕ) → 2 * t * b + d * 2 * t ≡ (d + b) * (2 * t)
        doubled_total t d = grind arith

        rejoined : b ≤ a → a - b + b ≡ a
        rejoined h = omega arith

        total_of : (t u : ℕ) → u ≡ 2 * t → u * b + (a - b) * 2 * t ≡ a * u
        total_of t u e = rw e (doubled_total t (a - b) ∙ ap (λ (x : ℕ). x * (2 * t)) (rejoined p))

        found : Found (f.significand_width + 1) b (2 ^ (f.significand_width + 2)) ((a - b) * 2)
        found =
            loop_lem (f.significand_width + 1) b (2 ^ (f.significand_width + 2)) ((a - b) * 2)
              (omega (arith, powers)) (omega (arith, powers, pow_pos (f.significand_width + 1)))
              (omega arith) (omega (arith, powers))

        total :
            2 ^ (f.significand_width + 2) * b + (a - b) * 2 * 2 ^ (f.significand_width + 1)
            ≡ a * 2 ^ (f.significand_width + 2)
        total = total_of (2 ^ (f.significand_width + 1)) (2 ^ (f.significand_width + 2)) (powers.0)
