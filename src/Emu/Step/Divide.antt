-- ===== src/Emu/Step/Divide.antt =====
-- Signed division as the instruction set defines it.
use r2vm.Base.{
  ℕ, zero, suc, ◌+◌, ◌-◌, ◌*◌, ◌/◌, ◌%◌, ◌^◌, ◌<◌, ◌≤◌, ◌≡◌, ◌≢◌, inl, inr, refl, sym, ap, ◌∙◌,
  arith, Bool-cases, ltb, ◌==◌, true, false, pow_pos,
}
use native.Mathlib.Nat.{
  add-mul-mod_self_right, add-mul, mul-add, mod-eq_of_lt, div-add-mod', mod-lt, mod_self,
  div-le_self, mul_comm, pow-suc,
}
use mathlib.Core.Path.{subst}
use r2vm.Emu.Step.Arith.{div, rem, wrapping_div, wrapping_rem, magnitude, negated}

-- Numbers that differ by a multiple of `m`.
shifted : (m x y j k : ℕ) → x + j * m ≡ y + k * m → x % m ≡ y % m
shifted m x y j k e =
    sym (add-mul-mod_self_right x j m) ∙ ap (λ (t : ℕ). t % m) e ∙ add-mul-mod_self_right y k m

-- A word and its negation add up to `m`, or are both 0.
data Opposite (m x : ℕ) : ℕ → Type 0 where
  both_zero : x ≡ 0 → Opposite m x 0
  sum : (y : ℕ) → y + x ≡ m → Opposite m x y

negated-Opposite : (m x : ℕ) → x < m → Opposite m x ((m - x) % m)
negated-Opposite m zero h = subst (Opposite m 0) (sym (mod_self' m h)) (both_zero refl)
  where
    mod_self' : (m : ℕ) → 0 < m → (m - 0) % m ≡ 0
    mod_self' m h = ap (λ (t : ℕ). t % m) {x = m - 0} {y = m} (omega arith) ∙ mod_self m
negated-Opposite m (suc x) h =
    subst (Opposite m (suc x)) (sym (mod-eq_of_lt (omega arith))) (sum (m - suc x) (omega arith))

-- A quotient `q` and a remainder `r` of magnitudes, put back with the signs of the operands: `d` and
-- `s` are the words of the quotient and the remainder.
module _ (m b q r : ℕ) where
  cancel_left : (d : ℕ) → d + q ≡ m → d * b + q * b ≡ b * m
  cancel_left d e = sym (add-mul d q b) ∙ ap (λ (t : ℕ). t * b) e ∙ mul_comm m b

  cancel_right : (c : ℕ) → b + c ≡ m → q * b + q * c ≡ q * m
  cancel_right c e = sym (mul-add q b c) ∙ ap (λ (t : ℕ). q * t) e

  -- Only the divisor is negative.
  plus_minus : (c x d : ℕ) → b + c ≡ m → q * c + r ≡ x → Opposite m q d → (d * b + r) % m ≡ x % m
  plus_minus c x d hb hx (both_zero z) =
      ap (λ (t : ℕ). t % m) (omega (arith, ap (λ (t : ℕ). t * c) z, hx))
  plus_minus c x d hb hx (sum _ e) =
      shifted m (d * b + r) x q b (omega (arith, cancel_left d e, cancel_right c hb, hx))

  -- Only the dividend is negative.
  minus_plus :
      (a x d s : ℕ)
      → a + x ≡ m
      → a < m
      → q * b + r ≡ x
      → Opposite m q d
      → Opposite m r s
      → (d * b + s) % m ≡ a % m
  minus_plus a x d s ha lt hx (both_zero z) (both_zero y) =
      absurd (omega (arith, ap (λ (t : ℕ). t * b) z, hx, y))
  minus_plus a x d s ha lt hx (both_zero z) (sum _ f) =
      ap (λ (t : ℕ). t % m) (omega (arith, ap (λ (t : ℕ). t * b) z, hx, f))
  minus_plus a x d s ha lt hx (sum _ e) (both_zero y) =
      shifted m (d * b + 0) a 1 b (omega (arith, cancel_left d e, hx, y))
  minus_plus a x d s ha lt hx (sum _ e) (sum _ f) =
      shifted m (d * b + s) a 1 (suc b) (omega (arith, cancel_left d e, hx, f))

  -- Both are negative.
  minus_minus :
      (a c x s : ℕ)
      → a + x ≡ m
      → b + c ≡ m
      → q * c + r ≡ x
      → Opposite m r s
      → (q * b + s) % m ≡ a % m
  minus_minus a c x s ha hb hx (both_zero y) =
      shifted m (q * b + 0) a 1 q (omega (arith, cancel_right c hb, hx, y))
  minus_minus a c x s ha hb hx (sum _ f) =
      shifted m (q * b + s) a 1 (suc q) (omega (arith, cancel_right c hb, hx, f))

-- `q` and `r` divide `a` by `b`, words of `w` bits read as signed numbers: they satisfy the equation of
-- division up to wrap-around, and in magnitude exactly, the remainder is smaller than the divisor and has
-- the dividend's sign. Without a divisor the quotient is all ones and the remainder is the dividend.
pub record IsSignedDivision (w a b q r : ℕ) : Type 0 where
  pub equation : (q * b + r) % 2 ^ w ≡ a
  pub magnitudes : b ≢ 0 → magnitude w q * magnitude w b + magnitude w r ≡ magnitude w a
  pub by_zero : b ≡ 0 → (q ≡ 2 ^ w - 1) × (r ≡ a)
  pub smaller : b ≢ 0 → magnitude w r < magnitude w b
  pub same_sign : b ≢ 0 → r ≢ 0 → ltb r (2 ^ (w - 1)) ≡ ltb a (2 ^ (w - 1))

module _ (w : ℕ) (wide : 1 ≤ w) where
  half : 2 ^ w ≡ 2 ^ (w - 1) + 2 ^ (w - 1)
  half =
      ap (λ (t : ℕ). 2 ^ t) {x = w} {y = suc (w - 1)} (omega arith)
      ∙ omega (arith, pow-suc 2 (w - 1))

  magnitude-le : (x : ℕ) → x < 2 ^ w → magnitude w x ≤ 2 ^ (w - 1)
  magnitude-le x h = elim (Bool-cases (ltb x (2 ^ (w - 1)))) [
    | inl e ↦ rw e (ground (arith, e))
    | inr e ↦ rw e (ground (arith, e, half))
  ]

  magnitude-pos : (x : ℕ) → x < 2 ^ w → x ≢ 0 → 0 < magnitude w x
  magnitude-pos x h ne = elim (Bool-cases (ltb x (2 ^ (w - 1)))) [
    | inl e ↦ rw e (omega arith)
    | inr e ↦ rw e (omega arith)
  ]

  rest_plus : (r : ℕ) → r < 2 ^ (w - 1) → (magnitude w r ≡ r) × (ltb r (2 ^ (w - 1)) ≡ true)
  rest_plus r h = let e : ltb r (2 ^ (w - 1)) ≡ true = ground (arith, h) in (rw e refl, e)

  rest_minus :
      (r s : ℕ)
      → r < 2 ^ (w - 1)
      → Opposite (2 ^ w) r s
      → (magnitude w s ≡ r) × (s ≢ 0 → ltb s (2 ^ (w - 1)) ≡ false)
  rest_minus r s h (both_zero z) =
      ((rest_plus 0 (omega (arith, h))).0 ∙ sym z, λ ne. absurd (ne refl))
  rest_minus r s h (sum _ e) =
      let big : ltb s (2 ^ (w - 1)) ≡ false = ground (arith, h, e, half) in
      (rw big (omega (arith, e)), λ _. big)

  -- A quotient's magnitude fits, so that it is read back from the word, negated or not.
  magnitude-small : (q : ℕ) → q ≤ 2 ^ (w - 1) → magnitude w q ≡ q
  magnitude-small q h = elim (Bool-cases (ltb q (2 ^ (w - 1)))) [
    | inl e ↦ rw e refl
    | inr e ↦ rw e (ground (arith, e, h, half))
  ]

  magnitude-Opposite : (q d : ℕ) → q ≤ 2 ^ (w - 1) → Opposite (2 ^ w) q d → magnitude w d ≡ q
  magnitude-Opposite q _ h (both_zero z) = magnitude-small 0 (omega arith) ∙ sym z
  magnitude-Opposite q d h (sum _ e) = elim (Bool-cases (ltb d (2 ^ (w - 1)))) [
    | inl f ↦ rw f (ground (arith, e, h, half, f))
    | inr f ↦ rw f (omega (arith, e))
  ]

  module _ (a b : ℕ) (ha : a < 2 ^ w) (hb : b < 2 ^ w) where
    finish :
        (q r s c n x : ℕ)
        → b ≢ 0
        → magnitude w q ≡ n
        → magnitude w a ≡ x
        → n * c + r ≡ x
        → (q * b + s) % 2 ^ w ≡ a
        → magnitude w b ≡ c
        → r < c
        → magnitude w s ≡ r
        → (s ≢ 0 → ltb s (2 ^ (w - 1)) ≡ ltb a (2 ^ (w - 1)))
        → IsSignedDivision w a b q s
    finish q r s c n x ne hn hx sums e hc lt hm sign = record {
      equation = e;
      magnitudes = λ _. rw (hn, hc, hm, hx) sums;
      by_zero = λ z. absurd (ne z);
      smaller = λ _. omega (arith, hc, lt, hm);
      same_sign = λ _. sign;
    }

    -- The remainder is below the half of the range.
    below : (c x : ℕ) → magnitude w b ≡ c → b ≢ 0 → (x % c < c) × (x % c < 2 ^ (w - 1))
    below c x hc ne =
        let lt = mod-lt x {m = c} (omega (arith, hc, magnitude-pos b hb ne)) in
        (lt, omega (arith, hc, lt, magnitude-le b hb))

    abbrev c_minus : ℕ
    c_minus = 2 ^ w - b

    abbrev x_minus : ℕ
    x_minus = 2 ^ w - a

    plus_case :
        (c d : ℕ)
        → magnitude w b ≡ c
        → b ≢ 0
        → ltb a (2 ^ (w - 1)) ≡ true
        → magnitude w d ≡ a / c
        → (d * b + a % c) % 2 ^ w ≡ a
        → IsSignedDivision w a b d (a % c)
    plus_case c d hc ne f hq e =
        let r = below c a hc ne in
        let rest = rest_plus (a % c) (r.1) in
        finish d (a % c) (a % c) c (a / c) a ne hq (rw f refl) (div-add-mod' a c) e hc (r.0)
          (rest.0) (λ _. rest.1 ∙ sym f)

    opposite : (x : ℕ) → x < 2 ^ (w - 1) → Opposite (2 ^ w) x (negated w x)
    opposite x h = negated-Opposite (2 ^ w) x (omega (arith, half, h))

    minus_case :
        (c d : ℕ)
        → magnitude w b ≡ c
        → b ≢ 0
        → ltb a (2 ^ (w - 1)) ≡ false
        → magnitude w d ≡ x_minus / c
        → (d * b + negated w (x_minus % c)) % 2 ^ w ≡ a
        → IsSignedDivision w a b d (negated w (x_minus % c))
    minus_case c d hc ne f hq e =
        let r = below c x_minus hc ne in
        let rest =
          rest_minus (x_minus % c) (negated w (x_minus % c)) (r.1) (opposite (x_minus % c) (r.1)) in
        finish d (x_minus % c) (negated w (x_minus % c)) c (x_minus / c) x_minus ne hq (rw f refl)
          (div-add-mod' x_minus c) e hc (r.0) (rest.0) (λ z. rest.1 z ∙ sym f)

    -- The quotients, as they are and negated.
    kept-magnitude : (x c : ℕ) → x ≤ 2 ^ (w - 1) → magnitude w (x / c) ≡ x / c
    kept-magnitude x c h = magnitude-small (x / c) (omega (arith, h, div-le_self x c))

    negated-magnitude : (x c : ℕ) → x ≤ 2 ^ (w - 1) → magnitude w (negated w (x / c)) ≡ x / c
    negated-magnitude x c h = magnitude-Opposite (x / c) _ (omega (arith, h, div-le_self x c)) (
        negated-Opposite (2 ^ w) (x / c) (omega (arith, h, div-le_self x c, half, pow_pos (w - 1))))

    nonzero-div : b ≢ 0 → IsSignedDivision w a b (wrapping_div w a b) (wrapping_rem w a b)
    unfolding wrapping_div wrapping_rem
    nonzero-div ne = elim (Bool-cases (ltb a (2 ^ (w - 1)))) [
      | inl f ↦ elim (Bool-cases (ltb b (2 ^ (w - 1)))) [
        | inl g ↦
            rw (f, g)
              (plus_case b (a / b) (rw g refl) ne f (kept-magnitude a b (ground (arith, f)))
                (ap (λ (t : ℕ). t % 2 ^ w) (div-add-mod' a b) ∙ mod-eq_of_lt ha))
        | inr g ↦
            rw (f, g)
              (plus_case c_minus (negated w (a / c_minus)) (rw g refl) ne f
                (negated-magnitude a c_minus (ground (arith, f)))
                (plus_minus (2 ^ w) b (a / c_minus) (a % c_minus) c_minus a
                    (negated w (a / c_minus)) (omega arith) (div-add-mod' a c_minus)
                    (negated-Opposite (2 ^ w) (a / c_minus) (omega (arith, div-le_self a c_minus)))
                  ∙ mod-eq_of_lt ha))
      ]
      | inr f ↦ elim (Bool-cases (ltb b (2 ^ (w - 1)))) [
        | inl g ↦
            rw (f, g)
              (minus_case b (negated w (x_minus / b)) (rw g refl) ne f
                (negated-magnitude x_minus b (ground (arith, f, half)))
                (minus_plus (2 ^ w) b (x_minus / b) (x_minus % b) a x_minus
                    (negated w (x_minus / b)) (negated w (x_minus % b)) (omega arith) ha
                    (div-add-mod' x_minus b)
                    (negated-Opposite (2 ^ w) (x_minus / b)
                      (ground (arith, f, half, div-le_self x_minus b)))
                    (opposite (x_minus % b) ((below b x_minus (rw g refl) ne).1))
                  ∙ mod-eq_of_lt ha))
        | inr g ↦
            rw (f, g)
              (minus_case c_minus (x_minus / c_minus) (rw g refl) ne f
                (kept-magnitude x_minus c_minus (ground (arith, f, half)))
                (minus_minus (2 ^ w) b (x_minus / c_minus) (x_minus % c_minus) a c_minus x_minus
                    (negated w (x_minus % c_minus)) (omega arith) (omega arith)
                    (div-add-mod' x_minus c_minus)
                    (opposite (x_minus % c_minus) ((below c_minus x_minus (rw g refl) ne).1))
                  ∙ mod-eq_of_lt ha))
      ]
    ]

    -- DIV and REM of words divide them as signed numbers: the equation of division up to wrap-around, and
    -- exactly in magnitude, so that the quotient is cut towards zero, with a remainder that is smaller than
    -- the divisor and has the dividend's sign, the overflow of the smallest number by -1 included. By zero
    -- the quotient is -1 and the remainder the dividend.
    pub div-rem : IsSignedDivision w a b (div w a b) (rem w a b)
    unfolding div rem wrapping_div wrapping_rem
    div-rem = elim (Bool-cases (b == 0)) [
      | inl e ↦ rw e (record {
        equation = by_zero (ground (arith, e));
        magnitudes = λ ne. absurd (ne (ground (arith, e)));
        by_zero = λ _. (refl, refl);
        smaller = λ ne. absurd (ne (ground (arith, e)));
        same_sign = λ ne. absurd (ne (ground (arith, e)));
      })
      | inr e ↦ rw e (nonzero-div (ground (arith, e)))
    ]
      where
        by_zero : b ≡ 0 → ((2 ^ w - 1) * b + a) % 2 ^ w ≡ a
        by_zero z =
            ap (λ (t : ℕ). ((2 ^ w - 1) * t + a) % 2 ^ w) z
            ∙ ap (λ (t : ℕ). t % 2 ^ w) {x = (2 ^ w - 1) * 0 + a} {y = a} (omega arith)
            ∙ mod-eq_of_lt ha
