-- ===== src/Softfp/Arith/Root/Normal.antt =====
-- `square_root` of `lib/softfp/src/fp.rs` for normal numbers.
use Prim.Native.Nat.{◌≤◌}
use native.Mathlib.Nat.{mod-eq_of_lt}
use r2vm.Base.{
  ℕ, ◌+◌, ◌-◌, ◌*◌, ◌/◌, ◌%◌, ◌^◌, ◌<◌, ◌≡◌, refl, ap, ◌∙◌, ◌==◌, sll, Bool, true, false,
  if◌then◌else◌, Option, some, arith, pow_add, pow_pos, pow_le,
}
use r2vm.Softfp.Format.{
  Format, RoundingMode, Calc, carry_on, lift, ◌>>=◌, ◌>>◌, return, set_exception_flag,
  invalid_operation_flag, divide_by_zero_flag, ◌-i◌,
}
use r2vm.Softfp.Fields.{
  sign, is_signaling, is_infinite, is_zero, quiet_nan, exponent_bias, get_normalized_significand,
}
use r2vm.Softfp.Fields.Layout.{sign-encoded}
use r2vm.Softfp.Fields.Normal.{
  normal, IsNormal, magnitude-lt, is_nan-normal, is_infinite-normal, is_zero-normal,
  get_normalized_significand-normal,
}
use r2vm.Softfp.Round.{round}
use r2vm.Softfp.Round.Sticky.{rounded}
use r2vm.Softfp.Round.Packed.{IsFormat, scaled_lt}
use r2vm.Softfp.Round.Exponents.{unbiased, two_biases, bias-lt}
use r2vm.Softfp.Round.Encoded.{scaled_le, round-finished}
use r2vm.Softfp.Round.Overflow.{raised, finished}
use r2vm.Softfp.Arith.Divide.Loop.{powers}
use r2vm.Softfp.Arith.Divide.Normal.{significand, significand-bounds}
use r2vm.Softfp.Arith.Root.{square_root, root_finite, root_significand, halved}
use r2vm.Softfp.Arith.Root.Loop.{IsRoot, root_significand-IsRoot}
use r2vm.Softfp.Arith.Root.Bounds.{four_times, root_bounds}

module _ (f : Format) (v : IsFormat f) (rm : RoundingMode) where
  -- A significand in [1, 4), which is rooted and rounded.
  rooted :
      (s h flags : ℕ)
      → 1 ≤ h
      → h ≤ 2 ^ f.exponent_width - 1 - 1
      → 2 ^ (f.significand_width + 2) ≤ s
      → s < 4 * 2 ^ (f.significand_width + 2)
      → (q : ℕ) × IsRoot f (s * 2 ^ (f.significand_width + 2)) q
        × ((lift (root_significand f s) >>= round f rm false (unbiased f v h)) flags
            ≡ finished f rm false
                ((h - 1) * 2 ^ f.significand_width + rounded rm false q 4)
                (raised flags q 4))
  rooted s h flags l k p r = by_root (root_significand-IsRoot f v s p r)
    where
      m : ℕ
      m = 2 ^ (f.significand_width + 2)

      by_root :
          (q : ℕ) × (root_significand f s ≡ some q) × IsRoot f (s * 2 ^ (f.significand_width + 2)) q
          → (q : ℕ) × IsRoot f (s * 2 ^ (f.significand_width + 2)) q
            × ((lift (root_significand f s) >>= round f rm false (unbiased f v h)) flags
                ≡ finished f rm false
                    ((h - 1) * 2 ^ f.significand_width + rounded rm false q 4)
                    (raised flags q 4))
      by_root (q, found, root) = (
        q,
        root,
        ap (λ o. (lift o >>= round f rm false (unbiased f v h)) flags) found
            ∙ round-finished f rm v false h q flags l
                (omega (arith, k, two_biases f v, bias-lt f v)) (bounds.0)
                (omega
                  (arith, bounds, pow_add f.significand_width 2, pow_add f.significand_width 3)),
      )
        where
          bounds : (m ≤ q) × (q < 2 * m)
          bounds =
              root_bounds f (s * m) q m root (omega (arith, pow_add f.significand_width 2))
                (scaled_le m s m p)
                (omega (
                  arith,
                  four_times m,
                  scaled_lt s (4 * m) m r (pow_pos (f.significand_width + 2)),
                ))

  -- The significand that is rooted, for an even exponent.
  abbrev pub radicand : (e t : ℕ) → ℕ
  radicand e t = if (e + exponent_bias f) % 2 == 0 then significand f t else significand f t * 2

  -- With a positive normal number, all the tests fail.
  square_root-normal :
      (e t flags : ℕ)
      → IsNormal f v e t
      → square_root f rm (normal f v false e t) flags
        ≡ root_finite f rm (unbiased f v e) (significand f t) flags
  unfolding square_root
  square_root-normal e t flags x =
      ap (λ c. branches c zero negative infinite) (is_nan-normal f v e t x false)
      ∙ ap (λ c. branches false c negative infinite) (is_zero-normal f v e t x false)
      ∙ ap (λ c. branches false false c infinite)
          (sign-encoded f v false (e * 2 ^ f.significand_width + t) (magnitude-lt f v e t x))
      ∙ ap (branches false false false) (is_infinite-normal f v e t x false)
      ∙ ap (λ o. carry_on o finite) (get_normalized_significand-normal f v e t x false flags)
    where
      a : ℕ
      a = normal f v false e t

      zero : Bool
      zero = is_zero f a

      negative : Bool
      negative = sign f a

      infinite : Bool
      infinite = is_infinite f a

      finite : ℕ × ℕ → Calc ℕ
      finite s = root_finite f rm (s.0) (s.1)

      branches : (nan zero negative infinite : Bool) → Option (ℕ × ℕ)
      branches nan zero negative infinite =
          (if nan
              then (if is_signaling f a
                  then set_exception_flag divide_by_zero_flag >> return (quiet_nan f)
                  else return (quiet_nan f))
              else if zero
              then return a
              else if negative
              then set_exception_flag invalid_operation_flag >> return (quiet_nan f)
              else if infinite
              then return a
              else (get_normalized_significand f a >>= finite))
            flags

  root_finite-even :
      (x s flags : ℕ)
      → (x % 2 == 0) ≡ true
      → root_finite f rm x s flags
        ≡ (lift (root_significand f s) >>= round f rm false (halved x)) flags
  unfolding root_finite
  root_finite-even x s flags p =
      ap
        (λ b.
          (if b
              then (lift (root_significand f s) >>= round f rm false (halved x))
              else (lift (root_significand f (sll f.holder s 1))
                  >>= round f rm false (halved (x -i 1))))
            flags)
        p

  root_finite-odd :
      (x s flags : ℕ)
      → (x % 2 == 0) ≡ false
      → root_finite f rm x s flags
        ≡ (lift (root_significand f (sll f.holder s 1)) >>= round f rm false (halved (x -i 1)))
            flags
  unfolding root_finite
  root_finite-odd x s flags p =
      ap
        (λ b.
          (if b
              then (lift (root_significand f s) >>= round f rm false (halved x))
              else (lift (root_significand f (sll f.holder s 1))
                  >>= round f rm false (halved (x -i 1))))
            flags)
        p

  -- The square root of a positive normal number, in every mode: the encoding of the root rounded once, with
  -- the flags of the exact root. `q` is the root of the radicand with the two bits for rounding, the last
  -- of which is set exactly where the root is not exact.
  pub square_root-finished :
      (e t flags : ℕ)
      → IsNormal f v e t
      → (q : ℕ) × IsRoot f (radicand e t * 2 ^ (f.significand_width + 2)) q
        × (square_root f rm (normal f v false e t) flags
            ≡ finished f rm false
                (((e + exponent_bias f) / 2 - 1) * 2 ^ f.significand_width + rounded rm false q 4)
                (raised flags q 4))
  square_root-finished e t flags x = by_parity ((e + exponent_bias f) % 2 == 0) refl
    where
      h : ℕ
      h = (e + exponent_bias f) / 2

      bounds :
          (2 ^ (f.significand_width + 2) ≤ significand f t)
          × (significand f t < 2 ^ (f.significand_width + 3))
      bounds = significand-bounds f t x.fraction

      double : 2 ^ (f.significand_width + 3) ≡ 2 * 2 ^ (f.significand_width + 2)
      double = omega (arith, pow_add f.significand_width 2, pow_add f.significand_width 3)

      low : 1 ≤ h
      low = omega (arith, x.low, two_biases f v, pow_le 3 f.exponent_width v.exponent_low)

      high : h ≤ 2 ^ f.exponent_width - 1 - 1
      high = omega (arith, x.high, two_biases f v)

      parity : (unbiased f v e) % 2 ≡ (e + exponent_bias f) % 2
      parity = omega (arith, x.high, bias-lt f v, two_biases f v)

      is_even : ((e + exponent_bias f) % 2 == 0) ≡ true → (e + exponent_bias f) % 2 ≡ 0
      is_even even = ground arith

      is_odd : ((e + exponent_bias f) % 2 == 0) ≡ false → (e + exponent_bias f) % 2 ≡ 1
      is_odd odd = ground arith

      wide : 2 ^ f.exponent_width ≤ 2 ^ 16
      wide = omega (arith, bias-lt f v, two_biases f v)

      halved_even : (e + exponent_bias f) % 2 ≡ 0 → halved (unbiased f v e) ≡ unbiased f v h
      halved_even p = ground (arith, p, wide, x.high, bias-lt f v)

      halved_odd : (e + exponent_bias f) % 2 ≡ 1 → halved (unbiased f v e -i 1) ≡ unbiased f v h
      halved_odd p = ground (arith, p, wide, x.high, bias-lt f v)

      shifted : sll f.holder (significand f t) 1 ≡ significand f t * 2
      shifted = mod-eq_of_lt (omega (arith, bounds, powers f v))

      by_parity :
          (even : Bool)
          → ((e + exponent_bias f) % 2 == 0) ≡ even
          → (q : ℕ) × IsRoot f
              ((if even then significand f t else significand f t * 2)
                * 2 ^ (f.significand_width + 2))
              q
            × (square_root f rm (normal f v false e t) flags
                ≡ finished f rm false
                    ((h - 1) * 2 ^ f.significand_width + rounded rm false q 4)
                    (raised flags q 4))
      by_parity true even =
          let root =
            rooted (significand f t) h flags low high (bounds.0) (omega (arith, bounds, double)) in
          (
            root.0,
            root.1,
            square_root-normal e t flags x
                ∙ root_finite-even (unbiased f v e) (significand f t) flags
                    (ap (λ n. n == 0) parity ∙ even)
                ∙ ap
                    (λ n.
                      (lift (root_significand f (significand f t)) >>= round f rm false n) flags)
                    (halved_even (is_even even))
                ∙ root.2,
          )
      by_parity false odd =
          let root =
            rooted (significand f t * 2) h flags low high (omega (arith, bounds))
              (omega (arith, bounds, double)) in
          (
            root.0,
            root.1,
            square_root-normal e t flags x
                ∙ root_finite-odd (unbiased f v e) (significand f t) flags
                    (ap (λ n. n == 0) parity ∙ odd)
                ∙ ap
                    (λ n.
                      (lift (root_significand f n)
                          >>= round f rm false (halved (unbiased f v e -i 1)))
                        flags)
                    shifted
                ∙ ap
                    (λ n.
                      (lift (root_significand f (significand f t * 2)) >>= round f rm false n)
                        flags)
                    (halved_odd (is_odd odd))
                ∙ root.2,
          )
