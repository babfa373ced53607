-- ===== src/Softfp/Round/Packed.antt =====
-- The number that `round` of `lib/softfp/src/fp.rs` puts together from its parts.
use Prim.Native.Nat.{◌≤◌}
use native.Mathlib.Nat.{mod-lt, div-eq_of_lt-le, mod-eq_of_lt, pow-suc}
use r2vm.Base.{
  zero, suc, flag_ext, flag-bit_and, bit_and-shifted, pow_pos, pow_add, ℕ, ◌+◌, ◌-◌, ◌*◌, ◌/◌, ◌%◌,
  ◌^◌, ◌<◌, ◌≡◌, refl, ap, ◌∙◌, bit_and, bit_or, bit_and-mask, bit_and-le, bit_and-field,
  bit_or-fields, bit_or-fields_right, Bool, true, false, if◌then◌else◌, arith,
}
use r2vm.Softfp.Format.{Format, RoundingMode}
use r2vm.Softfp.Fields.{set_sign, set_biased_exponent, set_trailing_significand}
use r2vm.Softfp.Round.{packed}

-- The formats that the code is used with, and their like.
pub record IsFormat (f : Format) : Type 0 where
  pub holder_width : f.holder ≡ f.exponent_width + f.significand_width + 1
  pub exponent_low : 3 ≤ f.exponent_width
  pub exponent_high : f.exponent_width ≤ 16
  pub significand_low : 2 ≤ f.significand_width
  pub double_width : 2 * f.significand_width + 4 ≤ f.double_holder
  pub double_small : f.double_holder ≤ 128

-- A number from its sign, and from its biased exponent and trailing significand in one.
unfoldable pub encoded : Format → (negative : Bool) → (magnitude : ℕ) → ℕ
encoded f negative magnitude =
    if negative then 2 ^ (f.exponent_width + f.significand_width) + magnitude else magnitude

bit_or_zero_left : (n : ℕ) → bit_or 0 n ≡ n
bit_or_zero_left n = omega (arith, bit_or-fields_right 0 n 0 (omega arith), one_power)
  where
    one_power : bit_or 0 (n * 2 ^ 0) ≡ bit_or 0 n
    one_power = ap (bit_or 0) (omega arith)

pub less_one : (e s : ℕ) → 0 < e → (e - 1) * s + s ≡ e * s
less_one zero s p = absurd (omega arith)
less_one (suc e) s p = grind arith

mul-div_cancel : (x d : ℕ) → 0 < d → x * d / d ≡ x
mul-div_cancel x d p = div-eq_of_lt-le d (omega arith) (omega (arith, ap (λ (t : ℕ). t * d) refl))

bit_and_comm : (w a b : ℕ) → a < 2 ^ w → b < 2 ^ w → bit_and a b ≡ bit_and b a
bit_and_comm w a b p q =
    flag_ext w _ _ (omega (arith, bit_and-le a b)) (omega (arith, bit_and-le b a))
      λ i _. omega (arith, flag-bit_and a b i, flag-bit_and b a i)

pub scaled_lt : (x e s : ℕ) → x < e → 0 < s → x * s < e * s
scaled_lt x e s p q = grind arith

quotient_one : (m d : ℕ) → d ≤ m → m < 2 * d → m / d ≡ 1
quotient_one m d p q = div-eq_of_lt-le d (omega arith) (omega arith)

top_bit_kept : (k mask : ℕ) → 2 ^ k ≤ mask → mask < 2 * 2 ^ k → bit_and (1 * 2 ^ k) mask ≡ 1 * 2 ^ k
top_bit_kept k mask p q =
    bit_and_comm (suc k) (1 * 2 ^ k) mask (omega (arith, pow-suc 2 k, pow_pos k))
      (omega (arith, pow-suc 2 k))
    ∙ bit_and-shifted k mask 1
    ∙ ap (λ (t : ℕ). bit_and t 1 * 2 ^ k) (quotient_one mask (2 ^ k) p q)

module _ (f : Format) (rm : RoundingMode) where
  abbrev pub sign_part : Bool → ℕ
  sign_part true = 1
  sign_part false = 0

  set_sign_zero :
      (negative : Bool)
      → set_sign f 0 negative ≡ sign_part negative * 2 ^ (f.exponent_width + f.significand_width)
  unfolding set_sign
  set_sign_zero true = bit_or_zero_left _ ∙ omega arith
  set_sign_zero false =
      omega (arith, bit_and-le 0 (2 ^ f.holder - 1 - 2 ^ (f.exponent_width + f.significand_width)))

  module _ (v : IsFormat f) where
    -- The width of the holder, with products of powers.
    pub holder_powers : 2 ^ f.holder ≡ 2 * (2 ^ f.exponent_width * 2 ^ f.significand_width)
    holder_powers =
        ap (λ (t : ℕ). 2 ^ t) v.holder_width
        ∙ pow_add (f.exponent_width + f.significand_width) 1
        ∙ omega (arith, pow_add f.exponent_width f.significand_width)

    pub mask_product :
        (2 ^ f.exponent_width - 1) * 2 ^ f.significand_width + 2 ^ f.significand_width
        ≡ 2 ^ f.exponent_width * 2 ^ f.significand_width
    mask_product =
        less_one (2 ^ f.exponent_width) (2 ^ f.significand_width) (pow_pos f.exponent_width)

    -- The mask of the biased exponent does not touch the sign.
    sign_kept :
        (negative : Bool)
        → bit_and
            (sign_part negative * 2 ^ (f.exponent_width + f.significand_width))
            (2 ^ f.holder - 1 - (2 ^ f.exponent_width - 1) * 2 ^ f.significand_width)
          ≡ sign_part negative * 2 ^ (f.exponent_width + f.significand_width)
    sign_kept false = omega (
      arith,
      bit_and-le (0 * 2 ^ (f.exponent_width + f.significand_width))
          (2 ^ f.holder - 1 - (2 ^ f.exponent_width - 1) * 2 ^ f.significand_width),
    )
    sign_kept true =
        top_bit_kept (f.exponent_width + f.significand_width) _
          (omega (
            arith,
            holder_powers,
            pow_add f.exponent_width f.significand_width,
            pow_pos f.significand_width,
            mask_product,
          ))
          (omega (
            arith,
            holder_powers,
            pow_add f.exponent_width f.significand_width,
            pow_pos f.significand_width,
            mask_product,
          ))

    exponent_field :
        (biased : ℕ)
        → biased < 2 ^ f.exponent_width
        → bit_and
            (biased % 2 ^ f.holder * 2 ^ f.significand_width % 2 ^ f.holder)
            ((2 ^ f.exponent_width - 1) * 2 ^ f.significand_width)
          ≡ biased * 2 ^ f.significand_width
    exponent_field biased p =
        ap (λ (t : ℕ). bit_and t ((2 ^ f.exponent_width - 1) * 2 ^ f.significand_width)) shifted
        ∙ bit_and-field f.significand_width f.exponent_width (biased * 2 ^ f.significand_width)
        ∙ ap (λ (t : ℕ). t % 2 ^ f.exponent_width * 2 ^ f.significand_width)
            (mul-div_cancel biased (2 ^ f.significand_width) (pow_pos f.significand_width))
        ∙ ap (λ (t : ℕ). t * 2 ^ f.significand_width) (mod-eq_of_lt p)
      where
        below : biased * 2 ^ f.significand_width < 2 ^ f.holder
        below = grind (arith, holder_powers, pow_pos f.significand_width)

        shifted :
            biased % 2 ^ f.holder * 2 ^ f.significand_width % 2 ^ f.holder
            ≡ biased * 2 ^ f.significand_width
        shifted =
            ap (λ (t : ℕ). t * 2 ^ f.significand_width % 2 ^ f.holder) (mod-eq_of_lt (le_mul below))
            ∙ mod-eq_of_lt below
          where
            le_mul : biased * 2 ^ f.significand_width < 2 ^ f.holder → biased < 2 ^ f.holder
            le_mul q = grind (arith, pow_pos f.significand_width)

    below :
        (biased : ℕ)
        → biased < 2 ^ f.exponent_width
        → biased * 2 ^ f.significand_width < 2 ^ (f.exponent_width + f.significand_width)
    below biased p = rw (pow_add f.exponent_width f.significand_width) (
        scaled_lt biased (2 ^ f.exponent_width) (2 ^ f.significand_width) p
          (pow_pos f.significand_width))

    regroup :
        (negative : Bool) (biased : ℕ)
        → sign_part negative * 2 ^ (f.exponent_width + f.significand_width)
            + biased * 2 ^ f.significand_width
          ≡ (sign_part negative * 2 ^ f.exponent_width + biased) * 2 ^ f.significand_width
    regroup negative biased = rw (pow_add f.exponent_width f.significand_width) (grind arith)

    pub set_biased_exponent_lem :
        (negative : Bool) (biased : ℕ)
        → biased < 2 ^ f.exponent_width
        → set_biased_exponent f (set_sign f 0 negative) biased
          ≡ (sign_part negative * 2 ^ f.exponent_width + biased) * 2 ^ f.significand_width
    unfolding set_biased_exponent
    set_biased_exponent_lem negative biased p =
        rw (set_sign_zero negative, sign_kept negative, exponent_field biased p)
          (bit_or-fields (f.exponent_width + f.significand_width) (sign_part negative)
              (biased * 2 ^ f.significand_width) (below biased p)
            ∙ regroup negative biased)

    pub encoded_high :
        (negative : Bool) (biased : ℕ)
        → (sign_part negative * 2 ^ f.exponent_width + biased) * 2 ^ f.significand_width
          ≡ encoded f negative (biased * 2 ^ f.significand_width)
    unfolding encoded
    encoded_high true biased = omega (arith, regroup true biased)
    encoded_high false biased = omega (arith, regroup false biased)

    set_trailing_significand_lem :
        (high t : ℕ)
        → high < 2 ^ (f.exponent_width + 1)
        → set_trailing_significand f (high * 2 ^ f.significand_width) t
          ≡ high * 2 ^ f.significand_width + t % 2 ^ f.significand_width
    unfolding set_trailing_significand
    set_trailing_significand_lem high t p =
        rw
          (
            low_mask,
            bit_and-mask f.significand_width t,
            bit_and-field f.significand_width (f.exponent_width + 1)
                (high * 2 ^ f.significand_width),
            mul-div_cancel high (2 ^ f.significand_width) (pow_pos f.significand_width),
            mod-eq_of_lt p,
          )
          (bit_or-fields f.significand_width high (t % 2 ^ f.significand_width)
            (mod-lt t (pow_pos f.significand_width)))
      where
        low_mask :
            2 ^ f.holder - 1 - (2 ^ f.significand_width - 1)
            ≡ (2 ^ (f.exponent_width + 1) - 1) * 2 ^ f.significand_width
        low_mask = omega (
          arith,
          holder_powers,
          pow_pos f.significand_width,
          less_one (2 ^ (f.exponent_width + 1)) (2 ^ f.significand_width)
              (pow_pos (f.exponent_width + 1)),
          ap (λ (t : ℕ). t * 2 ^ f.significand_width) (pow_add f.exponent_width 1),
        )

    pub packed_lem :
        (negative : Bool) (biased t : ℕ)
        → biased < 2 ^ f.exponent_width
        → packed f rm negative biased t
          ≡ encoded f negative (biased * 2 ^ f.significand_width + t % 2 ^ f.significand_width)
    unfolding encoded
    packed_lem negative biased t p = rw (set_biased_exponent_lem negative biased p) (
        set_trailing_significand_lem (sign_part negative * 2 ^ f.exponent_width + biased) t
          (high_lt negative)
        ∙ ap (λ (x : ℕ). x + t % 2 ^ f.significand_width) (encoded_high negative biased)
        ∙ encoded_low negative)
      where
        high_lt :
            (negative : Bool)
            → sign_part negative * 2 ^ f.exponent_width + biased < 2 ^ (f.exponent_width + 1)
        high_lt true = omega (arith, pow_add f.exponent_width 1)
        high_lt false = omega (arith, pow_add f.exponent_width 1)

        encoded_low :
            (negative : Bool)
            → encoded f negative (biased * 2 ^ f.significand_width) + t % 2 ^ f.significand_width
              ≡ encoded f negative (biased * 2 ^ f.significand_width + t % 2 ^ f.significand_width)
        encoded_low true = omega arith
        encoded_low false = refl
