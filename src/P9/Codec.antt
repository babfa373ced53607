-- ===== src/P9/Codec.antt =====
-- Reading from and writing to byte streams, as `lib/p9/src/serialize.rs` does it with the `byteorder`
-- crate. A stream is the list of the bytes that are left.
use r2vm.Base.{
  ℕ, zero, suc, ◌*◌, ◌^◌, ◌<◌, ◌≡◌, refl, ap, ◌∙◌, List, [], ◌∷◌, ◌++◌, Option, none, some, length,
}

-- Little-endian integers of `size` bytes, as the crate reads and writes them: what is written is read
-- back, and the bytes behind it are left.
pub record ByteOrder : Type 0 where
  pub write : (size x : ℕ) → List ℕ
  pub read : (size : ℕ) → List ℕ → Option (ℕ × List ℕ)
  pub read-write :
      (size x : ℕ) (rest : List ℕ)
      → x < 2 ^ (8 * size)
      → read size (write size x ++ rest) ≡ some (x, rest)

-- A `Result<A>` of a read: the value and the rest of the stream, or an error.
abbrev pub Decoder : Type 0 → Type 0
Decoder A = List ℕ → Option (A × List ℕ)

abbrev pub continue : {A B : Type 0} → Option (A × List ℕ) → (A → Decoder B) → Option (B × List ℕ)
continue none k = none
continue (some result) k = k (result.0) (result.1)

infixr 5 ◌>>=◌
abbrev pub ◌>>=◌ : {A B : Type 0} → Decoder A → (A → Decoder B) → Decoder B
d >>= k = λ input. continue (d input) k

abbrev pub pure : {A : Type 0} → A → Decoder A
pure a = λ input. some (a, input)

-- The first `size` bytes, as `read_exact` gives them.
unfoldable pub read_exact : ℕ → Decoder (List ℕ)
read_exact zero input = some ([], input)
read_exact (suc size) [] = none
read_exact (suc size) (x ∷ input) =
    continue (read_exact size input) (λ xs rest. some (x ∷ xs, rest))

-- `for _ in 0..len { vec.push(decode!()) }`.
unfoldable pub repeat : {A : Type 0} → ℕ → Decoder A → Decoder (List A)
repeat zero d input = some ([], input)
repeat (suc n) d input =
    continue (d input) (λ x rest. continue (repeat n d rest) (λ xs end. some (x ∷ xs, end)))

-- The decoder reads `a` from the bytes, whatever follows them.
pub record Reads {A : Type 0} (d : Decoder A) (bytes : List ℕ) (a : A) : Type 0 where
  pub reads : (rest : List ℕ) → d (bytes ++ rest) ≡ some (a, rest)

append_assoc : (xs ys zs : List ℕ) → (xs ++ ys) ++ zs ≡ xs ++ (ys ++ zs)
append_assoc [] ys zs = refl
append_assoc (x ∷ xs) ys zs = ap (λ (t : List ℕ). x ∷ t) (append_assoc xs ys zs)

pub bind-Reads :
    {A B : Type 0} (d : Decoder A) (k : A → Decoder B) (xs ys : List ℕ) (a : A) (b : B)
    → Reads d xs a
    → Reads (k a) ys b
    → Reads (d >>= k) (xs ++ ys) b
bind-Reads d k xs ys a b p q = record {
  reads = λ rest.
      ap (λ (t : List ℕ). continue (d t) k) (append_assoc xs ys rest)
      ∙ ap (λ o. continue o k) (p.reads (ys ++ rest))
      ∙ q.reads rest;
}

-- The last step, which reads nothing more.
pub last-Reads :
    {A B : Type 0} (d : Decoder A) (k : A → Decoder B) (xs : List ℕ) (a : A) (b : B)
    → Reads d xs a
    → Reads (k a) [] b
    → Reads (d >>= k) xs b
last-Reads d k xs a b p q = record {
  reads = λ rest. ap (λ o. continue o k) (p.reads rest) ∙ q.reads rest;
}

-- The last step, a value that is returned.
pub pure-Reads :
    {A B : Type 0} (d : Decoder A) (f : A → B) (xs : List ℕ) (a : A)
    → Reads d xs a
    → Reads (d >>= (λ x. pure (f x))) xs (f a)
pure-Reads d f xs a p = record {
  reads = λ rest. ap (λ o. continue o (λ x. pure (f x))) (p.reads rest);
}

read_exact-append :
    (bytes rest : List ℕ) → read_exact (length bytes) (bytes ++ rest) ≡ some (bytes, rest)
unfolding read_exact
read_exact-append [] rest = refl
read_exact-append (x ∷ bytes) rest =
    ap (λ o. continue o (λ xs end. some (x ∷ xs, end))) (read_exact-append bytes rest)

pub read_exact-Reads : (bytes : List ℕ) → Reads (read_exact (length bytes)) bytes bytes
read_exact-Reads bytes = record { reads = read_exact-append bytes }
