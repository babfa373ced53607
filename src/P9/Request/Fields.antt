-- ===== src/P9/Request/Fields.antt =====
-- The lists inside requests, and the numbers of the requests.
use r2vm.Base.{ℕ, arith, ◌^◌, ◌<◌, refl, Bool, List, [], ◌∷◌, length}
use r2vm.P9.Codec.{ByteOrder, ◌>>=◌, pure, repeat, Reads, bind-Reads, pure-Reads, read_exact-Reads}
use r2vm.P9.Values.{decode_string, encode_string}
use r2vm.P9.Values.RoundTrip.{read_u16-Reads, read_u32-Reads, decode_string-Reads}
use r2vm.P9.Message.{Fcall, decode_strings, decode_bytes}
use r2vm.P9.Reply.{encode_each, encode_bytes}
use r2vm.P9.Request.{IsStrings, AreStrings, encode_strings, Wire}

module _ (o : ByteOrder) (is_utf8 : List ℕ → Bool) where
  pub repeat-Reads :
      (names : List (List ℕ))
      → AreStrings o is_utf8 names
      → Reads
          (repeat (length names) (decode_string o is_utf8))
          (encode_each o is_utf8 (encode_string o is_utf8) names)
          names
  unfolding repeat
  repeat-Reads [] p = record { reads = λ rest. refl }
  repeat-Reads (s ∷ names) p =
      let step =
        bind-Reads (decode_string o is_utf8)
          (λ x. repeat (length names) (decode_string o is_utf8) >>= λ xs. pure (x ∷ xs)) _ _ _ _
          (decode_string-Reads o is_utf8 s (p.0))
          (pure-Reads _ (λ xs. s ∷ xs) _ _ (repeat-Reads names (p.1))) in
      record { reads = λ rest. step.reads rest }

  pub decode_strings-Reads :
      (names : List (List ℕ))
      → IsStrings o is_utf8 names
      → Reads (decode_strings o is_utf8) (encode_strings o is_utf8 names) names
  unfolding decode_strings
  decode_strings-Reads names p =
      bind-Reads _ _ _ _ (length names) _ (read_u16-Reads o (length names) (p.0))
        (repeat-Reads names (p.1))

  pub decode_bytes-Reads :
      (bytes : List ℕ)
      → length bytes < 2 ^ 32
      → Reads (decode_bytes o is_utf8) (encode_bytes o is_utf8 bytes) bytes
  unfolding decode_bytes
  decode_bytes-Reads bytes p =
      bind-Reads _ _ _ _ (length bytes) _ (read_u32-Reads o (length bytes) p)
        (read_exact-Reads bytes)

  pub Wire-number : (n : ℕ) (bytes : List ℕ) (f : Fcall) → Wire o is_utf8 n bytes f → n < 2 ^ 8
  Wire-number n bytes f (Wire.tstatfs _ _) = omega arith
  Wire-number n bytes f (Wire.tlopen _ _ _ _) = omega arith
  Wire-number n bytes f (Wire.tlcreate _ _ _ _ _ _ _ _ _ _) = omega arith
  Wire-number n bytes f (Wire.tsymlink _ _ _ _ _ _ _ _) = omega arith
  Wire-number n bytes f (Wire.tmknod _ _ _ _ _ _ _ _ _ _ _ _) = omega arith
  Wire-number n bytes f (Wire.treadlink _ _) = omega arith
  Wire-number n bytes f (Wire.tgetattr _ _ _ _) = omega arith
  Wire-number n bytes f (Wire.tsetattr _ _ _ _ _ _) = omega arith
  Wire-number n bytes f (Wire.txattrwalk _ _ _ _ _ _) = omega arith
  Wire-number n bytes f (Wire.txattrcreate _ _ _ _ _ _ _ _) = omega arith
  Wire-number n bytes f (Wire.treaddir _ _ _ _ _ _) = omega arith
  Wire-number n bytes f (Wire.tfsync _ _) = omega arith
  Wire-number n bytes f (Wire.tlink _ _ _ _ _ _) = omega arith
  Wire-number n bytes f (Wire.tmkdir _ _ _ _ _ _ _ _) = omega arith
  Wire-number n bytes f (Wire.trenameat _ _ _ _ _ _ _ _) = omega arith
  Wire-number n bytes f (Wire.tunlinkat _ _ _ _ _ _) = omega arith
  Wire-number n bytes f (Wire.tversion _ _ _ _) = omega arith
  Wire-number n bytes f (Wire.rversion _ _ _ _) = omega arith
  Wire-number n bytes f (Wire.tauth _ _ _ _ _ _ _ _) = omega arith
  Wire-number n bytes f (Wire.tattach _ _ _ _ _ _ _ _ _ _) = omega arith
  Wire-number n bytes f (Wire.tflush _ _) = omega arith
  Wire-number n bytes f (Wire.twalk _ _ _ _ _ _) = omega arith
  Wire-number n bytes f (Wire.tread _ _ _ _ _ _) = omega arith
  Wire-number n bytes f (Wire.twrite _ _ _ _ _ _) = omega arith
  Wire-number n bytes f (Wire.tclunk _ _) = omega arith
