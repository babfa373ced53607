-- ===== src/P9/Request/RoundTrip.antt =====
-- Whole requests, read by `(u16, Fcall)::decode` of `lib/p9/src/serialize.rs`.
use r2vm.Base.{ℕ, ◌^◌, ◌<◌, ◌≡◌, refl, Bool, List, ◌++◌, some}
use r2vm.P9.Codec.{ByteOrder, Reads, bind-Reads, pure-Reads}
use r2vm.P9.Values.RoundTrip.{read-Reads, IsString}
use r2vm.P9.Message.{Fcall, decode}
use r2vm.P9.Reply.{encode_body, encode}
use r2vm.P9.Request.{Wire}
use r2vm.P9.Request.Fields.{Wire-number}
use r2vm.P9.Request.Body.{body-Reads}

module _ (o : ByteOrder) (is_utf8 : List ℕ → Bool) where
  -- A request that is written with its number, its tag and its fields is read as that request, and
  -- nothing behind it is.
  pub decode-Wire :
      (tag n : ℕ) (bytes : List ℕ) (f : Fcall)
      → tag < 2 ^ 16
      → Wire o is_utf8 n bytes f
      → Reads (decode o is_utf8) (o.write 1 n ++ (o.write 2 tag ++ bytes)) (tag, f)
  unfolding decode
  decode-Wire tag n bytes f p w =
      bind-Reads _ _ _ _ _ _ (read-Reads o 1 n (Wire-number o is_utf8 n bytes f w)) (
        bind-Reads _ _ _ _ _ _ (read-Reads o 2 tag p)
          (pure-Reads _ _ _ _ (body-Reads o is_utf8 n bytes f w)))

  -- The reply to a version request, the one reply that is also read, is read as it was written.
  pub encode-decode_version :
      (tag msize : ℕ) (version : List ℕ)
      → tag < 2 ^ 16
      → msize < 2 ^ 32
      → IsString o is_utf8 version
      → (bytes : List ℕ) × ((encode o is_utf8 tag (Fcall.rversion msize version) ≡ some bytes)
          × Reads (decode o is_utf8) bytes (tag, Fcall.rversion msize version))
  unfolding encode encode_body
  encode-decode_version tag msize version p q r =
      (_, (refl, decode-Wire tag 101 _ _ p (Wire.rversion msize version q r)))
