-- ===== src/P9/Tests.antt =====
-- Messages of `lib/p9/src/serialize.rs` with byte values, and a byte order that has the law asked of the
-- `byteorder` crate.
use r2vm.Base.{
  ℕ, zero, suc, arith, ◌+◌, ◌*◌, ◌/◌, ◌%◌, ◌^◌, ◌<◌, ◌≡◌, refl, ap, ◌∙◌, Bool, true, false, ltb,
  if◌then◌else◌, List, [], ◌∷◌, ◌++◌, Option, none, some,
}
use native.Mathlib.Nat.{pow-suc}
use r2vm.P9.Codec.{ByteOrder, Reads, continue}
use r2vm.P9.Values.{Stat, SystemTime, decode_stat, encode_stat}
use r2vm.P9.Values.RoundTrip.{IsString, IsTime, IsStat, decode_stat-Reads}
use r2vm.P9.Message.{Fcall, decode}
use r2vm.P9.Reply.{encode}
use r2vm.P9.Request.{Wire, encode_strings}
use r2vm.P9.Request.RoundTrip.{decode-Wire, encode-decode_version}

unfoldable write_le : ℕ → ℕ → List ℕ
write_le zero x = []
write_le (suc n) x = x % 256 ∷ write_le n (x / 256)

unfoldable read_le : ℕ → List ℕ → Option (ℕ × List ℕ)
read_le zero input = some (0, input)
read_le (suc n) [] = none
read_le (suc n) (b ∷ input) = continue (read_le n input) (λ v rest. some (b + 256 * v, rest))

eight_doublings : (k : ℕ) → 2 ^ (suc (suc (suc (suc (suc (suc (suc (suc k)))))))) ≡ 256 * 2 ^ k
eight_doublings k = omega (
  arith,
  pow-suc 2 k,
  pow-suc 2 (suc k),
  pow-suc 2 (suc (suc k)),
  pow-suc 2 (suc (suc (suc k))),
  pow-suc 2 (suc (suc (suc (suc k)))),
  pow-suc 2 (suc (suc (suc (suc (suc k))))),
  pow-suc 2 (suc (suc (suc (suc (suc (suc k)))))),
  pow-suc 2 (suc (suc (suc (suc (suc (suc (suc k))))))),
)

pow_byte : (n : ℕ) → 2 ^ (8 * suc n) ≡ 256 * 2 ^ (8 * n)
pow_byte n = ap (λ (k : ℕ). 2 ^ k) (omega arith) ∙ eight_doublings (8 * n)

shift_byte : (x m : ℕ) → x < 256 * m → x / 256 < m
shift_byte x m p = omega arith

join_byte : (x : ℕ) → x % 256 + 256 * (x / 256) ≡ x
join_byte x = omega arith

small_byte : (x : ℕ) → x < 2 ^ (8 * 0) → 0 ≡ x
small_byte x p = omega arith

read-write_le :
    (n x : ℕ) (rest : List ℕ) → x < 2 ^ (8 * n) → read_le n (write_le n x ++ rest) ≡ some (x, rest)
unfolding read_le write_le
read-write_le zero x rest p = ap (λ v. some (v, rest)) (small_byte x p)
read-write_le (suc n) x rest p =
    ap (λ o. continue o (λ v end. some (x % 256 + 256 * v, end)))
      (read-write_le n (x / 256) rest (shift_byte x (2 ^ (8 * n)) (omega (arith, p, pow_byte n))))
    ∙ ap (λ v. some (v, rest)) (join_byte x)

abbrev little_endian : ByteOrder
little_endian = record { write = write_le; read = read_le; read-write = read-write_le }

abbrev is_ascii : List ℕ → Bool
is_ascii [] = true
is_ascii (b ∷ bytes) = if ltb b 128 then is_ascii bytes else false

-- `["usr"]` in a walk from fid 1 to fid 2.
abbrev usr : List ℕ
usr = 117 ∷ 115 ∷ 114 ∷ []

abbrev version_9p : List ℕ
version_9p = 57 ∷ 80 ∷ []

usr-IsString : IsString little_endian is_ascii usr
unfolding IsString
usr-IsString = (omega arith, refl)

version_9p-IsString : IsString little_endian is_ascii version_9p
unfolding IsString
version_9p-IsString = (omega arith, refl)

walk-Wire :
    Wire little_endian is_ascii 110
      (little_endian.write 4 1
        ++ (little_endian.write 4 2 ++ encode_strings little_endian is_ascii (usr ∷ [])))
      (Fcall.twalk 1 2 (usr ∷ []))
walk-Wire = Wire.twalk 1 2 (usr ∷ []) (omega arith) (omega arith) (omega arith, (usr-IsString, tt))

decode-Wire_example :
    Reads
      (decode little_endian is_ascii)
      (little_endian.write 1 110
        ++ (little_endian.write 2 7
            ++ (little_endian.write 4 1
                ++ (little_endian.write 4 2 ++ encode_strings little_endian is_ascii (usr ∷ [])))))
      (7, Fcall.twalk 1 2 (usr ∷ []))
decode-Wire_example = decode-Wire little_endian is_ascii 7 110 _ _ (omega arith) walk-Wire

encode-decode_version_example :
    (bytes : List ℕ) × ((encode little_endian is_ascii 3 (Fcall.rversion 8192 version_9p)
        ≡ some bytes)
      × Reads (decode little_endian is_ascii) bytes (3, Fcall.rversion 8192 version_9p))
encode-decode_version_example =
    encode-decode_version little_endian is_ascii 3 8192 version_9p (omega arith) (omega arith)
      version_9p-IsString

abbrev noon : SystemTime
noon = record { secs = 43200; nanos = 500 }

noon-IsTime : IsTime noon
unfolding IsTime
noon-IsTime = (omega arith, omega arith)

abbrev regular : Stat
regular = record {
  mode = 33188;
  uid = 0;
  gid = 0;
  nlink = 1;
  rdev = 0;
  size = 12;
  blksize = 4096;
  blocks = 1;
  atime = noon;
  mtime = noon;
  ctime = noon;
}

regular-IsStat : IsStat little_endian is_ascii regular
unfolding IsStat
regular-IsStat = (
  omega arith,
  (
    omega arith,
    (
      omega arith,
      (
        omega arith,
        (
          omega arith,
          (omega arith, (omega arith, (omega arith, (noon-IsTime, (noon-IsTime, noon-IsTime))))),
        ),
      ),
    ),
  ),
)

decode_stat-Reads_example :
    Reads (decode_stat little_endian is_ascii) (encode_stat little_endian is_ascii regular) regular
decode_stat-Reads_example = decode_stat-Reads little_endian is_ascii regular regular-IsStat
