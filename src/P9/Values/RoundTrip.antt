-- ===== src/P9/Values/RoundTrip.antt =====
-- The values of `lib/p9/src/serialize.rs`, read back from what their encoders write.
use r2vm.Base.{
  ltb-true, ℕ, arith, ◌*◌, ◌^◌, ◌<◌, ◌≡◌, ap, ◌∙◌, u16, u32, Bool, true, [], if◌then◌else◌, List,
  ◌++◌, length, none, some,
}
use r2vm.P9.Codec.{ByteOrder, Reads, bind-Reads, pure-Reads, last-Reads, read_exact-Reads}
use r2vm.P9.Values.{
  Qid, SystemTime, Stat, SetAttr, since_epoch, unix_epoch, held, decode_string, encode_string,
  decode_qid, encode_qid, decode_time, encode_time, decode_stat, encode_stat, decode_set_attr,
  encode_set_attr,
}

pub read-Reads :
    (o : ByteOrder) (size x : ℕ) → x < 2 ^ (8 * size) → Reads (o.read size) (o.write size x) x
read-Reads o size x p = record { reads = λ rest. o.read-write size x rest p }

u16_small : (n : ℕ) → n < 2 ^ 16 → u16 n ≡ n
u16_small n p = omega arith

u32_small : (n : ℕ) → n < 2 ^ 32 → u32 n ≡ n
u32_small n p = omega arith

-- A length that its type holds is read back.
pub read_u16-Reads : (o : ByteOrder) (n : ℕ) → n < 2 ^ 16 → Reads (o.read 2) (o.write 2 (u16 n)) n
read_u16-Reads o n p = record {
  reads =
      λ rest. ap (λ t. o.read 2 (o.write 2 t ++ rest)) (u16_small n p) ∙ o.read-write 2 n rest p;
}

pub read_u32-Reads : (o : ByteOrder) (n : ℕ) → n < 2 ^ 32 → Reads (o.read 4) (o.write 4 (u32 n)) n
read_u32-Reads o n p = record {
  reads =
      λ rest. ap (λ t. o.read 4 (o.write 4 t ++ rest)) (u32_small n p) ∙ o.read-write 4 n rest p;
}

-- A time after the epoch with less than a second's worth of nanoseconds.
unfoldable pub IsTime : SystemTime → Type 0
IsTime t = (t.secs < 2 ^ 63) × (t.nanos < 1000000000)

abbrev system_time : ℕ → ℕ → SystemTime
system_time s n = record { secs = s; nanos = n }

time_cong : {a b c d : ℕ} → a ≡ c → b ≡ d → system_time a b ≡ system_time c d
time_cong {b = b} {c = c} p q = ap (λ x. system_time x b) p ∙ ap (λ x. system_time c x) q

since_epoch_small :
    (secs nanos : ℕ) → nanos < 1000000000 → since_epoch secs (u32 nanos) ≡ system_time secs nanos
unfolding since_epoch
since_epoch_small secs nanos p = time_cong (omega arith) (omega arith)

held-Reads : (t : SystemTime) → IsTime t → Reads (held (since_epoch t.secs (u32 t.nanos))) [] t
unfolding IsTime
held-Reads t p = record {
  reads = λ rest.
      ap (λ x. held x rest) (since_epoch_small t.secs t.nanos (p.1))
      ∙ ap (λ b. if b then some (t, rest) else none) (ltb-true t.secs (2 ^ 63) (p.0));
}

secs_u64 : (secs : ℕ) → secs < 2 ^ 63 → secs < 2 ^ 64
secs_u64 secs p = omega arith

nanos_u64 : (nanos : ℕ) → nanos < 1000000000 → nanos < 2 ^ 64
nanos_u64 nanos p = omega arith

epoch-IsTime : IsTime unix_epoch
unfolding IsTime
epoch-IsTime = (omega arith, omega arith)

module _ (o : ByteOrder) (is_utf8 : List ℕ → Bool) where
  -- A string whose length fits its 16 bits.
  unfoldable pub IsString : List ℕ → Type 0
  IsString s = (length s < 2 ^ 16) × (is_utf8 s ≡ true)

  pub decode_string-Reads :
      (s : List ℕ) → IsString s → Reads (decode_string o is_utf8) (encode_string o is_utf8 s) s
  unfolding decode_string encode_string IsString
  decode_string-Reads s p = bind-Reads _ _ _ _ (length s) _ (read_u16-Reads o (length s) (p.0)) (
      last-Reads _ _ _ _ _ (read_exact-Reads s)
        (record { reads = λ rest. ap (λ b. if b then some (s, rest) else none) (p.1) }))

  pub decode_time-Reads :
      (t : SystemTime) → IsTime t → Reads (decode_time o is_utf8) (encode_time o is_utf8 t) t
  unfolding decode_time encode_time IsTime
  decode_time-Reads t p =
      bind-Reads _ _ _ _ _ _ (read-Reads o 8 t.secs (secs_u64 t.secs (p.0)))
        (last-Reads _ _ _ _ _ (read-Reads o 8 t.nanos (nanos_u64 t.nanos (p.1))) (held-Reads t p))

  unfoldable pub IsQid : Qid → Type 0
  IsQid s = (s.kind < 2 ^ 8) × ((s.version < 2 ^ 32) × (s.path < 2 ^ 64))

  pub decode_qid-Reads :
      (s : Qid) → IsQid s → Reads (decode_qid o is_utf8) (encode_qid o is_utf8 s) s
  unfolding decode_qid encode_qid IsQid
  decode_qid-Reads s p = bind-Reads _ _ _ _ _ _ (read-Reads o 1 s.kind (p.0)) (
      bind-Reads _ _ _ _ _ _ (read-Reads o 4 s.version ((p.1).0))
        (pure-Reads _ _ _ _ (read-Reads o 8 s.path ((p.1).1))))

  unfoldable pub IsSetAttr : SetAttr → Type 0
  IsSetAttr s =
      (s.mode < 2 ^ 32)
      × ((s.uid < 2 ^ 32)
          × ((s.gid < 2 ^ 32) × ((s.size < 2 ^ 64) × ((IsTime s.atime) × (IsTime s.mtime)))))

  pub decode_set_attr-Reads :
      (s : SetAttr)
      → IsSetAttr s
      → Reads (decode_set_attr o is_utf8) (encode_set_attr o is_utf8 s) s
  unfolding decode_set_attr encode_set_attr IsSetAttr
  decode_set_attr-Reads s p = bind-Reads _ _ _ _ _ _ (read-Reads o 4 s.mode (p.0)) (
      bind-Reads _ _ _ _ _ _ (read-Reads o 4 s.uid ((p.1).0)) (
        bind-Reads _ _ _ _ _ _ (read-Reads o 4 s.gid (((p.1).1).0)) (
          bind-Reads _ _ _ _ _ _ (read-Reads o 8 s.size ((((p.1).1).1).0)) (
            bind-Reads _ _ _ _ _ _ (decode_time-Reads s.atime (((((p.1).1).1).1).0))
              (pure-Reads _ _ _ _ (decode_time-Reads s.mtime (((((p.1).1).1).1).1)))))))

  unfoldable pub IsStat : Stat → Type 0
  IsStat s =
      (s.mode < 2 ^ 32)
      × ((s.uid < 2 ^ 32)
          × ((s.gid < 2 ^ 32)
              × ((s.nlink < 2 ^ 64)
                  × ((s.rdev < 2 ^ 64)
                      × ((s.size < 2 ^ 64)
                          × ((s.blksize < 2 ^ 64)
                              × ((s.blocks < 2 ^ 64)
                                  × ((IsTime s.atime)
                                      × ((IsTime s.mtime) × (IsTime s.ctime))))))))))

  -- What encode writes for a file status with fields in range is read as that status, whatever follows;
  -- the three times keep their seconds and nanoseconds.
  pub decode_stat-Reads :
      (s : Stat) → IsStat s → Reads (decode_stat o is_utf8) (encode_stat o is_utf8 s) s
  unfolding decode_stat encode_stat IsStat
  decode_stat-Reads s p = bind-Reads _ _ _ _ _ _ (read-Reads o 4 s.mode (p.0)) (
      bind-Reads _ _ _ _ _ _ (read-Reads o 4 s.uid ((p.1).0)) (
        bind-Reads _ _ _ _ _ _ (read-Reads o 4 s.gid (((p.1).1).0)) (
          bind-Reads _ _ _ _ _ _ (read-Reads o 8 s.nlink ((((p.1).1).1).0)) (
            bind-Reads _ _ _ _ _ _ (read-Reads o 8 s.rdev (((((p.1).1).1).1).0)) (
              bind-Reads _ _ _ _ _ _ (read-Reads o 8 s.size ((((((p.1).1).1).1).1).0)) (
                bind-Reads _ _ _ _ _ _ (read-Reads o 8 s.blksize (((((((p.1).1).1).1).1).1).0)) (
                  bind-Reads _ _ _ _ _ _ (read-Reads o 8 s.blocks ((((((((p.1).1).1).1).1).1).1).0))
                    (bind-Reads _ _ _ _ _ _
                      (decode_time-Reads s.atime (((((((((p.1).1).1).1).1).1).1).1).0))
                      (bind-Reads _ _ _ _ _ _
                        (decode_time-Reads s.mtime ((((((((((p.1).1).1).1).1).1).1).1).1).0))
                        (bind-Reads _ _ _ _ _ _
                          (decode_time-Reads s.ctime ((((((((((p.1).1).1).1).1).1).1).1).1).1))
                          (bind-Reads _ _ _ _ _ _ (decode_time-Reads unix_epoch epoch-IsTime) (
                            bind-Reads _ _ _ _ _ _ (read-Reads o 8 0 (omega arith))
                              (pure-Reads _ _ _ _ (read-Reads o 8 0 (omega arith)))))))))))))))
