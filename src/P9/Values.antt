-- ===== src/P9/Values.antt =====
-- The values inside the messages of `lib/p9/src/serialize.rs`. A `String` is the list of its bytes, which
-- are valid UTF-8; a `SystemTime` is the seconds and nanoseconds since the epoch, which it is not
-- before. A panic of a decoder is `none`, like an error.
use r2vm.Base.{
  ℕ, ◌+◌, ◌/◌, ◌%◌, ◌^◌, ltb, u16, u32, Bool, if◌then◌else◌, List, [], ◌++◌, length, none, some,
}
use r2vm.P9.Codec.{ByteOrder, Decoder, ◌>>=◌, pure, read_exact}
pub mod RoundTrip

pub record Qid : Type 0 where
  pub kind : ℕ
  pub version : ℕ
  pub path : ℕ

pub record DirEntry : Type 0 where
  pub qid : Qid
  pub offset : ℕ
  pub kind : ℕ
  pub name : List ℕ

pub record SystemTime : Type 0 where
  pub secs : ℕ
  pub nanos : ℕ

pub record Stat : Type 0 where
  pub mode : ℕ
  pub uid : ℕ
  pub gid : ℕ
  pub nlink : ℕ
  pub rdev : ℕ
  pub size : ℕ
  pub blksize : ℕ
  pub blocks : ℕ
  pub atime : SystemTime
  pub mtime : SystemTime
  pub ctime : SystemTime

pub record SetAttr : Type 0 where
  pub mode : ℕ
  pub uid : ℕ
  pub gid : ℕ
  pub size : ℕ
  pub atime : SystemTime
  pub mtime : SystemTime

pub record StatFs : Type 0 where
  pub kind : ℕ
  pub bsize : ℕ
  pub blocks : ℕ
  pub bfree : ℕ
  pub bavail : ℕ
  pub files : ℕ
  pub ffree : ℕ
  pub fsid : ℕ
  pub namelen : ℕ

-- `Duration::new(secs, nanos)` after the epoch, where a second's worth of nanoseconds is carried over.
unfoldable pub since_epoch : (secs nanos : ℕ) → SystemTime
since_epoch secs nanos = record { secs = secs + nanos / 1000000000; nanos = nanos % 1000000000 }

-- `UNIX_EPOCH + duration`: a `SystemTime` of the standard library holds an `i64` of seconds, and its
-- addition panics beyond that; nothing in the code tests for it.
abbrev pub held : SystemTime → Decoder SystemTime
held t = λ input. if ltb t.secs (2 ^ 63) then some (t, input) else none

abbrev pub unix_epoch : SystemTime
unix_epoch = record { secs = 0; nanos = 0 }

module _ (o : ByteOrder) (is_utf8 : List ℕ → Bool) where
  -- `String::from_utf8`.
  abbrev pub checked : List ℕ → Decoder (List ℕ)
  checked bytes = λ input. if is_utf8 bytes then some (bytes, input) else none

  unfoldable pub decode_string : Decoder (List ℕ)
  unfolding read_exact
  decode_string = o.read 2 >>= λ len. read_exact len >>= λ bytes. checked bytes

  unfoldable pub encode_string : List ℕ → List ℕ
  encode_string s = o.write 2 (u16 (length s)) ++ s

  unfoldable pub decode_qid : Decoder Qid
  decode_qid = o.read 1 >>= λ kind. o.read 4 >>= λ version.
      o.read 8 >>= λ path. pure (record { kind = kind; version = version; path = path })

  unfoldable pub encode_qid : Qid → List ℕ
  encode_qid q = o.write 1 q.kind ++ (o.write 4 q.version ++ o.write 8 q.path)

  unfoldable pub decode_time : Decoder SystemTime
  unfolding since_epoch
  decode_time = o.read 8 >>= λ secs. o.read 8 >>= λ nanos. held (since_epoch secs (u32 nanos))

  unfoldable pub encode_time : SystemTime → List ℕ
  encode_time t = o.write 8 t.secs ++ o.write 8 t.nanos

  -- Three fields behind the times are read and dropped.
  unfoldable pub decode_stat : Decoder Stat
  unfolding decode_time
  decode_stat = o.read 4 >>= λ mode. o.read 4 >>= λ uid. o.read 4 >>= λ gid. o.read 8 >>= λ nlink.
      o.read 8 >>= λ rdev. o.read 8 >>= λ size. o.read 8 >>= λ blksize. o.read 8 >>= λ blocks.
      decode_time >>= λ atime. decode_time >>= λ mtime. decode_time >>= λ ctime.
      decode_time >>= λ _. o.read 8 >>= λ _. o.read 8 >>= λ _. pure (record {
        mode = mode;
        uid = uid;
        gid = gid;
        nlink = nlink;
        rdev = rdev;
        size = size;
        blksize = blksize;
        blocks = blocks;
        atime = atime;
        mtime = mtime;
        ctime = ctime;
      })

  unfoldable pub encode_stat : Stat → List ℕ
  unfolding encode_time
  encode_stat s =
      o.write 4 s.mode
      ++ (o.write 4 s.uid
          ++ (o.write 4 s.gid
              ++ (o.write 8 s.nlink
                  ++ (o.write 8 s.rdev
                      ++ (o.write 8 s.size
                          ++ (o.write 8 s.blksize
                              ++ (o.write 8 s.blocks
                                  ++ (encode_time s.atime
                                      ++ (encode_time s.mtime
                                          ++ (encode_time s.ctime
                                              ++ (encode_time unix_epoch
                                                  ++ (o.write 8 0 ++ o.write 8 0))))))))))))

  unfoldable pub decode_set_attr : Decoder SetAttr
  unfolding decode_time
  decode_set_attr = o.read 4 >>= λ mode. o.read 4 >>= λ uid. o.read 4 >>= λ gid.
      o.read 8 >>= λ size. decode_time >>= λ atime. decode_time >>= λ mtime.
      pure (record { mode = mode; uid = uid; gid = gid; size = size; atime = atime; mtime = mtime })

  unfoldable pub encode_set_attr : SetAttr → List ℕ
  unfolding encode_time
  encode_set_attr s =
      o.write 4 s.mode
      ++ (o.write 4 s.uid
          ++ (o.write 4 s.gid
              ++ (o.write 8 s.size ++ (encode_time s.atime ++ (encode_time s.mtime)))))

  unfoldable pub encode_stat_fs : StatFs → List ℕ
  encode_stat_fs s =
      o.write 4 s.kind
      ++ (o.write 4 s.bsize
          ++ (o.write 8 s.blocks
              ++ (o.write 8 s.bfree
                  ++ (o.write 8 s.bavail
                      ++ (o.write 8 s.files
                          ++ (o.write 8 s.ffree ++ (o.write 8 s.fsid ++ (o.write 4 s.namelen))))))))
