-- ===== src/P9/Request.antt =====
-- The requests of the protocol on the wire, which `lib/p9/src/serialize.rs` reads.
pub mod Fields
pub mod Body
pub mod RoundTrip
use r2vm.Base.{ℕ, ◌^◌, ◌<◌, u16, Bool, List, [], ◌∷◌, ◌++◌, length}
use r2vm.P9.Codec.{ByteOrder}
use r2vm.P9.Values.{SetAttr, encode_string, encode_set_attr}
use r2vm.P9.Values.RoundTrip.{IsString, IsSetAttr}
use r2vm.P9.Message.{Fcall}
use r2vm.P9.Reply.{encode_each, encode_bytes}

module _ (o : ByteOrder) (is_utf8 : List ℕ → Bool) where
  -- The names of a walk, behind their number.
  abbrev pub encode_strings : List (List ℕ) → List ℕ
  encode_strings names =
      o.write 2 (u16 (length names)) ++ encode_each o is_utf8 (encode_string o is_utf8) names

  abbrev pub AreStrings : List (List ℕ) → Type 0
  AreStrings [] = Unit {0}
  AreStrings (s ∷ names) = IsString o is_utf8 s × AreStrings names

  abbrev pub IsStrings : List (List ℕ) → Type 0
  IsStrings names = (length names < 2 ^ 16) × AreStrings names

  -- `Wire n bytes f`: the request `f` has the number `n`, and `bytes` are its fields in order.
  pub data Wire : ℕ → List ℕ → Fcall → Type 0 where
    tstatfs : (fid : ℕ) → fid < 2 ^ 32 → Wire 8 (o.write 4 fid) (Fcall.tstatfs fid)
    tlopen :
        (fid : ℕ) (flags : ℕ)
        → fid < 2 ^ 32
        → flags < 2 ^ 32
        → Wire 12 (o.write 4 fid ++ (o.write 4 flags)) (Fcall.tlopen fid flags)
    tlcreate :
        (fid : ℕ) (name : List ℕ) (flags : ℕ) (mode : ℕ) (gid : ℕ)
        → fid < 2 ^ 32
        → IsString o is_utf8 name
        → flags < 2 ^ 32
        → mode < 2 ^ 32
        → gid < 2 ^ 32
        → Wire 14
            (o.write 4 fid
              ++ (encode_string o is_utf8 name
                  ++ (o.write 4 flags ++ (o.write 4 mode ++ (o.write 4 gid)))))
            (Fcall.tlcreate fid name flags mode gid)
    tsymlink :
        (fid : ℕ) (name : List ℕ) (symtgt : List ℕ) (gid : ℕ)
        → fid < 2 ^ 32
        → IsString o is_utf8 name
        → IsString o is_utf8 symtgt
        → gid < 2 ^ 32
        → Wire 16
            (o.write 4 fid
              ++ (encode_string o is_utf8 name
                  ++ (encode_string o is_utf8 symtgt ++ (o.write 4 gid))))
            (Fcall.tsymlink fid name symtgt gid)
    tmknod :
        (dfid : ℕ) (name : List ℕ) (mode : ℕ) (major : ℕ) (minor : ℕ) (gid : ℕ)
        → dfid < 2 ^ 32
        → IsString o is_utf8 name
        → mode < 2 ^ 32
        → major < 2 ^ 32
        → minor < 2 ^ 32
        → gid < 2 ^ 32
        → Wire 18
            (o.write 4 dfid
              ++ (encode_string o is_utf8 name
                  ++ (o.write 4 mode ++ (o.write 4 major ++ (o.write 4 minor ++ (o.write 4 gid))))))
            (Fcall.tmknod dfid name mode major minor gid)
    treadlink : (fid : ℕ) → fid < 2 ^ 32 → Wire 22 (o.write 4 fid) (Fcall.treadlink fid)
    tgetattr :
        (fid : ℕ) (request_mask : ℕ)
        → fid < 2 ^ 32
        → request_mask < 2 ^ 64
        → Wire 24 (o.write 4 fid ++ (o.write 8 request_mask)) (Fcall.tgetattr fid request_mask)
    tsetattr :
        (fid : ℕ) (valid : ℕ) (attr : SetAttr)
        → fid < 2 ^ 32
        → valid < 2 ^ 32
        → IsSetAttr o is_utf8 attr
        → Wire 26
            (o.write 4 fid ++ (o.write 4 valid ++ (encode_set_attr o is_utf8 attr)))
            (Fcall.tsetattr fid valid attr)
    txattrwalk :
        (fid : ℕ) (newfid : ℕ) (name : List ℕ)
        → fid < 2 ^ 32
        → newfid < 2 ^ 32
        → IsString o is_utf8 name
        → Wire 30
            (o.write 4 fid ++ (o.write 4 newfid ++ (encode_string o is_utf8 name)))
            (Fcall.txattrwalk fid newfid name)
    txattrcreate :
        (fid : ℕ) (name : List ℕ) (attr_size : ℕ) (flags : ℕ)
        → fid < 2 ^ 32
        → IsString o is_utf8 name
        → attr_size < 2 ^ 64
        → flags < 2 ^ 32
        → Wire 32
            (o.write 4 fid
              ++ (encode_string o is_utf8 name ++ (o.write 8 attr_size ++ (o.write 4 flags))))
            (Fcall.txattrcreate fid name attr_size flags)
    treaddir :
        (fid : ℕ) (offset : ℕ) (count : ℕ)
        → fid < 2 ^ 32
        → offset < 2 ^ 64
        → count < 2 ^ 32
        → Wire 40
            (o.write 4 fid ++ (o.write 8 offset ++ (o.write 4 count)))
            (Fcall.treaddir fid offset count)
    tfsync : (fid : ℕ) → fid < 2 ^ 32 → Wire 50 (o.write 4 fid) (Fcall.tfsync fid)
    tlink :
        (dfid : ℕ) (fid : ℕ) (name : List ℕ)
        → dfid < 2 ^ 32
        → fid < 2 ^ 32
        → IsString o is_utf8 name
        → Wire 70
            (o.write 4 dfid ++ (o.write 4 fid ++ (encode_string o is_utf8 name)))
            (Fcall.tlink dfid fid name)
    tmkdir :
        (dfid : ℕ) (name : List ℕ) (mode : ℕ) (gid : ℕ)
        → dfid < 2 ^ 32
        → IsString o is_utf8 name
        → mode < 2 ^ 32
        → gid < 2 ^ 32
        → Wire 72
            (o.write 4 dfid
              ++ (encode_string o is_utf8 name ++ (o.write 4 mode ++ (o.write 4 gid))))
            (Fcall.tmkdir dfid name mode gid)
    trenameat :
        (olddirfid : ℕ) (oldname : List ℕ) (newdirfid : ℕ) (newname : List ℕ)
        → olddirfid < 2 ^ 32
        → IsString o is_utf8 oldname
        → newdirfid < 2 ^ 32
        → IsString o is_utf8 newname
        → Wire 74
            (o.write 4 olddirfid
              ++ (encode_string o is_utf8 oldname
                  ++ (o.write 4 newdirfid ++ (encode_string o is_utf8 newname))))
            (Fcall.trenameat olddirfid oldname newdirfid newname)
    tunlinkat :
        (dirfd : ℕ) (name : List ℕ) (flags : ℕ)
        → dirfd < 2 ^ 32
        → IsString o is_utf8 name
        → flags < 2 ^ 32
        → Wire 76
            (o.write 4 dirfd ++ (encode_string o is_utf8 name ++ (o.write 4 flags)))
            (Fcall.tunlinkat dirfd name flags)
    tversion :
        (msize : ℕ) (version : List ℕ)
        → msize < 2 ^ 32
        → IsString o is_utf8 version
        → Wire 100
            (o.write 4 msize ++ (encode_string o is_utf8 version))
            (Fcall.tversion msize version)
    rversion :
        (msize : ℕ) (version : List ℕ)
        → msize < 2 ^ 32
        → IsString o is_utf8 version
        → Wire 101
            (o.write 4 msize ++ (encode_string o is_utf8 version))
            (Fcall.rversion msize version)
    tauth :
        (afid : ℕ) (uname : List ℕ) (aname : List ℕ) (n_uname : ℕ)
        → afid < 2 ^ 32
        → IsString o is_utf8 uname
        → IsString o is_utf8 aname
        → n_uname < 2 ^ 32
        → Wire 102
            (o.write 4 afid
              ++ (encode_string o is_utf8 uname
                  ++ (encode_string o is_utf8 aname ++ (o.write 4 n_uname))))
            (Fcall.tauth afid uname aname n_uname)
    tattach :
        (fid : ℕ) (afid : ℕ) (uname : List ℕ) (aname : List ℕ) (n_uname : ℕ)
        → fid < 2 ^ 32
        → afid < 2 ^ 32
        → IsString o is_utf8 uname
        → IsString o is_utf8 aname
        → n_uname < 2 ^ 32
        → Wire 104
            (o.write 4 fid
              ++ (o.write 4 afid
                  ++ (encode_string o is_utf8 uname
                      ++ (encode_string o is_utf8 aname ++ (o.write 4 n_uname)))))
            (Fcall.tattach fid afid uname aname n_uname)
    tflush : (oldtag : ℕ) → oldtag < 2 ^ 16 → Wire 108 (o.write 2 oldtag) (Fcall.tflush oldtag)
    twalk :
        (fid : ℕ) (newfid : ℕ) (wnames : List (List ℕ))
        → fid < 2 ^ 32
        → newfid < 2 ^ 32
        → IsStrings wnames
        → Wire 110
            (o.write 4 fid ++ (o.write 4 newfid ++ (encode_strings wnames)))
            (Fcall.twalk fid newfid wnames)
    tread :
        (fid : ℕ) (offset : ℕ) (count : ℕ)
        → fid < 2 ^ 32
        → offset < 2 ^ 64
        → count < 2 ^ 32
        → Wire 116
            (o.write 4 fid ++ (o.write 8 offset ++ (o.write 4 count)))
            (Fcall.tread fid offset count)
    twrite :
        (fid : ℕ) (offset : ℕ) (payload : List ℕ)
        → fid < 2 ^ 32
        → offset < 2 ^ 64
        → length payload < 2 ^ 32
        → Wire 118
            (o.write 4 fid ++ (o.write 8 offset ++ (encode_bytes o is_utf8 payload)))
            (Fcall.twrite fid offset payload)
    tclunk : (fid : ℕ) → fid < 2 ^ 32 → Wire 120 (o.write 4 fid) (Fcall.tclunk fid)
