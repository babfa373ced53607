-- ===== src/P9/Message.antt =====
-- The messages of the protocol, `Fcall`, and how a request is read and a reply is written, in
-- `lib/p9/src/serialize.rs`.
use r2vm.Base.{ℕ, ◌==◌, Bool, if◌then◌else◌, List}
use r2vm.P9.Codec.{ByteOrder, Decoder, ◌>>=◌, pure, read_exact, repeat}
use r2vm.P9.Values.{Qid, DirEntry, Stat, SetAttr, StatFs, decode_string, decode_set_attr}

pub data Fcall : Type 0 where
  rlerror : (ecode : ℕ) → Fcall
  tstatfs : (fid : ℕ) → Fcall
  rstatfs : (stat : StatFs) → Fcall
  tlopen : (fid : ℕ) (flags : ℕ) → Fcall
  rlopen : (qid : Qid) (iounit : ℕ) → Fcall
  tlcreate : (fid : ℕ) (name : List ℕ) (flags : ℕ) (mode : ℕ) (gid : ℕ) → Fcall
  rlcreate : (qid : Qid) (iounit : ℕ) → Fcall
  tsymlink : (fid : ℕ) (name : List ℕ) (symtgt : List ℕ) (gid : ℕ) → Fcall
  rsymlink : (qid : Qid) → Fcall
  tmknod : (dfid : ℕ) (name : List ℕ) (mode : ℕ) (major : ℕ) (minor : ℕ) (gid : ℕ) → Fcall
  rmknod : (qid : Qid) → Fcall
  treadlink : (fid : ℕ) → Fcall
  rreadlink : (target : List ℕ) → Fcall
  tgetattr : (fid : ℕ) (request_mask : ℕ) → Fcall
  rgetattr : (valid : ℕ) (qid : Qid) (stat : Stat) → Fcall
  tsetattr : (fid : ℕ) (valid : ℕ) (attr : SetAttr) → Fcall
  rsetattr : Fcall
  txattrwalk : (fid : ℕ) (newfid : ℕ) (name : List ℕ) → Fcall
  rxattrwalk : (size : ℕ) → Fcall
  txattrcreate : (fid : ℕ) (name : List ℕ) (attr_size : ℕ) (flags : ℕ) → Fcall
  rxattrcreate : Fcall
  treaddir : (fid : ℕ) (offset : ℕ) (count : ℕ) → Fcall
  rreaddir : (count : ℕ) (payload : List DirEntry) → Fcall
  tfsync : (fid : ℕ) → Fcall
  rfsync : Fcall
  tlock :
      (fid : ℕ) (kind : ℕ) (flags : ℕ) (start : ℕ) (length : ℕ) (proc_id : ℕ) (client_id : List ℕ)
      → Fcall
  rlock : (status : ℕ) → Fcall
  tgetlock :
      (fid : ℕ) (kind : ℕ) (start : ℕ) (length : ℕ) (proc_id : ℕ) (client_id : List ℕ) → Fcall
  rgetlock : (kind : ℕ) (start : ℕ) (length : ℕ) (proc_id : ℕ) (client_id : List ℕ) → Fcall
  tlink : (dfid : ℕ) (fid : ℕ) (name : List ℕ) → Fcall
  rlink : Fcall
  tmkdir : (dfid : ℕ) (name : List ℕ) (mode : ℕ) (gid : ℕ) → Fcall
  rmkdir : (qid : Qid) → Fcall
  trenameat : (olddirfid : ℕ) (oldname : List ℕ) (newdirfid : ℕ) (newname : List ℕ) → Fcall
  rrenameat : Fcall
  tunlinkat : (dirfd : ℕ) (name : List ℕ) (flags : ℕ) → Fcall
  runlinkat : Fcall
  tauth : (afid : ℕ) (uname : List ℕ) (aname : List ℕ) (n_uname : ℕ) → Fcall
  rauth : (aqid : Qid) → Fcall
  tattach : (fid : ℕ) (afid : ℕ) (uname : List ℕ) (aname : List ℕ) (n_uname : ℕ) → Fcall
  rattach : (qid : Qid) → Fcall
  tversion : (msize : ℕ) (version : List ℕ) → Fcall
  rversion : (msize : ℕ) (version : List ℕ) → Fcall
  tflush : (oldtag : ℕ) → Fcall
  rflush : Fcall
  twalk : (fid : ℕ) (newfid : ℕ) (wnames : List (List ℕ)) → Fcall
  rwalk : (wqids : List Qid) → Fcall
  tread : (fid : ℕ) (offset : ℕ) (count : ℕ) → Fcall
  rread : (payload : List ℕ) → Fcall
  twrite : (fid : ℕ) (offset : ℕ) (payload : List ℕ) → Fcall
  rwrite : (count : ℕ) → Fcall
  tclunk : (fid : ℕ) → Fcall
  rclunk : Fcall
  unknown : Fcall

module _ (o : ByteOrder) (is_utf8 : List ℕ → Bool) where
  -- The names of a walk, behind their number.
  unfoldable pub decode_strings : Decoder (List (List ℕ))
  unfolding repeat decode_string
  decode_strings = o.read 2 >>= λ len. repeat len (decode_string o is_utf8)

  -- The data of a write, behind its length.
  unfoldable pub decode_bytes : Decoder (List ℕ)
  unfolding read_exact
  decode_bytes = o.read 4 >>= λ len. read_exact len

  -- The fields of a request, by the number of its message.
  unfoldable pub decode_body : ℕ → Decoder Fcall
  unfolding decode_string decode_set_attr decode_strings decode_bytes
  decode_body msg =
      if msg == 8
      then (o.read 4 >>= λ fid. pure (Fcall.tstatfs fid))
      else if msg == 12
      then (o.read 4 >>= λ fid. o.read 4 >>= λ flags. pure (Fcall.tlopen fid flags))
      else if msg == 14
      then (o.read 4 >>= λ fid. decode_string o is_utf8 >>= λ name. o.read 4 >>= λ flags.
          o.read 4 >>= λ mode. o.read 4 >>= λ gid. pure (Fcall.tlcreate fid name flags mode gid))
      else if msg == 16
      then (o.read 4 >>= λ fid. decode_string o is_utf8 >>= λ name.
          decode_string o is_utf8 >>= λ symtgt.
          o.read 4 >>= λ gid. pure (Fcall.tsymlink fid name symtgt gid))
      else if msg == 18
      then (o.read 4 >>= λ dfid. decode_string o is_utf8 >>= λ name. o.read 4 >>= λ mode.
          o.read 4 >>= λ major. o.read 4 >>= λ minor.
          o.read 4 >>= λ gid. pure (Fcall.tmknod dfid name mode major minor gid))
      else if msg == 22
      then (o.read 4 >>= λ fid. pure (Fcall.treadlink fid))
      else if msg == 24
      then (o.read 4 >>= λ fid. o.read 8 >>= λ request_mask. pure (Fcall.tgetattr fid request_mask))
      else if msg == 26
      then (o.read 4 >>= λ fid. o.read 4 >>= λ valid.
          decode_set_attr o is_utf8 >>= λ attr. pure (Fcall.tsetattr fid valid attr))
      else if msg == 30
      then (o.read 4 >>= λ fid. o.read 4 >>= λ newfid.
          decode_string o is_utf8 >>= λ name. pure (Fcall.txattrwalk fid newfid name))
      else if msg == 32
      then (o.read 4 >>= λ fid. decode_string o is_utf8 >>= λ name. o.read 8 >>= λ attr_size.
          o.read 4 >>= λ flags. pure (Fcall.txattrcreate fid name attr_size flags))
      else if msg == 40
      then (o.read 4 >>= λ fid.
          o.read 8 >>= λ offset. o.read 4 >>= λ count. pure (Fcall.treaddir fid offset count))
      else if msg == 50
      then (o.read 4 >>= λ fid. pure (Fcall.tfsync fid))
      else if msg == 70
      then (o.read 4 >>= λ dfid.
          o.read 4 >>= λ fid. decode_string o is_utf8 >>= λ name. pure (Fcall.tlink dfid fid name))
      else if msg == 72
      then (o.read 4 >>= λ dfid. decode_string o is_utf8 >>= λ name.
          o.read 4 >>= λ mode. o.read 4 >>= λ gid. pure (Fcall.tmkdir dfid name mode gid))
      else if msg == 74
      then (o.read 4 >>= λ olddirfid. decode_string o is_utf8 >>= λ oldname.
          o.read 4 >>= λ newdirfid. decode_string o is_utf8 >>= λ newname.
          pure (Fcall.trenameat olddirfid oldname newdirfid newname))
      else if msg == 76
      then (o.read 4 >>= λ dirfd. decode_string o is_utf8 >>= λ name.
          o.read 4 >>= λ flags. pure (Fcall.tunlinkat dirfd name flags))
      else if msg == 100
      then (o.read 4 >>= λ msize.
          decode_string o is_utf8 >>= λ version. pure (Fcall.tversion msize version))
      else if msg == 101
      then (o.read 4 >>= λ msize.
          decode_string o is_utf8 >>= λ version. pure (Fcall.rversion msize version))
      else if msg == 102
      then (o.read 4 >>= λ afid. decode_string o is_utf8 >>= λ uname.
          decode_string o is_utf8 >>= λ aname.
          o.read 4 >>= λ n_uname. pure (Fcall.tauth afid uname aname n_uname))
      else if msg == 104
      then (o.read 4 >>= λ fid. o.read 4 >>= λ afid. decode_string o is_utf8 >>= λ uname.
          decode_string o is_utf8 >>= λ aname.
          o.read 4 >>= λ n_uname. pure (Fcall.tattach fid afid uname aname n_uname))
      else if msg == 108
      then (o.read 2 >>= λ oldtag. pure (Fcall.tflush oldtag))
      else if msg == 110
      then (o.read 4 >>= λ fid.
          o.read 4 >>= λ newfid. decode_strings >>= λ wnames. pure (Fcall.twalk fid newfid wnames))
      else if msg == 116
      then (o.read 4 >>= λ fid.
          o.read 8 >>= λ offset. o.read 4 >>= λ count. pure (Fcall.tread fid offset count))
      else if msg == 118
      then (o.read 4 >>= λ fid.
          o.read 8 >>= λ offset. decode_bytes >>= λ payload. pure (Fcall.twrite fid offset payload))
      else if msg == 120
      then (o.read 4 >>= λ fid. pure (Fcall.tclunk fid))
      else pure Fcall.unknown

  unfoldable pub decode : Decoder (ℕ × Fcall)
  unfolding decode_body
  decode = o.read 1 >>= λ msg. o.read 2 >>= λ tag. decode_body msg >>= λ call. pure (tag, call)
