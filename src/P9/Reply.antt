-- ===== src/P9/Reply.antt =====
-- How a reply is written, in `lib/p9/src/serialize.rs`.
use r2vm.Base.{ℕ, u16, u32, Bool, List, [], ◌∷◌, ◌++◌, length, Option, none, some}
use r2vm.P9.Codec.{ByteOrder}
use r2vm.P9.Values.{Qid, DirEntry, encode_string, encode_qid, encode_stat, encode_stat_fs}
use r2vm.P9.Message.{Fcall}

module _ (o : ByteOrder) (is_utf8 : List ℕ → Bool) where
  abbrev pub encode_each : {A : Type 0} → (A → List ℕ) → List A → List ℕ
  encode_each f [] = []
  encode_each f (x ∷ xs) = f x ++ encode_each f xs

  abbrev pub encode_qids : List Qid → List ℕ
  encode_qids qids = o.write 2 (u16 (length qids)) ++ encode_each (encode_qid o is_utf8) qids

  abbrev pub encode_bytes : List ℕ → List ℕ
  encode_bytes bytes = o.write 4 (u32 (length bytes)) ++ bytes

  abbrev pub encode_entry : DirEntry → List ℕ
  encode_entry e =
      encode_qid o is_utf8 e.qid
      ++ (o.write 8 e.offset ++ (o.write 1 e.kind ++ encode_string o is_utf8 e.name))

  abbrev pub encode_entries : List DirEntry → List ℕ
  encode_entries = encode_each encode_entry

  -- The number and the fields of a reply; `none` is the `unimplemented!()`.
  unfoldable pub encode_body : Fcall → Option (ℕ × List ℕ)
  unfolding encode_string encode_qid encode_stat encode_stat_fs
  encode_body (Fcall.rlerror ecode) = some (7, o.write 4 ecode)
  encode_body (Fcall.rstatfs stat) = some (9, encode_stat_fs o is_utf8 stat)
  encode_body (Fcall.rlopen qid iounit) = some (13, encode_qid o is_utf8 qid ++ (o.write 4 iounit))
  encode_body (Fcall.rlcreate qid iounit) =
      some (15, encode_qid o is_utf8 qid ++ (o.write 4 iounit))
  encode_body (Fcall.rsymlink qid) = some (17, encode_qid o is_utf8 qid)
  encode_body (Fcall.rmknod qid) = some (19, encode_qid o is_utf8 qid)
  encode_body (Fcall.rreadlink target) = some (23, encode_string o is_utf8 target)
  encode_body (Fcall.rgetattr valid qid stat) =
      some (25, o.write 8 valid ++ (encode_qid o is_utf8 qid ++ (encode_stat o is_utf8 stat)))
  encode_body Fcall.rsetattr = some (27, [])
  encode_body (Fcall.rxattrwalk size) = some (31, o.write 8 size)
  encode_body Fcall.rxattrcreate = some (33, [])
  encode_body (Fcall.rreaddir count payload) =
      some (41, o.write 4 count ++ (encode_entries payload))
  encode_body Fcall.rfsync = some (51, [])
  encode_body Fcall.rlink = some (71, [])
  encode_body (Fcall.rmkdir qid) = some (73, encode_qid o is_utf8 qid)
  encode_body Fcall.rrenameat = some (75, [])
  encode_body Fcall.runlinkat = some (77, [])
  encode_body (Fcall.rversion msize version) =
      some (101, o.write 4 msize ++ (encode_string o is_utf8 version))
  encode_body (Fcall.rauth aqid) = some (103, encode_qid o is_utf8 aqid)
  encode_body (Fcall.rattach qid) = some (105, encode_qid o is_utf8 qid)
  encode_body Fcall.rflush = some (109, [])
  encode_body (Fcall.rwalk wqids) = some (111, encode_qids wqids)
  encode_body (Fcall.rread payload) = some (117, encode_bytes payload)
  encode_body (Fcall.rwrite count) = some (119, o.write 4 count)
  encode_body Fcall.rclunk = some (121, [])
  encode_body _ = none

  unfoldable pub encode : ℕ → Fcall → Option (List ℕ)
  unfolding encode_body
  encode tag call = elim (encode_body call) [
    | none ↦ none
    | some body ↦ some (o.write 1 (body.0) ++ (o.write 2 tag ++ body.1))
  ]
