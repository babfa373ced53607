-- ===== src/P9/Request/Body.antt =====
-- The fields of a request, read by `(u16, Fcall)::decode` of `lib/p9/src/serialize.rs`.
use r2vm.Base.{ℕ, Bool, List}
use r2vm.P9.Codec.{ByteOrder, Reads, bind-Reads, pure-Reads}
use r2vm.P9.Values.RoundTrip.{read-Reads, decode_string-Reads, decode_set_attr-Reads}
use r2vm.P9.Message.{Fcall, decode_body}
use r2vm.P9.Request.{Wire}
use r2vm.P9.Request.Fields.{decode_strings-Reads, decode_bytes-Reads}

module _ (o : ByteOrder) (is_utf8 : List ℕ → Bool) where
  pub body-Reads :
      (n : ℕ) (bytes : List ℕ) (f : Fcall)
      → Wire o is_utf8 n bytes f
      → Reads (decode_body o is_utf8 n) bytes f
  unfolding decode_body
  body-Reads n bytes f (Wire.tstatfs fid p_fid) = pure-Reads _ _ _ _ (read-Reads o 4 fid p_fid)
  body-Reads n bytes f (Wire.tlopen fid flags p_fid p_flags) =
      bind-Reads _ _ _ _ _ _ (read-Reads o 4 fid p_fid)
        (pure-Reads _ _ _ _ (read-Reads o 4 flags p_flags))
  body-Reads n bytes f (Wire.tlcreate fid name flags mode gid p_fid p_name p_flags p_mode p_gid) =
      bind-Reads _ _ _ _ _ _ (read-Reads o 4 fid p_fid) (
        bind-Reads _ _ _ _ _ _ (decode_string-Reads o is_utf8 name p_name) (
          bind-Reads _ _ _ _ _ _ (read-Reads o 4 flags p_flags) (
            bind-Reads _ _ _ _ _ _ (read-Reads o 4 mode p_mode)
              (pure-Reads _ _ _ _ (read-Reads o 4 gid p_gid)))))
  body-Reads n bytes f (Wire.tsymlink fid name symtgt gid p_fid p_name p_symtgt p_gid) =
      bind-Reads _ _ _ _ _ _ (read-Reads o 4 fid p_fid) (
        bind-Reads _ _ _ _ _ _ (decode_string-Reads o is_utf8 name p_name) (
          bind-Reads _ _ _ _ _ _ (decode_string-Reads o is_utf8 symtgt p_symtgt)
            (pure-Reads _ _ _ _ (read-Reads o 4 gid p_gid))))
  body-Reads n bytes f
        (Wire.tmknod dfid name mode major minor gid p_dfid p_name p_mode p_major p_minor p_gid) =
      bind-Reads _ _ _ _ _ _ (read-Reads o 4 dfid p_dfid) (
        bind-Reads _ _ _ _ _ _ (decode_string-Reads o is_utf8 name p_name) (
          bind-Reads _ _ _ _ _ _ (read-Reads o 4 mode p_mode) (
            bind-Reads _ _ _ _ _ _ (read-Reads o 4 major p_major) (
              bind-Reads _ _ _ _ _ _ (read-Reads o 4 minor p_minor)
                (pure-Reads _ _ _ _ (read-Reads o 4 gid p_gid))))))
  body-Reads n bytes f (Wire.treadlink fid p_fid) = pure-Reads _ _ _ _ (read-Reads o 4 fid p_fid)
  body-Reads n bytes f (Wire.tgetattr fid request_mask p_fid p_request_mask) =
      bind-Reads _ _ _ _ _ _ (read-Reads o 4 fid p_fid)
        (pure-Reads _ _ _ _ (read-Reads o 8 request_mask p_request_mask))
  body-Reads n bytes f (Wire.tsetattr fid valid attr p_fid p_valid p_attr) =
      bind-Reads _ _ _ _ _ _ (read-Reads o 4 fid p_fid) (
        bind-Reads _ _ _ _ _ _ (read-Reads o 4 valid p_valid)
          (pure-Reads _ _ _ _ (decode_set_attr-Reads o is_utf8 attr p_attr)))
  body-Reads n bytes f (Wire.txattrwalk fid newfid name p_fid p_newfid p_name) =
      bind-Reads _ _ _ _ _ _ (read-Reads o 4 fid p_fid) (
        bind-Reads _ _ _ _ _ _ (read-Reads o 4 newfid p_newfid)
          (pure-Reads _ _ _ _ (decode_string-Reads o is_utf8 name p_name)))
  body-Reads n bytes f
        (Wire.txattrcreate fid name attr_size flags p_fid p_name p_attr_size p_flags) =
      bind-Reads _ _ _ _ _ _ (read-Reads o 4 fid p_fid) (
        bind-Reads _ _ _ _ _ _ (decode_string-Reads o is_utf8 name p_name) (
          bind-Reads _ _ _ _ _ _ (read-Reads o 8 attr_size p_attr_size)
            (pure-Reads _ _ _ _ (read-Reads o 4 flags p_flags))))
  body-Reads n bytes f (Wire.treaddir fid offset count p_fid p_offset p_count) =
      bind-Reads _ _ _ _ _ _ (read-Reads o 4 fid p_fid) (
        bind-Reads _ _ _ _ _ _ (read-Reads o 8 offset p_offset)
          (pure-Reads _ _ _ _ (read-Reads o 4 count p_count)))
  body-Reads n bytes f (Wire.tfsync fid p_fid) = pure-Reads _ _ _ _ (read-Reads o 4 fid p_fid)
  body-Reads n bytes f (Wire.tlink dfid fid name p_dfid p_fid p_name) =
      bind-Reads _ _ _ _ _ _ (read-Reads o 4 dfid p_dfid) (
        bind-Reads _ _ _ _ _ _ (read-Reads o 4 fid p_fid)
          (pure-Reads _ _ _ _ (decode_string-Reads o is_utf8 name p_name)))
  body-Reads n bytes f (Wire.tmkdir dfid name mode gid p_dfid p_name p_mode p_gid) =
      bind-Reads _ _ _ _ _ _ (read-Reads o 4 dfid p_dfid) (
        bind-Reads _ _ _ _ _ _ (decode_string-Reads o is_utf8 name p_name) (
          bind-Reads _ _ _ _ _ _ (read-Reads o 4 mode p_mode)
            (pure-Reads _ _ _ _ (read-Reads o 4 gid p_gid))))
  body-Reads n bytes f
        (Wire.trenameat olddirfid oldname newdirfid newname p_olddirfid p_oldname p_newdirfid
          p_newname) =
      bind-Reads _ _ _ _ _ _ (read-Reads o 4 olddirfid p_olddirfid) (
        bind-Reads _ _ _ _ _ _ (decode_string-Reads o is_utf8 oldname p_oldname) (
          bind-Reads _ _ _ _ _ _ (read-Reads o 4 newdirfid p_newdirfid)
            (pure-Reads _ _ _ _ (decode_string-Reads o is_utf8 newname p_newname))))
  body-Reads n bytes f (Wire.tunlinkat dirfd name flags p_dirfd p_name p_flags) =
      bind-Reads _ _ _ _ _ _ (read-Reads o 4 dirfd p_dirfd) (
        bind-Reads _ _ _ _ _ _ (decode_string-Reads o is_utf8 name p_name)
          (pure-Reads _ _ _ _ (read-Reads o 4 flags p_flags)))
  body-Reads n bytes f (Wire.tversion msize version p_msize p_version) =
      bind-Reads _ _ _ _ _ _ (read-Reads o 4 msize p_msize)
        (pure-Reads _ _ _ _ (decode_string-Reads o is_utf8 version p_version))
  body-Reads n bytes f (Wire.rversion msize version p_msize p_version) =
      bind-Reads _ _ _ _ _ _ (read-Reads o 4 msize p_msize)
        (pure-Reads _ _ _ _ (decode_string-Reads o is_utf8 version p_version))
  body-Reads n bytes f (Wire.tauth afid uname aname n_uname p_afid p_uname p_aname p_n_uname) =
      bind-Reads _ _ _ _ _ _ (read-Reads o 4 afid p_afid) (
        bind-Reads _ _ _ _ _ _ (decode_string-Reads o is_utf8 uname p_uname) (
          bind-Reads _ _ _ _ _ _ (decode_string-Reads o is_utf8 aname p_aname)
            (pure-Reads _ _ _ _ (read-Reads o 4 n_uname p_n_uname))))
  body-Reads n bytes f
        (Wire.tattach fid afid uname aname n_uname p_fid p_afid p_uname p_aname p_n_uname) =
      bind-Reads _ _ _ _ _ _ (read-Reads o 4 fid p_fid) (
        bind-Reads _ _ _ _ _ _ (read-Reads o 4 afid p_afid) (
          bind-Reads _ _ _ _ _ _ (decode_string-Reads o is_utf8 uname p_uname) (
            bind-Reads _ _ _ _ _ _ (decode_string-Reads o is_utf8 aname p_aname)
              (pure-Reads _ _ _ _ (read-Reads o 4 n_uname p_n_uname)))))
  body-Reads n bytes f (Wire.tflush oldtag p_oldtag) =
      pure-Reads _ _ _ _ (read-Reads o 2 oldtag p_oldtag)
  body-Reads n bytes f (Wire.twalk fid newfid wnames p_fid p_newfid p_wnames) =
      bind-Reads _ _ _ _ _ _ (read-Reads o 4 fid p_fid) (
        bind-Reads _ _ _ _ _ _ (read-Reads o 4 newfid p_newfid)
          (pure-Reads _ _ _ _ (decode_strings-Reads o is_utf8 wnames p_wnames)))
  body-Reads n bytes f (Wire.tread fid offset count p_fid p_offset p_count) =
      bind-Reads _ _ _ _ _ _ (read-Reads o 4 fid p_fid) (
        bind-Reads _ _ _ _ _ _ (read-Reads o 8 offset p_offset)
          (pure-Reads _ _ _ _ (read-Reads o 4 count p_count)))
  body-Reads n bytes f (Wire.twrite fid offset payload p_fid p_offset p_payload) =
      bind-Reads _ _ _ _ _ _ (read-Reads o 4 fid p_fid) (
        bind-Reads _ _ _ _ _ _ (read-Reads o 8 offset p_offset)
          (pure-Reads _ _ _ _ (decode_bytes-Reads o is_utf8 payload p_payload)))
  body-Reads n bytes f (Wire.tclunk fid p_fid) = pure-Reads _ _ _ _ (read-Reads o 4 fid p_fid)
