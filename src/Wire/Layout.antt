-- ===== src/Wire/Layout.antt =====
-- The layout of a packet as doc/rpc_std.md gives it, apart from the code that writes and reads it.
use frrpc.Prelude.{◌+◌, ◌^◌, ◌<◌, [], ◌++◌, some, ◌≡◌, arith, length, length-append}
use mathlib.Core.List.{append-nil, append_assoc}
use frrpc.Wire.Bytes.{Bytes, le_bytes, length-le_bytes}
use frrpc.Wire.Messages.{NetInfo, RpcMeta}
use frrpc.Wire.External.{Codec, External}
use frrpc.Wire.Packet.{build_from_net_info, build_from_message, u16, u32}

-- PackageSize(4), without itself; NetInfoSize(2); NetInfo; and what follows.
abbrev pub framed : Bytes → Bytes → Bytes
framed net rest =
    le_bytes 4 (2 + length net + length rest) ++ (le_bytes 2 (length net) ++ (net ++ rest))

-- RpcMetaSize(2), RpcMeta, Body.
abbrev pub rpc_part : Bytes → Bytes → Bytes
rpc_part meta body = le_bytes 2 (length meta) ++ (meta ++ body)

pub length-rpc_part :
    (meta body : Bytes) → length (rpc_part meta body) ≡ 2 + length meta + length body
length-rpc_part meta body = omega (
  arith,
  length-append (le_bytes 2 (length meta)) (meta ++ body),
  length-le_bytes 2 (length meta),
  length-append meta body,
)

pub length-framed : (net rest : Bytes) → length (framed net rest) ≡ 6 + length net + length rest
length-framed net rest = omega (
  arith,
  length-append (le_bytes 4 (2 + length net + length rest))
      (le_bytes 2 (length net) ++ (net ++ rest)),
  length-le_bytes 4 (2 + length net + length rest),
  length-append (le_bytes 2 (length net)) (net ++ rest),
  length-le_bytes 2 (length net),
  length-append net rest,
)

module _ (ext : External) where
  -- A packet without an RPC part has the documented layout.
  pub build_from_net_info-framed :
      (net_info : NetInfo) (net : Bytes)
      → ext.net_info.serialize net_info ≡ some net
      → length net < 2 ^ 16
      → build_from_net_info ext net_info ≡ some (framed net [])
  unfolding build_from_net_info
  build_from_net_info-framed net_info net s fits =
      let size = ext.net_info.byte_size-serialize net_info net s in
      let e : u16 (ext.net_info.byte_size net_info) ≡ length net = omega (arith, size) in
      let e' : u32 (2 + u16 (ext.net_info.byte_size net_info)) ≡ 2 + length net + 0 =
        omega (arith, size) in
      rw (s, build_from_net_info)
        (simp (ext.add-append, ext.push_number-append, append-nil, append_assoc) (rw (e', e)))

  -- Where the net info, the meta and the body serialize and their sizes fit the size fields, the
  -- packet that is built has the documented layout.
  pub build_from_message-framed :
      {M : Type 0} (codec : Codec M) (net_info : NetInfo) (meta : RpcMeta) (body : M)
      (net meta_bytes body_bytes : Bytes)
      → ext.net_info.serialize net_info ≡ some net
      → ext.rpc_meta.serialize meta ≡ some meta_bytes
      → codec.serialize body ≡ some body_bytes
      → length net < 2 ^ 16
      → length meta_bytes < 2 ^ 16
      → 4 + length net + length meta_bytes + length body_bytes < 2 ^ 32
      → build_from_message ext codec net_info meta body
        ≡ some (framed net (rpc_part meta_bytes body_bytes))
  unfolding build_from_message
  build_from_message-framed codec net_info meta body net meta_bytes body_bytes sn sm sb fn fm fp =
      let size = ext.net_info.byte_size-serialize net_info net sn in
      let size_m = ext.rpc_meta.byte_size-serialize meta meta_bytes sm in
      let size_b = codec.byte_size-serialize body body_bytes sb in
      let e : u16 (ext.net_info.byte_size net_info) ≡ length net = omega (arith, size) in
      let em : u16 (ext.rpc_meta.byte_size meta) ≡ length meta_bytes = omega (arith, size_m) in
      let total : u32 (
            2
            + u16 (ext.net_info.byte_size net_info)
            + 2
            + u16 (ext.rpc_meta.byte_size meta)
            + codec.byte_size body)
          ≡ 2 + length net + length (rpc_part meta_bytes body_bytes) =
        omega (arith, size, size_m, size_b, length-rpc_part meta_bytes body_bytes) in
      rw (sn, build_from_message)
        (rw sm
          (rw sb (simp (ext.add-append, ext.push_number-append, append_assoc) (rw (total, e, em)))))
