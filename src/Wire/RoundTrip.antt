-- ===== src/Wire/RoundTrip.antt =====
-- `GetMessageFromBinary` of src/public/rpc_serializable.cpp on a packet of the documented layout.
use frrpc.Prelude.{
  ℕ, ◌+◌, ◌-◌, ◌^◌, ◌<◌, [], ◌∷◌, ◌++◌, some, ◌≡◌, refl, ◌∙◌, arith, length, ◌≤◌, leb,
}
use mathlib.Core.List.{append_assoc}
use frrpc.Prelude.Outcome.{ok}
use frrpc.Wire.Bytes.{Bytes, le_bytes, length-le_bytes, drop_next, slice_at, read_u16, read_u32}
use frrpc.Wire.Messages.{NetInfo, RpcMeta, net_type_special}
use frrpc.Wire.External.{External}
use frrpc.Wire.Packet.{
  RpcPacket, get_net_part, get_body, get_meta, get_rpc_part, u32, get_message, get_special,
}
use frrpc.Wire.Layout.{rpc_part, framed, length-rpc_part}
use frrpc.Prelude.{true, drop}

-- What a reader fills in: an empty body leaves the binary of the packet as it was.
abbrev pub with_body : Bytes → RpcPacket → RpcPacket
with_body [] packet = packet
with_body (b ∷ bs) packet = record packet { binary = some (b ∷ bs) }

abbrev pub filled : RpcMeta → Bytes → RpcPacket → RpcPacket
filled meta body packet = with_body body (record packet { rpc_meta = meta })

module _ (ext : External) (bin : Bytes) where
  get_body_at :
      (offset : ℕ) (body ys : Bytes) (packet : RpcPacket)
      → drop offset bin ≡ body ++ ys
      → get_body ext bin offset (length body) packet ≡ ok (with_body body packet)
  unfolding get_body
  get_body_at offset [] ys packet h = ground arith
  get_body_at offset (b ∷ body) ys packet h =
      rw (slice_at offset (length (b ∷ body)) bin (b ∷ body) ys h refl, get_body) (ground arith)

  get_meta_at :
      (offset : ℕ) (meta : RpcMeta) (bytes ys : Bytes)
      → drop offset bin ≡ bytes ++ ys
      → 0 < length bytes
      → ext.rpc_meta.serialize meta ≡ some bytes
      → get_meta ext bin offset (length bytes) ≡ ok meta
  unfolding get_meta
  get_meta_at offset meta bytes ys h pos s = ground (
    arith,
    slice_at offset (length bytes) bin bytes ys h refl,
    ext.rpc_meta.parse-serialize meta bytes s,
  )

  get_net_part_at :
      (offset : ℕ) (info old : NetInfo) (bytes ys : Bytes)
      → drop offset bin ≡ bytes ++ ys
      → 0 < length bytes
      → ext.net_info.serialize info ≡ some bytes
      → get_net_part ext bin offset (length bytes) old ≡ ok info
  unfolding get_net_part
  get_net_part_at offset info old bytes ys h pos s = ground (
    arith,
    slice_at offset (length bytes) bin bytes ys h refl,
    ext.net_info.parse-serialize info bytes s,
  )

  get_rpc_part_at :
      (offset packet_size net_size : ℕ) (meta : RpcMeta) (bytes body ys : Bytes)
      (packet : RpcPacket)
      → drop offset bin ≡ rpc_part bytes body ++ ys
      → 0 < length bytes
      → length bytes < 2 ^ 16
      → packet_size ≡ 2 + net_size + 2 + length bytes + length body
      → packet_size < 2 ^ 32
      → ext.rpc_meta.serialize meta ≡ some bytes
      → get_rpc_part ext bin offset packet_size net_size packet ≡ ok (filled meta body packet)
  unfolding get_rpc_part
  get_rpc_part_at offset packet_size net_size meta bytes body ys packet h pos fits e lt s =
      rw (read_u16 offset (length bytes) bin _ regrouped fits, get_rpc_part)
        (rw (get_meta_at (offset + 2) meta bytes (body ++ ys) behind_size pos s, get_rpc_part)
          (rw size (
            get_body_at (offset + 2 + length bytes) body ys (record packet { rpc_meta = meta })
              behind_meta)))
    where
      regrouped : drop offset bin ≡ le_bytes 2 (length bytes) ++ (bytes ++ (body ++ ys))
      regrouped = h ∙ simp append_assoc

      behind_size : drop (offset + 2) bin ≡ bytes ++ (body ++ ys)
      behind_size =
          drop_next offset (offset + 2) bin (le_bytes 2 (length bytes)) _ regrouped
            (omega (arith, length-le_bytes 2 (length bytes)))

      behind_meta : drop (offset + 2 + length bytes) bin ≡ body ++ ys
      behind_meta = drop_next (offset + 2) _ bin bytes _ behind_size refl

      size : u32 (packet_size + 2 ^ 32 - (2 + net_size + 2 + length bytes)) ≡ length body
      size = omega arith

  -- A reader stands at a packet of the documented layout, whatever follows it; the sizes fit their
  -- fields, and the net info and the meta are not empty and are what serializing gave. Then, for a
  -- net type that carries a call, the reader gets the net info, the meta and the body; an empty
  -- body leaves the packet's binary as it was.
  pub get_message_at :
      (offset : ℕ) (info old : NetInfo) (meta : RpcMeta) (net bytes body ys : Bytes)
      (packet : RpcPacket)
      → drop offset bin ≡ framed net (rpc_part bytes body) ++ ys
      → 0 < length net
      → length net < 2 ^ 16
      → 0 < length bytes
      → length bytes < 2 ^ 16
      → 4 + length net + length bytes + length body < 2 ^ 32
      → ext.net_info.serialize info ≡ some net
      → ext.rpc_meta.serialize meta ≡ some bytes
      → info.net_type ≤ net_type_special
      → get_message ext bin offset old packet ≡ ok (info, filled meta body packet)
  unfolding get_message get_special
  get_message_at offset info old meta net bytes body ys packet h pn fn pb fb fits sn sb special =
      rw
        (
          read_u32 offset size bin _ at_size (omega (arith, length-rpc_part bytes body)),
          get_message,
        )
        (rw (read_u16 (offset + 4) (length net) bin _ at_net_size fn, get_message)
          (rw (get_net_part_at (offset + 6) info old net _ at_net pn sn, get_message)
            (rw (special_test, get_special)
              (rw (
                get_rpc_part_at (offset + 6 + length net) size (length net) meta bytes body ys
                    packet at_rpc pb fb (omega (arith, length-rpc_part bytes body))
                    (omega (arith, length-rpc_part bytes body)) sb,
                get_special,
                get_message,
              )))))
    where
      size : ℕ
      size = 2 + length net + length (rpc_part bytes body)

      special_test : leb info.net_type net_type_special ≡ true
      special_test = ground arith

      at_size :
          drop offset bin
          ≡ le_bytes 4 size ++ (le_bytes 2 (length net) ++ (net ++ (rpc_part bytes body ++ ys)))
      at_size = h ∙ simp append_assoc

      at_net_size :
          drop (offset + 4) bin ≡ le_bytes 2 (length net) ++ (net ++ (rpc_part bytes body ++ ys))
      at_net_size =
          drop_next offset (offset + 4) bin (le_bytes 4 size) _ at_size
            (omega (arith, length-le_bytes 4 size))

      at_net : drop (offset + 6) bin ≡ net ++ (rpc_part bytes body ++ ys)
      at_net =
          drop_next (offset + 4) (offset + 6) bin (le_bytes 2 (length net)) _ at_net_size
            (omega (arith, length-le_bytes 2 (length net)))

      at_rpc : drop (offset + 6 + length net) bin ≡ rpc_part bytes body ++ ys
      at_rpc = drop_next (offset + 6) _ bin net _ at_net refl
