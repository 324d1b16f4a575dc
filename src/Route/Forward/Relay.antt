-- ===== src/Route/Forward/Relay.antt =====
-- What the gateway reads from and makes of a packet of the documented layout.
use mathlib.Core.List.{append_assoc}
use frrpc.Prelude.{ℕ, ◌+◌, ◌-◌, ◌^◌, ◌<◌, ◌≡◌, refl, ◌∙◌, arith, ◌++◌, some, drop, length}
use frrpc.Prelude.Outcome.{ok}
use frrpc.Wire.Bytes.{Bytes, le_bytes, length-le_bytes, drop_next, slice_at, read_u16, read_u32}
use frrpc.Wire.Messages.{NetInfo}
use frrpc.Wire.External.{External}
use frrpc.Wire.Packet.{u16, u32}
use frrpc.Wire.Layout.{framed, length-framed}
use frrpc.Route.Forward.{get_net_info, build_send_packet, whole_packet, serialize_within, read}

-- A packet of the layout stands at `offset`, with `ys` behind it.
pub record IsAt (binary : Bytes) (offset : ℕ) (net rest ys : Bytes) : Type 0 where
  pub at : drop offset binary ≡ framed net rest ++ ys
  pub net_fits : length net < 2 ^ 16
  pub fits : 2 + length net + length rest < 2 ^ 32

module _ (binary : Bytes) (offset : ℕ) (net rest ys : Bytes)
    (h : IsAt binary offset net rest ys) where
  at_size :
      drop offset binary
      ≡ le_bytes 4 (2 + length net + length rest)
        ++ (le_bytes 2 (length net) ++ (net ++ (rest ++ ys)))
  at_size = h.at ∙ simp append_assoc

  at_net_size : drop (offset + 4) binary ≡ le_bytes 2 (length net) ++ (net ++ (rest ++ ys))
  at_net_size =
      drop_next offset (offset + 4) binary (le_bytes 4 (2 + length net + length rest)) _ at_size
        (omega (arith, length-le_bytes 4 (2 + length net + length rest)))

  at_net : drop (offset + 6) binary ≡ net ++ (rest ++ ys)
  at_net =
      drop_next (offset + 4) (offset + 6) binary (le_bytes 2 (length net)) _ at_net_size
        (omega (arith, length-le_bytes 2 (length net)))

  at_rest : drop (offset + 6 + length net) binary ≡ rest ++ ys
  at_rest = drop_next (offset + 6) _ binary net _ at_net refl

  pub read_size : read 4 offset binary ≡ some (2 + length net + length rest)
  read_size = read_u32 offset _ binary _ at_size h.fits

  pub read-net_size : read 2 (offset + 4) binary ≡ some (length net)
  read-net_size = read_u16 (offset + 4) _ binary _ at_net_size h.net_fits

  pub get_net_info_at :
      (ext : External) (info : NetInfo)
      → 0 < length net
      → ext.net_info.serialize info ≡ some net
      → get_net_info ext binary offset ≡ ok info
  unfolding get_net_info
  get_net_info_at ext info pos s = ground (
    arith,
    read-net_size,
    slice_at (offset + 6) (length net) binary net _ at_net refl,
    ext.net_info.parse-serialize info net s,
  )

  pub whole_packet_at : whole_packet binary offset ≡ ok (framed net rest)
  unfolding whole_packet
  whole_packet_at =
      rw (read_size, whole_packet)
        (rw (
          slice_at offset (4 + (2 + length net + length rest)) binary (framed net rest) ys h.at
            (omega (arith, length-framed net rest))))

  -- The forwarded packet has the layout again, with the new net info and the same rest.
  pub build_send_packet_at :
      (ext : External) (info : NetInfo) (net' : Bytes)
      → ext.net_info.serialize info ≡ some net'
      → length net' < 2 ^ 16
      → 2 + length net' + length rest < 2 ^ 32
      → build_send_packet ext binary offset info ≡ ok (some (framed net' rest))
  unfolding build_send_packet serialize_within
  build_send_packet_at ext info net' s f' fits' =
      let size = ext.net_info.byte_size-serialize info net' s in
      let cur : u16 (ext.net_info.byte_size info) ≡ length net' = omega (arith, size) in
      let copy : u32 (2 + length net + length rest + 2 ^ 32 - 2 - length net) ≡ length rest =
        omega (arith, h.fits) in
      let total : u32
            (2 + length net + length rest + 2 ^ 32 + u16 (ext.net_info.byte_size info) - length net)
          ≡ 2 + length net' + length rest =
        omega (arith, h.fits, size) in
      let within : serialize_within ext info (u16 (ext.net_info.byte_size info)) ≡ some net' =
        ground (arith, size, cur) in
      let body = slice_at (offset + 6 + length net) (length rest) binary rest ys at_rest refl in
      rw (read_size, build_send_packet)
        (rw (read-net_size, build_send_packet)
          (rw (within, build_send_packet)
            (rw (copy) (rw (body) (simp (ext.add-append, append_assoc) (rw (total, cur)))))))
