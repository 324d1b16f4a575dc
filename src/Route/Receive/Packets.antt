-- ===== src/Route/Receive/Packets.antt =====
-- What `OnReceive` makes of a buffer that starts with whole packets.
use frrpc.Wire.Layout.{framed, length-framed}
use frrpc.Prelude.{
  ℕ, suc, ◌+◌, ◌-◌, ◌<◌, ◌≡◌, arith, ◌++◌, some, none, length, drop, length-append, ap, length-drop,
  ltb, leb, ◌∙◌, true, false, zero, ◌==◌, refl,
}
use frrpc.Prelude.Outcome.{ok}
use frrpc.Prelude.Effect.{◌>>=◌}
use frrpc.Wire.Bytes.{Bytes, le_bytes, read_u32, length-le_bytes}
use frrpc.Wire.Messages.{NetInfo}
use frrpc.Wire.External.{External}
use frrpc.Route.State.{Network, RpcRoute}
use frrpc.Route.Forward.Relay.{IsAt, read_size, get_net_info_at}
use frrpc.Route.Receive.{dispatch, receive_loop, net_packet_max_size, update_socket, on_receive}

-- The size of a packet, without its first field.
abbrev pub packet_size : Bytes → Bytes → ℕ
packet_size net rest = 2 + length net + length rest

-- The packets from one offset to another are whole, and are dispatched one after the other.
pub data Runs (ext : External) (network : Network) (socket : ℕ) (binary : Bytes)
    : ℕ → RpcRoute → ℕ → RpcRoute → Type 0 where
  done : {offset : ℕ} {route : RpcRoute} → Runs ext network socket binary offset route offset route
  next :
      {offset end : ℕ} {route last : RpcRoute} (net rest ys : Bytes) (info : NetInfo)
      (then_route : RpcRoute)
      → IsAt binary offset net rest ys
      → 0 < length net
      → packet_size net rest < net_packet_max_size
      → ext.net_info.serialize info ≡ some net
      → dispatch ext network socket binary offset info route ≡ (ok tt, then_route)
      → Runs ext network socket binary (offset + (packet_size net rest + 4)) then_route end last
      → Runs ext network socket binary offset route end last

-- Behind `offset` stands a part of a packet: its size, and less than the size says.
pub record IsPart (binary : Bytes) (offset : ℕ) (size : ℕ) (zs : Bytes) : Type 0 where
  pub at : drop offset binary ≡ le_bytes 4 size ++ zs
  pub some_of_it : 0 < length zs
  pub nonzero : 0 < size
  pub small : size < net_packet_max_size
  pub short : length zs < size

goes_on : (left n : ℕ) → left ≡ 4 + n → 0 < n → ltb 4 left ≡ true
goes_on left n e h = ground arith

admits :
    (size : ℕ)
    → 0 < size
    → size < net_packet_max_size
    → (leb net_packet_max_size size ≡ false) × ((size == 0) ≡ false)
admits size p s = ground arith

falls_short : (left size n : ℕ) → left ≡ 4 + n → n < size → ltb left (size + 4) ≡ true
falls_short left size n e h = ground arith

holds_all : (left size n : ℕ) → left ≡ 4 + (size + n) → ltb left (size + 4) ≡ false
holds_all left size n e = ground arith

module _ (ext : External) (network : Network) (socket : ℕ) (binary : Bytes) where
  room : (offset : ℕ) (xs : Bytes) → drop offset binary ≡ xs → length binary - offset ≡ length xs
  room offset xs h = omega (arith, ap (λ (ys : Bytes). length ys) h, length-drop offset binary)

  loop_part :
      (fuel offset size : ℕ) (zs : Bytes) (route : RpcRoute)
      → IsPart binary offset size zs
      → receive_loop ext network (suc fuel) socket binary offset route ≡ (ok none, route)
  unfolding receive_loop ◌>>=◌
  loop_part fuel offset size zs route h =
      let tests = admits size h.nonzero h.small in
      let header = read_u32 offset size binary zs h.at (omega (arith, h.small)) in
      rw (goes_on _ (length zs) left h.some_of_it, receive_loop)
        (rw (header, receive_loop)
          (rw (tests.0, receive_loop)
            (rw (tests.1, receive_loop)
              (rw (falls_short _ size (length zs) left h.short, receive_loop)))))
    where
      left : length binary - offset ≡ 4 + length zs
      left =
          omega
            (arith, room offset _ h.at, length-append (le_bytes 4 size) zs, length-le_bytes 4 size)

  packet_room :
      (offset : ℕ) (net rest ys : Bytes)
      → IsAt binary offset net rest ys
      → length binary - offset ≡ 4 + (packet_size net rest + length ys)
  packet_room offset net rest ys h =
      omega (arith, room offset _ h.at, length-append (framed net rest) ys, length-framed net rest)

  loop_step :
      (fuel offset : ℕ) (net rest ys : Bytes) (info : NetInfo) (route then_route : RpcRoute)
      → IsAt binary offset net rest ys
      → 0 < length net
      → packet_size net rest < net_packet_max_size
      → ext.net_info.serialize info ≡ some net
      → dispatch ext network socket binary offset info route ≡ (ok tt, then_route)
      → receive_loop ext network (suc fuel) socket binary offset route
        ≡ receive_loop ext network fuel socket binary
            (offset + (packet_size net rest + 4))
            then_route
  unfolding receive_loop ◌>>=◌
  loop_step fuel offset net rest ys info route then_route h pos small s d =
      let size = packet_size net rest in
      let left = packet_room offset net rest ys h in
      let tests = admits size (omega arith) small in
      rw (goes_on _ (size + length ys) left (omega arith), receive_loop)
        (rw (read_size binary offset net rest ys h, receive_loop)
          (rw (tests.0, receive_loop)
            (rw (tests.1, receive_loop)
              (rw (holds_all _ size (length ys) left, receive_loop)
                (rw (get_net_info_at binary offset net rest ys h ext info pos s, receive_loop)
                  (rw (d, receive_loop)))))))

  loop_end :
      (fuel : ℕ) (route : RpcRoute)
      → receive_loop ext network (suc fuel) socket binary (length binary) route
        ≡ (ok (some (length binary)), route)
  unfolding receive_loop ◌>>=◌
  loop_end fuel route = ground arith

  Runs-loop :
      (fuel : ℕ) {offset end : ℕ} {route last : RpcRoute}
      → Runs ext network socket binary offset route end last
      → length binary - offset < fuel
      → (spare : ℕ) × (receive_loop ext network fuel socket binary offset route
          ≡ receive_loop ext network (suc spare) socket binary end last)
  Runs-loop zero r h = elim h [ ]
  Runs-loop (suc fuel) done h = (fuel, refl)
  Runs-loop (suc fuel) {offset = o} {route = r} (next net rest ys info r' at pos small s d more) h =
      let (spare, e) = Runs-loop fuel more (omega (arith, packet_room o net rest ys at)) in
      (spare, loop_step fuel o net rest ys info r r' at pos small s d ∙ e)

  abbrev heard : RpcRoute → RpcRoute
  heard route = record route { rpc_heart = update_socket socket route.rpc_heart }

  -- A buffer of whole packets of the layout, each of less than 4096 bytes and accepted when it is
  -- dispatched, is dispatched packet by packet, in order, and is consumed in full.
  pub whole_packets_consumed :
      (read_size : ℕ) (route last : RpcRoute)
      → Runs ext network socket binary 0 (heard route) (length binary) last
      → on_receive ext network socket binary read_size route ≡ (ok (length binary), last)
  unfolding on_receive ◌>>=◌
  whole_packets_consumed read_size route last r =
      let (spare, e) = Runs-loop (suc (length binary)) r (omega arith) in
      rw (e, loop_end spare last)

  -- Where whole packets, accepted when they are dispatched, are followed by a part of a packet,
  -- which has its size and less than the size says, the whole packets are dispatched, and
  -- `read_size` stays what the caller handed in.
  pub packets_before_a_part_kept :
      (read_size end size : ℕ) (zs : Bytes) (route last : RpcRoute)
      → Runs ext network socket binary 0 (heard route) end last
      → IsPart binary end size zs
      → on_receive ext network socket binary read_size route ≡ (ok read_size, last)
  unfolding on_receive ◌>>=◌
  packets_before_a_part_kept read_size end size zs route last r h =
      let (spare, e) = Runs-loop (suc (length binary)) r (omega arith) in
      rw (e, loop_part spare end size zs last h)
