-- ===== src/System/Arrivals.antt =====
-- A packet of the gateway at the end that it is for.
use frrpc.Prelude.{ℕ, ◌+◌, ◌<◌, ◌≡◌, ◌≢◌, refl, arith, true, some, [], ◌∷◌, length, ◌==◌, List}
use frrpc.Wire.Bytes.{Bytes}
use frrpc.Wire.Messages.{RpcMeta}
use frrpc.Wire.Packet.{RpcPacket, event_method}
use frrpc.Wire.Layout.{framed, rpc_part}
use frrpc.Net.LinkId.{build_link_id}
use frrpc.Net.Base.{LockQueue, Received, fetch_message_queue, net_packet_max_size}
use frrpc.Net.ChannelNet.Queued.{answer_is_queued}
use frrpc.Net.ServerClient.Queued.{call_is_queued}
use frrpc.Route.State.{NetCall}
use frrpc.EndToEnd.{to_service, routed}
use frrpc.System.{Platform, Places, to_channel, to_server}

-- What a server queues, and what a channel queues.
abbrev pub call_packet : ℕ → RpcMeta → Bytes → RpcPacket
call_packet link_id meta body = record {
  link_id = link_id;
  net_event = event_method;
  rpc_meta = meta;
  binary = some body;
}

module _ (queues : LockQueue RpcPacket) where
  -- A thread that takes packets from a queue with one in it leaves none.
  pub fetch_one :
      (n : ℕ) (packet : RpcPacket)
      → (queues.pop (packet ∷ []) n).0 ≡ packet ∷ []
      → fetch_message_queue queues (packet ∷ []) n [] ≡ (packet ∷ [], [])
  unfolding fetch_message_queue
  fetch_one n packet taken = ground (arith, queues.pop-append (packet ∷ []) n)

  push_first :
      (queue : List RpcPacket) (packet : RpcPacket)
      → queue ≡ []
      → queues.push queue packet ≡ packet ∷ []
  push_first queue packet empty = rw empty (queues.push-append [] packet)

module _ {Request Response : Type 0} (p : Platform Request Response) (places : Places) where
  pub server_gets :
      (route_length : ℕ) (meta : RpcMeta) (net meta_bytes net_binary : Bytes) (b : ℕ) (bs : Bytes)
      (received : Received)
      → p.ext.route_net_info.serialize
          (record (to_service meta) { source_socket = places.channel_socket })
        ≡ some net_binary
      → p.ext.net_info.serialize (routed net_binary) ≡ some net
      → p.ext.rpc_meta.serialize meta ≡ some meta_bytes
      → 0 < length net
      → 0 < length meta_bytes
      → 4 + length net + length meta_bytes + length (b ∷ bs) < net_packet_max_size
      → received.packet_queue ≡ []
      → (to_server p places route_length
          (some
            (NetCall.send places.server_socket (some (framed net (rpc_part meta_bytes (b ∷ bs))))))
          received).packet_queue
        ≡ call_packet
            (build_link_id route_length places.route_id places.channel_socket)
            meta
            (b ∷ bs)
          ∷ []
  unfolding to_server
  server_gets route_length meta net meta_bytes net_binary b bs received r rn sm pos pm fits empty =
      let queued =
        call_is_queued p.ext p.packets route_length places.route_id (routed net_binary)
          (record (to_service meta) { source_socket = places.channel_socket }) meta net meta_bytes
          refl rn (p.ext.route_net_info.parse-serialize _ _ r) sm pos pm b bs
          (record received { read_size = 0 }) fits refl in
      let at_place : (places.server_socket == places.server_socket) ≡ true = ground arith in
      rw (at_place, queued) (push_first p.packets _ _ empty)

  pub channel_gets :
      (meta : RpcMeta) (net meta_bytes net_binary : Bytes) (b : ℕ) (bs : Bytes)
      (received : Received)
      → p.ext.net_info.serialize (routed net_binary) ≡ some net
      → p.ext.rpc_meta.serialize meta ≡ some meta_bytes
      → 0 < length net
      → 0 < length meta_bytes
      → 4 + length net + length meta_bytes + length (b ∷ bs) < net_packet_max_size
      → received.packet_queue ≡ []
      → (to_channel p places
          (some
            (NetCall.send places.channel_socket (some (framed net (rpc_part meta_bytes (b ∷ bs))))))
          received).packet_queue
        ≡ call_packet 0 meta (b ∷ bs) ∷ []
  unfolding to_channel
  channel_gets meta net meta_bytes net_binary b bs received sn sm pos pm fits empty =
      let queued =
        answer_is_queued p.ext p.packets (routed net_binary) meta net meta_bytes refl sn sm pos pm
          (b ∷ bs) (record received { read_size = 0 }) fits refl in
      let at_place : (places.channel_socket == places.channel_socket) ≡ true = ground arith in
      rw (at_place, queued) (push_first p.packets _ _ empty)

  pub server_passed :
      (route_length : ℕ) (packet : Bytes) (received : Received)
      → places.channel_socket ≢ places.server_socket
      → to_server p places route_length
          (some (NetCall.send places.channel_socket (some packet)))
          received
        ≡ received
  unfolding to_server
  server_passed route_length packet received other = ground arith

  pub channel_passed :
      (packet : Bytes) (received : Received)
      → places.channel_socket ≢ places.server_socket
      → to_channel p places (some (NetCall.send places.server_socket (some packet))) received
        ≡ received
  unfolding to_channel
  channel_passed packet received other = ground arith
