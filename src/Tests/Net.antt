-- ===== src/Tests/Net.antt =====
-- Link ids, and packets that reach a server and a channel.
use frrpc.Prelude.{◌≡◌, ◌<◌, ◌^◌, refl, arith, [], ◌∷◌}
use mathlib.Core.Logic.{◌↔◌}
use frrpc.Prelude.Outcome.{fault}
use frrpc.Wire.Messages.{NetInfo, RouteNetInfo}
use frrpc.Wire.Layout.{framed, rpc_part}
use frrpc.Net.LinkId.{build_link_id, get_socket, get_route_id}
use frrpc.Net.LinkId.Codec.{link_id_roundtrip}
use frrpc.Net.Base.{Received}
use frrpc.Net.ServerClient
use frrpc.Net.ServerClient.Queued.{empty_call_faults}
use frrpc.Tests.Data.{sample, fifo, call_meta, call_meta_bytes, relayed_net, from_channel}

link_id_roundtrip_example :
    ((get_route_id 1 (build_link_id 1 2 5) ≡ 2) ↔ (5 < 10 ^ 1))
    × ((get_socket 1 (build_link_id 1 2 5) ≡ 5) ↔ (5 < 10 ^ 1))
link_id_roundtrip_example = link_id_roundtrip 1 2 5

abbrev nothing : Received
nothing = record { packet_queue = []; read_size = 0 }

abbrev relayed_info : NetInfo
relayed_info = record { net_type = 1; net_binary = 1 ∷ 1 ∷ 9 ∷ [] }

abbrev from_nine : RouteNetInfo
from_nine = record from_channel { source_socket = 9 }

empty_call_faults_example :
    (ServerClient.on_receive sample fifo 1 0
      (framed relayed_net (rpc_part call_meta_bytes []))
      nothing).0
    ≡ fault
empty_call_faults_example =
    empty_call_faults sample fifo 1 0 relayed_info from_nine call_meta relayed_net call_meta_bytes
      refl refl refl refl (omega arith) (omega arith) nothing (omega arith) refl
