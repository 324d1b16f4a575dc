-- ===== src/Rpc/Server/Requests/Queue.antt =====
-- What the work loop of src/rpc/server.cpp makes of a queue of packets of several kinds.
use frrpc.Prelude.{
  ℕ, ◌≡◌, ◌≢◌, ◌<◌, ◌∙◌, ap, List, [], ◌∷◌, ◌++◌, String, some, none, arith, string_key, false,
  refl,
}
use frrpc.Prelude.Effect.{◌>>=◌}
use frrpc.Prelude.Outcome.{ok}
use frrpc.Prelude.Map.{Map, lookup}
use frrpc.Wire.Bytes.{Bytes}
use frrpc.Wire.External.{External, Codec}
use frrpc.Wire.Packet.{RpcPacket, event_method}
use frrpc.Net.Base.{Answers}
use frrpc.Net.ServerRoute.{RpcServerRoute}
use frrpc.Rpc.Server.{Server, Service, get_service_from_name}
use frrpc.Rpc.Server.Requests.{serve, parse_binary}
use frrpc.Rpc.Server.Requests.Answered.{sent_answers, request_is_answered}
use frrpc.Rpc.Server.Requests.Loop.{serve_queue, serve_or_log, IsBad, bad_is_logged}

-- A call of a method that is known, over a link, with a body that parses.
pub record IsCall {Request Response : Type 0} (services : Map String (Service Request Response))
    (packet : RpcPacket) : Type 0 where
  pub service : Service Request Response
  pub body : Bytes
  pub request : Request
  pub is_call : packet.net_event ≡ event_method
  pub linked : packet.link_id ≢ 0
  pub numbered : packet.rpc_meta.rpc_request_meta.request_id ≢ 0
  pub known : lookup packet.rpc_meta.service_name services ≡ some service
  pub method : packet.rpc_meta.method_index < service.method_count
  pub has_body : packet.binary ≡ some body
  pub parsed : service.parse_request packet.rpc_meta.method_index body ≡ some request

-- What a packet can be.
pub data Kind {Request Response : Type 0} (services : Map String (Service Request Response))
    (packet : RpcPacket) : Type 0 where
  good_call : IsCall services packet → Kind services packet
  bad_call : IsBad services packet → Kind services packet
  strange_call :
      packet.net_event ≡ event_method
      → lookup packet.rpc_meta.service_name services ≡ none
      → Kind services packet
  event : packet.net_event ≢ event_method → Kind services packet

module _ {Request Response : Type 0} {services : Map String (Service Request Response)} where
  -- What the application is told of the packet.
  abbrev pub events_of : {packet : RpcPacket} → Kind services packet → List (ℕ × ℕ)
  events_of (good_call c) = []
  events_of (bad_call b) = []
  events_of (strange_call e u) = []
  events_of {packet = packet} (event e) = (packet.link_id, packet.net_event) ∷ []

  -- How often `done` is run for the packet, with the error and the response.
  abbrev pub runs_of : {packet : RpcPacket} → Kind services packet → List (String × Response)
  runs_of {packet = packet} (good_call c) =
      c.service.call_method packet.rpc_meta.method_index c.request
  runs_of (bad_call b) = []
  runs_of (strange_call e u) = []
  runs_of (event e) = []

abbrev pub Kinds :
    {Request Response : Type 0} → Map String (Service Request Response) → List RpcPacket → Type 0
Kinds services [] = Unit
Kinds services (packet ∷ packets) = Kind services packet × Kinds services packets

module _ {Request Response : Type 0} (ext : External) (answers : Answers) (ok_code : ℕ)
    (codec : Codec Response) (services : Map String (Service Request Response)) where
  abbrev pub all_events : (packets : List RpcPacket) → Kinds services packets → List (ℕ × ℕ)
  all_events [] kinds = []
  all_events (packet ∷ packets) kinds = events_of kinds.0 ++ all_events packets kinds.1

  -- The connections once each packet in turn was answered.
  abbrev pub all_sent :
      (packets : List RpcPacket) → Kinds services packets → RpcServerRoute → RpcServerRoute
  all_sent [] kinds net = net
  all_sent (packet ∷ packets) kinds net =
      all_sent packets kinds.1 (
        sent_answers ext answers ok_code codec packet.link_id packet.rpc_meta (runs_of kinds.0) net)

  pub same_net :
      (server : Server Request Response) (net : RpcServerRoute)
      → server.rpc_net ≡ some net
      → server ≡ record server { rpc_net = some net }
  same_net server net started = ap (λ pointer. record server { rpc_net = pointer }) started

  strange_is_logged :
      (packet : RpcPacket) (server : Server Request Response)
      → packet.net_event ≡ event_method
      → lookup packet.rpc_meta.service_name services ≡ none
      → server.name_2service ≡ services
      → serve_or_log ext answers ok_code codec packet server ≡ (ok [], server)
  unfolding serve_or_log serve parse_binary get_service_from_name ◌>>=◌
  strange_is_logged packet server e u h = ground (arith, e, u, h)

  event_is_told :
      (packet : RpcPacket) (server : Server Request Response)
      → packet.net_event ≢ event_method
      → serve_or_log ext answers ok_code codec packet server
        ≡ (ok ((packet.link_id, packet.net_event) ∷ []), server)
  unfolding serve_or_log serve ◌>>=◌
  event_is_told packet server e = ground (arith, e)

  call_is_served :
      (packet : RpcPacket) (c : IsCall services packet) (server : Server Request Response)
      (net : RpcServerRoute)
      → server.name_2service ≡ services
      → server.rpc_net ≡ some net
      → serve_or_log ext answers ok_code codec packet server ≡ (
        ok [],
        record server {
          rpc_net = some (
              sent_answers ext answers ok_code codec packet.link_id packet.rpc_meta
                (c.service.call_method packet.rpc_meta.method_index c.request)
                net);
        },
      )
  unfolding serve_or_log
  call_is_served packet c server net h started =
      rw
        (request_is_answered ext answers ok_code codec packet server net c.service c.body c.request
          c.is_call c.linked c.numbered
          (ap (λ known. lookup packet.rpc_meta.service_name known) h ∙ c.known) c.method c.has_body
          c.parsed started)
        refl

  pub packet_is_served :
      (packet : RpcPacket) (kind : Kind services packet) (server : Server Request Response)
      (net : RpcServerRoute)
      → server.name_2service ≡ services
      → server.rpc_net ≡ some net
      → serve_or_log ext answers ok_code codec packet server ≡ (
        ok (events_of kind),
        record server {
          rpc_net = some (
              sent_answers ext answers ok_code codec packet.link_id packet.rpc_meta
                (runs_of kind)
                net);
        },
      )
  unfolding sent_answers
  packet_is_served packet (good_call c) server net h started =
      call_is_served packet c server net h started
  packet_is_served packet (bad_call b) server net h started =
      bad_is_logged ext answers ok_code codec services packet server b h
      ∙ ap (λ after. (ok [], after)) (same_net server net started)
  packet_is_served packet (strange_call e u) server net h started =
      strange_is_logged packet server e u h
      ∙ ap (λ after. (ok [], after)) (same_net server net started)
  packet_is_served packet (event e) server net h started =
      event_is_told packet server e
      ∙ ap (λ after. (ok ((packet.link_id, packet.net_event) ∷ []), after))
          (same_net server net started)

  -- A work thread takes its queue, which has packets of these kinds in any order, while nobody asks
  -- to quit. Then it takes every packet; the application is told the link and the event of each
  -- event packet, in order; and what the server sends is, packet after packet, one message for each
  -- time that the method of a good call runs `done`, to the link of the call, and none for a
  -- call that does not parse, has the request id 0 or is for a service that was not added. Nothing
  -- else about the server changes.
  pub queue_is_served :
      (packets : List RpcPacket) (kinds : Kinds services packets) (server : Server Request Response)
      (net : RpcServerRoute)
      → server.name_2service ≡ services
      → server.rpc_net ≡ some net
      → serve_queue ext answers ok_code codec (λ n. false) packets server ≡ (
        ok (all_events packets kinds, []),
        record server { rpc_net = some (all_sent packets kinds net) },
      )
  unfolding serve_queue ◌>>=◌
  queue_is_served [] kinds server net h started =
      ap (λ after. (ok ([], []), after)) (same_net server net started)
  queue_is_served (packet ∷ packets) kinds server net h started =
      let next =
        sent_answers ext answers ok_code codec packet.link_id packet.rpc_meta (runs_of kinds.0)
          net in
      rw
        (
          packet_is_served packet kinds.0 server net h started,
          queue_is_served packets kinds.1 (record server { rpc_net = some next }) next h refl,
        )
        refl
