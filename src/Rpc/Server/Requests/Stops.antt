-- ===== src/Rpc/Server/Requests/Stops.antt =====
-- The packets at which `ParseBinary` of src/rpc/server.cpp reads what is not there.
use frrpc.Prelude.{
  ℕ, ◌≡◌, ◌≤◌, ◌<◌, ◌⊎◌, inl, inr, ap, List, [], ◌∷◌, ◌++◌, String, some, none, arith, string_key,
  false, refl, ◌∙◌,
}
use frrpc.Prelude.Effect.{◌>>=◌}
use frrpc.Prelude.Outcome.{fault}
use frrpc.Prelude.Map.{Map, lookup}
use frrpc.Wire.External.{External, Codec}
use frrpc.Wire.Packet.{RpcPacket, event_method}
use frrpc.Net.Base.{Answers}
use frrpc.Net.ServerRoute.{RpcServerRoute}
use frrpc.Rpc.Server.{Server, Service, get_service_from_name}
use frrpc.Rpc.Server.Requests.{serve, parse_binary}
use frrpc.Rpc.Server.Requests.Answered.{sent_answers}
use frrpc.Rpc.Server.Requests.Loop.{serve_queue, serve_or_log}
use frrpc.Rpc.Server.Requests.Queue.{Kinds, all_sent, packet_is_served, same_net, runs_of}

-- A call of a service that was added, for a method that the service does not have, or for one that
-- it has, without a body.
pub record IsFatal {Request Response : Type 0} (services : Map String (Service Request Response))
    (packet : RpcPacket) : Type 0 where
  pub service : Service Request Response
  pub is_call : packet.net_event ≡ event_method
  pub known : lookup packet.rpc_meta.service_name services ≡ some service
  pub lacks :
      (service.method_count ≤ packet.rpc_meta.method_index)
      ⊎ ((packet.rpc_meta.method_index < service.method_count) × (packet.binary ≡ none))

module _ {Request Response : Type 0} (ext : External) (answers : Answers) (ok_code : ℕ)
    (codec : Codec Response) (services : Map String (Service Request Response)) where
  fatal_faults :
      (packet : RpcPacket) (f : IsFatal services packet) (server : Server Request Response)
      → server.name_2service ≡ services
      → serve_or_log ext answers ok_code codec packet server ≡ (fault, server)
  unfolding serve_or_log serve parse_binary get_service_from_name ◌>>=◌
  fatal_faults packet f server h =
      let found = ap (λ known. lookup packet.rpc_meta.service_name known) h ∙ f.known in
      elim f.lacks [
        | inl beyond ↦ ground (arith, f.is_call, found, beyond)
        | inr (within, empty) ↦ ground (arith, f.is_call, found, within, empty)
      ]

  -- A work thread comes, behind packets that it can take, to a call for a method with an index that
  -- the service does not have, or to a call of a method without a body. Then it has served the
  -- packets before, and stops there by undefined behaviour, whatever is behind in the queue.
  pub fatal_packet_stops_server :
      (before after : List RpcPacket) (kinds : Kinds services before) (packet : RpcPacket)
      (server : Server Request Response) (net : RpcServerRoute)
      → IsFatal services packet
      → server.name_2service ≡ services
      → server.rpc_net ≡ some net
      → serve_queue ext answers ok_code codec (λ n. false) (before ++ packet ∷ after) server ≡ (
        fault,
        record server {
          rpc_net = some (all_sent ext answers ok_code codec services before kinds net);
        },
      )
  unfolding serve_queue ◌>>=◌
  fatal_packet_stops_server [] after kinds packet server net f h started =
      rw (fatal_faults packet f server h)
        (ap (λ s. (fault, s)) (same_net ext answers ok_code codec services server net started))
  fatal_packet_stops_server (first ∷ before) after kinds packet server net f h started =
      let next =
        sent_answers ext answers ok_code codec first.link_id first.rpc_meta (runs_of kinds.0) net in
      rw
        (
          packet_is_served ext answers ok_code codec services first kinds.0 server net h started,
          fatal_packet_stops_server before after kinds.1 packet
              (record server { rpc_net = some next }) next f h refl,
        )
        refl
