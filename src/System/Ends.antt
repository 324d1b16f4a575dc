-- ===== src/System/Ends.antt =====
-- One packet at the server and at the channel: the answer of the server goes to the gateway that the
-- call came from, and the channel takes it.
use frrpc.Prelude.{
  ℕ, ◌^◌, ◌<◌, ◌≡◌, ◌≢◌, ◌∙◌, ap, arith, true, false, some, none, [], ◌∷◌, get_elem?, string_key,
}
use frrpc.Prelude.Outcome.{ok}
use frrpc.Prelude.Effect.{◌>>=◌}
use frrpc.Prelude.Map.{lookup}
use frrpc.Wire.Bytes.{Bytes}
use frrpc.Wire.Messages.{RpcMeta}
use frrpc.Wire.External.{Codec, External}
use frrpc.Wire.Packet.{RpcPacket, event_method}
use frrpc.Net.LinkId.{build_link_id, get_route_id}
use frrpc.Net.LinkId.Codec.{link_id_roundtrip}
use frrpc.Net.Base.{LockQueue, Client, Answers}
use frrpc.Net.ServerClient
use frrpc.Net.ServerRoute.{RpcServerRoute, send_one}
use frrpc.Net.ServerRoute.Several.{at_client-other}
use frrpc.Rpc.Channel.{Channel, ChannelCallback}
use frrpc.Rpc.Channel.Requests.{do_request_packet}
use frrpc.Rpc.Channel.Registry.{parse_packet}
use frrpc.Rpc.Channel.Parse.{parse_or_log, parse_queue}
use frrpc.Rpc.Server.{Server, Service}
use frrpc.Rpc.Server.Requests.{serve, answer_meta}
use frrpc.Rpc.Server.Requests.Answered.{sent_answers, request_is_answered}
use frrpc.Rpc.Server.Requests.Loop.{serve_or_log, serve_queue}

module _ {M : Type 0} (ext : External) (answers : Answers) (ok_code : ℕ) (codec : Codec M) where
  -- A message for a link of a gateway that the server is connected to.
  send_one-at :
      (route_id socket : ℕ) (meta : RpcMeta) (body : M) (net : RpcServerRoute)
      (client after : Client)
      → socket < 10 ^ net.route_length
      → get_elem? net.route_client_list route_id ≡ some client
      → (ServerClient.send ext answers net.route_length route_id codec
          (build_link_id net.route_length route_id socket ∷ [])
          meta
          body
          client).1
        ≡ after
      → get_elem?
          (send_one ext answers ok_code codec
            (build_link_id net.route_length route_id socket)
            meta
            body
            net).1.route_client_list
          route_id
        ≡ some after
  unfolding send_one
  send_one-at route_id socket meta body net client after lt at sent =
      let same : get_route_id net.route_length (build_link_id net.route_length route_id socket)
          ≡ route_id =
        (link_id_roundtrip net.route_length route_id socket).0.1 lt in
      let method =
        ServerClient.send ext answers net.route_length route_id codec
          (build_link_id net.route_length route_id socket ∷ []) meta body in
      rw same (
        at_client-other ext answers ok_code net route_id route_id method client at
        ∙ ground (arith, sent))

module _ {Request Response : Type 0} (ext : External) (answers : Answers) (ok_code : ℕ)
    (codec : Codec Response) where
  serve_one :
      (packet : RpcPacket) (server after : Server Request Response)
      → serve ext answers ok_code codec packet server ≡ (ok none, after)
      → (serve_queue ext answers ok_code codec (λ i. false) (packet ∷ []) server).1 ≡ after
  unfolding serve_queue serve_or_log ◌>>=◌
  serve_one packet server after h = rw h

  -- A server that gets a call for one of its methods, which runs `done` once and without an error.
  pub call_is_served :
      (packet : RpcPacket) (server : Server Request Response) (net : RpcServerRoute)
      (service : Service Request Response) (body : Bytes) (request : Request) (response : Response)
      (route_id socket : ℕ) (client after : Client)
      → packet.net_event ≡ event_method
      → packet.link_id ≡ build_link_id net.route_length route_id socket
      → build_link_id net.route_length route_id socket ≢ 0
      → packet.rpc_meta.rpc_request_meta.request_id ≢ 0
      → lookup packet.rpc_meta.service_name server.name_2service ≡ some service
      → packet.rpc_meta.method_index < service.method_count
      → packet.binary ≡ some body
      → service.parse_request packet.rpc_meta.method_index body ≡ some request
      → service.call_method packet.rpc_meta.method_index request ≡ ("", response) ∷ []
      → server.rpc_net ≡ some net
      → socket < 10 ^ net.route_length
      → get_elem? net.route_client_list route_id ≡ some client
      → (ServerClient.send ext answers net.route_length route_id codec
          (build_link_id net.route_length route_id socket ∷ [])
          (answer_meta "" packet.rpc_meta)
          response
          client).1
        ≡ after
      → (net' : RpcServerRoute) × ((serve_queue ext answers ok_code codec
            (λ i. false)
            (packet ∷ [])
            server).1.rpc_net
          ≡ some net')
        × (get_elem? net'.route_client_list route_id ≡ some after)
  unfolding sent_answers
  call_is_served packet server net service body request response route_id socket client after event
        link link_nonzero id known method has_body parsed called started lt at sent =
      let answered =
        request_is_answered ext answers ok_code codec packet server net service body request event
          (rw link link_nonzero) id known method has_body parsed started in
      (
        (send_one ext answers ok_code codec (build_link_id net.route_length route_id socket)
            (answer_meta "" packet.rpc_meta) response net).1,
        ap (λ s. s.rpc_net) (serve_one packet server _ answered) ∙ rw (link, called),
        send_one-at ext answers ok_code codec route_id socket (answer_meta "" packet.rpc_meta)
            response net client after lt at sent,
      )

module _ (queues : LockQueue ChannelCallback) where
  -- A response that the channel takes.
  pub parse_one :
      (packet : RpcPacket) (channel : Channel)
      → packet.net_event ≡ event_method
      → packet.rpc_meta.rpc_request_meta.request_id ≢ 0
      → (do_request_packet queues packet channel).0 ≡ ok tt
      → (parse_queue queues (λ i. true) (packet ∷ []) channel).1
        ≡ (do_request_packet queues packet channel).1
  unfolding parse_queue parse_or_log parse_packet ◌>>=◌
  parse_one packet channel event id taken = ground arith
