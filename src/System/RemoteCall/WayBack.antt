-- ===== src/System/RemoteCall/WayBack.antt =====
-- The way of an answer, one step after another.
use frrpc.Rpc.Channel.Requests.Responses.{call_is_answered}
use frrpc.Rpc.Channel.Requests.{do_request_packet, new_channel_callback}
use frrpc.System.Ends.{call_is_served, parse_one}
use frrpc.Heart.{update_socket}
use frrpc.Route.Process.Delivery.{with_calls, sends}
use frrpc.System.Relay.{with_heart, server_packet_relayed}
use frrpc.System.Arrivals.{call_packet, fetch_one, channel_gets, server_passed}
use frrpc.Prelude.{
  ◌≡◌, ◌∙◌, refl, arith, some, Option, [], ◌∷◌, ◌++◌, string_key, nat_key, get_elem?, suc, length,
  ap, sym, get_elem?-last, length-append,
}
use frrpc.Wire.Bytes.{Bytes}
use frrpc.Wire.Layout.{framed, rpc_part, length-rpc_part}
use frrpc.Rpc.Server.Requests.{answer_meta}
use frrpc.EndToEnd.{server_sends}
use frrpc.System.{
  Platform, Places, System, step, NetCall, to_gateway, gateway_packet_goes, RpcPacket, serves,
  fetch_message_queue, RpcServerRoute, sent_by, Client, server_packet_goes, parses,
}
use frrpc.System.RemoteCall.{ok, lookup}
use frrpc.System.RemoteCall.Way.{
  Trip, arrived, arriving, called, called_once, forwarded, gateway_counted, gateway_unchanged,
  heard, meta, passed_by_channel, queued_by_server, relayed, relayed_by_gateway,
}

sent_by-at :
    {Request Response : Type 0} (p : Platform Request Response) (places : Places)
    (pointer : Option RpcServerRoute) (net : RpcServerRoute) (client : Client)
    → pointer ≡ some net
    → get_elem? net.route_client_list places.route_id ≡ some client
    → sent_by p places pointer ≡ client
sent_by-at p places pointer net client started at = rw (started, sent_by, at) refl

module _ {Request Response : Type 0} {p : Platform Request Response} {places : Places}
    (trip : Trip p places) where
  open trip use {
    service_name, method_index, cntl, response, cur_time, n, request, closure, result, system,
    quiet, call, serve, fits, answer, accepted, decoded, gives,
  }

  abbrev pub served : System Request Response
  served = step p places (serves n) (arrived trip)

  abbrev pub back : Bytes
  back = rpc_part answer.meta_bytes (answer.first ∷ answer.others)

  abbrev pub answer_packet : Bytes
  answer_packet = framed answer.sent_net back

  pub fetched_by_server :
      fetch_message_queue p.packets (arrived trip).server_received.packet_queue n []
      ≡ (arriving trip ∷ [], [])
  fetched_by_server =
      ap (λ queue. fetch_message_queue p.packets queue n []) (queued_by_server trip)
      ∙ fetch_one p.packets n (arriving trip) (serve.takes (arriving trip))

  pub sent_by_server :
      (net' : RpcServerRoute) × (served.server.rpc_net ≡ some net')
      × (get_elem? net'.route_client_list places.route_id
          ≡ some (serve.client ++ some answer_packet ∷ []))
  sent_by_server = rw fetched_by_server (
      call_is_served p.ext p.answers p.ok_code p.responses (arriving trip) system.server serve.net
        serve.service (fits.first ∷ fits.others) request result places.route_id
        places.channel_socket serve.client (serve.client ++ some answer_packet ∷ []) refl refl
        serve.linked serve.numbered serve.known serve.method refl decoded gives serve.connected
        serve.room serve.has_client
        (ap (λ r. r.1)
          (server_sends p.ext p.network p.answers p.packets p.responses (answer_meta "" (meta trip))
            result serve.client answer.sent_binary answer.sent_net answer.meta_bytes
            (answer.first ∷ answer.others) places.channel_socket serve.net.route_length
            places.route_id serve.room answer.sent answer.sent_as answer.meta_as answer.body_as
            (omega (arith, answer.fits)))))

  pub server_sent : sent_by p places served.server.rpc_net ≡ serve.client ++ some answer_packet ∷ []
  server_sent = let (net', started, at) = sent_by_server in sent_by-at p places _ net' _ started at

  pub server_had : length serve.client ≡ system.from_server
  server_had =
      ap (λ (client : Client). length client)
        (sym (sent_by-at p places _ serve.net _ serve.connected serve.has_client))
      ∙ quiet.server_done

  pub server_offers :
      get_elem? (sent_by p places served.server.rpc_net) system.from_server
      ≡ some (some answer_packet)
  server_offers =
      ap (λ client. get_elem? client system.from_server) server_sent
      ∙ ap (λ i. get_elem? (serve.client ++ some answer_packet ∷ []) i) (sym server_had)
      ∙ get_elem?-last serve.client (some answer_packet)

  abbrev pub returned : System Request Response
  returned = step p places server_packet_goes served

  abbrev pub answered : NetCall
  answered = NetCall.send places.channel_socket (some answer_packet)

  pub returned_by_gateway :
      returned.gateway
      ≡ with_calls
          (with_heart
            (update_socket places.server_socket (relayed trip).gateway.rpc_heart)
            (relayed trip).gateway)
          (answered ∷ [])
  unfolding to_gateway sends
  returned_by_gateway =
      rw (server_offers, to_gateway)
        (server_packet_relayed p.ext p.network places.server_socket places.channel_socket back
          answer.sent_binary answer.sent_net (relayed trip).gateway answer.sent answer.sent_as
          answer.some_net
          (omega
            (arith, answer.fits, length-rpc_part answer.meta_bytes (answer.first ∷ answer.others))))

  pub server_counted : returned.from_server ≡ suc system.from_server
  server_counted = rw server_offers

  pub gateway_at : length (relayed trip).gateway.net_server ≡ (arrived trip).from_gateway
  gateway_at =
      ap (λ route. length route.net_server) (relayed_by_gateway trip)
      ∙ omega (
        arith,
        length-append (heard trip).net_server (forwarded trip ∷ []),
        (gateway_unchanged trip),
        (gateway_counted trip),
      )

  pub gateway_answers : get_elem? returned.gateway.net_server returned.from_gateway ≡ some answered
  gateway_answers =
      ap (λ route. get_elem? route.net_server (arrived trip).from_gateway) returned_by_gateway
      ∙ ap (λ i. get_elem? ((relayed trip).gateway.net_server ++ answered ∷ []) i) (sym gateway_at)
      ∙ get_elem?-last (relayed trip).gateway.net_server answered

  abbrev pub delivered : System Request Response
  delivered = step p places gateway_packet_goes returned

  abbrev pub response_packet : RpcPacket
  response_packet = call_packet 0 (answer_meta "" (meta trip)) (answer.first ∷ answer.others)

  pub queued_by_channel : delivered.channel_received.packet_queue ≡ response_packet ∷ []
  queued_by_channel = rw gateway_answers (
      channel_gets p places (answer_meta "" (meta trip)) answer.sent_net answer.meta_bytes
        answer.sent_binary answer.first answer.others returned.channel_received answer.sent_as
        answer.meta_as answer.some_net answer.some_meta (omega (arith, answer.fits))
        (ap (λ received. received.packet_queue) (passed_by_channel trip) ∙ quiet.channel_idle))

  pub passed_by_server : delivered.server_received ≡ returned.server_received
  passed_by_server =
      rw gateway_answers
        (server_passed p places _ answer_packet returned.server_received serve.apart)

  pub gateway_counted_twice : delivered.from_gateway ≡ suc (suc system.from_gateway)
  gateway_counted_twice = rw gateway_answers (ap suc (gateway_counted trip))

  abbrev pub ended : System Request Response
  ended = step p places (parses n) delivered

  pub fetched_by_channel :
      fetch_message_queue p.packets delivered.channel_received.packet_queue n []
      ≡ (response_packet ∷ [], [])
  fetched_by_channel =
      ap (λ queue. fetch_message_queue p.packets queue n []) queued_by_channel
      ∙ fetch_one p.packets n response_packet (serve.takes response_packet)

  pub taken :
      ((do_request_packet p.callbacks response_packet (called trip).channel).0 ≡ ok tt)
      × ((do_request_packet p.callbacks response_packet
            (called trip).channel).1.already_callback_queue
          ≡ (called trip).channel.already_callback_queue
            ++ new_channel_callback closure cntl response call.controller.is_sync ∷ [])
      × (lookup response
            (do_request_packet p.callbacks response_packet (called trip).channel).1.responses
          ≡ some (answer.first ∷ answer.others))
  taken =
      let (goes, id, sent, queue) = (called_once trip) in
      call_is_answered p.callbacks p.ext p.answers p.requests service_name method_index cntl
        response cur_time request closure system.channel (called trip).channel call.controller
        response_packet (answer.first ∷ answer.others) call.old call.found call.placed goes (sym id)
        (rw id serve.small) refl refl

  pub ended_channel :
      ended.channel ≡ (do_request_packet p.callbacks response_packet (called trip).channel).1
  ended_channel =
      rw fetched_by_channel
        (parse_one p.callbacks response_packet (called trip).channel refl serve.numbered taken.0)
