-- ===== src/System/RemoteCall/Way.antt =====
-- The way of a call, one step after another.

use frrpc.Heart.{update_socket}
use frrpc.Route.Process.Delivery.{with_calls, net_server-get}
use frrpc.System.Relay.{with_heart, channel_packet_relayed}
use frrpc.System.Arrivals.{server_gets, channel_passed, call_packet}
use frrpc.Prelude.{
  ℕ, ◌≡◌, ◌∙◌, refl, arith, true, some, Option, String, [], ◌∷◌, ◌++◌, string_key, nat_key,
  get_elem?, suc, length, ap, sym, List, get_elem?-last,
}
use frrpc.Wire.Bytes.{Bytes}
use frrpc.Wire.Messages.{RpcMeta}
use frrpc.Wire.Layout.{framed, rpc_part, length-rpc_part}
use frrpc.Rpc.Server.Requests.{answer_meta}
use frrpc.EndToEnd.{channel_sends}
use frrpc.System.{
  Platform, Places, System, step, calls, channel_packet_goes, NetCall, RpcRoute, to_gateway,
  gateway_packet_goes, RpcPacket, call_method,
}
use frrpc.System.Calls.{CanCall, call_meta, call_goes, next_id}
use frrpc.System.RemoteCall.{CallFits, AnswerFits, IsQuiet, CanServe, build_link_id, ok}

-- All that a remote call depends on.
pub record Trip {Request Response : Type 0} (p : Platform Request Response) (places : Places)
    : Type 0 where
  pub service_name : String
  pub method_index : ℕ
  pub cntl : ℕ
  pub response : ℕ
  pub cur_time : ℕ
  pub n : ℕ
  pub request : Request
  pub closure : Option ℕ
  pub result : Response
  pub system : System Request Response
  pub quiet : IsQuiet p places system
  pub call : CanCall system.channel cntl response closure
  pub serve : CanServe p places service_name method_index n system
  pub fits :
      CallFits p.ext p.requests places.channel_socket
        (call_meta service_name method_index system.channel)
        request
  pub answer :
      AnswerFits p.ext p.responses places.channel_socket
        (answer_meta "" (call_meta service_name method_index system.channel))
        result
  pub accepted :
      p.answers system.channel.client
        (some (framed fits.sent_net (rpc_part fits.meta_bytes (fits.first ∷ fits.others))))
      ≡ true
  pub decoded : serve.service.parse_request method_index (fits.first ∷ fits.others) ≡ some request
  pub gives : serve.service.call_method method_index request ≡ ("", result) ∷ []

module _ {Request Response : Type 0} {p : Platform Request Response} {places : Places}
    (trip : Trip p places) where
  open trip use {
    service_name, method_index, cntl, response, cur_time, n, request, closure, result, system,
    quiet, call, serve, fits, answer, accepted, decoded, gives,
  }

  abbrev pub meta : RpcMeta
  meta = call_meta service_name method_index system.channel

  abbrev pub rest : Bytes
  rest = rpc_part fits.meta_bytes (fits.first ∷ fits.others)

  abbrev pub called : System Request Response
  called =
      step p places (calls service_name method_index cntl response request closure cur_time) system

  pub called_once :
      (call_method p.ext p.answers p.requests service_name method_index
          (some cntl)
          request
          (some response)
          closure
          cur_time
          system.channel
        ≡ (ok tt, called.channel))
      × (called.channel.request_id ≡ next_id system.channel)
      × (called.channel.client ≡ system.channel.client ++ some (framed fits.sent_net rest) ∷ [])
      × (called.channel.already_callback_queue ≡ system.channel.already_callback_queue)
  called_once =
      call_goes p.ext p.answers p.requests service_name method_index cntl response cur_time request
        closure system.channel (framed fits.sent_net rest) call
        (channel_sends p.ext p.network p.answers p.packets p.requests meta request
            system.channel.client fits.sent_binary fits.sent_net fits.meta_bytes
            (fits.first ∷ fits.others) fits.sent fits.sent_as fits.meta_as fits.body_as
            (omega (arith, fits.fits))
          ∙ rw accepted refl)

  pub channel_offers :
      get_elem? called.channel.client system.from_channel ≡ some (some (framed fits.sent_net rest))
  channel_offers =
      ap (λ client. get_elem? client system.from_channel) called_once.2
      ∙ ap (λ i. get_elem? (system.channel.client ++ some (framed fits.sent_net rest) ∷ []) i)
          (sym quiet.channel_done)
      ∙ get_elem?-last system.channel.client (some (framed fits.sent_net rest))

  abbrev pub relayed : System Request Response
  relayed = step p places channel_packet_goes called

  abbrev pub forwarded : NetCall
  forwarded = NetCall.send places.server_socket (some (framed fits.relayed_net rest))

  abbrev pub heard : RpcRoute
  heard = with_heart (update_socket places.channel_socket system.gateway.rpc_heart) serve.found

  pub relayed_by_gateway : relayed.gateway ≡ with_calls heard (forwarded ∷ [])
  unfolding to_gateway
  relayed_by_gateway =
      rw (channel_offers, to_gateway)
        (channel_packet_relayed p.ext p.network places.channel_socket places.server_socket meta rest
          fits.sent_binary fits.sent_net fits.relayed_binary fits.relayed_net system.gateway
          serve.found fits.sent fits.sent_as fits.relayed fits.relayed_as fits.some_net
          (omega (arith, fits.fits, length-rpc_part fits.meta_bytes (fits.first ∷ fits.others)))
          (omega
            (arith, fits.relayed_fits, length-rpc_part fits.meta_bytes (fits.first ∷ fits.others)))
          serve.routes)

  pub channel_counted : relayed.from_channel ≡ suc system.from_channel
  channel_counted = rw channel_offers

  pub gateway_unchanged : length heard.net_server ≡ system.from_gateway
  gateway_unchanged =
      ap (λ (calls : List NetCall). length calls)
        (ap (λ q. q.1.net_server) (sym serve.routes)
          ∙ net_server-get p.ext p.network places.channel_socket service_name system.gateway)
      ∙ quiet.gateway_done

  pub gateway_offers : get_elem? relayed.gateway.net_server system.from_gateway ≡ some forwarded
  gateway_offers =
      ap (λ route. get_elem? route.net_server system.from_gateway) relayed_by_gateway
      ∙ ap (λ i. get_elem? (heard.net_server ++ forwarded ∷ []) i) (sym gateway_unchanged)
      ∙ get_elem?-last heard.net_server forwarded

  abbrev pub arrived : System Request Response
  arrived = step p places gateway_packet_goes relayed

  abbrev pub arriving : RpcPacket
  arriving =
      call_packet (build_link_id serve.net.route_length places.route_id places.channel_socket) meta
        (fits.first ∷ fits.others)

  pub queued_by_server : arrived.server_received.packet_queue ≡ arriving ∷ []
  queued_by_server =
      rw (gateway_offers, serve.connected)
        (server_gets p places serve.net.route_length meta fits.relayed_net fits.meta_bytes
          fits.relayed_binary fits.first fits.others system.server_received fits.relayed
          fits.relayed_as fits.meta_as fits.some_relayed fits.some_meta
          (omega (arith, fits.relayed_fits)) quiet.server_idle)

  pub passed_by_channel : arrived.channel_received ≡ system.channel_received
  passed_by_channel =
      rw gateway_offers
        (channel_passed p places (framed fits.relayed_net rest) system.channel_received serve.apart)

  pub gateway_counted : arrived.from_gateway ≡ suc system.from_gateway
  gateway_counted = rw gateway_offers
