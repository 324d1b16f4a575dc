-- ===== src/System/RemoteCall/Returned.antt =====
-- What a remote call gives, and that it leaves nothing on its way.
use frrpc.Prelude.{
  ℕ, ◌≡◌, ◌∙◌, ap, arith, some, Option, String, [], ◌∷◌, ◌++◌, length, length-append, nat_key, List,
  true, refl,
}
use frrpc.Prelude.Effect.{◌>>=◌}
use frrpc.Prelude.Map.{lookup}
use frrpc.Wire.Packet.{RpcPacket}
use frrpc.Wire.Layout.{framed, rpc_part}
use frrpc.Net.Base.{LockQueue, Client}
use frrpc.Rpc.Channel.{Channel, ChannelCallback, get_controller}
use frrpc.Rpc.Channel.Requests.{do_request_packet, new_channel_callback}
use frrpc.Rpc.Server.Requests.{answer_meta}
use frrpc.System.{
  Platform, Places, System, Action, run, calls, channel_packet_goes, server_packet_goes,
  gateway_packet_goes, serves, parses,
}
use frrpc.System.Calls.{CanCall, call_meta}
use frrpc.System.RemoteCall.{CallFits, AnswerFits, IsQuiet, CanServe}
use frrpc.System.RemoteCall.Way.{
  Trip, called, called_once, channel_counted, relayed, rest, gateway_counted,
}
use frrpc.System.RemoteCall.WayBack.{
  ended, ended_channel, taken, server_counted, server_sent, server_had, returned_by_gateway,
  gateway_at, gateway_counted_twice, fetched_by_channel, passed_by_server, fetched_by_server,
  answer_packet, answered, response_packet,
}

client-answer :
    (queues : LockQueue ChannelCallback) (packet : RpcPacket) (channel : Channel)
    → (do_request_packet queues packet channel).1.client ≡ channel.client
unfolding do_request_packet get_controller ◌>>=◌
client-answer queues packet channel = ground arith

module _ {Request Response : Type 0} {p : Platform Request Response} {places : Places}
    (trip : Trip p places) where
  open trip use {system, quiet, serve, fits}

  ended-IsQuiet : IsQuiet p places (ended trip)
  ended-IsQuiet =
      let (goes, id, sent, queue) = called_once trip in
      let clients : (ended trip).channel.client
          ≡ system.channel.client ++ some (framed fits.sent_net (rest trip)) ∷ [] =
        ap (λ c. c.client) (ended_channel trip)
        ∙ client-answer p.callbacks (response_packet trip) (called trip).channel
        ∙ sent in
      record {
        channel_done =
            ap (λ (c : Client). length c) clients
            ∙ omega (
              arith,
              length-append system.channel.client (some (framed fits.sent_net (rest trip)) ∷ []),
              quiet.channel_done,
              channel_counted trip,
            );
        server_done =
            ap (λ (c : Client). length c) (server_sent trip)
            ∙ omega (
              arith,
              length-append serve.client (some (answer_packet trip) ∷ []),
              server_had trip,
              server_counted trip,
            );
        gateway_done =
            ap (λ g. length g.net_server) (returned_by_gateway trip)
            ∙ omega (
              arith,
              length-append (relayed trip).gateway.net_server (answered trip ∷ []),
              gateway_at trip,
              gateway_counted trip,
              gateway_counted_twice trip,
            );
        channel_idle = rw (fetched_by_channel trip) refl;
        server_idle =
            ap (λ r. r.packet_queue) (passed_by_server trip) ∙ rw (fetched_by_server trip) refl;
      }

-- The way there and back of a call.
abbrev pub remote_call :
    {Request : Type 0} → String → ℕ → ℕ → ℕ → Request → Option ℕ → ℕ → ℕ → List (Action Request)
remote_call service_name method_index cntl response request closure cur_time n =
    calls service_name method_index cntl response request closure cur_time
    ∷ channel_packet_goes
    ∷ gateway_packet_goes
    ∷ serves n
    ∷ server_packet_goes
    ∷ gateway_packet_goes
    ∷ parses n
    ∷ []

module _ {Request Response : Type 0} (p : Platform Request Response) (places : Places) where
  -- A call from end to end and back is a call of the method. A quiet system has nothing on its way.
  -- Where the channel can call, with a controller and a response that exist, the gateway routes the
  -- service to the server, the messages fit into packets, the connection of the channel accepts the
  -- packet, and the method, on what the request is parsed to, runs `done` once, with no error: then
  -- the steps of the call, of the four hand-overs, of one round of the server and of one round of
  -- the channel leave the result's bytes at the call's response, which parse to the result; behind
  -- what waited, the call's own closure, controller and response wait to be run; and the system is
  -- quiet again.
  pub remote_call_returns :
      (service_name : String) (method_index cntl response cur_time n : ℕ) (request : Request)
      (closure : Option ℕ) (result : Response) (system : System Request Response)
      → IsQuiet p places system
      → (call : CanCall system.channel cntl response closure)
      → (serve : CanServe p places service_name method_index n system)
      → (fits : CallFits p.ext p.requests places.channel_socket
          (call_meta service_name method_index system.channel)
          request)
      → (answer : AnswerFits p.ext p.responses places.channel_socket
          (answer_meta "" (call_meta service_name method_index system.channel))
          result)
      → p.answers system.channel.client
          (some (framed fits.sent_net (rpc_part fits.meta_bytes (fits.first ∷ fits.others))))
        ≡ true
      → serve.service.parse_request method_index (fits.first ∷ fits.others) ≡ some request
      → serve.service.call_method method_index request ≡ ("", result) ∷ []
      → (lookup response
            (run p places
              (remote_call service_name method_index cntl response request closure cur_time n)
              system).channel.responses
          ≡ some (answer.first ∷ answer.others))
        × (p.responses.parse (answer.first ∷ answer.others) ≡ some result)
        × ((run p places
              (remote_call service_name method_index cntl response request closure cur_time n)
              system).channel.already_callback_queue
            ≡ system.channel.already_callback_queue
              ++ new_channel_callback closure cntl response call.controller.is_sync ∷ [])
        × IsQuiet p places (
            run p places
              (remote_call service_name method_index cntl response request closure cur_time n)
              system)
  remote_call_returns service_name method_index cntl response cur_time n request closure result
        system quiet call serve fits answer accepted decoded gives =
      let trip : Trip p places = record {
        service_name = service_name;
        method_index = method_index;
        cntl = cntl;
        response = response;
        cur_time = cur_time;
        n = n;
        request = request;
        closure = closure;
        result = result;
        system = system;
        quiet = quiet;
        call = call;
        serve = serve;
        fits = fits;
        answer = answer;
        accepted = accepted;
        decoded = decoded;
        gives = gives;
      } in
      let (done, queue, body) = taken trip in
      (
        ap (λ c. lookup response c.responses) (ended_channel trip) ∙ body,
        p.responses.parse-serialize _ _ answer.body_as,
        ap (λ c. c.already_callback_queue) (ended_channel trip)
            ∙ queue
            ∙ ap (λ q. q ++ new_channel_callback closure cntl response call.controller.is_sync ∷ [])
                (called_once trip).3,
        ended-IsQuiet trip,
      )
