-- ===== src/Tests/Ends.antt =====
-- A server that answers.
use frrpc.Prelude.{
  ◌++◌, inl, false, ℕ, ◌≡◌, refl, arith, none, some, List, [], ◌∷◌, length, if◌then◌else◌, ◌==◌,
  string_key,
}
use frrpc.Prelude.Outcome.{ok, fault}
use frrpc.Prelude.Map.{lookup}
use frrpc.Wire.Packet.{RpcPacket, event_method, event_connection}
use frrpc.Net.ServerRoute.{RpcServerRoute}
use frrpc.Net.ServerRoute
use frrpc.Rpc.Server.{Server, Service, new_server}
use frrpc.Rpc.Server.Requests.Stops.{IsFatal, fatal_packet_stops_server}
use frrpc.Rpc.Server.Requests.Queue.{
  IsCall, Kinds, good_call, bad_call, strange_call, event, queue_is_served,
}
use frrpc.Rpc.Server.Requests.Loop.{serve_queue, IsBad}
use frrpc.Rpc.Server.Requests.Answered.{sent_answers}
use frrpc.Tests.Data.{sample, all_sent, bytes_codec, call_meta, call_body}

-- A service whose one method gives back what it got.
abbrev echo : Service (List ℕ) (List ℕ)
echo = record {
  method_count = 1;
  method_index = λ name. some 0;
  new_response = λ index. [];
  parse_request = λ index bs. if length bs == 0 then none else some bs;
  call_method = λ index request. ("", request) ∷ [];
}

abbrev net : RpcServerRoute
net = ServerRoute.new_server 1

abbrev server : Server (List ℕ) (List ℕ)
server = record (new_server (List ℕ) (List ℕ) "") {
  rpc_net = some net;
  name_2service = ("echo", echo) ∷ [];
}

abbrev request : RpcPacket
request = record {
  link_id = 9;
  net_event = event_method;
  rpc_meta = call_meta;
  binary = some call_body;
}

known : lookup "echo" server.name_2service ≡ some echo
unfolding lookup
known = refl

-- The empty body does not parse.
abbrev bad_request : RpcPacket
bad_request = record request { binary = some [] }

bad_request-IsBad : IsBad (("echo", echo) ∷ []) bad_request
bad_request-IsBad = record {
  service = echo;
  body = [];
  is_call = refl;
  known = known;
  method = omega arith;
  has_body = refl;
  bad = inl refl;
}

abbrev strange_request : RpcPacket
strange_request = record request { rpc_meta = record call_meta { service_name = "other" } }

abbrev new_link : RpcPacket
new_link = record request { net_event = event_connection }

abbrev packets : List RpcPacket
packets = request ∷ bad_request ∷ new_link ∷ strange_request ∷ request ∷ []

request-IsCall : IsCall (("echo", echo) ∷ []) request
request-IsCall = record {
  service = echo;
  body = call_body;
  request = call_body;
  is_call = refl;
  linked = λ e. cc;
  numbered = λ e. cc;
  known = known;
  method = omega arith;
  has_body = refl;
  parsed = refl;
}

stranger : lookup "other" server.name_2service ≡ none
unfolding lookup
stranger = refl

abbrev kinds : Kinds (("echo", echo) ∷ []) packets
kinds = (
  good_call request-IsCall,
  (
    bad_call bad_request-IsBad,
    (event (λ e. cc), (strange_call refl stranger, (good_call request-IsCall, tt))),
  ),
)

queue_is_served_example : serve_queue sample all_sent 0 bytes_codec (λ n. false) packets server ≡ (
  ok ((9, event_connection) ∷ [], []),
  record server {
    rpc_net = some (
        sent_answers sample all_sent 0 bytes_codec 9 call_meta
          (("", call_body) ∷ [])
          (sent_answers sample all_sent 0 bytes_codec 9 call_meta (("", call_body) ∷ []) net));
  },
)
unfolding request-IsCall sent_answers
queue_is_served_example =
    queue_is_served sample all_sent 0 bytes_codec (("echo", echo) ∷ []) packets kinds server net
      refl refl

-- `echo` has no method 1.
abbrev fatal_request : RpcPacket
fatal_request = record request { rpc_meta = record call_meta { method_index = 1 } }

fatal_request-IsFatal : IsFatal (("echo", echo) ∷ []) fatal_request
fatal_request-IsFatal = record {
  service = echo;
  is_call = refl;
  known = known;
  lacks = inl (omega arith);
}

fatal_packet_stops_server_example :
    serve_queue sample all_sent 0 bytes_codec
      (λ n. false)
      ((request ∷ []) ++ fatal_request ∷ request ∷ [])
      server
    ≡ (
      fault,
      record server {
        rpc_net =
            some
              (sent_answers sample all_sent 0 bytes_codec 9 call_meta (("", call_body) ∷ []) net);
      },
    )
unfolding request-IsCall sent_answers
fatal_packet_stops_server_example =
    fatal_packet_stops_server sample all_sent 0 bytes_codec (("echo", echo) ∷ []) (request ∷ [])
      (request ∷ []) (good_call request-IsCall, tt) fatal_request server net fatal_request-IsFatal
      refl refl
