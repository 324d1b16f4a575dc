-- ===== src/Tests/RemoteCall.antt =====
-- A remote call of the method 0 of `echo`, from the channel at socket 9 to the server at socket 3.
use frrpc.Prelude.{
  ◌≡◌, refl, arith, true, false, some, none, [], ◌∷◌, ◌++◌, length, nat_key, if◌then◌else◌, ◌==◌,
}
use frrpc.Prelude.Map.{lookup}
use frrpc.Wire.Bytes.{Bytes}
use frrpc.Net.Base.{Received}
use frrpc.Net.ServerRoute.{RpcServerRoute}
use frrpc.Route.State.{Network, RpcRoute, new_route}
use frrpc.Route.Services.{get_server_socket, bound_socket}
use frrpc.Rpc.Controller.{new_channel_controller}
use frrpc.Rpc.Channel.{Channel, new_channel, new_option}
use frrpc.Rpc.Channel.Requests.{new_channel_callback}
use frrpc.Rpc.Server.{Service, new_server}
use frrpc.Rpc.Server.Requests.{answer_meta}
use frrpc.System.{Platform, Places, System, run}
use frrpc.System.Calls.{CanCall, call_meta}
use frrpc.System.RemoteCall.{CallFits, AnswerFits, IsQuiet, CanServe}
use frrpc.System.RemoteCall.Returned.{remote_call, remote_call_returns}
use frrpc.Tests.Data.{sample, fifo, all_sent, bytes_codec, call_body}

abbrev up : Network
up calls socket packet = true

abbrev platform : Platform Bytes Bytes
platform = record {
  ext = sample;
  network = up;
  answers = all_sent;
  ok_code = 0;
  packets = fifo;
  callbacks = fifo;
  requests = bytes_codec;
  responses = bytes_codec;
}

abbrev places : Places
places = record { channel_socket = 9; server_socket = 3; route_id = 0 }

-- A service whose one method gives its request, with a byte in front.
abbrev echo : Service Bytes Bytes
echo = record {
  method_count = 1;
  method_index = λ name. some 0;
  new_response = λ index. [];
  parse_request = λ index bs. if length bs == 0 then none else some bs;
  call_method = λ index request. ("", 8 ∷ request) ∷ [];
}

abbrev net : RpcServerRoute
net = record { route_client_list = [] ∷ []; route_length = 1 }

abbrev nothing_yet : Received
nothing_yet = record { packet_queue = []; read_size = 0 }

abbrev bound_gateway : RpcRoute
bound_gateway = record new_route { channel_service_register = (9, ("echo", 3) ∷ []) ∷ [] }

abbrev channel : Channel
channel = record (new_channel (new_option 0) ((1, new_channel_controller true false) ∷ []) 20) {
  init_success = true;
  responses = (11, []) ∷ [];
}

abbrev connected : System Bytes Bytes
connected = record {
  channel = channel;
  channel_received = nothing_yet;
  gateway = bound_gateway;
  server = record (new_server Bytes Bytes "") {
    rpc_net = some net;
    name_2service = ("echo", echo) ∷ [];
  };
  server_received = nothing_yet;
  from_channel = 0;
  from_server = 0;
  from_gateway = 0;
}

quiet : IsQuiet platform places connected
quiet = record {
  channel_done = refl;
  server_done = refl;
  gateway_done = refl;
  channel_idle = refl;
  server_idle = refl;
}

can_call : CanCall channel 1 11 (some 77)
unfolding lookup
can_call = record {
  controller = new_channel_controller true false;
  old = [];
  placed = refl;
  started = refl;
  found = refl;
  can_end = refl;
  unused = refl;
}

can_serve : CanServe platform places "echo" 0 5 connected
unfolding lookup get_server_socket bound_socket frrpc.Net.LinkId.build_link_id
can_serve = record {
  found = bound_gateway;
  net = net;
  client = [];
  service = echo;
  routes = refl;
  connected = refl;
  has_client = refl;
  known = refl;
  method = omega arith;
  apart = λ e. cc;
  room = omega arith;
  linked = λ e. cc;
  numbered = λ e. cc;
  small = omega arith;
  takes = λ packet. refl;
}

call_fits : CallFits sample bytes_codec 9 (call_meta "echo" 0 channel) call_body
call_fits = record {
  sent_binary = 1 ∷ 1 ∷ 0 ∷ [];
  sent_net = 1 ∷ 1 ∷ 1 ∷ 0 ∷ [];
  relayed_binary = 1 ∷ 1 ∷ 9 ∷ [];
  relayed_net = 1 ∷ 1 ∷ 1 ∷ 9 ∷ [];
  meta_bytes = 0 ∷ 1 ∷ 0 ∷ 0 ∷ [];
  first = 5;
  others = 6 ∷ [];
  sent = refl;
  sent_as = refl;
  relayed = refl;
  relayed_as = refl;
  meta_as = refl;
  body_as = refl;
  some_net = omega arith;
  some_relayed = omega arith;
  some_meta = omega arith;
  fits = omega arith;
  relayed_fits = omega arith;
}

answer_fits :
    AnswerFits sample bytes_codec 9 (answer_meta "" (call_meta "echo" 0 channel)) (8 ∷ call_body)
unfolding frrpc.Rpc.Controller.failed
answer_fits = record {
  sent_binary = 0 ∷ 0 ∷ 0 ∷ 9 ∷ [];
  sent_net = 1 ∷ 0 ∷ 0 ∷ 0 ∷ 9 ∷ [];
  meta_bytes = 0 ∷ 1 ∷ 0 ∷ 0 ∷ [];
  first = 8;
  others = 5 ∷ 6 ∷ [];
  sent = refl;
  sent_as = refl;
  meta_as = refl;
  body_as = refl;
  some_net = omega arith;
  some_meta = omega arith;
  fits = omega arith;
}

abbrev ended : System Bytes Bytes
ended = run platform places (remote_call "echo" 0 1 11 call_body (some 77) 100 5) connected

remote_call_returns_example :
    (lookup 11 ended.channel.responses ≡ some (8 ∷ 5 ∷ 6 ∷ []))
    × (platform.responses.parse (8 ∷ 5 ∷ 6 ∷ []) ≡ some (8 ∷ call_body))
    × (ended.channel.already_callback_queue ≡ [] ++ new_channel_callback (some 77) 1 11 false ∷ [])
    × IsQuiet platform places ended
unfolding can_call can_serve call_fits answer_fits
remote_call_returns_example =
    remote_call_returns platform places "echo" 0 1 11 100 5 call_body (some 77) (8 ∷ call_body)
      connected quiet can_call can_serve call_fits answer_fits refl refl refl
