-- ===== src/Tests/Async.antt =====
-- An asynchronous call of the method 0 of `echo`, whose function has the number 77.
use frrpc.Prelude.{◌≡◌, refl, true, none, some, [], ◌∷◌, ◌++◌, arith, nat_key}
use frrpc.Prelude.Outcome.{ok}
use frrpc.Prelude.Map.{lookup}
use frrpc.Wire.Packet.{RpcPacket, new_packet, event_method}
use frrpc.Rpc.Channel.{Channel, new_channel, new_option}
use frrpc.Rpc.Channel.Requests.{call_method, do_request_packet}
use frrpc.Rpc.Channel.Registry.{ran}
use frrpc.Rpc.Channel.Work.{async_request, deal}
use frrpc.Rpc.Channel.Work.Async.{prepared, async_callback, ended, async_request_ends}
use frrpc.Tests.Data.{sample, fifo, all_sent, bytes_codec, call_meta, call_body}

abbrev channel : Channel
channel = record (new_channel (new_option 0) [] 20) { init_success = true }

abbrev called : Channel
called =
    (call_method sample all_sent bytes_codec "echo" 0 (some 20) call_body (some 21) (some 77) 100
      (prepared channel)).1

abbrev response : RpcPacket
response = record (new_packet 0 event_method) {
  rpc_meta = record call_meta { rpc_request_meta = record { request_id = 1 } };
  binary = some (8 ∷ []);
}

async_request_ends_example :
    (async_request sample all_sent bytes_codec "echo" 0 call_body 77 100 channel ≡ (ok 20, called))
    × ((do_request_packet fifo response called).1.already_callback_queue
        ≡ called.already_callback_queue ++ async_callback 77 channel ∷ [])
    × (lookup 21 (do_request_packet fifo response called).1.responses ≡ some (8 ∷ []))
    × ((deal (async_callback 77 channel) (do_request_packet fifo response called).1).0
        ≡ ok (ran 77))
    × (lookup 20 (ended fifo sample all_sent bytes_codec 77 channel response called).controllers
        ≡ none)
    × (lookup 21 (ended fifo sample all_sent bytes_codec 77 channel response called).responses
        ≡ none)
unfolding lookup call_method frrpc.Prelude.Effect.◌>>=◌ frrpc.Rpc.Channel.get_controller
    frrpc.Prelude.Map.insert frrpc.Prelude.Map.contains frrpc.Net.ChannelNet.send
    frrpc.Net.Base.client_send
async_request_ends_example =
    async_request_ends fifo sample all_sent bytes_codec "echo" 0 77 100 call_body channel called
      response (8 ∷ []) refl refl refl (omega arith) refl refl
