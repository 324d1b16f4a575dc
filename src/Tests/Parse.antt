-- ===== src/Tests/Parse.antt =====
-- Two calls that are answered in the other order.
use frrpc.Prelude.{ℕ, ◌≡◌, refl, true, false, some, none, nat_key, [], ◌∷◌, ◌++◌, List}
use frrpc.Prelude.Map.{lookup}
use frrpc.Wire.Bytes.{Bytes}
use frrpc.Wire.Packet.{RpcPacket, new_packet, event_method}
use frrpc.Rpc.Controller.{new_channel_controller, failed}
use frrpc.Rpc.Channel.{Channel, ChannelCallback, new_channel, new_option}
use frrpc.Rpc.Channel.Requests.{new_channel_callback}
use frrpc.Rpc.Channel.Parse.{parse_queue}
use frrpc.Rpc.Channel.Parse.Answers.{
  Answer, AllDue, AllGiven, packets_of, answers_reach_their_calls,
}
use frrpc.Rpc.Channel.Parse.Stray.{stray_answer_is_skipped}
use frrpc.Tests.Data.{fifo, call_meta}

abbrev first_call : ChannelCallback
first_call = new_channel_callback (some 77) 1 11 false

abbrev second_call : ChannelCallback
second_call = new_channel_callback (some 78) 2 12 false

-- Its requests 1 and 2 are pending.
abbrev waiting : Channel
waiting =
    record (new_channel (new_option 0)
      ((1, new_channel_controller true false) ∷ (2, new_channel_controller true false) ∷ []) 20) {
        init_success = true;
        responses = (11, []) ∷ (12, []) ∷ [];
        request_callback = (1, first_call) ∷ (2, second_call) ∷ [];
      }

abbrev response_to : ℕ → Bytes → RpcPacket
response_to id body = record (new_packet 0 event_method) {
  rpc_meta = record call_meta { rpc_request_meta = record { request_id = id } };
  binary = some body;
}

abbrev answers : List Answer
answers =
    record { packet = response_to 2 (9 ∷ []); callback = second_call; body = 9 ∷ [] }
    ∷ record { packet = response_to 1 (8 ∷ []); callback = first_call; body = 8 ∷ [] }
    ∷ []

all_due : AllDue waiting answers
unfolding lookup failed
all_due = (
  record {
    controller = new_channel_controller true false;
    old = [];
    placed = refl;
    event = refl;
    numbered = λ e. cc;
    pending = refl;
    linked = refl;
    fine = refl;
    has_body = refl;
  },
  (λ e. cc, λ e. cc, tt),
  (
    record {
      controller = new_channel_controller true false;
      old = [];
      placed = refl;
      event = refl;
      numbered = λ e. cc;
      pending = refl;
      linked = refl;
      fine = refl;
      has_body = refl;
    },
    tt,
    tt,
  ),
)

answers_reach_their_calls_example :
    AllGiven (parse_queue fifo (λ i. true) (packets_of answers) waiting).1 answers
    × ((parse_queue fifo (λ i. true) (packets_of answers) waiting).1.already_callback_queue
        ≡ [] ++ second_call ∷ first_call ∷ [])
answers_reach_their_calls_example = answers_reach_their_calls fifo answers waiting all_due

-- Nobody waits for a response to the request 5.
stray : lookup 5 waiting.request_callback ≡ none
unfolding lookup
stray = refl

stray_answer_is_skipped_example :
    parse_queue fifo
      (λ i. true)
      ((response_to 2 (9 ∷ []) ∷ []) ++ response_to 5 (7 ∷ []) ∷ response_to 1 (8 ∷ []) ∷ [])
      waiting
    ≡ parse_queue fifo
        (λ i. true)
        ((response_to 2 (9 ∷ []) ∷ []) ++ response_to 1 (8 ∷ []) ∷ [])
        waiting
stray_answer_is_skipped_example =
    stray_answer_is_skipped fifo (response_to 2 (9 ∷ []) ∷ []) (response_to 1 (8 ∷ []) ∷ [])
      (response_to 5 (7 ∷ [])) waiting refl (λ e. cc) stray
