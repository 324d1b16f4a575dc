-- ===== src/Rpc/Channel/Parse/Stray.antt =====
-- Responses to requests that are not pending: answered before, timed out, cancelled, or never made.
use frrpc.Prelude.Effect.Steps.{bind-pure, bind_same, bind_from}
use frrpc.Prelude.Effect.Keeps.{Keeps, keeps_rules}
use frrpc.Prelude.{ℕ, ◌≡◌, ◌≢◌, arith, true, none, Option, List, [], ◌∷◌, ◌++◌, nat_key}
use frrpc.Prelude.Outcome.{Outcome, ok, refused, fault, exhausted}
use frrpc.Prelude.Effect.{◌>>=◌}
use frrpc.Prelude.Map.{lookup, lookup-erase}
use frrpc.Wire.Packet.{RpcPacket, event_method}
use frrpc.Net.Base.{LockQueue}
use frrpc.Rpc.Channel.{Channel, ChannelCallback, get_controller}
use frrpc.Rpc.Channel.Requests.{do_request_packet, as_int}
use frrpc.Rpc.Channel.Requests.Responses.{unknown_is_refused}
use frrpc.Rpc.Channel.Registry.{parse_packet, do_register_packet, build_callback}
use frrpc.Rpc.Channel.Parse.{parse_or_log, parse_queue, parse_next}

abbrev pub stray_id : RpcPacket → ℕ
stray_id packet = as_int packet.rpc_meta.rpc_request_meta.request_id

-- No request with the id is pending.
abbrev Absent : ℕ → Channel → Type 0
Absent id channel = lookup id channel.request_callback ≡ none

module _ (queues : LockQueue ChannelCallback) (id : ℕ) where
  do_request_packet-Absent :
      (packet : RpcPacket) → Keeps (Absent id) (do_request_packet queues packet)
  unfolding do_request_packet get_controller ◌>>=◌
  do_request_packet-Absent packet = record {
    at = λ channel h. grind (arith, lookup-erase (stray_id packet) id channel.request_callback);
  }

  do_register_packet-Absent :
      (packet : RpcPacket) → Keeps (Absent id) (do_register_packet queues packet)
  unfolding do_register_packet build_callback ◌>>=◌
  do_register_packet-Absent packet = record { at = λ channel h. grind arith }

  parse_packet-Absent : (packet : RpcPacket) → Keeps (Absent id) (parse_packet queues packet)
  unfolding parse_packet
  parse_packet-Absent packet =
      search (keeps_rules, do_request_packet-Absent, do_register_packet-Absent) depth 8

  next-Absent : (o : Outcome (Option ℕ)) → Keeps (Absent id) (parse_next o)
  next-Absent (ok event) = record { at = λ s h. h }
  next-Absent refused = record { at = λ s h. h }
  next-Absent fault = record { at = λ s h. h }
  next-Absent exhausted = record { at = λ s h. h }

  parse_or_log-Absent : (packet : RpcPacket) → Keeps (Absent id) (parse_or_log queues packet)
  unfolding parse_or_log
  parse_or_log-Absent packet = record {
    at = λ s h.
        (next-Absent (parse_packet queues packet s).0).at (parse_packet queues packet s).1
          ((parse_packet-Absent packet).at s h);
  }

module _ (queues : LockQueue ChannelCallback) where
  stray_is_logged :
      (packet : RpcPacket) (channel : Channel)
      → packet.net_event ≡ event_method
      → packet.rpc_meta.rpc_request_meta.request_id ≢ 0
      → Absent (stray_id packet) channel
      → parse_or_log queues packet channel ≡ (ok [], channel)
  unfolding parse_or_log parse_packet ◌>>=◌
  stray_is_logged packet channel event numbered absent =
      ground (arith, unknown_is_refused queues packet channel absent)

  -- While the channel runs, a response whose request is not pending changes nothing about what the
  -- packets before and behind it in a parsing thread's queue do: the calls that are answered, the
  -- events that the application is told, and how the loop ends.
  pub stray_answer_is_skipped :
      (before after : List RpcPacket) (packet : RpcPacket) (channel : Channel)
      → packet.net_event ≡ event_method
      → packet.rpc_meta.rpc_request_meta.request_id ≢ 0
      → lookup (stray_id packet) channel.request_callback ≡ none
      → parse_queue queues (λ i. true) (before ++ packet ∷ after) channel
        ≡ parse_queue queues (λ i. true) (before ++ after) channel
  unfolding parse_queue ◌>>=◌
  stray_answer_is_skipped [] after packet channel event numbered absent =
      rw (stray_is_logged packet channel event numbered absent)
        (bind-pure (parse_queue queues (λ i. true) after) channel)
  stray_answer_is_skipped (first ∷ before) after packet channel event numbered absent =
      bind_same (parse_or_log queues first) _ _ channel (λ events.
        bind_from (parse_queue queues (λ i. true) (before ++ packet ∷ after))
          (parse_queue queues (λ i. true) (before ++ after)) _ (parse_or_log queues first channel).1
          (stray_answer_is_skipped before after packet _ event numbered
            ((parse_or_log-Absent queues (stray_id packet) first).at channel absent)))
