-- ===== src/Tests/Wire.antt =====
-- A packet built and read.
use frrpc.Prelude.{◌≡◌, refl, arith, some, [], ◌∷◌, ◌++◌}
use frrpc.Prelude.Outcome.{ok}
use frrpc.Wire.Messages.{empty_net_info}
use frrpc.Wire.Packet.{build_from_message, get_message, new_packet, event_method}
use frrpc.Wire.Layout.{build_from_message-framed}
use frrpc.Wire.RoundTrip.{get_message_at, filled}
use frrpc.Tests.Data.{
  sample, bytes_codec, call_meta, call_meta_bytes, call_info, call_net, call_body, call_bytes,
}

build_from_message-framed_example :
    build_from_message sample bytes_codec call_info call_meta call_body ≡ some call_bytes
build_from_message-framed_example =
    build_from_message-framed sample bytes_codec call_info call_meta call_body call_net
      call_meta_bytes call_body refl refl refl (omega arith) (omega arith) (omega arith)

get_message_at_example :
    get_message sample (9 ∷ call_bytes ++ 4 ∷ []) 1 empty_net_info (new_packet 0 event_method)
    ≡ ok (call_info, filled call_meta call_body (new_packet 0 event_method))
get_message_at_example =
    get_message_at sample (9 ∷ call_bytes ++ 4 ∷ []) 1 call_info empty_net_info call_meta call_net
      call_meta_bytes call_body (4 ∷ []) (new_packet 0 event_method) refl (omega arith)
      (omega arith) (omega arith) (omega arith) (omega arith) refl refl (omega arith)
