-- ===== src/Rpc/Channel/Requests/Interleaved.antt =====
-- Two calls of one channel by two threads.
use frrpc.Prelude.{ℕ, ◌+◌, ◌%◌, ◌≡◌, ◌≢◌, String, Option, ◌∷◌, [], ◌++◌, arith, ◌^◌}
use mathlib.Core.List.{append_assoc}
use frrpc.Prelude.Effect.{◌>>=◌}
use frrpc.Prelude.Outcome.{ok}
use frrpc.Wire.External.{External, Codec}
use frrpc.Net.Base.{Answers}
use frrpc.Rpc.Channel.{Channel, get_controller}
use frrpc.Rpc.Channel.Requests.{send_request, note_timeout}

module _ {M : Type 0} (ext : External) (answers : Answers) (codec : Codec M) where
  sent-counter :
      (service_name : String) (method_index : ℕ) (cntl : Option ℕ) (request : M)
      (response closure : Option ℕ) (channel after : Channel)
      → send_request ext answers codec service_name method_index cntl request response closure
          channel
        ≡ (ok tt, after)
      → (after.request_id ≡ (channel.request_id + 1) % 2 ^ 64)
        × (after.timeout_events ≡ channel.timeout_events)
        × (after.option ≡ channel.option)
  unfolding send_request get_controller ◌>>=◌
  sent-counter service_name method_index cntl request response closure channel after h =
      (grind arith, grind arith, grind arith)

  -- A second thread sends its request before the first thread has noted the timeout of its own,
  -- and both succeed. Then both timeouts are noted for the second request, which has another id
  -- than the first.
  pub first_call_has_no_timeout :
      (service_name other_name : String) (method_index other_index time other_time : ℕ)
      (cntl other_cntl response other_response closure other_closure : Option ℕ)
      (request other_request : M) (channel one two : Channel)
      → send_request ext answers codec service_name method_index cntl request response closure
          channel
        ≡ (ok tt, one)
      → send_request ext answers codec other_name other_index other_cntl other_request
          other_response other_closure one
        ≡ (ok tt, two)
      → ((note_timeout ext answers codec other_time
            (note_timeout ext answers codec time two).1).1.timeout_events
          ≡ channel.timeout_events
            ++ record { timeout = time + two.option.request_timeout; request_id = two.request_id }
              ∷ record {
                timeout = other_time + two.option.request_timeout;
                request_id = two.request_id;
              }
              ∷ [])
        × (one.request_id ≢ two.request_id)
  unfolding note_timeout ◌>>=◌
  first_call_has_no_timeout service_name other_name method_index other_index time other_time cntl
        other_cntl response other_response closure other_closure request other_request channel one
        two h k =
      let (p, q, r) =
        sent-counter service_name method_index cntl request response closure channel one h in
      let (p', q', r') =
        sent-counter other_name other_index other_cntl other_request other_response other_closure
          one two k in
      (
        ground (
          arith,
          append_assoc channel.timeout_events
              (record { timeout = time + two.option.request_timeout; request_id = two.request_id }
                ∷ [])
              (record {
                timeout = other_time + two.option.request_timeout;
                request_id = two.request_id;
              }
                ∷ []),
        ),
        λ same. omega arith,
      )
