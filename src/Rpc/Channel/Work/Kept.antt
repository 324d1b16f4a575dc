-- ===== src/Rpc/Channel/Work/Kept.antt =====
-- Each operation of a channel keeps it so that a controller or a response is had by one callback at
-- most.
use frrpc.Prelude.Effect.Steps.{bind-step}
use frrpc.Prelude.{
  ℕ, ◌≡◌, List, [], ◌∷◌, nat_key, arith, refl, Option-cases, Bool-cases, inl, inr, ltb, false, true,
}
use frrpc.Prelude.Outcome.{ok}
use frrpc.Prelude.Effect.{◌>>=◌, Effect}
use frrpc.Prelude.Map.{lookup}
use frrpc.Wire.Packet.{RpcPacket}
use frrpc.Net.Base.{LockQueue}
use frrpc.Rpc.Controller.{ChannelController, set_failed, failed}
use frrpc.Rpc.Channel.{
  Channel, ChannelCallback, RequestTimeoutEvent, get_controller, get_response, put_controller,
  put_response,
}
use frrpc.Rpc.Channel.Requests.{
  do_request_packet, cancel_request, clear_events, expire, as_int, clear_timeout_request,
}
use frrpc.Rpc.Channel.Work.Owned.{
  holders, count_pending-erase, is_some-update, Moves, Moves-refl, Moves-trans, finish-Moves,
}

put_controller-Moves :
    (address : ℕ) (cntl : ChannelController) (channel : Channel)
    → Moves channel (put_controller address cntl channel)
unfolding holders
put_controller-Moves address cntl channel = record {
  fewer = λ of a. omega arith;
  same = λ a. is_some-update address a cntl channel.controllers;
  kept = λ a. refl;
  level = refl;
}

pub put_response-Moves :
    (address : ℕ) (bytes : List ℕ) (channel : Channel)
    → Moves channel (put_response address bytes channel)
unfolding holders
put_response-Moves address bytes channel = record {
  fewer = λ of a. omega arith;
  same = λ a. refl;
  kept = λ a. is_some-update address a bytes channel.responses;
  level = refl;
}

module _ (queues : LockQueue ChannelCallback) where
  expire-Moves :
      (id : ℕ) (channel : Channel)
      → Moves channel (expire queues id (lookup id channel.request_callback) channel).1
  unfolding expire get_controller ◌>>=◌
  expire-Moves id channel = elim (Option-cases (lookup id channel.request_callback)) [
    | inl e ↦ rw e (Moves-refl channel)
    | inr (callback, e) ↦ (elim (Option-cases (lookup callback.cntl channel.controllers)) [
      | inl missing ↦ rw (e, missing) (Moves-refl channel)
      | inr (cntl, found) ↦
          rw (e, found)
            (Moves-trans
              (put_controller-Moves callback.cntl (set_failed "request timeout" cntl) channel)
              (finish-Moves queues id callback _ e))
    ])
  ]

  pub do_request_packet-Moves :
      (packet : RpcPacket) (channel : Channel)
      → Moves channel (do_request_packet queues packet channel).1
  unfolding do_request_packet get_controller get_response ◌>>=◌
  do_request_packet-Moves packet channel =
      let id = as_int packet.rpc_meta.rpc_request_meta.request_id in
      let error = packet.rpc_meta.rpc_response_meta.error in
      elim (Option-cases (lookup id channel.request_callback)) [
        | inl e ↦ rw e (Moves-refl channel)
        | inr (callback, e) ↦ (elim (Option-cases (lookup callback.cntl channel.controllers)) [
          | inl missing ↦ rw (e, missing) (Moves-refl channel)
          | inr (cntl, found) ↦
              (let moved = put_controller-Moves callback.cntl (set_failed error cntl) channel in
                elim (Bool-cases (failed error)) [
                  | inl bad ↦
                      rw (e, found, bad) (Moves-trans moved (finish-Moves queues id callback _ e))
                  | inr good ↦ (elim (Option-cases packet.binary) [
                    | inl empty ↦ rw (e, found, good, empty) moved
                    | inr (bytes, body) ↦
                        (elim (Option-cases (lookup callback.response channel.responses)) [
                          | inl absent ↦ rw (e, found, good, body, absent) moved
                          | inr (old, placed) ↦
                              rw (e, found, good, body, placed)
                                (Moves-trans
                                  (Moves-trans moved (put_response-Moves callback.response bytes _))
                                  (finish-Moves queues id callback _ e))
                        ])
                  ])
                ])
        ])
      ]

  pub cancel_request-Moves :
      (id : ℕ) (channel : Channel) → Moves channel (cancel_request id channel).1
  unfolding cancel_request holders
  cancel_request-Moves id channel = record {
    fewer = λ of a. ground (arith, count_pending-erase of a id channel.request_callback);
    same = λ a. ground arith;
    kept = λ a. ground arith;
    level = ground arith;
  }

  note_events-Moves :
      (events : List RequestTimeoutEvent) (channel : Channel)
      → Moves channel (record channel { timeout_events = events })
  unfolding holders
  note_events-Moves events channel = record {
    fewer = λ of a. omega arith;
    same = λ a. refl;
    kept = λ a. refl;
    level = refl;
  }

  abbrev rest_of : ℕ → List RequestTimeoutEvent → Unit {0} → Effect Channel (Unit {0})
  rest_of now events u channel =
      clear_events queues now events (record channel { timeout_events = events })

  clear_due :
      (now : ℕ) (event : RequestTimeoutEvent) (events : List RequestTimeoutEvent)
      (channel : Channel)
      → ltb now event.timeout ≡ false
      → clear_events queues now (event ∷ events) channel
        ≡ (expire queues event.request_id (lookup event.request_id channel.request_callback)
              >>= rest_of now events)
            channel
  unfolding clear_events ◌>>=◌
  clear_due now event events channel due = rw due

  clear_early :
      (now : ℕ) (event : RequestTimeoutEvent) (events : List RequestTimeoutEvent)
      (channel : Channel)
      → ltb now event.timeout ≡ true
      → clear_events queues now (event ∷ events) channel ≡ (ok tt, channel)
  unfolding clear_events ◌>>=◌
  clear_early now event events channel early = rw early

  clear_events-Moves :
      (now : ℕ) (events : List RequestTimeoutEvent) (channel : Channel)
      → Moves channel (clear_events queues now events channel).1
  clear_events-Moves now [] channel = unfold clear_events ◌>>=◌ in Moves-refl channel
  clear_events-Moves now (event ∷ events) channel =
      let id = event.request_id in
      elim (Bool-cases (ltb now event.timeout)) [
        | inl early ↦ rw (clear_early now event events channel early) (Moves-refl channel)
        | inr due ↦ rw (clear_due now event events channel due) (
            bind-step (Moves channel) (expire queues id (lookup id channel.request_callback))
              (rest_of now events) channel (expire-Moves id channel)
              (λ u over.
                Moves-trans (expire-Moves id channel)
                  (Moves-trans (note_events-Moves events _) (clear_events-Moves now events _))))
      ]

  pub clear_timeout_request-Moves :
      (now : ℕ) (channel : Channel) → Moves channel (clear_timeout_request queues now channel).1
  unfolding clear_timeout_request ◌>>=◌
  clear_timeout_request-Moves now channel = clear_events-Moves now channel.timeout_events channel
