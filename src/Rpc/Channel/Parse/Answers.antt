-- ===== src/Rpc/Channel/Parse/Answers.antt =====
-- Answers that come one after another, in whatever order.
use frrpc.Prelude.Effect.Steps.{bind-pure}
use frrpc.Prelude.{
  ℕ, ◌≡◌, ◌≢◌, ◌∙◌, ap, sym, arith, true, false, some, none, List, [], ◌∷◌, ◌++◌, map, nat_key,
  refl, if◌then◌else◌,
}
use mathlib.Core.Path.{subst}
use mathlib.Core.List.{append_assoc, append-nil}
use frrpc.Prelude.Outcome.{ok}
use frrpc.Prelude.Effect.{◌>>=◌}
use frrpc.Prelude.Map.{lookup, lookup-erase, lookup-update, beq_self}
use frrpc.Wire.Bytes.{Bytes}
use frrpc.Wire.Packet.{RpcPacket, event_method}
use frrpc.Net.Base.{LockQueue}
use frrpc.Rpc.Controller.{ChannelController, failed, set_failed}
use frrpc.Rpc.Channel.{Channel, ChannelCallback, put_controller, put_response}
use frrpc.Rpc.Channel.Requests.{as_int, finish}
use frrpc.Rpc.Channel.Requests.Responses.{answer_at}
use frrpc.Rpc.Channel.Registry.{parse_packet}
use frrpc.Rpc.Channel.Parse.{parse_or_log, parse_queue}

-- A packet, the callback of the request that it answers, and its body.
pub record Answer : Type 0 where
  pub packet : RpcPacket
  pub callback : ChannelCallback
  pub body : Bytes

abbrev pub id_of : Answer → ℕ
id_of a = as_int a.packet.rpc_meta.rpc_request_meta.request_id

-- The request is pending with this callback, whose controller and response exist, and the packet is
-- a response with a body and no error.
pub record IsDue (channel : Channel) (a : Answer) : Type 0 where
  pub controller : ChannelController
  pub old : Bytes
  pub event : a.packet.net_event ≡ event_method
  pub numbered : a.packet.rpc_meta.rpc_request_meta.request_id ≢ 0
  pub pending : lookup (id_of a) channel.request_callback ≡ some a.callback
  pub linked : lookup a.callback.cntl channel.controllers ≡ some controller
  pub placed : lookup a.callback.response channel.responses ≡ some old
  pub fine : failed a.packet.rpc_meta.rpc_response_meta.error ≡ false
  pub has_body : a.packet.binary ≡ some a.body

-- Two requests with two responses.
abbrev pub Apart : Answer → List Answer → Type 0
Apart a [] = Unit
Apart a (b ∷ bs) = (id_of a ≢ id_of b) × (a.callback.response ≢ b.callback.response) × Apart a bs

abbrev pub AllDue : Channel → List Answer → Type 0
AllDue channel [] = Unit
AllDue channel (a ∷ rest) = IsDue channel a × Apart a rest × AllDue channel rest

-- What the application finds at the end: the body at the response of its call.
abbrev pub AllGiven : Channel → List Answer → Type 0
AllGiven channel [] = Unit
AllGiven channel (a ∷ rest) =
    (lookup a.callback.response channel.responses ≡ some a.body)
    × (lookup (id_of a) channel.request_callback ≡ none)
    × AllGiven channel rest

abbrev pub packets_of : List Answer → List RpcPacket
packets_of answers = map (λ (a : Answer). a.packet) answers

module _ (queues : LockQueue ChannelCallback) where
  -- The channel once the answer was taken.
  abbrev given : Answer → ChannelController → Channel → Channel
  given a c channel = finish queues (id_of a) a.callback (
      put_response a.callback.response a.body (
        put_controller a.callback.cntl (set_failed a.packet.rpc_meta.rpc_response_meta.error c)
          channel))

  taken :
      (a : Answer) (channel : Channel) (h : IsDue channel a)
      → parse_or_log queues a.packet channel ≡ (ok [], given a h.controller channel)
  unfolding parse_or_log parse_packet ◌>>=◌
  taken a channel h = ground (
    arith,
    h.event,
    h.numbered,
    answer_at queues a.packet channel a.callback h.controller a.body h.old h.pending h.linked
        h.placed h.fine h.has_body,
  )

  given-IsDue :
      (a b : Answer) (c : ChannelController) (channel : Channel)
      → id_of a ≢ id_of b
      → a.callback.response ≢ b.callback.response
      → IsDue channel b
      → IsDue (given a c channel) b
  given-IsDue a b c channel other elsewhere h =
      let error = a.packet.rpc_meta.rpc_response_meta.error in
      record {
        controller =
            if nat_key.beq a.callback.cntl b.callback.cntl
            then set_failed error c
            else h.controller;
        old = h.old;
        event = h.event;
        numbered = h.numbered;
        pending = ground (
          arith,
          h.pending,
          nat_key.beq_iff (id_of a) (id_of b),
          lookup-erase (id_of a) (id_of b) channel.request_callback,
        );
        linked = ground (
          arith,
          h.linked,
          nat_key.beq_iff a.callback.cntl b.callback.cntl,
          lookup-update a.callback.cntl b.callback.cntl (set_failed error c) channel.controllers,
        );
        placed = ground (
          arith,
          h.placed,
          nat_key.beq_iff a.callback.response b.callback.response,
          lookup-update a.callback.response b.callback.response a.body channel.responses,
        );
        fine = h.fine;
        has_body = h.has_body;
      }

  given-AllDue :
      (a : Answer) (answers : List Answer) (c : ChannelController) (channel : Channel)
      → Apart a answers
      → AllDue channel answers
      → AllDue (given a c channel) answers
  given-AllDue a [] c channel apart due = tt
  given-AllDue a (b ∷ rest) c channel apart due = (
    given-IsDue a b c channel apart.0 apart.1 due.0,
    due.1,
    given-AllDue a rest c channel apart.2 due.2,
  )

  parse_cons :
      (a : Answer) (rest : List Answer) (channel : Channel) (h : IsDue channel a)
      → (parse_queue queues (λ i. true) (packets_of (a ∷ rest)) channel).1
        ≡ (parse_queue queues (λ i. true) (packets_of rest) (given a h.controller channel)).1
  unfolding parse_queue ◌>>=◌
  parse_cons a rest channel h = rw (taken a channel h) (
      ap (λ r. r.1)
        (bind-pure (parse_queue queues (λ i. true) (packets_of rest))
          (given a h.controller channel)))

  given-response :
      (b a : Answer) (c : ChannelController) (channel : Channel)
      → a.callback.response ≢ b.callback.response
      → lookup a.callback.response (given b c channel).responses
        ≡ lookup a.callback.response channel.responses
  given-response b a c channel other = ground (
    arith,
    nat_key.beq_iff b.callback.response a.callback.response,
    lookup-update b.callback.response a.callback.response b.body channel.responses,
  )

  given-pending :
      (b a : Answer) (c : ChannelController) (channel : Channel)
      → id_of a ≢ id_of b
      → lookup (id_of a) (given b c channel).request_callback
        ≡ lookup (id_of a) channel.request_callback
  given-pending b a c channel other = ground (
    arith,
    nat_key.beq_iff (id_of b) (id_of a),
    lookup-erase (id_of b) (id_of a) channel.request_callback,
  )

  -- What later answers leave alone.
  kept :
      (answers : List Answer) (a : Answer) (channel : Channel)
      → Apart a answers
      → AllDue channel answers
      → (lookup a.callback.response
            (parse_queue queues (λ i. true) (packets_of answers) channel).1.responses
          ≡ lookup a.callback.response channel.responses)
        × (lookup
              (id_of a)
              (parse_queue queues (λ i. true) (packets_of answers) channel).1.request_callback
            ≡ lookup (id_of a) channel.request_callback)
  unfolding parse_queue ◌>>=◌
  kept [] a channel apart due = (refl, refl)
  kept (b ∷ rest) a channel apart due =
      let c = due.0.controller in
      let later =
        kept rest a (given b c channel) apart.2 (given-AllDue b rest c channel due.1 due.2) in
      rw (parse_cons b rest channel due.0) (
        later.0 ∙ given-response b a c channel apart.1,
        later.1 ∙ given-pending b a c channel apart.0,
      )

  given_itself :
      (a : Answer) (c : ChannelController) (channel : Channel) (old : Bytes)
      → lookup a.callback.response channel.responses ≡ some old
      → (lookup a.callback.response (given a c channel).responses ≡ some a.body)
        × (lookup (id_of a) (given a c channel).request_callback ≡ none)
  given_itself a c channel old placed = (
    ground (
      arith,
      beq_self a.callback.response,
      placed,
      lookup-update a.callback.response a.callback.response a.body channel.responses,
    ),
    ground (arith, beq_self (id_of a), lookup-erase (id_of a) (id_of a) channel.request_callback),
  )

  -- What the packets do to the channel.
  abbrev Reached : Channel → List Answer → Channel → Type 0
  Reached channel answers after =
      AllGiven after answers
      × (after.already_callback_queue
          ≡ channel.already_callback_queue ++ map (λ (a : Answer). a.callback) answers)

  -- A parsing thread takes packets from its queue, in whatever order they arrived. Each answers,
  -- with a body and no error, a request that is pending on the channel with a controller and a
  -- response that exist, and no two of them the same request or with the same response object. Then the response object of each call holds the
  -- body of the packet with its request id, none of the requests is pending, and the callbacks of
  -- the calls are queued for the work threads in the order in which the packets arrived.
  pub answers_reach_their_calls :
      (answers : List Answer) (channel : Channel)
      → AllDue channel answers
      → AllGiven (parse_queue queues (λ i. true) (packets_of answers) channel).1 answers
        × ((parse_queue queues (λ i. true) (packets_of answers) channel).1.already_callback_queue
            ≡ channel.already_callback_queue ++ map (λ (a : Answer). a.callback) answers)
  unfolding parse_queue ◌>>=◌
  answers_reach_their_calls [] channel due = (tt, sym (simp append-nil))
  answers_reach_their_calls (a ∷ rest) channel due =
      let c = due.0.controller in
      let after = given a c channel in
      let still = given-AllDue a rest c channel due.1 due.2 in
      let (given_all, queue) = answers_reach_their_calls rest after still in
      let same = kept rest a after due.1 still in
      let own = given_itself a c channel due.0.old due.0.placed in
      subst (Reached channel (a ∷ rest)) (sym (parse_cons a rest channel due.0)) (
        (same.0 ∙ own.0, same.1 ∙ own.1, given_all),
        queue
            ∙ ap (λ q. q ++ map (λ (x : Answer). x.callback) rest)
                (queues.push-append channel.already_callback_queue a.callback)
            ∙ append_assoc channel.already_callback_queue (a.callback ∷ []) _,
      )
