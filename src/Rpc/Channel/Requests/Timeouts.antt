-- ===== src/Rpc/Channel/Requests/Timeouts.antt =====
-- Which requests `ClearTimeoutRequest` of src/rpc/channel.cpp takes for timed out.
use frrpc.Prelude.Map.{lookup-erase, lookup-update}
use frrpc.Prelude.Effect.{◌>>=◌}
use frrpc.Prelude.Outcome.{ok}
use frrpc.Rpc.Channel.Requests.{expire, clear_events, clear_timeout_request}
use frrpc.Net.Base.{LockQueue}
use frrpc.Rpc.Channel.{Channel, RequestTimeoutEvent, ChannelCallback, lookup, get_controller, ◌>>=◌}
use frrpc.Prelude.{
  ℕ, ◌≡◌, none, List, Bool, ◌∷◌, false, ◌<◌, All, if◌then◌else◌, some, ◌≤◌, leb, ◌==◌, is_some,
  true, [], arith, nat_key, refl, Option-cases, inl, inr, Bool-cases,
}

-- Calls note their timeouts at the end, so the earlier is in front.
abbrev pub IsOrdered : List RequestTimeoutEvent → Type 0
IsOrdered [] = Unit {0}
IsOrdered (event ∷ events) = All (λ e. event.timeout ≤ e.timeout) events × IsOrdered events

-- The requests whose time is up.
abbrev pub expired_ids : ℕ → List RequestTimeoutEvent → List ℕ
expired_ids now [] = []
expired_ids now (event ∷ events) =
    if leb event.timeout now
    then event.request_id ∷ expired_ids now events
    else expired_ids now events

abbrev pub is_among : ℕ → List ℕ → Bool
is_among k [] = false
is_among k (j ∷ js) = if j == k then true else is_among k js

abbrev pub later_than : ℕ → List RequestTimeoutEvent → List RequestTimeoutEvent
later_than now [] = []
later_than now (event ∷ events) =
    if leb event.timeout now then later_than now events else event ∷ later_than now events

-- The controllers of the pending requests are objects that exist.
pub record IsLinked (channel : Channel) : Type 0 where
  pub linked :
      (id : ℕ) (callback : ChannelCallback)
      → lookup id channel.request_callback ≡ some callback
      → is_some (lookup callback.cntl channel.controllers) ≡ true

none_expired :
    (now : ℕ) (bound : ℕ) (events : List RequestTimeoutEvent)
    → now < bound
    → All (λ e. bound ≤ e.timeout) events
    → (expired_ids now events ≡ []) × (later_than now events ≡ events)
none_expired now bound [] h all = (refl, refl)
none_expired now bound (e ∷ events) h (here, there) =
    let (p, q) = none_expired now bound events h there in (ground arith, ground arith)

module _ (queues : LockQueue ChannelCallback) where
  expire-pending :
      (id k : ℕ) (channel : Channel)
      → IsLinked channel
      → lookup k (expire queues id (lookup id channel.request_callback) channel).1.request_callback
        ≡ (if id == k then none else lookup k channel.request_callback)
  unfolding expire get_controller ◌>>=◌
  expire-pending id k channel h = elim (Option-cases (lookup id channel.request_callback)) [
    | inl e ↦ ground arith
    | inr (callback, e) ↦
        ground (arith, h.linked id callback e, lookup-erase id k channel.request_callback)
  ]

  expire-ok :
      (id : ℕ) (channel : Channel)
      → IsLinked channel
      → (expire queues id (lookup id channel.request_callback) channel).0 ≡ ok tt
  unfolding expire get_controller ◌>>=◌
  expire-ok id channel h = elim (Option-cases (lookup id channel.request_callback)) [
    | inl e ↦ ground arith
    | inr (callback, e) ↦ ground (arith, h.linked id callback e)
  ]

  expire-IsLinked :
      (id : ℕ) (channel : Channel)
      → IsLinked channel
      → IsLinked (expire queues id (lookup id channel.request_callback) channel).1
  unfolding expire get_controller ◌>>=◌
  expire-IsLinked id channel h = record {
    linked = λ k callback e.
        grind
          (arith, lookup-erase id k channel.request_callback, h.linked k callback, lookup-update);
  }

  pub clear_first :
      (now : ℕ) (event : RequestTimeoutEvent) (events : List RequestTimeoutEvent)
      (channel : Channel)
      → leb event.timeout now ≡ true
      → IsLinked channel
      → clear_events queues now (event ∷ events) channel
        ≡ clear_events queues now events
            (record (expire queues event.request_id
              (lookup event.request_id channel.request_callback)
              channel).1 { timeout_events = events })
  unfolding clear_events ◌>>=◌
  clear_first now event events channel due h = ground (arith, expire-ok event.request_id channel h)

  pub clear_later :
      (now : ℕ) (event : RequestTimeoutEvent) (events : List RequestTimeoutEvent)
      (channel : Channel)
      → leb event.timeout now ≡ false
      → clear_events queues now (event ∷ events) channel ≡ (ok tt, channel)
  unfolding clear_events ◌>>=◌
  clear_later now event events channel later = ground arith

  clear_events_lem :
      (now : ℕ) (events : List RequestTimeoutEvent) (channel : Channel)
      → IsLinked channel
      → IsOrdered events
      → channel.timeout_events ≡ events
      → ((clear_events queues now events channel).0 ≡ ok tt)
        × ((clear_events queues now events channel).1.timeout_events ≡ later_than now events)
        × ((k : ℕ)
            → lookup k (clear_events queues now events channel).1.request_callback ≡ (
                if is_among k (expired_ids now events)
                then none
                else lookup k channel.request_callback))
  unfolding clear_events ◌>>=◌
  clear_events_lem now [] channel h o e = (refl, e, λ k. refl)
  clear_events_lem now (event ∷ events) channel h (later, o) e =
      elim (Bool-cases (leb event.timeout now)) [
        | inr f ↦
            (let (p, q) = none_expired now event.timeout events (ground arith) later in
              (ground arith, ground arith, λ k. ground arith))
        | inl t ↦
            let (p, q, r) =
              clear_events_lem now events
                (record (expire queues event.request_id
                  (lookup event.request_id channel.request_callback) channel).1 {
                    timeout_events = events;
                  })
                (record { linked = (expire-IsLinked event.request_id channel h).linked }) o refl in
            (
              ground (arith, clear_first now event events channel t h),
              ground (arith, clear_first now event events channel t h),
              λ k. ground (
                arith,
                clear_first now event events channel t h,
                r k,
                expire-pending event.request_id k channel h,
              ),
            )
      ]

  -- `ClearTimeoutRequest` succeeds where the controllers of the pending requests exist and the
  -- timeouts are in order; then exactly the requests whose time is up are no longer pending, and
  -- exactly the later events are left.
  pub timeouts_cleared :
      (now : ℕ) (channel : Channel)
      → IsLinked channel
      → IsOrdered channel.timeout_events
      → ((clear_timeout_request queues now channel).0 ≡ ok tt)
        × ((clear_timeout_request queues now channel).1.timeout_events
            ≡ later_than now channel.timeout_events)
        × ((k : ℕ)
            → lookup k (clear_timeout_request queues now channel).1.request_callback ≡ (
                if is_among k (expired_ids now channel.timeout_events)
                then none
                else lookup k channel.request_callback))
  unfolding clear_timeout_request ◌>>=◌
  timeouts_cleared now channel h o = clear_events_lem now channel.timeout_events channel h o refl
