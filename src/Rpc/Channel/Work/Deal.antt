-- ===== src/Rpc/Channel/Work/Deal.antt =====
-- The work threads and the destructor find each controller and response that they need, and delete it
-- once.
use frrpc.Prelude.{
  ℕ, Bool, ap, ◌+◌, ◌≤◌, ◌<◌, ◌≡◌, true, false, List, [], ◌∷◌, Option, none, some, nat_key, is_some,
  arith, refl, map, Option-cases, inl, inr,
}
use frrpc.Prelude.Outcome.{ok}
use frrpc.Prelude.Effect.{◌>>=◌}
use frrpc.Prelude.Map.{lookup, lookup-erase, Map}
use frrpc.Net.Base.{LockQueue}
use frrpc.Rpc.Controller.{ChannelController}
use frrpc.Rpc.Channel.{stop, Channel, ChannelCallback, get_controller, get_response}
use frrpc.Rpc.Channel.Registry.{Called, nothing, call}
use frrpc.Rpc.Channel.Work.{destroy, delete_callback, deal, deal_all, work, delete_all}
use frrpc.Rpc.Channel.Work.Owned.{
  has, count_queued, holders, count_queued-append, Owns, IsOwned, count_pending, cntl_of,
  response_of, has_controller, has_response,
}

-- The callbacks in hand, and those of the channel, have an object each.
record InHand (of : ChannelCallback → ℕ) (stored : Channel → ℕ → Bool)
    (callbacks : List ChannelCallback) (channel : Channel) : Type 0 where
  once : (address : ℕ) → count_queued of address callbacks + holders of address channel ≤ 1
  exists :
      (address : ℕ)
      → 0 < count_queued of address callbacks + holders of address channel
      → stored channel address ≡ true
  below : (address : ℕ) → channel.fresh ≤ address → stored channel address ≡ false

record IsInHand (callbacks : List ChannelCallback) (channel : Channel) : Type 0 where
  cntls : InHand cntl_of has_controller callbacks channel
  responses : InHand response_of has_response callbacks channel

nothing-Owns :
    {of : ChannelCallback → ℕ} {stored : Channel → ℕ → Bool} {channel : Channel}
    → InHand of stored [] channel
    → Owns of stored channel
unfolding count_queued
nothing-Owns h = record {
  once = λ a. omega (arith, h.once a);
  exists = λ a p. ground (arith, h.exists a);
  below = h.below;
}

nothing_in_hand : {channel : Channel} → IsInHand [] channel → IsOwned channel
nothing_in_hand h = record { cntls = nothing-Owns h.cntls; responses = nothing-Owns h.responses }

-- What `Call` does for a callback, where `find` gives the controllers.
abbrev pub called_by : (ℕ → Option ChannelController) → ChannelCallback → Called
called_by find callback = elim (find callback.cntl) [
  | none ↦ nothing
  | some cntl ↦ call callback cntl
]

deal_in_hand :
    (callback : ChannelCallback) (callbacks : List ChannelCallback) (channel : Channel)
    → IsInHand (callback ∷ callbacks) channel
    → (cntl : ChannelController) × (lookup callback.cntl channel.controllers ≡ some cntl)
unfolding count_queued
deal_in_hand callback callbacks channel h =
    elim (Option-cases (lookup callback.cntl channel.controllers)) [
      | inr found ↦ found
      | inl missing ↦ absurd (ground (arith, h.cntls.exists callback.cntl))
    ]

response_in_hand :
    (callback : ChannelCallback) (callbacks : List ChannelCallback) (channel : Channel)
    → IsInHand (callback ∷ callbacks) channel
    → has_response channel callback.response ≡ true
unfolding count_queued
response_in_hand callback callbacks channel h = ground (arith, h.responses.exists callback.response)

-- What is left when a callback was dealt with.
record IsDealt (callback : ChannelCallback) (before after : Channel) : Type 0 where
  others :
      (address : ℕ)
      → has cntl_of address callback ≡ 0
      → lookup address after.controllers ≡ lookup address before.controllers
  other_responses :
      (address : ℕ)
      → has response_of address callback ≡ 0
      → has_response after address ≡ has_response before address
  gone :
      (address : ℕ) → has_controller before address ≡ false → has_controller after address ≡ false
  gone_responses :
      (address : ℕ) → has_response before address ≡ false → has_response after address ≡ false
  as_many :
      (of : ChannelCallback → ℕ) (address : ℕ)
      → holders of address after ≡ holders of address before
  level : after.fresh ≡ before.fresh

delete_callback-IsDealt :
    (callback : ChannelCallback) (channel : Channel)
    → IsDealt callback channel (delete_callback callback channel).1
unfolding delete_callback get_controller get_response ◌>>=◌ holders
delete_callback-IsDealt callback channel = record {
  others = λ a h. grind (arith, lookup-erase callback.cntl a channel.controllers);
  other_responses = λ a h. grind (arith, lookup-erase callback.response a channel.responses);
  gone = λ a h. grind (arith, lookup-erase callback.cntl a channel.controllers);
  gone_responses = λ a h. grind (arith, lookup-erase callback.response a channel.responses);
  as_many = λ of a. grind arith;
  level = grind arith;
}

pub deal_lem :
    (callback : ChannelCallback) (channel : Channel) (cntl : ChannelController)
    → lookup callback.cntl channel.controllers ≡ some cntl
    → has_response channel callback.response ≡ true
    → deal callback channel ≡ (ok (call callback cntl), (delete_callback callback channel).1)
unfolding deal delete_callback get_controller get_response ◌>>=◌
deal_lem callback channel cntl found placed = ground arith

dealt-InHand :
    {of : ChannelCallback → ℕ} {stored : Channel → ℕ → Bool} (callback : ChannelCallback)
    (callbacks : List ChannelCallback) (before after : Channel)
    → IsDealt callback before after
    → ((address : ℕ) → has of address callback ≡ 0 → stored after address ≡ stored before address)
    → ((address : ℕ) → stored before address ≡ false → stored after address ≡ false)
    → InHand of stored (callback ∷ callbacks) before
    → InHand of stored callbacks after
unfolding count_queued
dealt-InHand {of = of} callback callbacks before after d others gone h = record {
  once = λ a. omega (arith, d.as_many of a, h.once a);
  exists = λ a p. ground (arith, d.as_many of a, h.once a, h.exists a, others a);
  below = λ a p. ground (arith, d.level, h.below a, gone a);
}

dealt-IsInHand :
    (callback : ChannelCallback) (callbacks : List ChannelCallback) (before after : Channel)
    → IsDealt callback before after
    → IsInHand (callback ∷ callbacks) before
    → IsInHand callbacks after
dealt-IsInHand callback callbacks before after d h = record {
  cntls =
      dealt-InHand callback callbacks before after d (λ a free. ap is_some (d.others a free)) d.gone
        h.cntls;
  responses =
      dealt-InHand callback callbacks before after d d.other_responses d.gone_responses h.responses;
}

module _ (find : ℕ → Option ChannelController) where
  abbrev Agrees : List ChannelCallback → Channel → Type 0
  Agrees callbacks channel =
      (address : ℕ)
      → 0 < count_queued cntl_of address callbacks
      → lookup address channel.controllers ≡ find address

  dealt-Agrees :
      (callback : ChannelCallback) (callbacks : List ChannelCallback) (before after : Channel)
      → IsDealt callback before after
      → IsInHand (callback ∷ callbacks) before
      → Agrees (callback ∷ callbacks) before
      → Agrees callbacks after
  unfolding count_queued
  dealt-Agrees callback callbacks before after d h agrees a p =
      ground (arith, d.others a, h.cntls.once a, agrees a)

  Agrees-called :
      (callback : ChannelCallback) (callbacks : List ChannelCallback) (channel : Channel)
      (cntl : ChannelController)
      → Agrees (callback ∷ callbacks) channel
      → lookup callback.cntl channel.controllers ≡ some cntl
      → called_by find callback ≡ call callback cntl
  unfolding count_queued
  Agrees-called callback callbacks channel cntl agrees found = ground (arith, agrees callback.cntl)

  deal_all_step :
      (callback : ChannelCallback) (callbacks : List ChannelCallback) (channel after : Channel)
      (what : Called) (rest : List Called)
      → deal callback channel ≡ (ok what, after)
      → (deal_all callbacks after).0 ≡ ok rest
      → deal_all (callback ∷ callbacks) channel ≡ (ok (what ∷ rest), (deal_all callbacks after).1)
  unfolding deal_all ◌>>=◌
  deal_all_step callback callbacks channel after what rest h k = ground arith

  deal_all_lem :
      (callbacks : List ChannelCallback) (channel : Channel)
      → IsInHand callbacks channel
      → Agrees callbacks channel
      → ((deal_all callbacks channel).0 ≡ ok (map (called_by find) callbacks))
        × IsInHand [] (deal_all callbacks channel).1
  deal_all_lem [] channel h agrees = unfold deal_all ◌>>=◌ in (refl, h)
  deal_all_lem (callback ∷ callbacks) channel h agrees =
      let (cntl, found) = deal_in_hand callback callbacks channel h in
      let dealt = delete_callback-IsDealt callback channel in
      let after = (delete_callback callback channel).1 in
      let (p, q) =
        deal_all_lem callbacks after (dealt-IsInHand callback callbacks channel after dealt h)
          (dealt-Agrees callback callbacks channel after dealt h agrees) in
      rw
        (
          deal_all_step callback callbacks channel after (call callback cntl) _
              (deal_lem callback channel cntl found (response_in_hand callback callbacks channel h))
              p,
          Agrees-called callback callbacks channel cntl agrees found,
        )
        (refl, q)

module _ (queues : LockQueue ChannelCallback) where
  abbrev popped : ℕ → Channel → Channel
  popped n channel = record channel {
    already_callback_queue = (queues.pop channel.already_callback_queue n).1;
  }

  popped-InHand :
      {of : ChannelCallback → ℕ} {stored : Channel → ℕ → Bool} (n : ℕ) (channel : Channel)
      → ((address : ℕ) → stored (popped n channel) address ≡ stored channel address)
      → Owns of stored channel
      → InHand of stored (queues.pop channel.already_callback_queue n).0 (popped n channel)
  unfolding holders
  popped-InHand {of = of} n channel same h =
      let split = λ (a : ℕ).
        count_queued-append of a (queues.pop channel.already_callback_queue n).0
          (queues.pop channel.already_callback_queue n).1 in
      let whole = queues.pop-append channel.already_callback_queue n in
      record {
        once = λ a. ground (arith, split a, whole, h.once a);
        exists = λ a p. ground (arith, split a, whole, same a, h.exists a);
        below = λ a p. ground (arith, same a, h.below a);
      }

  popped-IsInHand :
      (n : ℕ) (channel : Channel)
      → IsOwned channel
      → IsInHand (queues.pop channel.already_callback_queue n).0 (popped n channel)
  popped-IsInHand n channel h = record {
    cntls = popped-InHand n channel (λ a. refl) h.cntls;
    responses = popped-InHand n channel (λ a. refl) h.responses;
  }

  -- Where each controller and response is had by one callback at most, and exists then, a round of a work thread
  -- takes callbacks from the front of the queue and comes to its end: each of them wakes its thread
  -- or runs its closure, as its controller says, and every controller and response is had once and exists again.
  pub work_lem :
      (n : ℕ) (channel : Channel)
      → IsOwned channel
      → ((work queues n channel).0
          ≡ ok (
              map
                (called_by (λ address. lookup address channel.controllers))
                (queues.pop channel.already_callback_queue n).0))
        × IsOwned (work queues n channel).1
  unfolding work ◌>>=◌
  work_lem n channel h =
      let (p, q) =
        deal_all_lem (λ address. lookup address channel.controllers)
          (queues.pop channel.already_callback_queue n).0 (popped n channel)
          (popped-IsInHand n channel h) (λ a e. refl) in
      (p, nothing_in_hand q)

-- The pending callbacks, as `delete_all` meets them.
abbrev callbacks_of : Map ℕ ChannelCallback → List ChannelCallback
callbacks_of [] = []
callbacks_of ((id, callback) ∷ pending) = callback ∷ callbacks_of pending

count_queued-callbacks_of :
    (of : ChannelCallback → ℕ) (address : ℕ) (pending : Map ℕ ChannelCallback)
    → count_queued of address (callbacks_of pending) ≡ count_pending of address pending
unfolding count_queued count_pending
count_queued-callbacks_of of address [] = refl
count_queued-callbacks_of of address ((id, callback) ∷ pending) =
    ground (arith, count_queued-callbacks_of of address pending)

delete_step :
    (id : ℕ) (callback : ChannelCallback) (pending : Map ℕ ChannelCallback) (channel : Channel)
    (cntl : ChannelController)
    → lookup callback.cntl channel.controllers ≡ some cntl
    → has_response channel callback.response ≡ true
    → delete_all ((id, callback) ∷ pending) channel
      ≡ delete_all pending (delete_callback callback channel).1
unfolding delete_all delete_callback get_controller get_response ◌>>=◌
delete_step id callback pending channel cntl found placed = ground arith

delete_all_lem :
    (pending : Map ℕ ChannelCallback) (channel : Channel)
    → IsInHand (callbacks_of pending) channel
    → ((delete_all pending channel).0 ≡ ok tt) × IsInHand [] (delete_all pending channel).1
delete_all_lem [] channel h = unfold delete_all ◌>>=◌ in (refl, h)
delete_all_lem ((id, callback) ∷ pending) channel h =
    let (cntl, found) = deal_in_hand callback (callbacks_of pending) channel h in
    let after = (delete_callback callback channel).1 in
    rw
      (delete_step id callback pending channel cntl found
        (response_in_hand callback (callbacks_of pending) channel h))
      (delete_all_lem pending after (
        dealt-IsInHand callback (callbacks_of pending) channel after
          (delete_callback-IsDealt callback channel) h))

abbrev emptied : Channel → Channel
emptied channel = record channel { init_success = false; request_callback = [] }

pending-InHand :
    {of : ChannelCallback → ℕ} {stored : Channel → ℕ → Bool} (channel : Channel)
    → ((address : ℕ) → stored (emptied channel) address ≡ stored channel address)
    → Owns of stored channel
    → InHand of stored (callbacks_of channel.request_callback) (emptied channel)
unfolding holders count_pending
pending-InHand {of = of} channel same h =
    let as_list = λ (a : ℕ). count_queued-callbacks_of of a channel.request_callback in
    record {
      once = λ a. ground (arith, h.once a, as_list a);
      exists = λ a p. ground (arith, same a, h.exists a, as_list a);
      below = λ a p. ground (arith, same a, h.below a);
    }

pending-IsInHand :
    (channel : Channel)
    → IsOwned channel
    → IsInHand (callbacks_of channel.request_callback) (emptied channel)
pending-IsInHand channel h = record {
  cntls = pending-InHand channel (λ a. refl) h.cntls;
  responses = pending-InHand channel (λ a. refl) h.responses;
}

-- Where each controller and response is had by one callback at most, and exists then, the destructor of the
-- channel comes to its end.
pub destroy_lem : (channel : Channel) → IsOwned channel → (destroy channel).0 ≡ ok tt
unfolding destroy stop ◌>>=◌
destroy_lem channel h = ground (
  arith,
  delete_all_lem channel.request_callback
      (record channel { init_success = false; request_callback = [] }) (pending-IsInHand channel h),
)
