-- ===== src/Rpc/Channel/Work/Owned.antt =====
-- Who has a controller or a response: the callbacks of pending requests, and those that wait for a
-- work thread.
use frrpc.Prelude.{
  ℕ, Bool, ◌+◌, ◌≤◌, ◌<◌, ◌==◌, ◌≡◌, true, false, List, [], ◌∷◌, ◌++◌, some, if◌then◌else◌, nat_key,
  is_some, arith, refl,
}
use frrpc.Prelude.Map.{Map, lookup, insert, place, erase, update, lookup-update}
use frrpc.Net.Base.{LockQueue}
use frrpc.Rpc.Channel.{Channel, ChannelCallback}
use frrpc.Rpc.Channel.Requests.{finish}

-- `of` is the object that is asked for: the controller of a callback, or its response.
module _ (of : ChannelCallback → ℕ) where
  abbrev pub has : ℕ → ChannelCallback → ℕ
  has address callback = if of callback == address then 1 else 0

  unfoldable pub count_queued : ℕ → List ChannelCallback → ℕ
  count_queued address [] = 0
  count_queued address (callback ∷ queue) = has address callback + count_queued address queue

  unfoldable pub count_pending : ℕ → Map ℕ ChannelCallback → ℕ
  count_pending address [] = 0
  count_pending address ((id, callback) ∷ pending) =
      has address callback + count_pending address pending

  -- The callbacks of the channel that have the object.
  unfoldable pub holders : ℕ → Channel → ℕ
  holders address channel =
      count_pending address channel.request_callback
      + count_queued address channel.already_callback_queue

  pub count_queued-append :
      (address : ℕ) (xs ys : List ChannelCallback)
      → count_queued address (xs ++ ys) ≡ count_queued address xs + count_queued address ys
  unfolding count_queued
  count_queued-append address [] ys = omega arith
  count_queued-append address (x ∷ xs) ys = omega (arith, count_queued-append address xs ys)

  pub count_pending-erase :
      (address id : ℕ) (pending : Map ℕ ChannelCallback)
      → count_pending address (erase id pending) ≤ count_pending address pending
  unfolding count_pending erase
  count_pending-erase address id [] = omega arith
  count_pending-erase address id ((k, c) ∷ pending) =
      ground (arith, count_pending-erase address id pending)

  pub count_pending-erase_found :
      (address id : ℕ) (pending : Map ℕ ChannelCallback) (callback : ChannelCallback)
      → lookup id pending ≡ some callback
      → count_pending address (erase id pending) + has address callback
        ≤ count_pending address pending
  unfolding count_pending erase lookup
  count_pending-erase_found address id [] callback h = cc
  count_pending-erase_found address id ((k, c) ∷ pending) callback h = ground (
    arith,
    count_pending-erase address id pending,
    count_pending-erase_found address id pending callback,
  )

  count_pending-place :
      (address id : ℕ) (callback : ChannelCallback) (pending : Map ℕ ChannelCallback)
      → count_pending address (place id callback pending)
        ≡ count_pending address pending + has address callback
  unfolding count_pending place
  count_pending-place address id callback [] = ground arith
  count_pending-place address id callback ((k, c) ∷ pending) =
      ground (arith, count_pending-place address id callback pending)

  pub count_pending-insert :
      (address id : ℕ) (callback : ChannelCallback) (pending : Map ℕ ChannelCallback)
      → count_pending address (insert id callback pending)
        ≤ count_pending address pending + has address callback
  unfolding insert
  count_pending-insert address id callback pending =
      ground (arith, count_pending-place address id callback pending)

pub is_some-update :
    {V : Type 0} (k j : ℕ) (v : V) (m : Map ℕ V)
    → is_some (lookup j (update k v m)) ≡ is_some (lookup j m)
is_some-update k j v m = ground (arith, lookup-update k j v m)

abbrev pub cntl_of : ChannelCallback → ℕ
cntl_of callback = callback.cntl

abbrev pub response_of : ChannelCallback → ℕ
response_of callback = callback.response

abbrev pub has_controller : Channel → ℕ → Bool
has_controller channel address = is_some (lookup address channel.controllers)

abbrev pub has_response : Channel → ℕ → Bool
has_response channel address = is_some (lookup address channel.responses)

-- An object is had by one callback at most, and then it exists; none stands at an address that is
-- still to be given out.
pub record Owns (of : ChannelCallback → ℕ) (stored : Channel → ℕ → Bool) (channel : Channel)
    : Type 0 where
  pub once : (address : ℕ) → holders of address channel ≤ 1
  pub exists : (address : ℕ) → 0 < holders of address channel → stored channel address ≡ true
  pub below : (address : ℕ) → channel.fresh ≤ address → stored channel address ≡ false

-- The controllers and the responses.
pub record IsOwned (channel : Channel) : Type 0 where
  pub cntls : Owns cntl_of has_controller channel
  pub responses : Owns response_of has_response channel

-- What moves callbacks on, and gives none of them an object.
pub record Moves (before after : Channel) : Type 0 where
  pub fewer :
      (of : ChannelCallback → ℕ) (address : ℕ)
      → holders of address after ≤ holders of address before
  pub same : (address : ℕ) → has_controller after address ≡ has_controller before address
  pub kept : (address : ℕ) → has_response after address ≡ has_response before address
  pub level : after.fresh ≡ before.fresh

Moves-Owns :
    {before after : Channel} {of : ChannelCallback → ℕ} {stored : Channel → ℕ → Bool}
    → Moves before after
    → ((address : ℕ) → stored after address ≡ stored before address)
    → Owns of stored before
    → Owns of stored after
Moves-Owns {of = of} m same h = record {
  once = λ a. omega (arith, m.fewer of a, h.once a);
  exists = λ a p. ground (arith, same a, m.fewer of a, h.exists a);
  below = λ a p. ground (arith, same a, m.level, h.below a);
}

pub Moves-IsOwned : {before after : Channel} → Moves before after → IsOwned before → IsOwned after
Moves-IsOwned m h = record {
  cntls = Moves-Owns m m.same h.cntls;
  responses = Moves-Owns m m.kept h.responses;
}

pub Moves-refl : (channel : Channel) → Moves channel channel
Moves-refl channel = record {
  fewer = λ of a. omega arith;
  same = λ a. refl;
  kept = λ a. refl;
  level = refl;
}

pub Moves-trans : {a b c : Channel} → Moves a b → Moves b c → Moves a c
Moves-trans m n = record {
  fewer = λ of x. omega (arith, m.fewer of x, n.fewer of x);
  same = λ x. ground (arith, m.same x, n.same x);
  kept = λ x. ground (arith, m.kept x, n.kept x);
  level = ground (arith, m.level, n.level);
}

-- A callback that was pending waits for its turn.
pub finish-Moves :
    (queues : LockQueue ChannelCallback) (id : ℕ) (callback : ChannelCallback) (channel : Channel)
    → lookup id channel.request_callback ≡ some callback
    → Moves channel (finish queues id callback channel)
unfolding holders count_queued
finish-Moves queues id callback channel h = record {
  fewer = λ of a. ground (
    arith,
    count_pending-erase_found of a id channel.request_callback callback,
    queues.push-append channel.already_callback_queue callback,
    count_queued-append of a channel.already_callback_queue (callback ∷ []),
  );
  same = λ a. refl;
  kept = λ a. refl;
  level = refl;
}
