-- ===== src/Net/ReadSize.antt =====
-- The bytes that the loops of `OnReceive` in src/rpc/net_server.cpp and src/rpc/net_channel.cpp say
-- they have read.
use mathlib.Core.Path.{sym, ◌≡◌, refl, subst}
use frrpc.Prelude.{
  ℕ, zero, suc, ◌+◌, ◌≤◌, arith, length, ltb, true, false, Bool, if◌then◌else◌, ◌∙◌,
}
use frrpc.Prelude.Outcome.{Outcome, exhausted}
use frrpc.Prelude.Effect.{Effect, ◌>>=◌, lift, pure, modify, gets, refuse_if}
use frrpc.Prelude.Effect.Steps.{bind-step}
use frrpc.Wire.Bytes.{Bytes}
use frrpc.Wire.Messages.{NetInfo}
use frrpc.Wire.External.{External}
use frrpc.Wire.Packet.{RpcPacket}
use frrpc.Net.Base.{LockQueue, Received, sub_size, push_message}
use frrpc.Net.ChannelNet
use frrpc.Net.ServerClient

-- `read_size` is left as it is.
record Keeps {A : Type 0} (m : Effect Received A) : Type 0 where
  kept : (s : Received) → (m s).1.read_size ≡ s.read_size

-- From an offset that was read up to, the action leaves a `read_size` within the buffer.
record Reads {A : Type 0} (binary : Bytes) (offset : ℕ) (m : Effect Received A) : Type 0 where
  stays : (s : Received) → s.read_size ≡ offset → (m s).1.read_size ≤ length binary

module _ {A : Type 0} where
  Keeps-lift : (o : Outcome A) → Keeps (lift o)
  unfolding ◌>>=◌
  Keeps-lift o = record { kept = λ s. refl }

Keeps-refuse_if : (b : Bool) → Keeps (refuse_if b)
unfolding ◌>>=◌
Keeps-refuse_if true = record { kept = λ s. refl }
Keeps-refuse_if false = record { kept = λ s. refl }

module _ {A : Type 0} (binary : Bytes) (offset : ℕ) (inside : offset ≤ length binary) where
  Reads-pure : (a : A) → Reads binary offset (pure a)
  unfolding ◌>>=◌
  Reads-pure a = record { stays = λ s p. omega arith }

  Reads-lift : (o : Outcome A) → Reads binary offset (lift o)
  unfolding ◌>>=◌
  Reads-lift o = record { stays = λ s p. omega arith }

module _ {A B : Type 0} (binary : Bytes) (offset : ℕ) (inside : offset ≤ length binary) where
  Reads-bind :
      (m : Effect Received A) (f : A → Effect Received B)
      → Keeps m
      → ((a : A) → Reads binary offset (f a))
      → Reads binary offset (m >>= f)
  Reads-bind m f k h = record {
    stays = λ s p.
        bind-step (λ t. t.read_size ≤ length binary) m f s (omega (arith, k.kept s))
          (λ a e. (h a).stays (m s).1 (k.kept s ∙ p));
  }

module _ {B : Type 0} (binary : Bytes) (offset : ℕ) where
  Reads-gets :
      (f : ℕ → Effect Received B)
      → Reads binary offset (f offset)
      → Reads binary offset (gets (λ state. state.read_size) >>= f)
  unfolding ◌>>=◌
  Reads-gets f h = record {
    stays = λ s p. subst (λ k. (f k s).1.read_size ≤ length binary) (sym p) (h.stays s p);
  }

  Reads-if :
      (b : Bool) (m n : Effect Received B)
      → (b ≡ true → Reads binary offset m)
      → (b ≡ false → Reads binary offset n)
      → Reads binary offset (if b then m else n)
  Reads-if true m n hm hn = hm refl
  Reads-if false m n hm hn = hn refl

  Reads-modify :
      (k : ℕ) (n : Effect Received B)
      → Reads binary (offset + k) n
      → Reads binary offset
          (modify (λ state. record state { read_size = state.read_size + k }) >>= λ _. n)
  unfolding ◌>>=◌
  Reads-modify k n h = record {
    stays = λ s p. h.stays (record s { read_size = s.read_size + k }) (omega arith);
  }

-- Where a packet is whole, the next offset is in the buffer too.
next_within :
    (binary : Bytes) (offset size : ℕ)
    → offset ≤ length binary
    → ltb (sub_size (length binary) offset) (size + 4) ≡ false
    → offset + (size + 4) ≤ length binary
next_within binary offset size h e = ground arith

ruleset rules = (
  Reads-gets, Reads-modify, Reads-if, Reads-pure, Reads-lift, Reads-bind, Keeps-lift,
  Keeps-refuse_if, next_within,
)

module _ (ext : External) (queues : LockQueue RpcPacket) (binary : Bytes) where
  channel_handle-Keeps :
      (info : NetInfo) (packet : RpcPacket) → Keeps (ChannelNet.handle ext queues info packet)
  unfolding ChannelNet.handle push_message ◌>>=◌
  channel_handle-Keeps info packet = record { kept = λ s. ground arith }

  server_handle-Keeps :
      (route_length route_id : ℕ) (info : NetInfo) (packet : RpcPacket)
      → Keeps (ServerClient.handle ext queues route_length route_id info packet)
  unfolding ServerClient.handle ServerClient.receive_route_packet ServerClient.do_route_cmd
      ServerClient.do_route_notify push_message ◌>>=◌
  server_handle-Keeps route_length route_id info packet = record { kept = λ s. ground arith }

  channel_loop-Reads :
      (fuel offset : ℕ)
      → offset ≤ length binary
      → Reads binary offset (ChannelNet.receive_loop ext queues fuel binary offset)
  unfolding ChannelNet.receive_loop
  channel_loop-Reads zero offset h = Reads-lift binary offset h exhausted
  channel_loop-Reads (suc fuel) offset h =
      search (rules, channel_handle-Keeps, channel_loop-Reads fuel) depth 20

  module _ (route_length route_id : ℕ) where
    server_loop-Reads :
        (fuel offset : ℕ)
        → offset ≤ length binary
        → Reads binary offset
            (ServerClient.receive_loop ext queues route_length route_id fuel binary offset)
    unfolding ServerClient.receive_loop
    server_loop-Reads zero offset h = Reads-lift binary offset h exhausted
    server_loop-Reads (suc fuel) offset h =
        search (rules, server_handle-Keeps, server_loop-Reads fuel) depth 20

    -- Whatever arrives at either end of a connection, whose `read_size` is 0 before: it is within
    -- the buffer afterwards.
    pub ends_read_within :
        (state : Received)
        → state.read_size ≡ 0
        → ((ServerClient.on_receive ext queues route_length route_id binary state).1.read_size
            ≤ length binary)
          × ((ChannelNet.on_receive ext queues binary state).1.read_size ≤ length binary)
    unfolding ServerClient.on_receive ChannelNet.on_receive
    ends_read_within state h = (
      (server_loop-Reads (suc (length binary)) 0 (omega arith)).stays state h,
      (channel_loop-Reads (suc (length binary)) 0 (omega arith)).stays state h,
    )
