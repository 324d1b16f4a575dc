-- ===== src/Net/Base.antt =====
-- `RpcBaseNet` of src/rpc/rpc_base_net.{h,cpp}, and what the ends take from frnet and frtemplate.
use frrpc.Prelude.{
  ℕ, ◌+◌, ◌-◌, ◌%◌, ◌^◌, Bool, List, [], ◌∷◌, ◌++◌, Option, ◌≡◌, ◌*◌, if◌then◌else◌, leb, ◌==◌,
}
use frrpc.Prelude.Outcome.{Outcome, ok, refused, or_fault, ◌>>=◌}
use frrpc.Wire.Bytes.{Bytes, read}
use frrpc.Wire.Packet.{RpcPacket}

-- `frtemplate::LockQueue`: `push` adds at the end; `pop` moves some entries out of the front.
pub record LockQueue (A : Type 0) : Type 0 where
  pub push : List A → A → List A
  pub pop : List A → ℕ → List A × List A
  pub push-append : (queue : List A) (a : A) → push queue a ≡ queue ++ a ∷ []
  pub pop-append : (queue : List A) (n : ℕ) → (pop queue n).0 ++ (pop queue n).1 ≡ queue

-- `frnet::NetClient`: what was sent, oldest first, and whether a send of a packet, where a null
-- pointer is `none`, returns `eNetSendResult_Ok`.
abbrev pub Client : Type 0
Client = List (Option Bytes)

abbrev pub Answers : Type 0
Answers = Client → Option Bytes → Bool

-- `net_client_->Send(packet) == eNetSendResult_Ok`
unfoldable pub client_send : Answers → Option Bytes → Client → Bool × Client
client_send answers packet client = (answers client packet, client ++ packet ∷ [])

-- What `OnReceive` changes: the queue of its owner, and `read_size`.
pub record Received : Type 0 where
  pub packet_queue : List RpcPacket
  pub read_size : ℕ

-- `a - b` of type `size_t`
abbrev pub sub_size : ℕ → ℕ → ℕ
sub_size a b = (a + 2 ^ 64 - b) % 2 ^ 64

abbrev pub net_packet_max_size : ℕ
net_packet_max_size = 4 * 1024

-- `GetAndCheckPacketSize` at `buffer(offset)`, which is no null pointer.
unfoldable pub get_and_check_packet_size : Bytes → ℕ → Outcome ℕ
get_and_check_packet_size binary offset = do
  size ← or_fault (read 4 offset binary)
  if leb net_packet_max_size size then refused else if size == 0 then refused else ok size

module _ (queues : LockQueue RpcPacket) where
  -- `PushMessageToQueue` of a packet that is no null pointer.
  unfoldable pub push_message : RpcPacket → Received → Received
  push_message packet state = record state { packet_queue = queues.push state.packet_queue packet }

  -- The packets that `FetchMessageQueue` adds to the caller's queue, and what stays.
  unfoldable pub fetch_message_queue :
      List RpcPacket → ℕ → List RpcPacket → List RpcPacket × List RpcPacket
  fetch_message_queue packet_queue max_queue_size own =
      let (taken, rest) = queues.pop packet_queue max_queue_size in (own ++ taken, rest)
