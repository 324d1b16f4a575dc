-- ===== src/Tests/Data.antt =====
-- Concrete messages in a simple encoding, a queue, and clients that send everything.
use frrpc.Wire.Layout.{framed, rpc_part}
use frrpc.Prelude.{
  ℕ, zero, suc, Bool, true, false, String, List, [], ◌∷◌, ◌++◌, Option, none, some, ◌≡◌, refl, ap,
  arith, length, take, drop, string_key, if◌then◌else◌,
}
use frrpc.Wire.Bytes.{Bytes, le_bytes}
use frrpc.Wire.Messages.{
  NetInfo, RpcMeta, RouteNetInfo, ServerDisconnectChannel, empty_meta, empty_route_net_info,
}
use frrpc.Wire.External.{Codec, External}
use frrpc.Net.Base.{LockQueue, Answers}

abbrev size_of : {M : Type 0} → (M → Option Bytes) → M → ℕ
size_of serialize m = elim (serialize m) [ none ↦ 0 | some bs ↦ length bs ]

abbrev pub codec_of :
    {M : Type 0} (serialize : M → Option Bytes) (parse : Bytes → Option M)
    → ((m : M) (bs : Bytes) → serialize m ≡ some bs → parse bs ≡ some m)
    → Codec M
codec_of serialize parse law = record {
  serialize = serialize;
  byte_size = size_of serialize;
  parse = parse;
  byte_size-serialize = λ m bs h. ground arith;
  parse-serialize = law;
}

-- No message of the type is used.
abbrev no_codec : {M : Type 0} → Codec M
no_codec = codec_of (λ m. none) (λ bs. none) (λ m bs h. cc)

abbrev pub bytes_codec : Codec Bytes
bytes_codec = codec_of (λ bs. some bs) (λ bs. some bs) (λ m bs h. ground arith)

abbrev net_info_parse : Bytes → Option NetInfo
net_info_parse [] = none
net_info_parse (t ∷ bs) = some (record { net_type = t; net_binary = bs })

abbrev net_info_codec : Codec NetInfo
net_info_codec =
    codec_of (λ m. some (m.net_type ∷ m.net_binary)) net_info_parse (λ m bs h. ground arith)

abbrev meta_serialize : RpcMeta → Option Bytes
meta_serialize m =
    if string_key.beq m.service_name "echo"
    then (if string_key.beq m.rpc_response_meta.error ""
        then some (
            m.method_index
            ∷ m.rpc_request_meta.request_id
            ∷ (if m.rpc_response_meta.failed then 1 else 0)
            ∷ m.compress_type
            ∷ [])
        else none)
    else none

abbrev is_one : ℕ → Bool
is_one zero = false
is_one (suc n) = true

abbrev meta_parse : Bytes → Option RpcMeta
meta_parse (i ∷ r ∷ f ∷ c ∷ []) = some (record {
  service_name = "echo";
  method_index = i;
  rpc_request_meta = record { request_id = r };
  rpc_response_meta = record { error = ""; failed = is_one f };
  compress_type = c;
})
meta_parse _ = none

abbrev meta_codec : Codec RpcMeta
meta_codec = codec_of meta_serialize meta_parse (λ m bs h. ground (
  arith,
  string_key.beq_iff m.service_name "echo",
  string_key.beq_iff m.rpc_response_meta.error "",
))

abbrev name_code : String → Option ℕ
name_code name =
    if string_key.beq name "echo" then some 1 else if string_key.beq name "" then some 0 else none

abbrev code_name : ℕ → String
code_name zero = ""
code_name (suc n) = "echo"

abbrev bit : Bool → ℕ
bit true = 1
bit false = 0

abbrev route_info_serialize : RouteNetInfo → Option Bytes
route_info_serialize m = elim (name_code m.service_name) [
  | none ↦ none
  | some code ↦ some (bit m.is_channel_packet ∷ code ∷ m.source_socket ∷ m.target_sockets)
]

abbrev route_info_parse : Bytes → Option RouteNetInfo
route_info_parse (b ∷ c ∷ s ∷ ts) = some (record {
  is_channel_packet = is_one b;
  service_name = code_name c;
  target_sockets = ts;
  source_socket = s;
})
route_info_parse _ = none

abbrev route_info_codec : Codec RouteNetInfo
route_info_codec = codec_of route_info_serialize route_info_parse (λ m bs h.
    ground (arith, string_key.beq_iff m.service_name "echo", string_key.beq_iff m.service_name ""))

abbrev disconnect_codec : Codec ServerDisconnectChannel
disconnect_codec =
    codec_of (λ m. some m.channel_socket) (λ bs. some (record { channel_socket = bs }))
      (λ m bs h. ground arith)

abbrev pub sample : External
sample = record {
  net_info = net_info_codec;
  rpc_meta = meta_codec;
  route_net_info = route_info_codec;
  cmd_request = no_codec;
  cmd_response = no_codec;
  service_register = no_codec;
  disconnect_channel = disconnect_codec;
  service_info = no_codec;
  route_notify = no_codec;
  notify_disconnect = no_codec;
  add = λ memory bs. memory ++ bs;
  push_number = λ w n memory. memory ++ le_bytes w n;
  add-append = λ memory bs. refl;
  push_number-append = λ w n memory. refl;
}

pub take-drop : {A : Type 0} (n : ℕ) (xs : List A) → take n xs ++ drop n xs ≡ xs
take-drop zero xs = refl
take-drop (suc n) [] = refl
take-drop (suc n) (x ∷ xs) = ap (λ ys. x ∷ ys) (take-drop n xs)

-- A queue that hands out its first entries.
abbrev pub fifo : {A : Type 0} → LockQueue A
fifo = record {
  push = λ queue a. queue ++ a ∷ [];
  pop = λ queue n. (take n queue, drop n queue);
  push-append = λ queue a. refl;
  pop-append = λ queue n. take-drop n queue;
}

abbrev pub all_sent : Answers
all_sent client packet = true

-- A call of the method 0 of `echo`, as a channel sends it, and as the gateway sends it on for the
-- channel at socket 9.
abbrev pub call_meta : RpcMeta
call_meta = record empty_meta {
  service_name = "echo";
  rpc_request_meta = record { request_id = 7 };
}

abbrev pub call_meta_bytes : Bytes
call_meta_bytes = 0 ∷ 7 ∷ 0 ∷ 0 ∷ []

abbrev pub from_channel : RouteNetInfo
from_channel = record empty_route_net_info { is_channel_packet = true; service_name = "echo" }

abbrev pub call_info : NetInfo
call_info = record { net_type = 1; net_binary = 1 ∷ 1 ∷ 0 ∷ [] }

abbrev pub call_net : Bytes
call_net = 1 ∷ 1 ∷ 1 ∷ 0 ∷ []

abbrev pub relayed_net : Bytes
relayed_net = 1 ∷ 1 ∷ 1 ∷ 9 ∷ []

abbrev pub call_body : Bytes
call_body = 5 ∷ 6 ∷ []

abbrev pub call_bytes : Bytes
call_bytes = framed call_net (rpc_part call_meta_bytes call_body)
