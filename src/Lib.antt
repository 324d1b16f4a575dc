-- ===== src/Lib.antt =====
-- frrpc: channels call the methods of services, which run in servers, through gateways.
--
-- A channel (src/rpc/channel.{h,cpp}) numbers its requests, keeps a callback for each, and hands the
-- request to its connection (RpcChannel_Route, src/rpc/net_channel.{h,cpp}), which frames it
-- (src/public/rpc_serializable.{h,cpp}) and sends it to the gateway (RpcRoute,
-- src/route/route.{h,cpp}). The gateway looks the service up, by the channel's binding or in turn,
-- writes the channel's socket into the packet and sends it on. A server behind several gateways
-- (RpcServer_Route, src/rpc/net_server.{h,cpp}) queues the packet under a link id, which is made of the
-- gateway's number and the socket; its work loop (src/rpc/server.{h,cpp}) parses it, calls the
-- method and sends the response to the link. The gateway hands it to the socket, and the channel finds
-- the callback by the request id. The heart beat (src/public/rpc_heart.{h,cpp}) disconnects sockets
-- that are silent.
--
-- Files, and what they model:
--   Prelude: shared names, Boolean tests, lists, std::map as an ordered list of entries (Map), the
--     outcomes of a call (Outcome), signed integers (Int) and methods that change an object (Effect,
--     with Settles for methods that do not run out of fuel, Steps and Keeps for the states they leave
--     and Returns for the values they return).
--   Wire: numbers in memory (Bytes), src/pb/*.proto (Messages), BuildBinaryFromMessage,
--     GetMessageFromBinary and RpcPacket (Packet), the documented layout (Layout) and reading it back
--     (RoundTrip). External holds what protobuf and frpublic do.
--   Route: RouteServiceInfos (ServiceInfos, with Balance and Agree), the gateway's state (State),
--     AddService to GetServerSocket (Services, with Registry, Binding, Held on what the registry of
--     services keeps and Second on a connection with two services), GetNetInfo and
--     BuildSendPacket (Forward, with Relay), RouteProcess, HeartProcess and CommandProcess (Process,
--     with Delivery), OnReceive and the other callbacks (Receive, with Fuel, Packets, Bounds, Served on
--     the registry and Events on any sequence of callbacks).
--   Heart: RpcHeart, with Watch on who is disconnected and Period on when; BuildHeartPacket (Packet).
--   Net: BuildLinkID, GetSocket, GetRouteID and GetNumberLength (LinkId, with Codec), RpcBaseNet
--     (Base), RpcServer_Route_Client (ServerClient, with Queued and Fuel), RpcServer_Route
--     (ServerRoute, with Several on packets for several links), RpcChannel_Route (ChannelNet, with
--     Queued and Fuel), Start and Stop (Life); OnePacket has the lemmas that the two Queued share, and
--     ReadSize is on the bytes that both ends read.
--   Rpc: src/rpc/closure.h (Closure: Run and the overloads for any types of arguments, which Bound
--     binds; Functions and Methods have each class and overload with its number of arguments, and Life
--     is on how long a closure exists), src/rpc/controller.{h,cpp} (Controller), the objects
--     of a channel (Channel), CallMethod, DoRequestPacket, ClearTimeoutRequest, CancelRequest and
--     StartCancel (Channel.Requests, with Responses, Timeouts and Interleaved),
--     RegisterCallback, DoRegisterPacket, src/rpc/callback.{h,cpp} and the threads' steps
--     (Channel.Registry, with Registered), Server and RpcMessage (Server), ParseBinary, SendResponse
--     and a step of the work loop (Server.Requests, with Answered, Loop on its queue, Queue on a
--     queue with packets of every kind, and Stops on what it cannot take).
--   Rpc.Channel.Parse: the loop of the parsing threads, with Answers on answers in any order and
--     Stray on answers that nobody waits for.
--   Rpc.Channel.Work: the work threads, ~ChannelCallback, ~Channel and AsyncRequest. Owned counts the
--     callbacks that have a controller or a response; Calls, Taken and Kept are on the operations of a
--     channel, Deal on the work threads and the destructor, Lifetime on any sequence of these, Wakeup
--     on the place where a synchronous call begins to wait, Async on an asynchronous call to its end.
--   Json: pbToJson (src/public/rpc_pb2js.{h,cpp}), with what rapidjson does (Library), the names of
--     fields (Names) and a description without the loops (Plain).
--   Log: the switches of the log (src/rpc/frrpc_log.{h,cpp}), and the message log (Messages).
--   Quit: the wish to quit (src/rpc/frrpc_function.cpp) and RunUntilQuit, with Until on when it ends;
--     the gateway's program (src/route/main.cpp, Main), with Exit on how it ends.
--   EndToEnd: a call from a channel through the gateway to a server, and an answer back; a heart
--     (HeartBeat).
--   System: a channel, a gateway and a server, with what each was handed of the others' packets, and
--     the steps they take. Calls, Relay, Ends and Arrivals have a step each of a call's way; RemoteCall
--     joins them (Way to the server, WayBack, Returned).
--   Tests: runs at concrete inputs.
--
-- How the code is shown. A method that returns a bool gives ok or refused, and the object it leaves
-- behind; fault is an abort, undefined behaviour or a thread that blocks for ever: a failed
-- assertion, a read outside of a buffer, a null pointer that is followed, a mutex that the thread
-- holds already. Unsigned numbers wrap around where the code's do; sockets, enumerations and times
-- are natural numbers. BinaryMemory is its bytes, the host is little-endian, and new and reserve do
-- not fail. Offsets and buffers stay below 2^31. Methods run one at a time, as their mutexes have
-- them; two calls of CallMethod interleave at the place where it has no mutex. Objects that are
-- reached by pointers from several places, the controllers and responses of calls, are in stores by
-- address, and to follow or delete a pointer to one that is not there is a fault. A callback is called
-- and deleted in one step, so a caller that is woken goes on only after it. Log output is left out, but for the texts of the message log. A protobuf message is the
-- tree of fields that its reflection shows. Signals arrive in the sleeps of the loops that wait to
-- quit. What the function of a closure does is an action on the memory, which knows which closures
-- exist. In System one channel and one server are at the gateway, and each packet is handed over
-- whole.
--
-- Parameters: the protobuf codecs and BinaryMemory (External), ByteSize of messages in JSON, rapidjson
-- (JsonLibrary), frtemplate's LockQueue, the answers of frnet's NetServer and NetClient, frpublic's
-- settings, what signal returns, and the services. The calls of the network are logged in the state.
--
-- Fuel: each OnReceive loop gets one unit more than the buffer has bytes. A round takes five bytes at
-- least, the size field and one byte more, so that is enough.
--
-- Not modelled: generated protobuf code, the examples, which only use the library, thread creation and
-- joining, the destructors of the connections and of the server, which stop them, and the gateway's
-- event notices, which are commented out in the code. A synchronous call is followed up to the place
-- where it waits. The settings of the log in the gateway's program are left out.
pub mod Prelude
pub mod Wire
pub mod Route
pub mod Heart
pub mod Json
pub mod Log
pub mod Quit
pub mod Net
pub mod Rpc
pub mod EndToEnd
pub mod System
pub mod Tests
