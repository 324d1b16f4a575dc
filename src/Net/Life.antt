-- ===== src/Net/Life.antt =====
-- `Start` and `Stop` of the ends: src/rpc/net_server.cpp and src/rpc/net_channel.cpp. What the
-- `Start` and `Stop` of frnet's `NetClient` return is handed in.
use frrpc.Prelude.{Bool, true, false, List, [], ◌∷◌, ◌&&◌, if◌then◌else◌, ◌≡◌, refl, arith, map}
use frrpc.Heart.{RpcHeart, run_client, stop_heart_check}

-- One connection: what starting and stopping it returns, and its heart.
pub record Connection : Type 0 where
  pub starts : Bool
  pub stops : Bool
  pub rpc_heart : RpcHeart

-- `RpcServer_Route_Client::Start`
unfoldable pub start_client : Connection → Bool × Connection
start_client connection =
    if connection.starts
    then (true, record connection { rpc_heart = run_client connection.rpc_heart })
    else (false, connection)

unfoldable pub stop_client : Connection → Bool × Connection
stop_client connection =
    (connection.stops, record connection { rpc_heart = stop_heart_check connection.rpc_heart })

-- `RpcChannel_Route::Start`
unfoldable pub start_channel : Connection → Bool × Connection
start_channel connection =
    if connection.starts
    then (true, record connection { rpc_heart = run_client connection.rpc_heart })
    else (false, connection)

unfoldable pub stop_channel : Connection → Bool × Connection
stop_channel connection =
    (connection.stops, record connection { rpc_heart = stop_heart_check connection.rpc_heart })

-- `RpcServer_Route::Start`: every connection is started, whatever the others return.
unfoldable pub start_server : Bool → List Connection → Bool × List Connection
unfolding start_client
start_server ret [] = (ret, [])
start_server ret (connection ∷ connections) =
    let (started, connection') = start_client connection in
    let (ret', connections') = start_server (ret && started) connections in
    (ret', connection' ∷ connections')

unfoldable pub stop_server : Bool → List Connection → Bool × List Connection
unfolding stop_client
stop_server ret [] = (ret, [])
stop_server ret (connection ∷ connections) =
    let (stopped, connection') = stop_client connection in
    let (ret', connections') = stop_server (if stopped then ret else false) connections in
    (ret', connection' ∷ connections')

-- The hearts that run.
abbrev pub running : List Connection → List Bool
running = map (λ (c : Connection). c.rpc_heart.running)

abbrev all_true : List Bool → Bool
all_true [] = true
all_true (b ∷ bs) = b && all_true bs

-- A server with no heart running yet starts a heart for exactly the connections that start, and says
-- whether all of them did.
pub start_server_lem :
    (ret : Bool) (connections : List Connection)
    → running connections ≡ map (λ (c : Connection). false) connections
    → (running (start_server ret connections).1 ≡ map (λ (c : Connection). c.starts) connections)
      × ((start_server ret connections).0
          ≡ (ret && all_true (map (λ (c : Connection). c.starts) connections)))
unfolding start_server run_client
start_server_lem ret [] idle = (refl, ground arith)
start_server_lem ret (c ∷ connections) idle = (
  ground (arith, (start_server_lem (ret && (start_client c).0) connections (ground arith)).0),
  ground (arith, (start_server_lem (ret && (start_client c).0) connections (ground arith)).1),
)

-- After the server was stopped no heart runs, whatever the connections returned.
pub stop_server_lem :
    (ret : Bool) (connections : List Connection)
    → running (stop_server ret connections).1 ≡ map (λ (c : Connection). false) connections
unfolding stop_server stop_heart_check
stop_server_lem ret [] = refl
stop_server_lem ret (c ∷ connections) =
    ground (arith, stop_server_lem (if c.stops then ret else false) connections)
