-- ===== src/Heart.antt =====
-- The heart beat: src/public/rpc_heart.{h,cpp}. The sleeping threads are rounds of their loops.
pub mod Watch
pub mod Period
pub mod Packet
use frrpc.Prelude.{
  ℕ, suc, ◌+◌, ◌*◌, ◌/◌, Bool, true, false, not, ◌&&◌, List, [], ◌∷◌, map, ltb, if◌then◌else◌,
  nat_key,
}
use frrpc.Prelude.Map.{Map, contains, insert, erase}

-- `std::set<Socket>`
abbrev pub SocketSet : Type 0
SocketSet = Map ℕ (Unit {0})

pub record RpcHeart : Type 0 where
  pub running : Bool
  pub is_client : Bool
  pub wait_heart_array : SocketSet
  pub socket_array : SocketSet

abbrev pub new_heart : RpcHeart
new_heart = record { running = false; is_client = true; wait_heart_array = []; socket_array = [] }

-- What `RunClient` and `RunServer` do before they start their thread.
unfoldable pub run_client : RpcHeart → RpcHeart
run_client heart = record heart { is_client = true; running = true }

unfoldable pub run_server : RpcHeart → RpcHeart
run_server heart = record heart { is_client = false; running = true }

unfoldable pub stop_heart_check : RpcHeart → RpcHeart
stop_heart_check heart = record heart { running = false; socket_array = []; wait_heart_array = [] }

unfoldable pub del_socket : ℕ → RpcHeart → RpcHeart
del_socket socket heart =
    if heart.running && not heart.is_client
    then record heart {
      wait_heart_array = erase socket heart.wait_heart_array;
      socket_array = erase socket heart.socket_array;
    }
    else heart

unfoldable pub add_socket : ℕ → RpcHeart → RpcHeart
add_socket socket heart =
    if heart.running && not heart.is_client
    then record heart { socket_array = insert socket tt heart.socket_array }
    else heart

unfoldable pub update_socket : ℕ → RpcHeart → RpcHeart
update_socket socket heart =
    if heart.running && not heart.is_client && contains socket heart.wait_heart_array
    then record heart { wait_heart_array = erase socket heart.wait_heart_array }
    else heart

unfoldable pub erase_all : SocketSet → SocketSet → SocketSet
erase_all [] sockets = sockets
erase_all ((s, u) ∷ rest) sockets = erase_all rest (erase s sockets)

-- The sockets that are disconnected, in order, and the new state.
unfoldable pub check_hearts : RpcHeart → List ℕ × RpcHeart
unfolding erase_all
check_hearts heart =
    let kept = erase_all heart.wait_heart_array heart.socket_array in
    (
      map (λ (e : ℕ × Unit {0}). e.0) heart.wait_heart_array,
      record heart { wait_heart_array = kept; socket_array = kept },
    )

-- One round of the server's loop, of 1000 ms: the counter, and whether the hearts are checked.
unfoldable pub server_round : ℕ → ℕ → Bool × ℕ
server_round timeout cur_times =
    if ltb timeout (suc cur_times) then (true, 0) else (false, suc cur_times)

abbrev pub sleep_time_ms : ℕ
sleep_time_ms = 250

-- One round of the client's loop, of 250 ms: whether a heart is sent, and the counter.
unfoldable pub client_round : ℕ → ℕ → Bool × ℕ
client_round timeout cur_times =
    let sleep_time = timeout * 1000 / sleep_time_ms / 4 in
    if ltb sleep_time (suc cur_times) then (true, 0) else (false, suc cur_times)
