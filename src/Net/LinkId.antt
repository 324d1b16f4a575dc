-- ===== src/Net/LinkId.antt =====
-- Link ids: `GetNumberLength` of src/rpc/frrpc_function.h, and `BuildLinkID`, `GetSocket` and
-- `GetRouteID` of src/rpc/net_server.h. `pow` is exact and the casts keep their values while the
-- numbers stay below 2 ^ 32, as with fewer than 10 ^ 9 routes.
pub mod Codec
use frrpc.Prelude.{ℕ, zero, suc, ◌+◌, ◌*◌, ◌/◌, ◌%◌, ◌^◌, if◌then◌else◌, ltb}

-- The rounds of the do-while loop that are left after one; fuel ends a number of as many digits.
unfoldable pub more_digits : ℕ → ℕ → ℕ
more_digits zero integer = 0
more_digits (suc fuel) integer =
    let rest = more_digits fuel (integer / 10) in if ltb 0 integer then suc rest else 0

unfoldable pub get_number_length : ℕ → ℕ
unfolding more_digits
get_number_length integer = suc (more_digits integer (integer / 10))

unfoldable pub build_link_id : ℕ → ℕ → ℕ → ℕ
build_link_id route_length route_id socket = route_id * 10 ^ route_length + socket

unfoldable pub get_socket : ℕ → ℕ → ℕ
get_socket route_length link_id = link_id % 10 ^ route_length

unfoldable pub get_route_id : ℕ → ℕ → ℕ
get_route_id route_length link_id = link_id / 10 ^ route_length
