-- ===== src/Route/ServiceInfos.antt =====
-- `RouteServiceInfos` of src/route/route.{h,cpp}: the sockets that offer one service.
pub mod Balance
pub mod Agree
use frrpc.Prelude.{
  ℕ, ◌+◌, ◌%◌, String, Bool, true, false, ◌||◌, List, [], ◌∷◌, ◌++◌, Option, none, some, length,
  get_elem?, ◌==◌, if◌then◌else◌, string_key,
}
use frrpc.Prelude.Map.{Map, lookup, contains, insert}

abbrev pub socket_null : ℕ
socket_null = 0

pub record RouteServiceInfos : Type 0 where
  pub service_name : String
  pub sockets : List ℕ
  pub addr_2socket : Map String ℕ
  pub cur_send_index : ℕ

abbrev pub new_infos : String → RouteServiceInfos
new_infos name = record { service_name = name; sockets = []; addr_2socket = []; cur_send_index = 0 }

-- What `at` and the search of the address give, as a socket.
abbrev pub or_null : Option ℕ → ℕ
or_null none = socket_null
or_null (some s) = s

-- The index moves before it is used. It is below the size, so that `at` does not throw.
unfoldable pub get_service_socket : RouteServiceInfos → String → ℕ × RouteServiceInfos
get_service_socket infos addr = elim infos.sockets [
  | [] ↦ (socket_null, infos)
  | s ∷ rest ↦
      (let index = (infos.cur_send_index + 1) % length infos.sockets in
        if string_key.beq addr ""
        then (or_null (get_elem? infos.sockets index), record infos { cur_send_index = index })
        else (or_null (lookup addr infos.addr_2socket), infos))
]

unfoldable pub add_service_info : RouteServiceInfos → ℕ → String → Bool × RouteServiceInfos
add_service_info infos socket addr = if contains addr infos.addr_2socket then (false, infos) else (
  true,
  record infos {
    sockets = infos.sockets ++ socket ∷ [];
    addr_2socket = insert addr socket infos.addr_2socket;
  },
)

-- The loops erase the first entry that fits and break.
unfoldable pub erase_socket : ℕ → List ℕ → List ℕ
erase_socket socket [] = []
erase_socket socket (s ∷ rest) = if socket == s then rest else s ∷ erase_socket socket rest

unfoldable pub erase_address : ℕ → Map String ℕ → Map String ℕ
erase_address socket [] = []
erase_address socket ((addr, s) ∷ rest) =
    if socket == s then rest else (addr, s) ∷ erase_address socket rest

unfoldable pub delete_service_info : RouteServiceInfos → ℕ → RouteServiceInfos
unfolding erase_socket erase_address
delete_service_info infos socket = record infos {
  sockets = erase_socket socket infos.sockets;
  addr_2socket = erase_address socket infos.addr_2socket;
}
