-- ===== src/Route/Services/Registry.antt =====
-- What the registration of a service does to the look-up by name and address.
use frrpc.Prelude.{
  ℕ, String, ◌≡◌, refl, arith, true, false, some, nat_key, string_key, if◌then◌else◌, List, ◌++◌,
  ◌∷◌, [],
}
use frrpc.Prelude.Map.{lookup, contains, lookup-insert, lookup-update-insert}
use frrpc.Prelude.Outcome.{ok}
use frrpc.Route.ServiceInfos.{RouteServiceInfos, add_service_info, get_service_socket, new_infos}
use frrpc.Route.State.{RpcRoute}
use frrpc.Route.Services.{add_service, find_service_socket, infos_or_new}

-- The service's entry behind a registration.
pub lookup-add_service :
    (socket : ℕ) (name key addr : String) (route : RpcRoute)
    → lookup key (add_service socket name addr route).1.service_2info ≡ (
        if string_key.beq name key
        then some
            (add_service_info (infos_or_new name (lookup name route.service_2info)) socket addr).1
        else lookup key route.service_2info)
unfolding add_service
lookup-add_service socket name key addr route =
    lookup-update-insert name key _ (new_infos name) route.service_2info

nonempty : (xs : List ℕ) (x : ℕ) → (y : ℕ) × (ys : List ℕ) × (xs ++ x ∷ [] ≡ y ∷ ys)
nonempty [] x = (x, [], refl)
nonempty (z ∷ zs) x = (z, zs ++ x ∷ [], refl)

found :
    (infos : RouteServiceInfos) (socket : ℕ) (addr : String)
    → string_key.beq addr "" ≡ false
    → (add_service_info infos socket addr).0 ≡ true
    → (get_service_socket (add_service_info infos socket addr).1 addr).0 ≡ socket
unfolding add_service_info get_service_socket contains
found infos socket addr h a = ground (
  arith,
  lookup-insert addr addr socket infos.addr_2socket,
  string_key.beq_iff addr addr,
  nonempty infos.sockets socket,
)

-- A service whose registration under an address that is not empty succeeds is found under its name
-- and that address.
pub registered_is_found :
    (socket : ℕ) (name addr : String) (route : RpcRoute)
    → string_key.beq addr "" ≡ false
    → (add_service socket name addr route).0 ≡ ok tt
    → (find_service_socket name addr (add_service socket name addr route).1).0 ≡ ok socket
unfolding find_service_socket add_service
registered_is_found socket name addr route h a = ground (
  arith,
  lookup-add_service socket name name addr route,
  string_key.beq_iff name name,
  found infos socket addr h (ground arith),
)
  where
    infos : RouteServiceInfos
    infos = infos_or_new name (lookup name route.service_2info)
