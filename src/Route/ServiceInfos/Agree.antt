-- ===== src/Route/ServiceInfos/Agree.antt =====
-- The list of a service's sockets against the map of its addresses, in src/route/route.cpp.
use frrpc.Prelude.{
  ℕ, ◌+◌, ◌-◌, String, List, [], ◌∷◌, ◌++◌, ◌≡◌, refl, arith, ◌==◌, if◌then◌else◌, string_key,
}
use frrpc.Prelude.Map.{Map, contains, insert, place}
use frrpc.Route.ServiceInfos.{
  RouteServiceInfos, add_service_info, erase_socket, erase_address, delete_service_info, new_infos,
}

unfoldable pub count : ℕ → List ℕ → ℕ
count a [] = 0
count a (x ∷ xs) = (if a == x then 1 else 0) + count a xs

unfoldable pub count_values : ℕ → Map String ℕ → ℕ
count_values a [] = 0
count_values a ((addr, x) ∷ m) = (if a == x then 1 else 0) + count_values a m

-- Every socket stands in `sockets_` as often as it is the value of an address.
pub record IsAgreed (infos : RouteServiceInfos) : Type 0 where
  pub counts : (a : ℕ) → count a infos.sockets ≡ count_values a infos.addr_2socket

count-snoc :
    (a s : ℕ) (xs : List ℕ) → count a (xs ++ s ∷ []) ≡ count a xs + (if a == s then 1 else 0)
unfolding count
count-snoc a s [] = ground arith
count-snoc a s (x ∷ xs) = ground (arith, count-snoc a s xs)

count_values-place :
    (a s : ℕ) (addr : String) (m : Map String ℕ)
    → count_values a (place addr s m) ≡ (if a == s then 1 else 0) + count_values a m
unfolding count_values place
count_values-place a s addr [] = refl
count_values-place a s addr ((k, x) ∷ m) = ground (arith, count_values-place a s addr m)

count-erase :
    (a s : ℕ) (xs : List ℕ) → count a (erase_socket s xs) ≡ count a xs - (if a == s then 1 else 0)
unfolding count erase_socket
count-erase a s [] = ground arith
count-erase a s (x ∷ xs) = ground (arith, count-erase a s xs)

count_values-erase :
    (a s : ℕ) (m : Map String ℕ)
    → count_values a (erase_address s m) ≡ count_values a m - (if a == s then 1 else 0)
unfolding count_values erase_address
count_values-erase a s [] = ground arith
count_values-erase a s ((k, x) ∷ m) = ground (arith, count_values-erase a s m)

pub new_infos-IsAgreed : (name : String) → IsAgreed (new_infos name)
unfolding count count_values
new_infos-IsAgreed name = record { counts = λ a. refl }

-- Adding a service under an address, whether it is refused or not, keeps each socket as often in the
-- list of the sockets as it is the value of an address.
pub add_service_info-IsAgreed :
    (infos : RouteServiceInfos) (socket : ℕ) (addr : String)
    → IsAgreed infos
    → IsAgreed (add_service_info infos socket addr).1
unfolding add_service_info contains insert
add_service_info-IsAgreed infos socket addr h = record {
  counts = λ a. ground (
    arith,
    h.counts a,
    count-snoc a socket infos.sockets,
    count_values-place a socket addr infos.addr_2socket,
  );
}

-- Deleting a service keeps each socket as often in the list of the sockets as it is the value of an
-- address: one place and one address go together.
pub delete_service_info-IsAgreed :
    (infos : RouteServiceInfos) (socket : ℕ)
    → IsAgreed infos
    → IsAgreed (delete_service_info infos socket)
unfolding delete_service_info
delete_service_info-IsAgreed infos socket h = record {
  counts = λ a. omega (
    arith,
    h.counts a,
    count-erase a socket infos.sockets,
    count_values-erase a socket infos.addr_2socket,
  );
}
