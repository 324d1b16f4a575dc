-- ===== src/Route/ServiceInfos/Balance.antt =====
-- Calls of `GetServiceSocket` of src/route/route.cpp without an address, one after another.
use native.Mathlib.Nat.{mod-eq-sub-mod, mod-add-mod, mod-eq_of_lt, mod-lt}
use frrpc.Prelude.{
  ℕ, zero, suc, ◌+◌, ◌%◌, ◌<◌, ◌≡◌, arith, length, string_key, ◌∙◌, ◌-◌, refl, get_elem?, ap,
  if◌then◌else◌, List, ltb, ◌≤◌, Bool-cases, inl, ltb→lt, inr,
}
use frrpc.Route.ServiceInfos.{RouteServiceInfos, get_service_socket, or_null}

-- `n` more calls without an address.
pub spin : ℕ → RouteServiceInfos → RouteServiceInfos
spin zero infos = infos
spin (suc n) infos = spin n (get_service_socket infos "").1

sockets_next : (infos : RouteServiceInfos) → (get_service_socket infos "").1.sockets ≡ infos.sockets
unfolding get_service_socket
sockets_next infos = ground arith

index_next :
    (infos : RouteServiceInfos)
    → 0 < length infos.sockets
    → (get_service_socket infos "").1.cur_send_index
      ≡ (infos.cur_send_index + 1) % length infos.sockets
unfolding get_service_socket
index_next infos h = ground arith

spin-sockets : (n : ℕ) (infos : RouteServiceInfos) → (spin n infos).sockets ≡ infos.sockets
unfolding spin
spin-sockets zero infos = refl
spin-sockets (suc n) infos = spin-sockets n (get_service_socket infos "").1 ∙ sockets_next infos

wrapped : (n i size : ℕ) → ((i + 1) % size + n) % size ≡ (i + suc n) % size
wrapped n i size = let e : i + 1 + n ≡ i + suc n = omega arith in rw (mod-add-mod (i + 1) size n, e)

spin-index :
    (n : ℕ) (infos : RouteServiceInfos)
    → infos.cur_send_index < length infos.sockets
    → (spin n infos).cur_send_index ≡ (infos.cur_send_index + n) % length infos.sockets
unfolding spin
spin-index zero infos h =
    let e : infos.cur_send_index + 0 ≡ infos.cur_send_index = omega arith in rw (e, mod-eq_of_lt h)
spin-index (suc n) infos h =
    let next = (get_service_socket infos "").1 in
    let e = index_next infos (omega arith) in
    let size = ap (λ (xs : List ℕ). length xs) (sockets_next infos) in
    let within : next.cur_send_index < length next.sockets =
      rw (e, size) (mod-lt _ (omega arith)) in
    spin-index n next within ∙ rw (e, size) (wrapped n infos.cur_send_index (length infos.sockets))

pub takes_next :
    (infos : RouteServiceInfos)
    → 0 < length infos.sockets
    → (get_service_socket infos "").0
      ≡ or_null (get_elem? infos.sockets ((infos.cur_send_index + 1) % length infos.sockets))
unfolding get_service_socket
takes_next infos h = ground arith

-- With the index in range, the call without an address after `n` others takes the socket `n + 1`
-- places on, around the list.
pub turn :
    (n : ℕ) (infos : RouteServiceInfos)
    → infos.cur_send_index < length infos.sockets
    → (get_service_socket (spin n infos) "").0
      ≡ or_null (get_elem? infos.sockets ((infos.cur_send_index + n + 1) % length infos.sockets))
turn n infos h =
    let here = spin n infos in
    let size = ap (λ (xs : List ℕ). length xs) (spin-sockets n infos) in
    takes_next here (rw size (omega arith))
    ∙ rw (spin-sockets n infos, spin-index n infos h)
        (rw (mod-add-mod (infos.cur_send_index + n) (length infos.sockets) 1))

less : (x n : ℕ) → n ≤ x → x < n + n → x - n < n
less x n le h = omega arith

mod_wrap : (x n : ℕ) → x < n + n → x % n ≡ (if ltb x n then x else x - n)
mod_wrap x n h = elim (Bool-cases (ltb x n)) [
  | inl lt ↦ rw (lt, mod-eq_of_lt (ltb→lt x n lt))
  | inr ge ↦
      let le : n ≤ x = ground arith in rw (ge, mod-eq-sub-mod le, mod-eq_of_lt (less x n le h))
]

abbrev turns_to : ℕ → ℕ → ℕ → ℕ
turns_to index place size = if ltb index place then place - index - 1 else place + size - index - 1

next_index :
    (n : ℕ) (infos : RouteServiceInfos)
    → infos.cur_send_index < length infos.sockets
    → (spin (suc n) infos).cur_send_index ≡ (infos.cur_send_index + n + 1) % length infos.sockets
next_index n infos h =
    let e : infos.cur_send_index + suc n ≡ infos.cur_send_index + n + 1 = omega arith in
    spin-index (suc n) infos h ∙ rw e

-- The call after `m` others takes the socket at the place where it leaves the index.
takes_its_place :
    (infos : RouteServiceInfos)
    → infos.cur_send_index < length infos.sockets
    → (m : ℕ)
    → (get_service_socket (spin m infos) "").0
      ≡ or_null (get_elem? infos.sockets (spin (suc m) infos).cur_send_index)
takes_its_place infos h m = turn m infos h ∙ rw (next_index m infos h) refl

-- With the index in range, every call in a row takes the socket at the place in the list to which it
-- moves the index, and of as many calls as there are sockets just one moves it to each place: so they
-- take the socket of each place once.
pub once_each :
    (infos : RouteServiceInfos) (place : ℕ)
    → infos.cur_send_index < length infos.sockets
    → place < length infos.sockets
    → ((m : ℕ)
        → (get_service_socket (spin m infos) "").0
          ≡ or_null (get_elem? infos.sockets (spin (suc m) infos).cur_send_index))
      × ((n : ℕ) × (n < length infos.sockets)
          × ((get_service_socket (spin n infos) "").0 ≡ or_null (get_elem? infos.sockets place))
          × ((spin (suc n) infos).cur_send_index ≡ place)
          × ((m : ℕ)
              → m < length infos.sockets
              → (spin (suc m) infos).cur_send_index ≡ place
              → m ≡ n))
once_each infos place h p =
    let index = infos.cur_send_index in
    let size = length infos.sockets in
    let n = turns_to index place size in
    let here : (spin (suc n) infos).cur_send_index ≡ place =
      ground (arith, next_index n infos h, mod_wrap (index + n + 1) size) in
    (
      takes_its_place infos h,
      (
        n,
        ground arith,
        takes_its_place infos h n ∙ ap (λ at. or_null (get_elem? infos.sockets at)) here,
        here,
        λ m lt e. ground (arith, next_index m infos h, mod_wrap (index + m + 1) size),
      ),
    )
