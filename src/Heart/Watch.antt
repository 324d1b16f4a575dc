-- ===== src/Heart/Watch.antt =====
-- Which sockets a check disconnects.
use frrpc.Prelude.{
  ℕ, true, false, List, [], ◌∷◌, ◌≡◌, arith, ◌≢◌, nat_key, if◌then◌else◌, ◌∙◌, ap, ◌==◌, refl,
}
use frrpc.Prelude.Map.{contains, lookup-erase, lookup, lookup-insert}
use frrpc.Heart.{
  RpcHeart, del_socket, add_socket, update_socket, erase_all, SocketSet, Bool, check_hearts, map,
  erase,
}

-- What the gateway reports between two checks.
pub data Event : Type 0 where
  connected : ℕ → Event
  disconnected : ℕ → Event
  received : ℕ → Event

unfoldable pub handle : Event → RpcHeart → RpcHeart
unfolding add_socket del_socket update_socket
handle (connected s) heart = add_socket s heart
handle (disconnected s) heart = del_socket s heart
handle (received s) heart = update_socket s heart

unfoldable pub handle_all : List Event → RpcHeart → RpcHeart
unfolding handle
handle_all [] heart = heart
handle_all (e ∷ es) heart = handle_all es (handle e heart)

pub record IsWatching (heart : RpcHeart) : Type 0 where
  pub running : heart.running ≡ true
  pub server : heart.is_client ≡ false

handle-IsWatching : (e : Event) (heart : RpcHeart) → IsWatching heart → IsWatching (handle e heart)
unfolding handle
handle-IsWatching (connected s) heart h = ground arith
handle-IsWatching (disconnected s) heart h = ground arith
handle-IsWatching (received s) heart h = ground arith

handle_all-IsWatching :
    (es : List Event) (heart : RpcHeart) → IsWatching heart → IsWatching (handle_all es heart)
unfolding handle_all
handle_all-IsWatching [] heart h = h
handle_all-IsWatching (e ∷ es) heart h =
    handle_all-IsWatching es (handle e heart) (handle-IsWatching e heart h)

-- An event never makes a socket wait.
handle-stays :
    (s : ℕ) (e : Event) (heart : RpcHeart)
    → contains s heart.wait_heart_array ≡ false
    → contains s (handle e heart).wait_heart_array ≡ false
unfolding handle contains
handle-stays s (connected t) heart h = ground arith
handle-stays s (disconnected t) heart h = ground (arith, lookup-erase t s heart.wait_heart_array)
handle-stays s (received t) heart h = ground (arith, lookup-erase t s heart.wait_heart_array)

handle_all-stays :
    (s : ℕ) (es : List Event) (heart : RpcHeart)
    → contains s heart.wait_heart_array ≡ false
    → contains s (handle_all es heart).wait_heart_array ≡ false
unfolding handle_all
handle_all-stays s [] heart h = h
handle_all-stays s (e ∷ es) heart h =
    handle_all-stays s es (handle e heart) (handle-stays s e heart h)

received-clears :
    (s : ℕ) (heart : RpcHeart)
    → IsWatching heart
    → contains s (handle (received s) heart).wait_heart_array ≡ false
unfolding handle contains
received-clears s heart h = ground (arith, lookup-erase s s heart.wait_heart_array)

handle-keeps :
    (s : ℕ) (e : Event) (heart : RpcHeart)
    → e ≢ received s
    → e ≢ disconnected s
    → (contains s heart.wait_heart_array ≡ true) × (contains s heart.socket_array ≡ true)
    → (contains s (handle e heart).wait_heart_array ≡ true)
      × (contains s (handle e heart).socket_array ≡ true)
unfolding handle contains
handle-keeps s (connected t) heart h k w = ground (arith, lookup-insert t s tt heart.socket_array)
handle-keeps s (disconnected t) heart h k w =
    let ne : t ≢ s = λ e. k (ap disconnected e) in
    ground (arith, lookup-erase t s heart.wait_heart_array, lookup-erase t s heart.socket_array)
handle-keeps s (received t) heart h k w =
    let ne : t ≢ s = λ e. h (ap received e) in
    ground (arith, lookup-erase t s heart.wait_heart_array)

-- No event of the list is one that clears `s`.
abbrev pub IsSilent : ℕ → List Event → Type 0
IsSilent s [] = Unit {0}
IsSilent s (e ∷ es) = (e ≢ received s) × (e ≢ disconnected s) × IsSilent s es

handle_all-keeps :
    (s : ℕ) (es : List Event) (heart : RpcHeart)
    → IsSilent s es
    → (contains s heart.wait_heart_array ≡ true) × (contains s heart.socket_array ≡ true)
    → (contains s (handle_all es heart).wait_heart_array ≡ true)
      × (contains s (handle_all es heart).socket_array ≡ true)
unfolding handle_all
handle_all-keeps s [] heart q w = w
handle_all-keeps s (e ∷ es) heart q w =
    handle_all-keeps s es (handle e heart) q.2 (handle-keeps s e heart q.0 q.1 w)

contains-erase_all :
    (s : ℕ) (gone sockets : SocketSet)
    → contains s (erase_all gone sockets) ≡ (if contains s gone then false else contains s sockets)
unfolding erase_all contains lookup
contains-erase_all s [] sockets = refl
contains-erase_all s ((t, u) ∷ rest) sockets =
    ground (arith, contains-erase_all s rest (erase t sockets), lookup-erase t s sockets)

-- What `check_hearts` disconnects.
pub member : ℕ → List ℕ → Bool
member s [] = false
member s (t ∷ ts) = if t == s then true else member s ts

member-keys : (s : ℕ) (m : SocketSet) → member s (map (λ (e : ℕ × Unit {0}). e.0) m) ≡ contains s m
unfolding member contains lookup
member-keys s [] = refl
member-keys s ((t, u) ∷ m) = ground (arith, member-keys s m)

-- A check disconnects the sockets that wait, drops those alone, and then every socket waits.
pub check_hearts_lem :
    (s : ℕ) (heart : RpcHeart)
    → (member s (check_hearts heart).0 ≡ contains s heart.wait_heart_array)
      × (contains s (check_hearts heart).1.socket_array
          ≡ (if contains s heart.wait_heart_array then false else contains s heart.socket_array))
      × ((check_hearts heart).1.wait_heart_array ≡ (check_hearts heart).1.socket_array)
unfolding check_hearts
check_hearts_lem s heart = (
  member-keys s heart.wait_heart_array,
  contains-erase_all s heart.wait_heart_array heart.socket_array,
  refl,
)

-- While the server watches: a socket that was heard since the last check, whatever happens before
-- and after that, is not disconnected by the next one.
pub heard_survives :
    (s : ℕ) (es fs : List Event) (heart : RpcHeart)
    → IsWatching heart
    → member s (check_hearts (handle_all fs (handle (received s) (handle_all es heart)))).0 ≡ false
heard_survives s es fs heart h =
    (check_hearts_lem s _).0
    ∙ handle_all-stays s fs _
        (received-clears s (handle_all es heart) (handle_all-IsWatching es heart h))

-- A socket that is watched after a check, and is neither heard nor lost until the next, is
-- disconnected by the next.
pub silent_is_cut :
    (s : ℕ) (es : List Event) (heart : RpcHeart)
    → contains s (check_hearts heart).1.socket_array ≡ true
    → IsSilent s es
    → member s (check_hearts (handle_all es (check_hearts heart).1)).0 ≡ true
silent_is_cut s es heart h q =
    let e = (check_hearts_lem s heart).2 in
    (check_hearts_lem s _).0 ∙ (handle_all-keeps s es (check_hearts heart).1 q (rw e h, h)).0
