-- ===== src/Route/Services/Held.antt =====
-- The registered services of src/route/route.cpp: each has a socket, and its list of sockets and its
-- addresses agree.
use mathlib.Core.Path.{subst}
use frrpc.Prelude.{
  ℕ, String, List, ◌++◌, ◌∷◌, [], ◌<◌, ◌≡◌, arith, length, some, none, Option, string_key,
  if◌then◌else◌, Option-cases, inl, inr, sym, nat_key, true, false, ◌==◌, Bool-cases, refl, Bool,
  ◌∙◌,
}
use frrpc.Prelude.Map.{lookup, update, contains, lookup-update, lookup-erase, lookup-nil, erase}
use frrpc.Prelude.Effect.Keeps.{Keeps}
use frrpc.Route.ServiceInfos.{
  RouteServiceInfos, add_service_info, delete_service_info, get_service_socket, new_infos,
}
use frrpc.Route.ServiceInfos.Agree.{
  IsAgreed, new_infos-IsAgreed, add_service_info-IsAgreed, delete_service_info-IsAgreed,
}
use frrpc.Route.State.{RpcRoute}
use frrpc.Route.Services.{
  infos_or_new, drop_or_update, add_service, delete_service, find_service_socket, bound_socket,
  get_server_socket,
}
use frrpc.Route.Services.Registry.{lookup-add_service}

pub record IsHeld (infos : RouteServiceInfos) : Type 0 where
  pub agreed : IsAgreed infos
  pub some_socket : 0 < length infos.sockets

-- Every service that is registered has a socket, and each socket as often as it has an address there.
pub record IsServed (route : RpcRoute) : Type 0 where
  pub entries :
      (name : String) (infos : RouteServiceInfos)
      → lookup name route.service_2info ≡ some infos
      → IsHeld infos

get_service_socket-IsHeld :
    (infos : RouteServiceInfos) (addr : String)
    → IsHeld infos
    → IsHeld (get_service_socket infos addr).1
unfolding get_service_socket
get_service_socket-IsHeld infos addr h = record {
  agreed = record { counts = λ a. ground (arith, h.agreed.counts a) };
  some_socket = ground (arith, h.some_socket);
}

length-snoc : (xs : List ℕ) (x : ℕ) → 0 < length (xs ++ x ∷ [])
length-snoc [] x = omega arith
length-snoc (y ∷ xs) x = omega arith

add_some_socket :
    (infos : RouteServiceInfos) (socket : ℕ) (addr : String)
    → 0 < length infos.sockets
    → 0 < length (add_service_info infos socket addr).1.sockets
unfolding add_service_info
add_some_socket infos socket addr h = ground (arith, length-snoc infos.sockets socket)

add_service_info-IsHeld :
    (infos : RouteServiceInfos) (socket : ℕ) (addr : String)
    → IsHeld infos
    → IsHeld (add_service_info infos socket addr).1
add_service_info-IsHeld infos socket addr h = record {
  agreed = add_service_info-IsAgreed infos socket addr h.agreed;
  some_socket = add_some_socket infos socket addr h.some_socket;
}

-- A service that is made is not refused its first socket.
first_socket-IsHeld :
    (name : String) (socket : ℕ) (addr : String)
    → IsHeld (add_service_info (new_infos name) socket addr).1
unfolding add_service_info contains
first_socket-IsHeld name socket addr = record {
  agreed = add_service_info-IsAgreed (new_infos name) socket addr (new_infos-IsAgreed name);
  some_socket = ground (arith, lookup-nil ℕ addr);
}

added-IsHeld :
    (name : String) (socket : ℕ) (addr : String) (known : Option RouteServiceInfos)
    → ((infos : RouteServiceInfos) → known ≡ some infos → IsHeld infos)
    → IsHeld (add_service_info (infos_or_new name known) socket addr).1
added-IsHeld name socket addr none h = first_socket-IsHeld name socket addr
added-IsHeld name socket addr (some infos) h =
    add_service_info-IsHeld infos socket addr (h infos refl)

-- A look-up that is redirected at one key.
redirected :
    (same : Bool) (changed old : Option RouteServiceInfos) (infos : RouteServiceInfos)
    → ((found : RouteServiceInfos) → changed ≡ some found → IsHeld found)
    → ((found : RouteServiceInfos) → old ≡ some found → IsHeld found)
    → (if same then changed else old) ≡ some infos
    → IsHeld infos
redirected true changed old infos hc ho e = hc infos e
redirected false changed old infos hc ho e = ho infos e

some-IsHeld :
    (infos found : RouteServiceInfos) → IsHeld infos → some infos ≡ some found → IsHeld found
some-IsHeld infos found h e =
    subst (λ (o : Option RouteServiceInfos). elim o [ none ↦ Unit | some i ↦ IsHeld i ]) e h

pub add_service-IsServed :
    (socket : ℕ) (name addr : String) → Keeps IsServed (add_service socket name addr)
add_service-IsServed socket name addr = record {
  at = λ route h. record {
    entries = λ key infos e.
        redirected (string_key.beq name key) _ (lookup key route.service_2info) infos
          (λ found.
            some-IsHeld _ found
              (added-IsHeld name socket addr (lookup name route.service_2info) (h.entries name)))
          (h.entries key) (sym (lookup-add_service socket name key addr route) ∙ e);
  };
}

abbrev written : Option RouteServiceInfos → RouteServiceInfos → Option RouteServiceInfos
written old infos = elim old [ none ↦ none | some _ ↦ some infos ]

written-IsHeld :
    (old : Option RouteServiceInfos) (infos found : RouteServiceInfos)
    → IsHeld infos
    → written old infos ≡ some found
    → IsHeld found
written-IsHeld none infos found h e = absurd (cc)
written-IsHeld (some old) infos found h e = some-IsHeld infos found h e

updated_entries :
    (name key : String) (moved infos : RouteServiceInfos) (route : RpcRoute)
    → IsServed route
    → IsHeld moved
    → lookup key (update name moved route.service_2info) ≡ some infos
    → IsHeld infos
updated_entries name key moved infos route h held e =
    redirected (string_key.beq name key) _ (lookup key route.service_2info) infos
      (λ found. written-IsHeld (lookup name route.service_2info) moved found held) (h.entries key)
      (sym (lookup-update name key moved route.service_2info) ∙ e)

erased_entries :
    (name key : String) (infos : RouteServiceInfos) (route : RpcRoute)
    → IsServed route
    → lookup key (erase name route.service_2info) ≡ some infos
    → IsHeld infos
erased_entries name key infos route h e =
    redirected (string_key.beq name key) none (lookup key route.service_2info) infos
      (λ found f. absurd (cc)) (h.entries key) (sym (lookup-erase name key route.service_2info) ∙ e)

drop_or_update_entries :
    (name key : String) (left infos : RouteServiceInfos) (route : RpcRoute)
    → IsServed route
    → IsAgreed left
    → lookup key (drop_or_update name left route.service_2info) ≡ some infos
    → IsHeld infos
drop_or_update_entries name key left infos route h agreed e =
    elim (Bool-cases (length left.sockets == 0)) [
      | inl empty ↦ erased_entries name key infos route h (ground arith)
      | inr held ↦
          updated_entries name key left infos route h
            (record { agreed = agreed; some_socket = ground arith }) (ground arith)
    ]

pub delete_service-IsServed : (socket : ℕ) → Keeps IsServed (delete_service socket)
unfolding delete_service
delete_service-IsServed socket = record {
  at = λ route h. elim (Option-cases (lookup socket route.service_socket_2name)) [
    | inl unknown ↦ rw (delete_service, unknown) h
    | inr (name, known) ↦ (elim (Option-cases (lookup name route.service_2info)) [
      | inl missing ↦ rw (delete_service, known, missing) h
      | inr (infos, found) ↦
          rw (delete_service, known, found)
            (record {
              entries = λ key left.
                  drop_or_update_entries name key (delete_service_info infos socket) left route h
                    (delete_service_info-IsAgreed infos socket (h.entries name infos found).agreed);
            })
    ])
  ];
}

pub find_service_socket-IsServed :
    (name addr : String) → Keeps IsServed (find_service_socket name addr)
unfolding find_service_socket
find_service_socket-IsServed name addr = record {
  at = λ route h. elim (Option-cases (lookup name route.service_2info)) [
    | inl missing ↦ rw (find_service_socket, missing) h
    | inr (infos, found) ↦
        rw (find_service_socket, found)
          (record {
            entries = λ key left.
                updated_entries name key (get_service_socket infos addr).1 left route h
                  (get_service_socket-IsHeld infos addr (h.entries name infos found));
          })
  ];
}

pub get_server_socket-IsServed :
    (channel : ℕ) (name : String) → Keeps IsServed (get_server_socket channel name)
unfolding get_server_socket
get_server_socket-IsServed channel name = record {
  at = λ route h. elim (Option-cases (bound_socket route channel name)) [
    | inl unbound ↦
        rw (get_server_socket, unbound) ((find_service_socket-IsServed name "").at route h)
    | inr (socket, bound) ↦ rw (get_server_socket, bound) h
  ];
}
