-- ===== src/Net/ServerRoute/Several.antt =====
-- `Send` to several links at once.
use frrpc.EndToEnd.{routed}
use frrpc.Wire.Bytes.{Bytes}
use frrpc.Wire.Layout.{framed, rpc_part, build_from_message-framed}
use frrpc.Prelude.{
  ℕ, zero, suc, ◌≡◌, Bool, true, false, List, [], ◌∷◌, some, ◌&&◌, ◌==◌, length, arith, refl,
  get_elem?, if◌then◌else◌, nat_key, ltb, is_some, Option-cases, inl, inr, ◌+◌, ◌<◌, ◌++◌, map,
  Bool-cases,
}
use frrpc.Prelude.Map.{Map, lookup, lookup-insert}
use frrpc.Prelude.Map.Once.{Once, insert-Once}
use frrpc.Wire.Messages.{RpcMeta, RouteNetInfo, empty_route_net_info}
use frrpc.Wire.External.{Codec, External}
use frrpc.Net.LinkId.{get_route_id, get_socket}
use frrpc.Net.Base.{Client, Answers, client_send, net_packet_max_size}
use frrpc.Net.ServerClient
use frrpc.Net.ServerRoute.{
  RpcServerRoute, set_client, as_number, is_nonempty, route_ids, at_client, send_routes, send_many,
}

-- A link of the gateway is among those that the packet is for.
abbrev pub has_link : ℕ → ℕ → List ℕ → Bool
has_link route_length route_id [] = false
has_link route_length route_id (link_id ∷ link_ids) =
    if get_route_id route_length link_id == route_id
    then true
    else has_link route_length route_id link_ids

-- The links of the gateway, and the sockets that their ids end in.
abbrev pub own_links : ℕ → ℕ → List ℕ → List ℕ
own_links route_length route_id [] = []
own_links route_length route_id (link_id ∷ link_ids) =
    if get_route_id route_length link_id == route_id
    then link_id ∷ own_links route_length route_id link_ids
    else own_links route_length route_id link_ids

abbrev pub own_sockets : ℕ → ℕ → List ℕ → List ℕ
own_sockets route_length route_id link_ids =
    map (get_socket route_length) (own_links route_length route_id link_ids)

-- What a server says to a gateway about the channels that a packet is for.
abbrev pub to_sockets : List ℕ → RouteNetInfo
to_sockets sockets = record empty_route_net_info { target_sockets = sockets }

own_sockets-nonempty :
    (route_length route_id : ℕ) (link_ids : List ℕ)
    → has_link route_length route_id link_ids ≡ true
    → 0 < length (own_sockets route_length route_id link_ids)
own_sockets-nonempty route_length route_id [] h = absurd (cc)
own_sockets-nonempty route_length route_id (link_id ∷ link_ids) h =
    ground (arith, own_sockets-nonempty route_length route_id link_ids)

target_sockets_lem :
    (ext : External) (answers : Answers) (route_length route_id : ℕ) (link_ids : List ℕ)
    → ServerClient.target_sockets ext answers route_length route_id link_ids
      ≡ own_sockets route_length route_id link_ids
unfolding ServerClient.target_sockets
target_sockets_lem ext answers route_length route_id [] = refl
target_sockets_lem ext answers route_length route_id (link_id ∷ link_ids) =
    ground (arith, target_sockets_lem ext answers route_length route_id link_ids)

route_ids-Once : (route_length : ℕ) (link_ids : List ℕ) → Once (route_ids route_length link_ids)
unfolding route_ids
route_ids-Once route_length [] = tt
route_ids-Once route_length (link_id ∷ link_ids) =
    insert-Once (get_route_id route_length link_id) tt (route_ids route_length link_ids)
      (route_ids-Once route_length link_ids)

route_ids-has :
    (route_length route_id : ℕ) (link_ids : List ℕ)
    → is_some (lookup route_id (route_ids route_length link_ids))
      ≡ has_link route_length route_id link_ids
unfolding route_ids lookup
route_ids-has route_length route_id [] = refl
route_ids-has route_length route_id (link_id ∷ link_ids) = ground (
  arith,
  lookup-insert (get_route_id route_length link_id) route_id tt (route_ids route_length link_ids),
  route_ids-has route_length route_id link_ids,
)

set_client-at :
    (clients : List Client) (i r : ℕ) (c client : Client)
    → get_elem? clients r ≡ some client
    → get_elem? (set_client clients i c) r ≡ some (if i == r then c else client)
set_client-at [] i r c client h = absurd (cc)
set_client-at (x ∷ xs) zero zero c client h = refl
set_client-at (x ∷ xs) zero (suc r) c client h = ground arith
set_client-at (x ∷ xs) (suc i) zero c client h = ground arith
set_client-at (x ∷ xs) (suc i) (suc r) c client h = ground (arith, set_client-at xs i r c client h)

module _ (ext : External) (answers : Answers) (ok_code : ℕ) where
  pub at_client-other :
      (server : RpcServerRoute) (i r : ℕ) (method : Client → Bool × Client) (client : Client)
      → get_elem? server.route_client_list r ≡ some client
      → get_elem? (at_client ext answers ok_code server i method).1.route_client_list r
        ≡ some (if i == r then (method client).1 else client)
  unfolding at_client
  at_client-other server i r method client h =
      elim (Option-cases (get_elem? server.route_client_list i)) [
        | inl outside ↦ ground arith
        | inr (c, inside) ↦
            ground (arith, set_client-at server.route_client_list i r (method c).1 client h)
      ]

  at_client-length :
      (server : RpcServerRoute) (i : ℕ) (method : Client → Bool × Client)
      → (at_client ext answers ok_code server i method).1.route_length ≡ server.route_length
  unfolding at_client
  at_client-length server i method = ground arith

  module _ {M : Type 0} (codec : Codec M) (link_ids : List ℕ) (meta : RpcMeta) (body : M) where
    sent : ℕ → ℕ → Client → Client
    sent route_length route_id client =
        (ServerClient.send ext answers route_length route_id codec link_ids meta body client).1

    send_routes_lem :
        (ids : Map ℕ (Unit {0})) (ret : Bool) (server : RpcServerRoute) (r : ℕ) (client : Client)
        → Once ids
        → get_elem? server.route_client_list r ≡ some client
        → get_elem?
            (send_routes ext answers ok_code codec ids link_ids meta body ret
              server).1.route_client_list
            r
          ≡ some (if is_some (lookup r ids) then sent server.route_length r client else client)
    unfolding send_routes lookup sent
    send_routes_lem [] ret server r client w h = h
    send_routes_lem ((id, u) ∷ ids) ret server r client w h =
        let method =
          ServerClient.send ext answers server.route_length id codec link_ids meta body in
        let after = at_client ext answers ok_code server id method in
        let ret' =
          if ltb id (length server.route_client_list)
          then ret && (as_number ext answers ok_code after.0 == ok_code)
          else ret in
        ground (
          arith,
          at_client-length server id method,
          send_routes_lem ids ret' after.1 r (if id == r then (method client).1 else client) w.1
              (at_client-other server id r method client h),
          w.0,
        )

    -- Each gateway gets what one `Send` to all the links gives it.
    send_many_same :
        (server : RpcServerRoute) (route_id : ℕ) (client : Client)
        → get_elem? server.route_client_list route_id ≡ some client
        → get_elem?
            (send_many ext answers ok_code codec link_ids meta body server).1.route_client_list
            route_id
          ≡ some (
              if has_link server.route_length route_id link_ids
              then sent server.route_length route_id client
              else client)
    unfolding send_many
    send_many_same server route_id client h = ground (
      arith,
      route_ids-has server.route_length route_id link_ids,
      send_routes_lem (route_ids server.route_length link_ids)
          (is_nonempty ext answers ok_code (route_ids server.route_length link_ids)) server route_id
          client (route_ids-Once server.route_length link_ids) h,
    )

    -- The one packet of a gateway that has a link.
    sent-framed :
        (route_length route_id : ℕ) (client : Client)
        (sent_binary sent_net meta_bytes body_bytes : Bytes)
        → has_link route_length route_id link_ids ≡ true
        → ext.route_net_info.serialize (to_sockets (own_sockets route_length route_id link_ids))
          ≡ some sent_binary
        → ext.net_info.serialize (routed sent_binary) ≡ some sent_net
        → ext.rpc_meta.serialize meta ≡ some meta_bytes
        → codec.serialize body ≡ some body_bytes
        → 4 + length sent_net + length meta_bytes + length body_bytes < net_packet_max_size
        → sent route_length route_id client
          ≡ client ++ some (framed sent_net (rpc_part meta_bytes body_bytes)) ∷ []
    unfolding sent ServerClient.send ServerClient.send_route_net_info client_send
    sent-framed route_length route_id client sent_binary sent_net meta_bytes body_bytes has s sn sm
          sb f =
        ground (
          arith,
          target_sockets_lem ext answers route_length route_id link_ids,
          own_sockets-nonempty route_length route_id link_ids has,
          s,
          build_from_message-framed ext codec (routed sent_binary) meta body sent_net meta_bytes
              body_bytes sn sm sb (omega arith) (omega arith) (omega arith),
        )

    -- A packet for several links, at a gateway that the server is connected to. Where the net info
    -- with the sockets of the gateway's own links, in the order of the links, serializes, as do the
    -- meta and the body, and the packet is below the maximum size: a gateway that one of the links
    -- belongs to is given just one packet, and it has that net info, the meta and the body in the
    -- documented layout; every other gateway is given nothing.
    pub send_many_lem :
        (server : RpcServerRoute) (route_id : ℕ) (client : Client)
        (sent_binary sent_net meta_bytes body_bytes : Bytes)
        → get_elem? server.route_client_list route_id ≡ some client
        → ext.route_net_info.serialize
            (to_sockets (own_sockets server.route_length route_id link_ids))
          ≡ some sent_binary
        → ext.net_info.serialize (routed sent_binary) ≡ some sent_net
        → ext.rpc_meta.serialize meta ≡ some meta_bytes
        → codec.serialize body ≡ some body_bytes
        → 4 + length sent_net + length meta_bytes + length body_bytes < net_packet_max_size
        → get_elem?
            (send_many ext answers ok_code codec link_ids meta body server).1.route_client_list
            route_id
          ≡ some (
              if has_link server.route_length route_id link_ids
              then client ++ some (framed sent_net (rpc_part meta_bytes body_bytes)) ∷ []
              else client)
    send_many_lem server route_id client sent_binary sent_net meta_bytes body_bytes h s sn sm sb f =
        elim (Bool-cases (has_link server.route_length route_id link_ids)) [
          | inl has ↦
              let packet =
                sent-framed server.route_length route_id client sent_binary sent_net meta_bytes
                  body_bytes has s sn sm sb f in
              ground (arith, send_many_same server route_id client h, packet)
          | inr none_has ↦ ground (arith, send_many_same server route_id client h)
        ]
