-- ===== src/Rpc/Server/Requests/Loop.antt =====
-- The queue that a work thread of `Server::InitThreads` of src/rpc/server.cpp has fetched.
use frrpc.Prelude.Effect.Steps.{bind-pure, bind_same, bind_from}
use frrpc.Rpc.Server.Requests.Answered.{bad_request_is_refused}
use frrpc.Prelude.Effect.Keeps.{Keeps, keeps_rules, Keeps-bind}
use frrpc.Prelude.{
  ℕ, suc, Bool, List, [], ◌∷◌, ◌++◌, Option, none, some, if◌then◌else◌, ◌≡◌, String, false, ap, ◌<◌,
  ◌∙◌, ◌⊎◌, string_key, refl,
}
use frrpc.Prelude.Outcome.{Outcome, ok, refused, fault, exhausted}
use frrpc.Prelude.Effect.{Effect, pure, ◌>>=◌}
use frrpc.Wire.External.{Codec, External}
use frrpc.Wire.Packet.{RpcPacket}
use frrpc.Net.Base.{Answers}
use frrpc.Rpc.Server.{Server, Map, Service, Bytes, on_net, RpcServerRoute, lookup, RpcMessage}
use frrpc.Rpc.Server.Requests.{
  serve, parse_binary, send_response, logged, run_done, event_method, ServerController,
}

-- What the application is told: nothing, or the event of a link.
abbrev pub told : ℕ → Option ℕ → List (ℕ × ℕ)
told link_id none = []
told link_id (some event) = (link_id, event) ∷ []

module _ {Request Response : Type 0} (ext : External) (answers : Answers) (ok_code : ℕ)
    (codec : Codec Response) where
  -- A packet that is refused is logged, and the next one is taken.
  abbrev pub serve_next : ℕ → Outcome (Option ℕ) → Effect (Server Request Response) (List (ℕ × ℕ))
  serve_next link_id (ok event) server = (ok (told link_id event), server)
  serve_next link_id refused server = (ok [], server)
  serve_next link_id fault server = (fault, server)
  serve_next link_id exhausted server = (exhausted, server)

  unfoldable pub serve_or_log : RpcPacket → Effect (Server Request Response) (List (ℕ × ℕ))
  unfolding serve
  serve_or_log packet server =
      let (done, after) = serve ext answers ok_code codec packet server in
      serve_next packet.link_id done after

  -- The answers of `IsAskedToQuit` before each packet. The events that the application was told, in
  -- order, and what is left in the queue.
  unfoldable pub serve_queue :
      (ℕ → Bool) → List RpcPacket → Effect (Server Request Response) (List (ℕ × ℕ) × List RpcPacket)
  unfolding serve_or_log
  serve_queue asked [] = pure ([], [])
  serve_queue asked (packet ∷ queue) =
      let rest = serve_queue (λ n. asked (suc n)) queue in
      if asked 0
      then pure ([], packet ∷ queue)
      else (do events ← serve_or_log packet; others ← rest; pure (events ++ others.0, others.1))

-- A call of a known method that is refused: its body does not parse, or its request id is 0.
pub record IsBad {Request Response : Type 0} (services : Map String (Service Request Response))
    (packet : RpcPacket) : Type 0 where
  pub service : Service Request Response
  pub body : Bytes
  pub is_call : packet.net_event ≡ event_method
  pub known : lookup packet.rpc_meta.service_name services ≡ some service
  pub method : packet.rpc_meta.method_index < service.method_count
  pub has_body : packet.binary ≡ some body
  pub bad :
      (service.parse_request packet.rpc_meta.method_index body ≡ none)
      ⊎ (packet.rpc_meta.rpc_request_meta.request_id ≡ 0)

abbrev Known :
    {Request Response : Type 0}
    → Map String (Service Request Response)
    → Server Request Response
    → Type 0
Known services server = server.name_2service ≡ services

module _ {Request Response : Type 0} (ext : External) (answers : Answers) (ok_code : ℕ)
    (codec : Codec Response) (services : Map String (Service Request Response)) where
  on_net-Known :
      (method : RpcServerRoute → Bool × RpcServerRoute) → Keeps (Known services) (on_net method)
  unfolding on_net
  on_net-Known method = search keeps_rules depth 9

  parse_binary-Known : (packet : RpcPacket) → Keeps (Known services) (parse_binary packet)
  unfolding parse_binary
  parse_binary-Known packet = search keeps_rules depth 12

  send_response-Known :
      (cntl : ServerController) (message : RpcMessage Request Response)
      → Keeps (Known services) (send_response ext answers ok_code codec cntl message)
  unfolding send_response
  send_response-Known cntl message = search (keeps_rules, on_net-Known) depth 12

  logged-Known :
      (m : Effect (Server Request Response) (Unit {0}))
      → Keeps (Known services) m
      → Keeps (Known services) (logged m)
  unfolding logged
  logged-Known m h = record { at = h.at }

  run_done-Known :
      (cntl : ServerController) (message : RpcMessage Request Response)
      (runs : List (String × Response))
      → Keeps (Known services) (run_done ext answers ok_code codec cntl message runs)
  unfolding run_done
  run_done-Known cntl message [] = search keeps_rules
  run_done-Known cntl message ((error, response) ∷ runs) =
      let sent =
        send_response-Known (record cntl { error = error })
          (record message { response = some response }) in
      Keeps-bind (Known services) _ _ (logged-Known _ sent) (λ u. run_done-Known cntl message runs)

  serve-Known :
      (packet : RpcPacket) → Keeps (Known services) (serve ext answers ok_code codec packet)
  unfolding serve
  serve-Known packet = search (keeps_rules, parse_binary-Known, run_done-Known) depth 10

  next-Known :
      (link_id : ℕ) (o : Outcome (Option ℕ))
      → Keeps (Known services) (serve_next ext answers ok_code codec link_id o)
  next-Known link_id (ok event) = record { at = λ s h. h }
  next-Known link_id refused = record { at = λ s h. h }
  next-Known link_id fault = record { at = λ s h. h }
  next-Known link_id exhausted = record { at = λ s h. h }

  serve_or_log-Known :
      (packet : RpcPacket) → Keeps (Known services) (serve_or_log ext answers ok_code codec packet)
  unfolding serve_or_log
  serve_or_log-Known packet = record {
    at = λ s h.
        (next-Known packet.link_id (serve ext answers ok_code codec packet s).0).at
          (serve ext answers ok_code codec packet s).1 ((serve-Known packet).at s h);
  }

  pub bad_is_logged :
      (packet : RpcPacket) (server : Server Request Response)
      → IsBad services packet
      → Known services server
      → serve_or_log ext answers ok_code codec packet server ≡ (ok [], server)
  unfolding serve_or_log
  bad_is_logged packet server b h =
      rw
        (bad_request_is_refused ext answers ok_code codec packet server b.service b.body b.is_call
          (ap (lookup packet.rpc_meta.service_name) h ∙ b.known) b.method b.has_body b.bad)
        refl

  queue_behind :
      (first : RpcPacket) (xs ys : List RpcPacket) (server : Server Request Response)
      → Known services server
      → ((s : Server Request Response)
          → Known services s
          → serve_queue ext answers ok_code codec (λ n. false) xs s
            ≡ serve_queue ext answers ok_code codec (λ n. false) ys s)
      → serve_queue ext answers ok_code codec (λ n. false) (first ∷ xs) server
        ≡ serve_queue ext answers ok_code codec (λ n. false) (first ∷ ys) server
  unfolding serve_queue
  queue_behind first xs ys server h same =
      bind_same (serve_or_log ext answers ok_code codec first) _ _ server (λ events.
        bind_from (serve_queue ext answers ok_code codec (λ n. false) xs)
          (serve_queue ext answers ok_code codec (λ n. false) ys) _
          (serve_or_log ext answers ok_code codec first server).1
          (same _ ((serve_or_log-Known first).at server h)))

  -- While nobody asks to quit, a call of a known method whose body does not parse, or whose request
  -- id is 0, changes nothing about how the packets before and behind it in the queue are served:
  -- the answers that are sent, the events that the application is told, and how the loop ends.
  pub bad_packet_is_skipped :
      (before after : List RpcPacket) (packet : RpcPacket) (server : Server Request Response)
      → IsBad services packet
      → server.name_2service ≡ services
      → serve_queue ext answers ok_code codec (λ n. false) (before ++ packet ∷ after) server
        ≡ serve_queue ext answers ok_code codec (λ n. false) (before ++ after) server
  unfolding serve_queue ◌>>=◌
  bad_packet_is_skipped [] after packet server b h =
      rw (bad_is_logged packet server b h)
        (bind-pure (serve_queue ext answers ok_code codec (λ n. false) after) server)
  bad_packet_is_skipped (first ∷ before) after packet server b h =
      queue_behind first (before ++ packet ∷ after) (before ++ after) server h
        (λ s known. bad_packet_is_skipped before after packet s b known)
