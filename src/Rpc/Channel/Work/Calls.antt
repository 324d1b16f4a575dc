-- ===== src/Rpc/Channel/Work/Calls.antt =====
-- A call gives its callback the controller and the response that the caller has.
use frrpc.Prelude.{
  ℕ, ◌+◌, ◌≤◌, Option, some, nat_key, arith, Option-cases, inl, inr, String, ◌%◌, ◌^◌, ◌≡◌, none,
  true, ◌<◌, Bool,
}
use frrpc.Prelude.Effect.{◌>>=◌}
use frrpc.Prelude.Map.{lookup, contains}
use frrpc.Wire.External.{Codec, External}
use frrpc.Net.Base.{Answers}
use frrpc.Rpc.Channel.{Channel, ChannelCallback, get_controller}
use frrpc.Rpc.Channel.Requests.{call_method, send_request, note_timeout, new_channel_callback}
use frrpc.Rpc.Channel.Work.Owned.{
  has, holders, count_pending-insert, is_some-update, Owns, IsOwned, cntl_of, response_of,
  has_controller, has_response,
}

-- The response of a call is no callback's, and it exists; a call without one is refused.
abbrev pub IsFree : Option ℕ → Channel → Type 0
IsFree none channel = Unit
IsFree (some response) channel =
    (holders response_of response channel ≡ 0) × (has_response channel response ≡ true)

-- How many more callbacks have the object once the call was made, at most.
gained : (ChannelCallback → ℕ) → Option ℕ → Option ℕ → ℕ → ℕ → Channel → ℕ
gained of closure none cntl address channel = 0
gained of closure (some response) cntl address channel = elim (lookup cntl channel.controllers) [
  | none ↦ 0
  | some c ↦ has of address (new_channel_callback closure cntl response c.is_sync)
]

gained-once :
    (of : ChannelCallback → ℕ) (closure response : Option ℕ) (cntl address : ℕ) (channel : Channel)
    → gained of closure response cntl address channel ≤ 1
unfolding gained
gained-once of closure none cntl address channel = omega arith
gained-once of closure (some response) cntl address channel = ground arith

gained-cntl :
    (closure response : Option ℕ) (cntl address : ℕ) (channel : Channel)
    → holders cntl_of cntl channel ≡ 0
    → 0 < gained cntl_of closure response cntl address channel
    → (holders cntl_of address channel ≡ 0) × (has_controller channel address ≡ true)
unfolding gained
gained-cntl closure none cntl address channel free p = absurd (omega arith)
gained-cntl closure (some response) cntl address channel free p = (ground arith, ground arith)

gained-response :
    (closure response : Option ℕ) (cntl address : ℕ) (channel : Channel)
    → IsFree response channel
    → 0 < gained response_of closure response cntl address channel
    → (holders response_of address channel ≡ 0) × (has_response channel address ≡ true)
unfolding gained
gained-response closure none cntl address channel free p = absurd (omega arith)
gained-response closure (some response) cntl address channel free p =
    let (unowned, there) = free in (ground (arith, unowned), ground (arith, there))

module _ {M : Type 0} (ext : External) (answers : Answers) (codec : Codec M) (service_name : String)
    (method_index : ℕ) (request : M) (response closure : Option ℕ) (cur_time : ℕ) where
  abbrev after_call : ℕ → Channel → Channel
  after_call cntl channel =
      (call_method ext answers codec service_name method_index (some cntl) request response closure
        cur_time channel).1

  call_with :
      (of : ChannelCallback → ℕ) (cntl address : ℕ) (channel : Channel)
      → holders of address (after_call cntl channel)
        ≤ holders of address channel + gained of closure response cntl address channel
  unfolding call_method send_request note_timeout get_controller contains ◌>>=◌ holders gained
  call_with of cntl address channel =
      let id = (channel.request_id + 1) % 2 ^ 64 in
      elim (Option-cases (lookup cntl channel.controllers)) [
        | inl missing ↦ (elim (Option-cases response) [
          | inl no_response ↦ ground arith
          | inr (r, given) ↦ ground arith
        ])
        | inr (c, found) ↦ (elim (Option-cases response) [
          | inl no_response ↦ ground arith
          | inr (r, given) ↦ ground (
            arith,
            count_pending-insert of address id (new_channel_callback closure cntl r c.is_sync)
                channel.request_callback,
          )
        ])
      ]

  call_same :
      (cntl address : ℕ) (channel : Channel)
      → (has_controller (after_call cntl channel) address ≡ has_controller channel address)
        × (has_response (after_call cntl channel) address ≡ has_response channel address)
        × ((after_call cntl channel).fresh ≡ channel.fresh)
  unfolding call_method send_request note_timeout get_controller contains ◌>>=◌
  call_same cntl address channel =
      let id = (channel.request_id + 1) % 2 ^ 64 in
      elim (Option-cases (lookup cntl channel.controllers)) [
        | inl missing ↦ (ground arith, ground arith, ground arith)
        | inr (c, found) ↦ (
          ground (
            arith,
            is_some-update cntl address (record c { request_id = id }) channel.controllers,
          ),
          ground arith,
          ground arith,
        )
      ]

  call-Owns :
      (of : ChannelCallback → ℕ) (stored : Channel → ℕ → Bool) (cntl : ℕ) (channel : Channel)
      → ((address : ℕ) → stored (after_call cntl channel) address ≡ stored channel address)
      → ((address : ℕ)
          → 0 < gained of closure response cntl address channel
          → (holders of address channel ≡ 0) × (stored channel address ≡ true))
      → Owns of stored channel
      → Owns of stored (after_call cntl channel)
  call-Owns of stored cntl channel same free h =
      let with = λ (a : ℕ). call_with of cntl a channel in
      let one = λ (a : ℕ). gained-once of closure response cntl a channel in
      record {
        once = λ a. ground (arith, with a, one a, free a, h.once a);
        exists = λ a p. ground (arith, with a, same a, free a, h.exists a);
        below = λ a p. ground (arith, same a, (call_same cntl a channel).2, h.below a);
      }

  pub call_method-IsOwned :
      (cntl : ℕ) (channel : Channel)
      → holders cntl_of cntl channel ≡ 0
      → IsFree response channel
      → IsOwned channel
      → IsOwned (after_call cntl channel)
  call_method-IsOwned cntl channel free placed h = record {
    cntls =
        call-Owns cntl_of has_controller cntl channel (λ a. (call_same cntl a channel).0)
          (λ a p. gained-cntl closure response cntl a channel free p) h.cntls;
    responses =
        call-Owns response_of has_response cntl channel (λ a. (call_same cntl a channel).1)
          (λ a p. gained-response closure response cntl a channel placed p) h.responses;
  }
