-- ===== src/Route/Receive/Bounds.antt =====
-- The bytes that the gateway's loop says it has read.
use frrpc.Prelude.{ℕ, zero, suc, ◌+◌, ◌-◌, ◌≤◌, ◌≡◌, Option, none, some, arith, length, ltb, false}
use frrpc.Prelude.Outcome.{ok}
use frrpc.Prelude.Effect.Returns.{
  Returns, Returns-bind, Returns-pure, Returns-exhausted, Returns-if, Returns-then,
}
use frrpc.Wire.Bytes.{Bytes}
use frrpc.Wire.External.{External}
use frrpc.Route.State.{Network, RpcRoute}
use frrpc.Route.Receive.{receive_loop, on_receive, size_or_old}

module _ (ext : External) (network : Network) (socket : ℕ) (binary : Bytes) where
  -- Where the loop sets `read_size` at all.
  abbrev Within : Option ℕ → Type 0
  Within none = Unit
  Within (some n) = n ≤ length binary

  next_within :
      (cur_offset size : ℕ)
      → cur_offset ≤ length binary
      → ltb (length binary - cur_offset) (size + 4) ≡ false
      → cur_offset + (size + 4) ≤ length binary
  next_within cur_offset size h e = ground arith

  loop-Within :
      (fuel cur_offset : ℕ)
      → cur_offset ≤ length binary
      → Returns Within (receive_loop ext network fuel socket binary cur_offset)
  unfolding receive_loop
  loop-Within zero cur_offset h = Returns-exhausted Within
  loop-Within (suc fuel) cur_offset h =
      search (Returns-bind, Returns-if, Returns-pure, loop-Within fuel, next_within, h) depth 16

  size_or_old-Within :
      (read_size : ℕ) (result : Option ℕ)
      → read_size ≤ length binary
      → Within result
      → size_or_old ext network read_size result ≤ length binary
  size_or_old-Within read_size none h w = h
  size_or_old-Within read_size (some n) h w = w

  -- Whatever arrives: the `read_size` that `OnReceive` returns is within the buffer, if the one that
  -- was handed in is.
  pub gateway_reads_within :
      (read_size n : ℕ) (route : RpcRoute)
      → read_size ≤ length binary
      → (on_receive ext network socket binary read_size route).0 ≡ ok n
      → n ≤ length binary
  unfolding on_receive
  gateway_reads_within read_size n route h e =
      (Returns-bind (λ k. k ≤ length binary) _ _
          (λ (u : Unit {0}).
            Returns-then Within (λ k. k ≤ length binary) _ _
              (loop-Within (suc (length binary)) 0 (omega arith))
              (λ result w.
                Returns-pure (λ k. k ≤ length binary) _
                  (size_or_old-Within read_size result h w)))).value
        route n e
