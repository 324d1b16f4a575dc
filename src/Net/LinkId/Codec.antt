-- ===== src/Net/LinkId/Codec.antt =====
-- When a link id gives back its route and its socket.
use native.Mathlib.Nat.{
  pow-suc, mul-add-div_right, mul-add-mod_self_right, div-lt_iff_lt-mul, div-eq_of_lt, mod-lt,
  mod-eq_of_lt,
}
use mathlib.Core.Logic.{◌↔◌}
use frrpc.Prelude.{
  ℕ, zero, suc, ◌+◌, ◌*◌, ◌/◌, ◌%◌, ◌^◌, ◌<◌, ◌≤◌, ◌≡◌, arith, Bool-cases, ◌∙◌, inl, ltb→lt, inr,
}
use frrpc.Net.LinkId.{more_digits, get_number_length, build_link_id, get_socket, get_route_id, ltb}

pow_pos : (n : ℕ) → 0 < 10 ^ n
pow_pos zero = omega arith
pow_pos (suc n) = rw pow-suc (omega (arith, pow_pos n))

more_digits-bound : (fuel integer : ℕ) → integer ≤ fuel → integer < 10 ^ more_digits fuel integer
unfolding more_digits
more_digits-bound zero integer h = omega arith
more_digits-bound (suc fuel) integer h = elim (Bool-cases (ltb 0 integer)) [
  | inl e ↦
      let pos = ltb→lt 0 integer e in
      let below = more_digits-bound fuel (integer / 10) (omega arith) in
      rw (e, more_digits) (rw pow-suc (omega (arith, below)))
  | inr e ↦ let none_left : integer < 1 = ground arith in rw (e, more_digits) none_left
]

-- The length of the number of routes has room for every route id.
pub get_number_length-bound : (integer : ℕ) → integer < 10 ^ get_number_length integer
unfolding get_number_length
get_number_length-bound integer =
    rw pow-suc (omega (arith, more_digits-bound integer (integer / 10) (omega arith)))

route_of : (r s p : ℕ) → 0 < p → ((r * p + s) / p ≡ r) ↔ (s < p)
route_of r s p h = (
  λ e.
      omega
        (arith, (div-lt_iff_lt-mul {x = s} {y = 1} h).0 (omega (arith, mul-add-div_right h r s))),
  λ lt. mul-add-div_right h r s ∙ omega (arith, div-eq_of_lt lt),
)

socket_of : (r s p : ℕ) → 0 < p → ((r * p + s) % p ≡ s) ↔ (s < p)
socket_of r s p h = (
  λ e. omega (arith, mul-add-mod_self_right r p s, mod-lt s h),
  λ lt. mul-add-mod_self_right r p s ∙ mod-eq_of_lt lt,
)

-- A link id gives back the number of the gateway that it was built from exactly when the socket is
-- below the power of ten, and it gives back the socket exactly then too.
pub link_id_roundtrip :
    (route_length route_id socket : ℕ)
    → ((get_route_id route_length (build_link_id route_length route_id socket) ≡ route_id)
        ↔ (socket < 10 ^ route_length))
      × ((get_socket route_length (build_link_id route_length route_id socket) ≡ socket)
          ↔ (socket < 10 ^ route_length))
unfolding build_link_id get_socket get_route_id
link_id_roundtrip route_length route_id socket =
    let pos = pow_pos route_length in
    (
      route_of route_id socket (10 ^ route_length) pos,
      socket_of route_id socket (10 ^ route_length) pos,
    )
