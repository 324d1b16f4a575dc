-- ===== src/Tests/Heart.antt =====
-- A gateway that watches two sockets.
use frrpc.Prelude.{◌≡◌, refl, arith, true, false, [], ◌∷◌, if◌then◌else◌, ltb, nat_key}
use frrpc.Prelude.Map.{contains}
use frrpc.Heart.{RpcHeart, new_heart, check_hearts}
use frrpc.Heart.Watch.{
  connected, received, handle, handle_all, member, heard_survives, silent_is_cut,
}

abbrev watched : RpcHeart
watched = record new_heart {
  running = true;
  is_client = false;
  socket_array = (5, tt) ∷ (6, tt) ∷ [];
  wait_heart_array = (6, tt) ∷ [];
}

heard_survives_example :
    member 6
      (check_hearts (handle_all [] (handle (received 6) (handle_all (connected 7 ∷ []) watched)))).0
    ≡ false
heard_survives_example =
    heard_survives 6 (connected 7 ∷ []) [] watched (record { running = refl; server = refl })

still_watched : contains 5 (check_hearts watched).1.socket_array ≡ true
unfolding check_hearts contains frrpc.Prelude.Map.erase
still_watched = refl

silent_is_cut_example :
    member 5 (check_hearts (handle_all (connected 7 ∷ []) (check_hearts watched).1)).0 ≡ true
silent_is_cut_example =
    silent_is_cut 5 (connected 7 ∷ []) watched still_watched (λ e. cc, λ e. cc, tt)
