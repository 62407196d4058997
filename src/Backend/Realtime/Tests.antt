-- ===== src/Backend/Realtime/Tests.antt =====
-- A broadcast during which one socket joins and another one fails, and a socket's session.
use storepulse.Prelude.{ℕ, ◌≡◌, ◌≢◌, refl, true, false, Bool, List, [], ◌∷◌, ◌==◌}
use storepulse.Backend.Realtime.{
  ConnectionManager, SetChange, contains, joined, left, apply_changes, broadcast,
}
use storepulse.Backend.Realtime.Dashboard.{
  Received, message, gone, dashboard_socket, dashboard_socket_exact,
}
use storepulse.Backend.Realtime.Broadcast.{broadcast_exact}

abbrev three : ConnectionManager
three = record { connections = 1 ∷ 2 ∷ 3 ∷ [] }

abbrev second_fails : ℕ → Bool
second_fails w = w == 2

broadcast_run :
    broadcast second_fails (joined 4 ∷ left 3 ∷ []) three
    ≡ (1 ∷ 3 ∷ [], record { connections = 4 ∷ 1 ∷ [] })
unfolding broadcast
broadcast_run = refl

broadcast_exact_example :
    (contains 2 (broadcast second_fails (joined 4 ∷ []) three).0 ≡ false)
    × (contains 2 (broadcast second_fails (joined 4 ∷ []) three).1.connections ≡ false)
unfolding contains
broadcast_exact_example = broadcast_exact second_fails (joined 4 ∷ []) three 2

abbrev one_session : List (List SetChange × Received)
one_session = (joined 4 ∷ [], message) ∷ (left 3 ∷ [], gone) ∷ []

dashboard_socket_exact_example :
    (true ≡ true → contains 9 (dashboard_socket 9 one_session three).connections ≡ false)
    × (◌≢◌ {A = ℕ} 2 9
        → contains 2 (dashboard_socket 9 one_session three).connections
          ≡ contains 2 (apply_changes (joined 4 ∷ left 3 ∷ []) three).connections)
dashboard_socket_exact_example = dashboard_socket_exact 9 2 one_session three
