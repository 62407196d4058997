-- ===== src/Backend/Realtime/Dashboard.antt =====
-- `dashboard_socket` of backend/app/main.py: one socket from its connect to the end of its loop.
-- With each `receive_text` comes what other tasks did to the set while it waited.
use storepulse.Prelude.{
  ℕ, ◌≡◌, ◌≢◌, refl, Bool, true, false, ◌||◌, List, [], ◌∷◌, ◌++◌, arith, ◌==◌, ◌∙◌, Bool-cases,
  inl, inr,
}
use storepulse.Backend.Realtime.{
  ConnectionManager, contains, add, connect, disconnect, SetChange, joined, left, apply_change,
  apply_changes,
}
use storepulse.Backend.Realtime.Broadcast.{contains-discard}

-- A text, a `WebSocketDisconnect`, or another exception, which leaves the handler.
pub data Received : Type 0 where
  message gone broken : Received

unfoldable pub receive_loop :
    ℕ → List (List SetChange × Received) → ConnectionManager → ConnectionManager
unfolding apply_changes disconnect
receive_loop w [] m = m
receive_loop w ((changes, message) ∷ l) m = receive_loop w l (apply_changes changes m)
receive_loop w ((changes, gone) ∷ l) m = disconnect w (apply_changes changes m)
receive_loop w ((changes, broken) ∷ l) m = apply_changes changes m

unfoldable pub dashboard_socket :
    ℕ → List (List SetChange × Received) → ConnectionManager → ConnectionManager
unfolding connect receive_loop
dashboard_socket w l m = receive_loop w l (connect w m)

-- Whether the loop ends by a disconnect, and what the others did until it ended.
abbrev pub leaves : List (List SetChange × Received) → Bool
leaves [] = false
leaves ((changes, message) ∷ l) = leaves l
leaves ((changes, gone) ∷ l) = true
leaves ((changes, broken) ∷ l) = false

abbrev pub meanwhile : List (List SetChange × Received) → List SetChange
meanwhile [] = []
meanwhile ((changes, message) ∷ l) = changes ++ meanwhile l
meanwhile ((changes, _) ∷ l) = changes

contains-add : (v x : ℕ) (l : List ℕ) → contains v (add x l) ≡ (x == v || contains v l)
unfolding contains add
contains-add v x l = elim (Bool-cases (x == v)) [
  | inl e ↦ let same : x ≡ v = ground arith in ground (arith, same)
  | inr e ↦ ground arith
]

contains-apply_change :
    (v : ℕ) (c : SetChange) (m n : ConnectionManager)
    → contains v m.connections ≡ contains v n.connections
    → contains v (apply_change c m).connections ≡ contains v (apply_change c n).connections
unfolding apply_change
contains-apply_change v (joined x) m n h =
    ground (arith, h, contains-add v x m.connections, contains-add v x n.connections)
contains-apply_change v (left x) m n h =
    ground (arith, h, contains-discard v x m.connections, contains-discard v x n.connections)

contains-apply_changes :
    (v : ℕ) (l : List SetChange) (m n : ConnectionManager)
    → contains v m.connections ≡ contains v n.connections
    → contains v (apply_changes l m).connections ≡ contains v (apply_changes l n).connections
unfolding apply_changes
contains-apply_changes v [] m n h = h
contains-apply_changes v (c ∷ l) m n h =
    contains-apply_changes v l (apply_change c m) (apply_change c n)
      (contains-apply_change v c m n h)

apply_changes-append :
    (a b : List SetChange) (m : ConnectionManager)
    → apply_changes (a ++ b) m ≡ apply_changes b (apply_changes a m)
unfolding apply_changes
apply_changes-append [] b m = refl
apply_changes-append (c ∷ a) b m = apply_changes-append a b (apply_change c m)

loop_leaves :
    (w : ℕ) (l : List (List SetChange × Received)) (m : ConnectionManager)
    → leaves l ≡ true
    → contains w (receive_loop w l m).connections ≡ false
unfolding receive_loop
loop_leaves w [] m h = absurd (ground (arith, h))
loop_leaves w ((changes, message) ∷ l) m h = loop_leaves w l (apply_changes changes m) h
loop_leaves w ((changes, gone) ∷ l) m h =
    ground (arith, contains-discard w w (apply_changes changes m).connections)
loop_leaves w ((changes, broken) ∷ l) m h = absurd (ground (arith, h))

loop_keeps :
    (w v : ℕ) (l : List (List SetChange × Received)) (m : ConnectionManager)
    → v ≢ w
    → contains v (receive_loop w l m).connections
      ≡ contains v (apply_changes (meanwhile l) m).connections
unfolding receive_loop apply_changes
loop_keeps w v [] m h = refl
loop_keeps w v ((changes, message) ∷ l) m h =
    rw (apply_changes-append changes (meanwhile l) m) (loop_keeps w v l (apply_changes changes m) h)
loop_keeps w v ((changes, gone) ∷ l) m h =
    ground (arith, contains-discard v w (apply_changes changes m).connections, h)
loop_keeps w v ((changes, broken) ∷ l) m h = refl

-- A session that ends by a disconnect leaves its socket out of the set, and however it ends, any
-- other socket is in the set exactly if what the others did meanwhile leaves it there.
pub dashboard_socket_exact :
    (w v : ℕ) (l : List (List SetChange × Received)) (m : ConnectionManager)
    → (leaves l ≡ true → contains w (dashboard_socket w l m).connections ≡ false)
      × (v ≢ w
          → contains v (dashboard_socket w l m).connections
            ≡ contains v (apply_changes (meanwhile l) m).connections)
unfolding dashboard_socket connect
dashboard_socket_exact w v l m = (
  λ h. loop_leaves w l (connect w m) h,
  λ other.
      loop_keeps w v l (connect w m) other
      ∙ contains-apply_changes v (meanwhile l) (connect w m) m
          (ground (arith, contains-add v w m.connections, other)),
)
