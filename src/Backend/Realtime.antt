-- ===== src/Backend/Realtime.antt =====
-- backend/app/realtime.py: the set of dashboard sockets and the broadcast to them.
-- A socket is a number, its identity. `_lock` guards single reads and writes of the set, so the
-- sockets that come and go while a broadcast waits on its sends are an argument of `broadcast`.
pub mod Broadcast
pub mod Dashboard
mod Tests
use storepulse.Prelude.{
  ℕ, ◌≡◌, ◌↔◌, refl, Bool, true, false, ◌&&◌, ◌||◌, not, List, [], ◌∷◌, ◌++◌, arith, ◌==◌,
  if◌then◌else◌,
}

-- `websocket in connections`
unfoldable pub contains : ℕ → List ℕ → Bool
contains w [] = false
contains w (c ∷ l) = c == w || contains w l

-- `connections.add(websocket)`
unfoldable pub add : ℕ → List ℕ → List ℕ
unfolding contains
add w l = if contains w l then l else w ∷ l

-- `connections.discard(websocket)`
unfoldable pub discard : ℕ → List ℕ → List ℕ
discard w [] = []
discard w (c ∷ l) = let rest = discard w l in if c == w then rest else c ∷ rest

pub record ConnectionManager : Type 0 where
  pub connections : List ℕ

-- The part of `connect` after `websocket.accept()`.
unfoldable pub connect : ℕ → ConnectionManager → ConnectionManager
unfolding add
connect w m = record m { connections = add w m.connections }

unfoldable pub disconnect : ℕ → ConnectionManager → ConnectionManager
unfolding discard
disconnect w m = record m { connections = discard w m.connections }

-- What other tasks do to the set while a broadcast is under way.
pub data SetChange : Type 0 where
  joined left : ℕ → SetChange

unfoldable pub apply_change : SetChange → ConnectionManager → ConnectionManager
unfolding connect disconnect
apply_change (joined w) m = connect w m
apply_change (left w) m = disconnect w m

unfoldable pub apply_changes : List SetChange → ConnectionManager → ConnectionManager
unfolding apply_change
apply_changes [] m = m
apply_changes (c ∷ l) m = apply_changes l (apply_change c m)

-- The loop over the snapshot: the sockets that `send_json` reached, and the stale ones.
-- `fails` says for which sockets `send_json` raises one of the three exceptions.
unfoldable pub send_all : (ℕ → Bool) → List ℕ → List ℕ × List ℕ
send_all fails [] = ([], [])
send_all fails (c ∷ l) =
    let (sent, stale) = send_all fails l in if fails c then (sent, c ∷ stale) else (c ∷ sent, stale)

-- The second critical section; with no stale socket the source skips it, which is the same.
unfoldable pub discard_all : List ℕ → ConnectionManager → ConnectionManager
unfolding discard
discard_all [] m = m
discard_all (w ∷ l) m = discard_all l (record m { connections = discard w m.connections })

-- The sockets reached, and the manager afterwards.
unfoldable pub broadcast :
    (ℕ → Bool) → List SetChange → ConnectionManager → List ℕ × ConnectionManager
unfolding send_all discard_all apply_changes
broadcast fails meanwhile m =
    let (sent, stale) = send_all fails m.connections in
    (sent, discard_all stale (apply_changes meanwhile m))
