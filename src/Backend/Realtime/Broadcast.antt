-- ===== src/Backend/Realtime/Broadcast.antt =====
-- Whom a broadcast reaches, and what it does to the set of sockets.
use storepulse.Prelude.{ℕ, ◌≡◌, Bool, false, ◌&&◌, not, List, [], ◌∷◌, arith, ◌==◌}
use storepulse.Backend.Realtime.{
  ConnectionManager, contains, add, discard, connect, disconnect, SetChange, joined, left,
  apply_change, apply_changes, send_all, discard_all, broadcast,
}

pub contains-discard :
    (w c : ℕ) (l : List ℕ) → contains w (discard c l) ≡ (not (c == w) && contains w l)
unfolding contains discard
contains-discard w c [] = ground arith
contains-discard w c (x ∷ l) = ground (arith, contains-discard w c l)

contains-discard_all :
    (w : ℕ) (l : List ℕ) (m : ConnectionManager)
    → contains w (discard_all l m).connections ≡ (not (contains w l) && contains w m.connections)
unfolding contains discard_all
contains-discard_all w [] m = ground arith
contains-discard_all w (c ∷ l) m = ground (
  arith,
  contains-discard_all w l (record m { connections = discard c m.connections }),
  contains-discard w c m.connections,
)

contains-sent :
    (fails : ℕ → Bool) (w : ℕ) (l : List ℕ)
    → (contains w (send_all fails l).0 ≡ (not (fails w) && contains w l))
      × (contains w (send_all fails l).1 ≡ (fails w && contains w l))
unfolding contains send_all
contains-sent fails w [] = ground arith
contains-sent fails w (c ∷ l) = ground (arith, contains-sent fails w l)

-- Whatever sockets come and go meanwhile: a broadcast reaches exactly the sockets of its snapshot
-- whose send does not fail, and a socket is in the set afterwards exactly if the changes left it
-- there and it is no socket of the snapshot whose send failed.
pub broadcast_exact :
    (fails : ℕ → Bool) (meanwhile : List SetChange) (m : ConnectionManager) (w : ℕ)
    → (contains w (broadcast fails meanwhile m).0 ≡ (not (fails w) && contains w m.connections))
      × (contains w (broadcast fails meanwhile m).1.connections ≡ (
          not (fails w && contains w m.connections)
          && contains w (apply_changes meanwhile m).connections))
unfolding broadcast
broadcast_exact fails meanwhile m w = ground (
  arith,
  contains-sent fails w m.connections,
  contains-discard_all w (send_all fails m.connections).1 (apply_changes meanwhile m),
)

-- No socket is in the list twice.
abbrev pub IsSetList : List ℕ → Type 0
IsSetList [] = Unit
IsSetList (c ∷ l) = (contains c l ≡ false) × IsSetList l

discard-IsSetList : (w : ℕ) (l : List ℕ) → IsSetList l → IsSetList (discard w l)
unfolding discard
discard-IsSetList w [] h = tt
discard-IsSetList w (c ∷ l) h = ground (arith, discard-IsSetList w l h.1, contains-discard c w l)

discard_all-IsSetList :
    (l : List ℕ) (m : ConnectionManager)
    → IsSetList m.connections
    → IsSetList (discard_all l m).connections
unfolding discard_all
discard_all-IsSetList [] m h = h
discard_all-IsSetList (w ∷ l) m h =
    discard_all-IsSetList l (record m { connections = discard w m.connections })
      (discard-IsSetList w m.connections h)

add-IsSetList : (w : ℕ) (l : List ℕ) → IsSetList l → IsSetList (add w l)
unfolding add
add-IsSetList w l h = ground arith

apply_changes-IsSetList :
    (l : List SetChange) (m : ConnectionManager)
    → IsSetList m.connections
    → IsSetList (apply_changes l m).connections
unfolding apply_changes connect disconnect apply_change
apply_changes-IsSetList [] m h = h
apply_changes-IsSetList (joined w ∷ l) m h =
    apply_changes-IsSetList l (connect w m) (add-IsSetList w m.connections h)
apply_changes-IsSetList (left w ∷ l) m h =
    apply_changes-IsSetList l (disconnect w m) (discard-IsSetList w m.connections h)

sent-IsSetList : (fails : ℕ → Bool) (l : List ℕ) → IsSetList l → IsSetList (send_all fails l).0
unfolding send_all
sent-IsSetList fails [] h = tt
sent-IsSetList fails (c ∷ l) h = ground (arith, sent-IsSetList fails l h.1, contains-sent fails c l)

-- A broadcast reaches no socket twice, and leaves a set a set.
pub broadcast-IsSetList :
    (fails : ℕ → Bool) (meanwhile : List SetChange) (m : ConnectionManager)
    → IsSetList m.connections
    → IsSetList (broadcast fails meanwhile m).0
      × IsSetList (broadcast fails meanwhile m).1.connections
unfolding broadcast
broadcast-IsSetList fails meanwhile m h = (
  sent-IsSetList fails m.connections h,
  discard_all-IsSetList (send_all fails m.connections).1 (apply_changes meanwhile m)
      (apply_changes-IsSetList meanwhile m h),
)
