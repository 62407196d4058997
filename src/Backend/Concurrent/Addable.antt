-- ===== src/Backend/Concurrent/Addable.antt =====
-- A row that its transaction may commit whenever it gets to, and what keeps it so.
use storepulse.Prelude.{
  ℕ, ◌+◌, ◌≤◌, ◌≡◌, ◌≢◌, sym, ◌∙◌, true, false, none, some, List, ◌∷◌, arith, ◌==◌, Bool-cases, inl,
  inr,
}
use storepulse.Backend.Models.{PosEvent, EventValues}
use storepulse.Backend.Database.{
  find_event, is_refund_of, refunded_quantity, refunded_amount, row_check,
}
use storepulse.Backend.Database.Lookup.{find_event_id, find_event-cons, refunded-cons}
use storepulse.Backend.Ingestion.Consistency.{
  IsConsistent, IsLinked, WithinLimits, IsLinked-weaken, find_event_weaken, refunded_fresh, All-map,
}
use storepulse.Backend.Concurrent.{member}

-- What is left of every sale that the row refunds is enough for it.
pub record HasRoom {J : Type 0} (l : List (PosEvent J)) (v : EventValues J) (i : ℕ) (o : PosEvent J)
    : Type 0 where
  pub quantity_room : refunded_quantity i l + v.quantity ≤ o.quantity
  pub amount_room : refunded_amount i l + v.amount_cents ≤ o.amount_cents

pub record Addable {J : Type 0} (l : List (PosEvent J)) (locks : List ℕ) (e : PosEvent J)
    : Type 0 where
  pub fresh : find_event e.event_id l ≡ none
  pub fits : row_check e.values ≡ true
  pub link : IsLinked l e
  pub room :
      (i : ℕ) (o : PosEvent J)
      → is_refund_of i e.values ≡ true
      → find_event i l ≡ some o
      → HasRoom l e.values i o
  pub locked : (i : ℕ) → is_refund_of i e.values ≡ true → member i locks ≡ true

module _ {J : Type 0} (l : List (PosEvent J)) where
  -- A row is no refund of itself.
  not_own : (e : PosEvent J) → row_check e.values ≡ true → is_refund_of e.event_id e.values ≡ false
  unfolding row_check
  not_own e h = ground arith

  added_limits :
      (locks : List ℕ) (e : PosEvent J) (i : ℕ) (o : PosEvent J)
      → IsConsistent l
      → Addable l locks e
      → find_event i (e ∷ l) ≡ some o
      → WithinLimits (e ∷ l) o
  added_limits locks e i o h a found = elim (Bool-cases (e.event_id == i)) [
    | inl own ↦ ground (
      arith,
      find_event-cons i e l,
      not_own e a.fits,
      refunded-cons e.event_id e l,
      refunded_fresh e.event_id l a.fresh h.linked,
    )
    | inr other ↦
        let old : find_event i l ≡ some o = ground (arith, find_event-cons i e l) in
        ground (
          arith,
          find_event_id i l o old,
          h.limited i o old,
          refunded-cons o.event_id e l,
          a.room i o,
        )
  ]

  pub Addable-IsConsistent :
      (locks : List ℕ) (e : PosEvent J) → IsConsistent l → Addable l locks e → IsConsistent (e ∷ l)
  Addable-IsConsistent locks e h a = record {
    unique = (a.fresh, h.unique);
    checked = (a.fits, h.checked);
    linked = (
      IsLinked-weaken e e l a.fresh a.link,
      All-map (λ x. IsLinked-weaken e x l a.fresh) l h.linked,
    );
    limited = λ i o found. added_limits locks e i o h a found;
  }

  -- Another transaction's row, with another key and of other sales, leaves it so.
  pub Addable-weaken :
      (locks : List ℕ) (x e : PosEvent J)
      → find_event x.event_id l ≡ none
      → x.event_id ≢ e.event_id
      → ((i : ℕ) → member i locks ≡ true → is_refund_of i x.values ≡ false)
      → Addable l locks e
      → Addable (x ∷ l) locks e
  Addable-weaken locks x e absent apart others a = record {
    fresh = ground (arith, find_event-cons e.event_id x l, a.fresh);
    fits = a.fits;
    link = IsLinked-weaken x e l absent a.link;
    room = λ i o refers found.
        let (o', found', _, _, _, _) = a.link i (ground arith) in
        let same : some o' ≡ some o = sym (find_event_weaken x l i o' absent found') ∙ found in
        let room = a.room i o' refers found' in
        let unread = others i (a.locked i refers) in
        record {
          quantity_room = ground (arith, refunded-cons i x l, room, unread, same);
          amount_room = ground (arith, refunded-cons i x l, room, unread, same);
        };
    locked = a.locked;
  }
