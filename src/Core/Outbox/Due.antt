-- ===== src/Core/Outbox/Due.antt =====
-- Which deliveries are sent next: `listDueOutboundDeliveries` of packages/core/src/store.ts.
use bek.Common.{ℕ, ◌≤◌, ◌≡◌, none, some, List, length, get_elem?, All, head?, keep, ltb}
use bek.Core.Outbox.{OutboundDelivery, OutboundDeliveryStatus, Outbox, InstantTexts, due_at, is_due}

-- The delivery is one of the outbox's, and is queued and due.
abbrev pub IsDue : ℕ → Outbox → OutboundDelivery → Type 0
IsDue now b d =
    ((i : ℕ) × (get_elem? b.deliveries i ≡ some d))
    × ((d.status ≡ OutboundDeliveryStatus.queued) × (due_at d ≤ now))

pub record IsListing (now most : ℕ) (b : Outbox) (listed : List OutboundDelivery) : Type 0 where
  pub all_due : All (IsDue now b) listed
  pub at_most : length listed ≤ most
  pub first :
      (d : OutboundDelivery)
      → head? listed ≡ some d
      → (other : OutboundDelivery) → IsDue now b other
      → due_at d ≤ due_at other
  pub none_due : head? listed ≡ none → (other : OutboundDelivery) → ¬ IsDue now b other

-- The texts of instants are in the order of the instants, as those of `toISOString` are.
pub record IsChronological (p : InstantTexts) : Type 0 where
  pub in_order : (m n : ℕ) → p.locale_before (p.instant_text m) (p.instant_text n) ≡ ltb m n

module _ (now : ℕ) (b : Outbox) where
  abbrev due : List OutboundDelivery
  due = keep (is_due now) b.deliveries
