-- ===== src/Core/Ingress/Lookups.antt =====
-- What is found after a delivery is recorded or removed: packages/core/src/store.ts.
use bek.Common.{
  ℕ, ◌≡◌, ◌≢◌, refl, inl, inr, Bool-cases, true, false, not, Option-cases, none, some, find,
  find_index, find_index-some, find-set_found, find-set_other, find-none, find-keep, keep-passes,
  All-imp, ◌==◌, eq_iff, String, arith, if◌then◌else◌,
}
use bek.Core.Ingress.{
  RecordInput, Inbox, InboxOptions, has_key, find_ingress_delivery, remove_ingress_delivery,
  updated_ingress, new_ingress, record_ingress_delivery,
}

-- Another key is not the same text.
key_other : (k j : String) → k ≢ j → (k == j) ≡ false
key_other k j h = ground (arith, eq_iff k j)

module _ (o : InboxOptions) where
  record_status :
      (input : RecordInput) (clock : ℕ) (b : Inbox)
      → (record_ingress_delivery o input clock b).0.status ≡ input.status
  unfolding record_ingress_delivery updated_ingress new_ingress
  record_status input clock b = elim (Option-cases (find_index (has_key input.key) b.deliveries)) [
    | inl out ↦ rw (out, record_ingress_delivery) refl
    | inr ((i, d), f) ↦ rw (f, record_ingress_delivery) refl
  ]

  record_same :
      (input : RecordInput) (clock : ℕ) (b : Inbox)
      → find_ingress_delivery input.key (record_ingress_delivery o input clock b).1
        ≡ some (record_ingress_delivery o input clock b).0
  unfolding find_ingress_delivery record_ingress_delivery updated_ingress new_ingress find
  record_same input clock b = elim (Option-cases (find_index (has_key input.key) b.deliveries)) [
    | inl out ↦
        rw (out, record_ingress_delivery)
          (let same : (input.key == input.key) ≡ true = (eq_iff input.key input.key).1 refl in
            rw same refl)
    | inr ((i, d), f) ↦
        rw (f, record_ingress_delivery)
          (find-set_found (has_key input.key) b.deliveries i _ f
            (find_index-some (has_key input.key) b.deliveries i f).1)
  ]

  record_other :
      (input : RecordInput) (clock : ℕ) (b : Inbox) (key : String)
      → input.key ≢ key
      → find_ingress_delivery key (record_ingress_delivery o input clock b).1
        ≡ find_ingress_delivery key b
  unfolding find_ingress_delivery record_ingress_delivery updated_ingress new_ingress find
  record_other input clock b key other =
      elim (Option-cases (find_index (has_key input.key) b.deliveries)) [
        | inl out ↦
            rw (out, record_ingress_delivery)
              (let miss : (input.key == key) ≡ false = key_other input.key key other in
                rw miss refl)
        | inr ((i, d), f) ↦
            let (at, same) = find_index-some (has_key input.key) b.deliveries i f in
            let e : d.key ≡ input.key = (eq_iff d.key input.key).0 same in
            let miss : (d.key == key) ≡ false = rw e (key_other input.key key other) in
            rw (f, record_ingress_delivery)
              (find-set_other (has_key key) b.deliveries i _ at miss miss)
      ]

  -- A delivery that is recorded is found under its key, with the status that was given; what is
  -- found under any other key is as before.
  pub find-record_ingress_delivery :
      (input : RecordInput) (clock : ℕ) (b : Inbox) (key : String)
      → ((record_ingress_delivery o input clock b).0.status ≡ input.status)
        × (find_ingress_delivery key (record_ingress_delivery o input clock b).1 ≡ (
            if input.key == key
            then some (record_ingress_delivery o input clock b).0
            else find_ingress_delivery key b))
  find-record_ingress_delivery input clock b key = (
    record_status input clock b,
    elim (Bool-cases (input.key == key)) [
      | inl same ↦
          let e : input.key ≡ key = (eq_iff input.key key).0 same in
          rw same (rw (← e) (record_same input clock b))
      | inr miss ↦
          rw miss (record_other input clock b key (λ e. ground (arith, eq_iff input.key key)))
    ],
  )

-- A key that is removed is not found; what is found under any other key is as before.
pub find-remove_ingress_delivery :
    (key other : String) (b : Inbox)
    → (find_ingress_delivery key (remove_ingress_delivery key b).1 ≡ none)
      × (key ≢ other
          → find_ingress_delivery other (remove_ingress_delivery key b).1
            ≡ find_ingress_delivery other b)
unfolding find_ingress_delivery remove_ingress_delivery
find-remove_ingress_delivery key other b = (
  find-none (has_key key) _
      (All-imp _ _ (λ d h. ground (arith, h)) (keep-passes (λ d. not (d.key == key)) b.deliveries)),
  λ ne.
      find-keep (has_key other) (λ d. not (d.key == key)) b.deliveries
        (λ d hit. ground (arith, eq_iff d.key key, eq_iff d.key other, hit)),
)
