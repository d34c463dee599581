-- ===== src/Worker/Behaviour/Beating.antt =====
-- What a worker is told of its lease: `heartbeat` of packages/worker/src/index.ts.
use bek.Common.{
  ℕ, ◌+◌, ◌-◌, ◌<◌, ◌≤◌, ◌≡◌, refl, ◌⊎◌, inl, inr, Bool-cases, true, false, Option, Option-cases,
  none, some, get_elem?, set, All, All-get_elem?, find_index-none, or_else, is_some, eqb, leb,
  arith, String, eq_iff,
}
use bek.Worker.Types.{WorkStatus, WorkerWorkRecord, WorkerLease}
use bek.Worker.Attempts.{is_claimed}
use bek.Worker.State.{
  QueueOptions, Queue, extend_by_ms_not_positive, Outcome, returned, threw, and_then, time, put,
  emit, holds_lease, find_by_lease_id,
}
use bek.Worker.Leases.{
  HeartbeatDecision, continue, cancel, lost_lease, not_found, expire_claimed_record, renew_lease,
  heartbeat_live, heartbeat_record, heartbeat,
}
use bek.Worker.Evolution.{IsValid}
use bek.Worker.Evolution.Keeps.{Inv}
use bek.Worker.Runs.Leases.{find_by_lease_id-some}
use bek.Worker.Behaviour.Expiring.{GivesUp, and_then-returned, expire_asked-GivesUp}

-- The claimed record that holds the lease of the identifier.
pub record Holder (q : Queue) (lease_id : String) (i : ℕ) (r : WorkerWorkRecord) (l : WorkerLease)
    : Type 0 where
  pub stands : get_elem? q.records i ≡ some r
  pub held : r.lease ≡ some l
  pub named : l.id ≡ lease_id
  pub claimed : r.status ≡ WorkStatus.claimed

-- The duration that a heartbeat extends a lease by.
abbrev pub extension : WorkerLease → Option ℕ → ℕ
extension l by = or_else by (l.expires_at - l.claimed_at)

module _ (q : Queue) (lease_id : String) (by : Option ℕ) (now : ℕ) where
  pub record IsUnknown (x : Outcome HeartbeatDecision × Queue) : Type 0 where
    pub none_holds : All (λ r. holds_lease lease_id r ≡ false) q.records
    pub reply : x ≡ (returned (not_found "Unknown worker lease."), q)

  pub record IsRenewed (x : Outcome HeartbeatDecision × Queue) : Type 0 where
    pub at : ℕ
    pub before : WorkerWorkRecord
    pub lease : WorkerLease
    pub holder : Holder q lease_id at before lease
    pub live : now < lease.expires_at
    pub unasked : is_some before.cancel_requested_at ≡ false
    pub after : WorkerWorkRecord
    pub renewed : WorkerLease
    pub reply : x.0 ≡ returned (continue renewed after)
    pub records : x.1.records ≡ set q.records at after
    pub held : after.lease ≡ some renewed
    pub claimed : after.status ≡ WorkStatus.claimed
    pub same_id : renewed.id ≡ lease.id
    pub same_worker : renewed.worker_id ≡ lease.worker_id
    pub expires : renewed.expires_at ≡ now + extension lease by
    pub longer : now < renewed.expires_at

  pub record IsTold (x : Outcome HeartbeatDecision × Queue) : Type 0 where
    pub at : ℕ
    pub before : WorkerWorkRecord
    pub lease : WorkerLease
    pub holder : Holder q lease_id at before lease
    pub live : now < lease.expires_at
    pub asked : is_some before.cancel_requested_at ≡ true
    pub reason : String
    pub reply : x ≡ (returned (cancel reason before), q)

  pub record IsLost (x : Outcome HeartbeatDecision × Queue) : Type 0 where
    pub at : ℕ
    pub before : WorkerWorkRecord
    pub lease : WorkerLease
    pub holder : Holder q lease_id at before lease
    pub over : lease.expires_at ≤ now
    pub reply : x.0 ≡ returned (lost_lease "Worker lease expired.")
    pub after : WorkerWorkRecord
    pub records : x.1.records ≡ set q.records at after
    pub unclaimed : is_claimed after.status ≡ false

  pub record IsRefused (x : Outcome HeartbeatDecision × Queue) : Type 0 where
    pub at : ℕ
    pub before : WorkerWorkRecord
    pub lease : WorkerLease
    pub holder : Holder q lease_id at before lease
    pub live : now < lease.expires_at
    pub unasked : is_some before.cancel_requested_at ≡ false
    pub short : extension lease by ≡ 0
    pub reply : x ≡ (threw extend_by_ms_not_positive, q)

  abbrev pub Beats : Outcome HeartbeatDecision × Queue → Type 0
  Beats x = IsUnknown x ⊎ IsRenewed x ⊎ IsTold x ⊎ IsLost x ⊎ IsRefused x

  module _ (o : QueueOptions) where
    renew_lease-Beats :
        (i : ℕ) (r : WorkerWorkRecord) (l : WorkerLease)
        → Holder q lease_id i r l
        → now < l.expires_at
        → is_some r.cancel_requested_at ≡ false
        → Beats (renew_lease o i r l by now q)
    unfolding renew_lease put emit
    renew_lease-Beats i r l h live unasked = elim (Bool-cases (eqb (extension l by) 0)) [
      | inl short ↦ rw short (
          inr (
            inr (
              inr (
                inr (record {
                  at = i;
                  before = r;
                  lease = l;
                  holder = h;
                  live = live;
                  unasked = unasked;
                  short = ground arith;
                  reply = refl;
                })))))
      | inr longer ↦ rw longer (
          inr (
            inl (record {
              at = i;
              before = r;
              lease = l;
              holder = h;
              live = live;
              unasked = unasked;
              after = _;
              renewed = _;
              reply = refl;
              records = refl;
              held = refl;
              claimed = h.claimed;
              same_id = refl;
              same_worker = refl;
              expires = refl;
              longer = ground arith;
            })))
    ]

    heartbeat_live-Beats :
        (asked : Option ℕ) (i : ℕ) (r : WorkerWorkRecord) (l : WorkerLease)
        → r.cancel_requested_at ≡ asked
        → Holder q lease_id i r l
        → now < l.expires_at
        → Beats (heartbeat_live o asked i r l by now q)
    unfolding heartbeat_live
    heartbeat_live-Beats none i r l e h live = renew_lease-Beats i r l h live (rw e refl)
    heartbeat_live-Beats (some _) i r l e h live = inr (
        inr (
          inl (record {
            at = i;
            before = r;
            lease = l;
            holder = h;
            live = live;
            asked = rw e refl;
            reason = _;
            reply = refl;
          })))

    leased-claimed :
        (r : WorkerWorkRecord) → IsValid r → is_some r.lease ≡ true → is_claimed r.status ≡ true
    leased-claimed r v held = ground arith

    is_claimed-status : (s : WorkStatus) → is_claimed s ≡ true → s ≡ WorkStatus.claimed
    is_claimed-status s h = ground arith

    GivesUp-Beats :
        (i : ℕ) (r : WorkerWorkRecord) (l : WorkerLease) (x : Outcome WorkerWorkRecord × Queue)
        → Holder q lease_id i r l
        → l.expires_at ≤ now
        → GivesUp i q x
        → Beats (and_then x (λ _ q'. (returned (lost_lease "Worker lease expired."), q')))
    GivesUp-Beats i r l x h over g =
        rw
          (and_then-returned x (λ _ q'. (returned (lost_lease "Worker lease expired."), q'))
            g.reply)
          (inr (
            inr (
              inr (
                inl (record {
                  at = i;
                  before = r;
                  lease = l;
                  holder = h;
                  over = over;
                  reply = refl;
                  after = g.left;
                  records = g.records;
                  unclaimed = g.unclaimed;
                })))))

    heartbeat_record-Beats :
        (lease : Option WorkerLease) (i : ℕ) (r : WorkerWorkRecord)
        → r.lease ≡ lease
        → IsValid r
        → get_elem? q.records i ≡ some r
        → holds_lease lease_id r ≡ true
        → Beats (heartbeat_record o lease i r by now q)
    unfolding heartbeat_record expire_claimed_record
    heartbeat_record-Beats none i r e v at holds = absurd (ground arith)
    heartbeat_record-Beats (some l) i r e v at holds =
        let c = leased-claimed r v (rw e refl) in
        let h : Holder q lease_id i r l = record {
          stands = at;
          held = e;
          named = (eq_iff l.id lease_id).0 (rw e at holds);
          claimed = is_claimed-status r.status c;
        } in
        rw c (elim (Bool-cases (leb l.expires_at now)) [
          | inl over ↦ rw over (
              GivesUp-Beats i r l _ h (ground arith)
                (expire_asked-GivesUp o _ i r now _ q v h.claimed refl))
          | inr live ↦
              rw live (heartbeat_live-Beats r.cancel_requested_at i r l refl h (ground arith))
        ])

-- In a queue of the invariant, a heartbeat is answered by the lease that it names. Where no record holds it, the reply says so.
-- Otherwise the record is claimed: if the lease has expired, it is reported lost and the record is
-- claimed no more; if a cancellation is asked for, the reply says that and nothing changes; if the
-- lease would be extended by nothing, the call throws and nothing changes; and in all other cases
-- the lease is renewed for the same worker, until after the time of the call.
pub heartbeat_lem :
    (o : QueueOptions) (lease_id : String) (by at : Option ℕ) (clock : ℕ) (q : Queue)
    → Inv q
    → Beats q lease_id by (time at clock) (heartbeat o lease_id by at clock q)
unfolding heartbeat find_by_lease_id
heartbeat_lem o lease_id by at clock q h = elim (Option-cases (find_by_lease_id lease_id q)) [
  | inl out ↦
      rw (out, heartbeat)
        (inl (record {
          none_holds = find_index-none (holds_lease lease_id) q.records out;
          reply = refl;
        }))
  | inr ((i, r), found) ↦
      let (stands, holds) = find_by_lease_id-some lease_id q i found in
      rw (found, heartbeat)
        (heartbeat_record-Beats q lease_id by (time at clock) o r.lease i r refl
          (All-get_elem? IsValid q.records i h.valid stands) stands holds)
]
