-- ===== src/Credentials/Promises.antt =====
-- What each call of the broker may reply, and what it does to the leases that are issued.
use bek.Common.{
  ◌≤◌, ℕ, ◌-◌, ◌≡◌, ◌≢◌, ◌⊎◌, true, false, Option, none, some, List, [], ◌∷◌, map, All, Among, set,
  or_else, if◌then◌else◌,
}
use bek.Credentials.Types.{
  CredentialLeaseStatus, CredentialLease, CredentialLeaseTarget, CredentialLeaseRequest,
  CredentialError, lease_not_active, returned, threw,
}
use bek.Credentials.Broker.State.{
  BrokerOptions, is_active, is_leaseable_credential_status, parse_optional_timestamp, target_of,
}
use bek.Credentials.Broker.Calls.{
  Call, issue, renew, revoke, get, list, sweep, resolve, Reply, outcome, found, leases, target,
}
use bek.Credentials.Grants.{
  Grant, status_at, stored_as, view, IsLive, find_grant, put_grant, live_of, IsBounded,
}

module _ (o : BrokerOptions) where
  pub record IsIssued (request : CredentialLeaseRequest) (now : ℕ) (g : Grant) : Type 0 where
    pub leaseable : is_leaseable_credential_status request.credential.status ≡ true
    pub same_credential : g.credential ≡ request.credential
    pub parsed :
        parse_optional_timestamp request.credential.expires_at ≡ returned g.credential_expires_at
    pub unrevoked : g.revoked_at ≡ none
    pub issued : g.issued_at ≡ now
    pub bounded : IsBounded o now g
    pub lasts : g.ttl_ms ≡ g.expires_at - now

  pub record IsRenewed (clock later : ℕ) (g g' : Grant) : Type 0 where
    pub live : IsLive clock g
    pub rest_kept : g' ≡ record g { expires_at = g'.expires_at; ttl_ms = g'.ttl_ms }
    pub bounded : IsBounded o later g'
    pub lasts : g'.ttl_ms ≡ g'.expires_at - later

  -- The lease of the id that is live at the time.
  abbrev pub live_grant : ℕ → Option (ℕ × Grant) → Option Grant
  live_grant at none = none
  live_grant at (some (_, g)) = if is_active (status_at at g) then some g else none

  abbrev pub shown_lease : ℕ → Option Grant → Option CredentialLease
  shown_lease at none = none
  shown_lease at (some g) = some (view o at g)

  abbrev pub shown_target : Option Grant → Option CredentialLeaseTarget
  shown_target none = none
  shown_target (some g) = some (target_of (stored_as o CredentialLeaseStatus.active g))

  -- The call, on the leases issued before it, may give the reply, and leave the leases.
  abbrev pub Serves : Call → List Grant → Reply → List Grant → Type 0
  Serves (issue request now) gs r gs' =
      ((e : CredentialError) × (r ≡ outcome (threw e)) × (gs' ≡ gs))
      ⊎ (g : Grant) × IsIssued request now g
        × (r ≡ outcome (returned (view o now g)))
        × (gs' ≡ put_grant g gs)
  Serves (renew request clock later) gs r gs' =
      (live_grant clock (find_grant request.lease_id gs) ≡ none)
        × (r ≡ outcome (threw lease_not_active))
        × (gs' ≡ gs)
      ⊎ ((e : CredentialError) × (live_grant clock (find_grant request.lease_id gs) ≢ none)
          × (r ≡ outcome (threw e))
          × (gs' ≡ gs))
      ⊎ (i : ℕ) × (g : Grant) × (g' : Grant) × (find_grant request.lease_id gs ≡ some (i, g))
        × IsRenewed clock later g g'
        × (r ≡ outcome (returned (view o later g')))
        × (gs' ≡ set gs i g')
  Serves (revoke request clock later) gs r gs' =
      (find_grant request.lease_id gs ≡ none) × (r ≡ found none) × (gs' ≡ gs)
      ⊎ ((i : ℕ) × (g : Grant) × (find_grant request.lease_id gs ≡ some (i, g))
          × (is_active (status_at (or_else request.revoked_at clock) g) ≡ false)
          × (r ≡ found (some (view o (or_else request.revoked_at clock) g)))
          × (gs' ≡ gs))
      ⊎ (i : ℕ) × (g : Grant) × (find_grant request.lease_id gs ≡ some (i, g))
        × IsLive (or_else request.revoked_at clock) g
        × (r
            ≡ found (
                some (
                  view o (or_else request.revoked_at later)
                    (record g { revoked_at = some (or_else request.revoked_at later) }))))
        × (gs' ≡ set gs i (record g { revoked_at = some (or_else request.revoked_at later) }))
  Serves (get id at) gs r gs' =
      (r ≡ found (shown_lease at (live_grant at (find_grant id gs)))) × (gs' ≡ gs)
  Serves (list at) gs r gs' = (r ≡ leases (map (view o at) (live_of at gs))) × (gs' ≡ gs)
  Serves (sweep at) gs r gs' =
      (ls : List CredentialLease) × (r ≡ leases ls)
      × All
          (λ l.
            (g : Grant) × Among g gs
            × (status_at at g ≡ CredentialLeaseStatus.expired)
            × (l ≡ view o at g))
          ls
      × (gs' ≡ gs)
  Serves (resolve id at) gs r gs' =
      (r ≡ target (shown_target (live_grant at (find_grant id gs)))) × (gs' ≡ gs)

  -- The calls, one after another.
  abbrev pub ServesAll : List Call → List Grant → List Reply → List Grant → Type 0
  ServesAll [] gs [] gs' = gs' ≡ gs
  ServesAll [] gs (_ ∷ _) gs' = ⊥
  ServesAll (_ ∷ _) gs [] gs' = ⊥
  ServesAll (c ∷ cs) gs (r ∷ rs) gs'' =
      (gs' : List Grant) × Serves c gs r gs' × ServesAll cs gs' rs gs''

-- The first and the last reading of the clock.
abbrev pub starts : Call → ℕ
starts (issue request now) = now
starts (renew request clock later) = clock
starts (revoke request clock later) = or_else request.revoked_at clock
starts (get id at) = at
starts (list at) = at
starts (sweep at) = at
starts (resolve id at) = at

abbrev pub ends : Call → ℕ
ends (issue request now) = now
ends (renew request clock later) = later
ends (revoke request clock later) = or_else request.revoked_at later
ends (get id at) = at
ends (list at) = at
ends (sweep at) = at
ends (resolve id at) = at

-- Time does not go back.
abbrev pub Chronological : ℕ → List Call → Type 0
Chronological t [] = Unit
Chronological t (c ∷ cs) = (t ≤ starts c) × (starts c ≤ ends c) × Chronological (ends c) cs
