-- ===== src/Credentials/Lookups.antt =====
-- What the broker finds under an id: `getStoredActiveLease` of packages/credentials/src/leases.ts.
use bek.Common.{
  ℕ, ◌≤◌, ◌≡◌, refl, ap, ◌∙◌, ◌⊎◌, inl, inr, Bool-cases, true, Option, none, some, List,
  find_index-some, Pairwise-set_left, ◌==◌, String,
}
use bek.Credentials.Types.{CredentialLeaseStatus}
use bek.Credentials.Broker.{expire_if_needed, get_stored_active_lease}
use bek.Credentials.Broker.State.{
  BrokerOptions, StoredCredentialLease, Broker, is_active, get_stored, put_stored,
}
use bek.Credentials.Grants.{Grant, status_at, stored_as, find_grant}
use bek.Credentials.Promises.{live_grant}
use bek.Credentials.Represents.{
  active-eq, Represents, Represents-expire, RepresentsAll, RepresentsAll-later, get_stored-cases,
}

module _ (o : BrokerOptions) where
  pub record IsMissed (id : String) (at : ℕ) (gs : List Grant)
      (x : Option (ℕ × StoredCredentialLease) × Broker) : Type 0 where
    pub dead : live_grant o at (find_grant id gs) ≡ none
    pub reply : x.0 ≡ none
    pub represents : RepresentsAll o at x.1.leases gs

  pub record IsHit (id : String) (at : ℕ) (gs : List Grant)
      (x : Option (ℕ × StoredCredentialLease) × Broker) : Type 0 where
    pub place : ℕ
    pub grant : Grant
    pub stands : find_grant id gs ≡ some (place, grant)
    pub live : is_active (status_at at grant) ≡ true
    pub reply : x.0 ≡ some (place, stored_as o CredentialLeaseStatus.active grant)
    pub represents : RepresentsAll o at x.1.leases gs

  pub live_grant-some :
      (at : ℕ) (x : Option (ℕ × Grant)) {i : ℕ} {g : Grant}
      → x ≡ some (i, g)
      → is_active (status_at at g) ≡ true
      → live_grant o at x ≡ some g
  live_grant-some at x e on = rw (e, live_grant, on) refl

  -- What is put back in its place stands for the grant that it stood for.
  pub put_stored-Represents :
      (t at i : ℕ) (id : String) (b : Broker) (gs : List Grant) (s : StoredCredentialLease)
      {g : Grant}
      → t ≤ at
      → RepresentsAll o t b.leases gs
      → find_grant id gs ≡ some (i, g)
      → Represents o at s g
      → RepresentsAll o at (put_stored i s b).leases gs
  unfolding put_stored
  put_stored-Represents t at i id b gs s le h stands r =
      Pairwise-set_left (Represents o at) b.leases gs i
        (RepresentsAll-later o t at b.leases gs le h)
        (find_index-some (λ (x : Grant). x.id == id) gs i stands).0 r

  looks :
      (t at i : ℕ) (id : String) (b : Broker) (gs : List Grant) (g : Grant)
      (s : StoredCredentialLease)
      → t ≤ at
      → RepresentsAll o t b.leases gs
      → find_grant id gs ≡ some (i, g)
      → Represents o t s g
      → get_stored id b ≡ some (i, s)
      → IsMissed id at gs (get_stored_active_lease o id at b)
        ⊎ IsHit id at gs (get_stored_active_lease o id at b)
  unfolding get_stored_active_lease
  looks t at i id b gs g s le h stands r found =
      let seen = r at le in
      let represents =
        put_stored-Represents t at i id b gs (expire_if_needed o s at) le h stands
          (Represents-expire o t at s g le r) in
      let status = ap (λ (x : StoredCredentialLease). is_active x.lease.status) seen in
      elim (Bool-cases (is_active (status_at at g))) [
        | inr off ↦
            let off' = status ∙ off in
            inl (
              rw (found, get_stored_active_lease)
                (record {
                  dead = rw (stands, live_grant, off) refl;
                  reply = rw off' refl;
                  represents = represents;
                }))
        | inl on ↦
            let on' = status ∙ on in
            inr (
              rw (found, get_stored_active_lease)
                (record {
                  place = i;
                  grant = g;
                  stands = stands;
                  live = on;
                  reply = rw (on', seen, active-eq (status_at at g) on) refl;
                  represents = represents;
                }))
      ]

  -- What is found under an id is a lease that is live at the time, and nothing else is found.
  pub get_stored_active_lease-cases :
      (t at : ℕ) (id : String) (b : Broker) (gs : List Grant)
      → t ≤ at
      → RepresentsAll o t b.leases gs
      → IsMissed id at gs (get_stored_active_lease o id at b)
        ⊎ IsHit id at gs (get_stored_active_lease o id at b)
  unfolding get_stored_active_lease
  get_stored_active_lease-cases t at id b gs le h = elim (get_stored-cases o t id b gs h) [
    | inl (out, none_of) ↦ inl (
        rw (out, get_stored_active_lease)
          (record {
            dead = rw (none_of, live_grant) refl;
            reply = refl;
            represents = RepresentsAll-later o t at b.leases gs le h;
          }))
    | inr (i, s, g, found, stands, r) ↦ looks t at i id b gs g s le h stands r found
  ]
