-- ===== src/Credentials/Represents.antt =====
-- When a lease of the broker stands for a lease whose status is a function of the time.
use bek.Common.{
  ℕ, ◌≤◌, ◌≡◌, refl, sym, ap, ◌∙◌, ◌⊎◌, inl, inr, Bool-cases, true, none, some, List, [], ◌∷◌, ◌&&◌,
  Pairwise, find_index-Pairwise, leb, if◌then◌else◌, ◌==◌, String, arith,
}
use bek.Credentials.Types.{CredentialLeaseStatus}
use bek.Credentials.Broker.{
  refresh_audit_ref, expire_if_needed, expire_all, create_lease_audit_reference,
}
use bek.Credentials.Broker.State.{
  BrokerOptions, StoredCredentialLease, Broker, is_active, get_stored,
}
use bek.Credentials.Grants.{Grant, status_at, stored_as, IsLive, find_grant}

pub IsLive-active : (t : ℕ) (g : Grant) → is_active (status_at t g) ≡ true → IsLive t g
unfolding status_at
IsLive-active t g h = (ground arith, ground arith)

pub active-eq :
    (st : CredentialLeaseStatus) → is_active st ≡ true → st ≡ CredentialLeaseStatus.active
active-eq st h = ground arith

unrevoked-status :
    (t : ℕ) (g : Grant)
    → g.revoked_at ≡ none
    → status_at t g
      ≡ (if leb g.expires_at t then CredentialLeaseStatus.expired else CredentialLeaseStatus.active)
unfolding status_at
unrevoked-status t g h = ground arith

module _ (o : BrokerOptions) where
  -- From the time on, whatever reads the lease finds it as the grant says.
  abbrev pub Represents : ℕ → StoredCredentialLease → Grant → Type 0
  Represents t s g = (t' : ℕ) → t ≤ t' → expire_if_needed o s t' ≡ stored_as o (status_at t' g) g

  expire-expire :
      (s : StoredCredentialLease) (t t' : ℕ)
      → t ≤ t'
      → expire_if_needed o (expire_if_needed o s t) t' ≡ expire_if_needed o s t'
  unfolding expire_if_needed refresh_audit_ref
  expire-expire s t t' le =
      elim (Bool-cases (is_active s.lease.status && leb s.lease.expires_at t)) [
        | inr live ↦ rw live refl
        | inl over ↦
            let later : (is_active s.lease.status && leb s.lease.expires_at t') ≡ true =
              ground arith in
            simp (over, later)
      ]

  pub Represents-expire :
      (t t' : ℕ) (s : StoredCredentialLease) (g : Grant)
      → t ≤ t'
      → Represents t s g
      → Represents t' (expire_if_needed o s t') g
  Represents-expire t t' s g le h t'' le' = expire-expire s t' t'' le' ∙ h t'' (omega arith)

  -- A lease that nobody revoked, in the fields of a grant.
  pub Represents-active :
      (t : ℕ) (s : StoredCredentialLease) (g : Grant)
      → s ≡ stored_as o CredentialLeaseStatus.active g
      → g.revoked_at ≡ none
      → Represents t s g
  unfolding expire_if_needed refresh_audit_ref create_lease_audit_reference
  Represents-active t s g e h t' le =
      rw (e, unrevoked-status t' g h)
        (elim (Bool-cases (leb g.expires_at t')) [
          | inl over ↦ rw over refl
          | inr live ↦ rw live refl
        ])

  pub Represents-revoked :
      (t at : ℕ) (s : StoredCredentialLease) (g : Grant)
      → s ≡ stored_as o CredentialLeaseStatus.revoked (record g { revoked_at = some at })
      → Represents t s (record g { revoked_at = some at })
  unfolding expire_if_needed status_at
  Represents-revoked t at s g e t' le = rw e refl

  expire-same_id :
      (s : StoredCredentialLease) (t : ℕ) → (expire_if_needed o s t).lease.id ≡ s.lease.id
  unfolding expire_if_needed refresh_audit_ref
  expire-same_id s t = elim (Bool-cases (is_active s.lease.status && leb s.lease.expires_at t)) [
    | inr live ↦ rw live refl
    | inl over ↦ rw over refl
  ]

  pub Represents-same_id :
      (t : ℕ) (s : StoredCredentialLease) (g : Grant) → Represents t s g → s.lease.id ≡ g.id
  Represents-same_id t s g h =
      sym (expire-same_id s t) ∙ ap (λ (x : StoredCredentialLease). x.lease.id) (h t (omega arith))

  abbrev pub RepresentsAll : ℕ → List StoredCredentialLease → List Grant → Type 0
  RepresentsAll t = Pairwise (Represents t)

  pub RepresentsAll-later :
      (t t' : ℕ) (ss : List StoredCredentialLease) (gs : List Grant)
      → t ≤ t'
      → RepresentsAll t ss gs
      → RepresentsAll t' ss gs
  RepresentsAll-later t t' [] [] le h = tt
  RepresentsAll-later t t' [] (_ ∷ _) le h = absurd h
  RepresentsAll-later t t' (_ ∷ _) [] le h = absurd h
  RepresentsAll-later t t' (s ∷ ss) (g ∷ gs) le h =
      (λ t'' le'. h.0 t'' (omega arith), RepresentsAll-later t t' ss gs le h.1)

  pub RepresentsAll-expire_all :
      (t t' : ℕ) (ss : List StoredCredentialLease) (gs : List Grant)
      → t ≤ t'
      → RepresentsAll t ss gs
      → RepresentsAll t' (expire_all o t' ss) gs
  unfolding expire_all
  RepresentsAll-expire_all t t' [] [] le h = tt
  RepresentsAll-expire_all t t' [] (_ ∷ _) le h = absurd h
  RepresentsAll-expire_all t t' (_ ∷ _) [] le h = absurd h
  RepresentsAll-expire_all t t' (s ∷ ss) (g ∷ gs) le h =
      (Represents-expire t t' s g le h.0, RepresentsAll-expire_all t t' ss gs le h.1)

  -- The map and the grants find an id alike.
  pub get_stored-cases :
      (t : ℕ) (id : String) (b : Broker) (gs : List Grant)
      → RepresentsAll t b.leases gs
      → (get_stored id b ≡ none) × (find_grant id gs ≡ none)
        ⊎ (i : ℕ) × (s : StoredCredentialLease) × (g : Grant) × (get_stored id b ≡ some (i, s))
          × (find_grant id gs ≡ some (i, g))
          × Represents t s g
  unfolding get_stored
  get_stored-cases t id b gs h =
      find_index-Pairwise (Represents t) (λ s. s.lease.id == id) (λ g. g.id == id)
        (λ s g r. ap (λ (n : String). n == id) (Represents-same_id t s g r)) b.leases gs h
