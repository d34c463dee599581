-- ===== src/Credentials/Refinement/Runs.antt =====
-- Any calls in the order of time keep the promises.
use bek.Common.{ℕ, ◌≤◌, refl, List, [], ◌∷◌}
use bek.Credentials.Broker.State.{BrokerOptions, Broker}
use bek.Credentials.Broker.Calls.{
  Call, issue, renew, revoke, get, list, sweep, resolve, perform, run,
}
use bek.Credentials.Grants.{Grant}
use bek.Credentials.Promises.{ServesAll, starts, ends, Chronological}
use bek.Credentials.Represents.{RepresentsAll}
use bek.Credentials.Refinement.Reads.{Keeps, get-Keeps, resolve-Keeps, list-Keeps, sweep-Keeps}
use bek.Credentials.Refinement.Changes.{issue-Keeps}
use bek.Credentials.Refinement.Renewals.{renew-Keeps, revoke-Keeps}

module _ (o : BrokerOptions) where
  perform-Keeps :
      (t : ℕ) (c : Call) (b : Broker) (gs : List Grant)
      → t ≤ starts c
      → starts c ≤ ends c
      → RepresentsAll o t b.leases gs
      → Keeps o c gs (perform o c b)
  perform-Keeps t (issue request now) b gs le le' h = issue-Keeps o t now request b gs le h
  perform-Keeps t (renew request clock later) b gs le le' h =
      renew-Keeps o t clock later request b gs le le' h
  perform-Keeps t (revoke request clock later) b gs le le' h =
      revoke-Keeps o t clock later request b gs le le' h
  perform-Keeps t (get id at) b gs le le' h = get-Keeps o t at id b gs le h
  perform-Keeps t (list at) b gs le le' h = list-Keeps o t at b gs le h
  perform-Keeps t (sweep at) b gs le le' h = sweep-Keeps o t at b gs le h
  perform-Keeps t (resolve id at) b gs le le' h = resolve-Keeps o t at id b gs le h

  run-from :
      (t : ℕ) (cs : List Call) (b : Broker) (gs : List Grant)
      → Chronological t cs
      → RepresentsAll o t b.leases gs
      → (after : List Grant) × ServesAll o cs gs (run o cs b).0 after
  unfolding run
  run-from t [] b gs ordered h = (gs, refl)
  run-from t (c ∷ cs) b gs (le, le', rest) h =
      let k = perform-Keeps t c b gs le le' h in
      let (after, served) = run-from (ends c) cs (perform o c b).1 k.after rest k.represents in
      (after, (k.after, k.serves, served))

  -- The broker refines leases whose status is a function of the time: whatever calls are made of a
  -- new broker while time does not go back, each reply is one that the leases issued before it
  -- allow. A lease that is issued or renewed ends in the future, within the most that the options
  -- allow and no later than its credential. A lease that is live at the time of the call is found,
  -- listed, resolved and revoked with its own fields; one that has expired or was revoked is not
  -- found, listed, resolved, renewed or revoked again, though nothing need have marked it as
  -- expired; what is swept has expired; and only those that issue, renew and revoke change a lease.
  pub run-ServesAll :
      (t next_id : ℕ) (cs : List Call)
      → Chronological t cs
      → (after : List Grant) × ServesAll o cs []
          (run o cs (record { leases = []; next_id = next_id })).0
          after
  run-ServesAll t next_id cs ordered = run-from t cs _ [] ordered tt
