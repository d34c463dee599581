-- ===== src/Credentials/Broker/Calls.antt =====
-- The calls of the interface CredentialLeaseBroker of packages/credentials/src/types.ts, each with
-- the readings of the clock that it makes.
use bek.Common.{ℕ, String, Option, List, [], ◌∷◌}
use bek.Credentials.Types.{
  CredentialLease, CredentialLeaseTarget, CredentialLeaseRequest, RenewCredentialLeaseInput,
  RevokeCredentialLeaseInput, Outcome,
}
use bek.Credentials.Broker.{
  issue_lease, renew_lease, revoke_lease, get_lease, list_active_leases, sweep_expired,
  resolve_lease_target,
}
use bek.Credentials.Broker.State.{BrokerOptions, Broker}

pub data Call : Type 0 where
  issue : CredentialLeaseRequest → ℕ → Call
  renew : RenewCredentialLeaseInput → ℕ → ℕ → Call
  revoke : RevokeCredentialLeaseInput → ℕ → ℕ → Call
  get : String → ℕ → Call
  list : ℕ → Call
  sweep : ℕ → Call
  resolve : String → ℕ → Call

pub data Reply : Type 0 where
  outcome : Outcome CredentialLease → Reply
  found : Option CredentialLease → Reply
  leases : List CredentialLease → Reply
  target : Option CredentialLeaseTarget → Reply

module _ (o : BrokerOptions) where
  unfoldable pub perform : Call → Broker → Reply × Broker
  perform (issue request now) b = let (x, b') = issue_lease o request now b in (outcome x, b')
  perform (renew request clock later) b =
      let (x, b') = renew_lease o request clock later b in (outcome x, b')
  perform (revoke request clock later) b =
      let (x, b') = revoke_lease o request clock later b in (found x, b')
  perform (get id at) b = let (x, b') = get_lease o id at b in (found x, b')
  perform (list at) b = let (x, b') = list_active_leases o at b in (leases x, b')
  perform (sweep at) b = let (x, b') = sweep_expired o at b in (leases x, b')
  perform (resolve id at) b = let (x, b') = resolve_lease_target o id at b in (target x, b')

  unfoldable pub run : List Call → Broker → List Reply × Broker
  run [] b = ([], b)
  run (c ∷ cs) b = let (r, b') = perform c b in let (rs, b'') = run cs b' in (r ∷ rs, b'')
