-- ===== src/Broker/Policy/Laws.antt =====
-- What the policies of security/broker/authorization.py grant and refuse.
use renesas_ra8m1_provisioni.Prelude.{
  String, ◌≡◌, ◌↔◌, ◌⊎◌, ap, true, false, Option, some, List, [], ◌∷◌, arith, str_eq_iff,
}
use renesas_ra8m1_provisioni.Broker.Text.{lookup-insert}
use renesas_ra8m1_provisioni.Broker.Exn.{ok}
use renesas_ra8m1_provisioni.Broker.Glob.{Host, match_ignoring_case}
use renesas_ra8m1_provisioni.Broker.Policy.{
  ClientIdentity, client_id, ClientPolicy, AuthorizationManager, allows_operation, matches_any,
  allows_key, policy_key, get_policy, add_policy, key_refused, check_policy, check_authorization,
}

-- One of the patterns in the list matches the name of the key.
abbrev pub Matched : String → List String → Type 0
Matched key_arn [] = ⊥
Matched key_arn (p ∷ ps) = (match_ignoring_case p key_arn ≡ true) ⊎ Matched key_arn ps

matches_any_iff :
    (key_arn : String) (ps : List String) → (matches_any key_arn ps ≡ true) ↔ Matched key_arn ps
unfolding matches_any
matches_any_iff key_arn [] = ground arith
matches_any_iff key_arn (p ∷ ps) = ground (arith, matches_any_iff key_arn ps)

-- A policy allows a key exactly if none of its denied patterns matches the key, and it has no allowed
-- pattern or one that matches.
pub allows_key_iff :
    (p : ClientPolicy) (key_arn : String)
    → (allows_key p key_arn ≡ true) ↔ (
        (¬ Matched key_arn p.denied_key_arns)
        × ((p.allowed_key_arns ≡ []) ⊎ Matched key_arn p.allowed_key_arns))
unfolding allows_key
allows_key_iff p key_arn =
    ground
      (arith, matches_any_iff key_arn p.denied_key_arns, matches_any_iff key_arn p.allowed_key_arns)

-- The manager authorizes an operation exactly if it has a policy for the client, which allows the
-- operation and, if the name of a key is given and not empty, the key.
pub check_authorization_iff :
    (host : Host) (m : AuthorizationManager) (c : ClientIdentity) (operation : String)
    (key_arn : Option String)
    → (check_authorization host m c operation key_arn ≡ ok tt) ↔ (
        (p : ClientPolicy) × (get_policy host m c ≡ some p)
        × (allows_operation p operation ≡ true)
        × (key_refused p key_arn ≡ false))
unfolding check_authorization check_policy
check_authorization_iff host m c operation key_arn = ground arith

-- A client whose platform and identifier are those of a policy that was just added has that policy,
-- whatever wildcards and default there are.
pub get_policy-add_policy :
    (host : Host) (m : AuthorizationManager) (c : ClientIdentity) (p : ClientPolicy)
    → c.platform ≡ p.platform
    → client_id c ≡ p.client_id
    → get_policy host (add_policy p m) c ≡ some p
unfolding get_policy add_policy
get_policy-add_policy host m c p h k = ground (
  arith,
  lookup-insert (policy_key p.platform p.client_id) (policy_key c.platform (client_id c)) p
      m.policies,
  str_eq_iff (policy_key p.platform p.client_id) (policy_key c.platform (client_id c)),
  ap policy_key h,
)
