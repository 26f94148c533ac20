-- ===== src/Broker/Tests/Policies.antt =====
-- The theorems on policies and wildcards at concrete inputs.
use renesas_ra8m1_provisioni.Prelude.{◌≡◌, ◌↔◌, ◌⊎◌, refl, true, false, none, some, [], ◌∷◌}
use renesas_ra8m1_provisioni.Broker.Text.{codes, pos, show_int}
use renesas_ra8m1_provisioni.Broker.Exn.{ok}
use renesas_ra8m1_provisioni.Broker.Glob.{Host, translate, matches, match_ignoring_case}
use renesas_ra8m1_provisioni.Broker.Glob.Matching.{Matches, match_ignoring_case_iff}
use renesas_ra8m1_provisioni.Broker.Policy.{
  ClientIdentity, client_id, ClientPolicy, AuthorizationManager, allows_key, allows_operation,
  key_refused, get_policy, add_policy, check_authorization, matches_any,
}
use renesas_ra8m1_provisioni.Broker.Policy.Laws.{
  Matched, allows_key_iff, check_authorization_iff, get_policy-add_policy,
}

-- The user with the number 7 on Linux.
abbrev pub user : ClientIdentity
user = record {
  platform = "linux";
  uid = some (pos 7);
  gid = some (pos 7);
  pid = none;
  sid = none;
  username = none;
}

-- It may sign with the keys `oem-*`, but not with `oem-root*`.
abbrev oem_policy : ClientPolicy
oem_policy = record {
  client_id = "7";
  platform = "linux";
  allowed_operations = "sign" ∷ [];
  allowed_key_arns = "oem-*" ∷ [];
  denied_key_arns = "oem-root*" ∷ [];
  max_requests_per_minute = 60;
  description = "";
}

abbrev no_policies : AuthorizationManager
no_policies = record { policies = []; default_policy = none }

abbrev pub oem_policies : AuthorizationManager
oem_policies = add_policy oem_policy no_policies

allows_key-runs :
    (allows_key oem_policy "oem-1" ≡ true)
    × (allows_key oem_policy "oem-root-1" ≡ false)
    × (allows_key oem_policy "customer" ≡ false)
unfolding allows_key matches_any match_ignoring_case translate matches
allows_key-runs = (refl, refl, refl)

match_ignoring_case_iff_example :
    (match_ignoring_case "OEM-*" "oem-1" ≡ true)
    ↔ Matches true (translate (codes "OEM-*")) (codes "oem-1")
match_ignoring_case_iff_example = match_ignoring_case_iff "OEM-*" "oem-1"

allows_key_iff_example : (allows_key oem_policy "oem-root-1" ≡ true) ↔ (
    (¬ Matched "oem-root-1" ("oem-root*" ∷ []))
    × ((oem_policy.allowed_key_arns ≡ []) ⊎ Matched "oem-root-1" ("oem-*" ∷ [])))
allows_key_iff_example = allows_key_iff oem_policy "oem-root-1"

get_policy-add_policy_example : get_policy Host.posix oem_policies user ≡ some oem_policy
unfolding client_id show_int
get_policy-add_policy_example =
    get_policy-add_policy Host.posix no_policies user oem_policy refl refl

check_authorization_iff_example :
    (check_authorization Host.posix oem_policies user "sign" (some "oem-1") ≡ ok tt) ↔ (
      (p : ClientPolicy) × (get_policy Host.posix oem_policies user ≡ some p)
      × (allows_operation p "sign" ≡ true)
      × (key_refused p (some "oem-1") ≡ false))
check_authorization_iff_example =
    check_authorization_iff Host.posix oem_policies user "sign" (some "oem-1")
