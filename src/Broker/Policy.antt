-- ===== src/Broker/Policy.antt =====
-- security/broker/authorization.py, and the client identity of security/broker/auth.py. Reading and
-- writing the policies file is not modelled here.
pub mod Laws
use Prim.Native.String.{◌++◌}
use renesas_ra8m1_provisioni.Prelude.{
  ℕ, String, Bool, true, false, not, ◌&&◌, ◌||◌, Option, none, some, List, [], ◌∷◌, if◌then◌else◌,
  str_eq,
}
use renesas_ra8m1_provisioni.Broker.Text.{ℤ, show_int, split_colon, is_empty, lookup, insert, erase}
use renesas_ra8m1_provisioni.Broker.Exn.{Result, ok, raised, authorization_error}
use renesas_ra8m1_provisioni.Broker.Glob.{Host, match_ignoring_case, fnmatch}

pub record ClientIdentity : Type 0 where
  pub platform : String
  pub uid : Option ℤ
  pub gid : Option ℤ
  pub pid : Option ℤ
  pub sid : Option String
  pub username : Option String

show_optional : Option ℤ → String
unfolding show_int
show_optional none = "None"
show_optional (some n) = show_int n

-- `self.sid or "unknown"`
or_unknown : Option String → String
or_unknown none = "unknown"
or_unknown (some s) = if is_empty s then "unknown" else s

unfoldable pub client_id : ClientIdentity → String
unfolding show_optional or_unknown
client_id c =
    if str_eq c.platform "linux"
    then show_optional c.uid
    else if str_eq c.platform "windows"
    then or_unknown c.sid
    else "unknown"

pub record ClientPolicy : Type 0 where
  pub client_id : String
  pub platform : String
  pub allowed_operations : List String
  pub allowed_key_arns : List String
  pub denied_key_arns : List String
  pub max_requests_per_minute : ℕ
  pub description : String

-- `x in xs`
unfoldable pub member : String → List String → Bool
member x [] = false
member x (y ∷ ys) = str_eq y x || member x ys

unfoldable pub allows_operation : ClientPolicy → String → Bool
unfolding member
allows_operation p operation = elim p.allowed_operations [
  | [] ↦ true
  | o ∷ os ↦ member operation (o ∷ os)
]

-- One of the patterns matches.
unfoldable pub matches_any : String → List String → Bool
unfolding match_ignoring_case
matches_any key_arn [] = false
matches_any key_arn (pattern ∷ ps) = match_ignoring_case pattern key_arn || matches_any key_arn ps

unfoldable pub allows_key : ClientPolicy → String → Bool
unfolding matches_any
allows_key p key_arn =
    if matches_any key_arn p.denied_key_arns
    then false
    else elim p.allowed_key_arns [ [] ↦ true | q ∷ qs ↦ matches_any key_arn (q ∷ qs) ]

pub record AuthorizationManager : Type 0 where
  pub policies : List (String × ClientPolicy)
  pub default_policy : Option ClientPolicy

-- `f"{platform}:{client_id}"`
unfoldable pub policy_key : String → String → String
policy_key platform id = platform ++ (":" ++ id)

-- The loop over the stored policies for a wildcard.
unfoldable pub wildcard_policy :
    Host → String → String → List (String × ClientPolicy) → Option ClientPolicy
unfolding split_colon fnmatch
wildcard_policy host platform id [] = none
wildcard_policy host platform id ((stored_key, stored_policy) ∷ rest) =
    let next = wildcard_policy host platform id rest in
    elim (split_colon stored_key) [
      | none ↦ next
      | some (stored_platform, stored_pattern) ↦
          (if not (str_eq stored_platform platform)
            then next
            else if str_eq stored_pattern id
            then next
            else if fnmatch host id stored_pattern
            then some stored_policy
            else next)
    ]

or_default : Option ClientPolicy → Option ClientPolicy → Option ClientPolicy
or_default none d = d
or_default (some p) d = some p

unfoldable pub get_policy : Host → AuthorizationManager → ClientIdentity → Option ClientPolicy
unfolding client_id policy_key wildcard_policy lookup or_default
get_policy host m c = elim (lookup (policy_key c.platform (client_id c)) m.policies) [
  | some p ↦ some p
  | none ↦ or_default (wildcard_policy host c.platform (client_id c) m.policies) m.default_policy
]

unfoldable pub add_policy : ClientPolicy → AuthorizationManager → AuthorizationManager
unfolding insert policy_key
add_policy p m = record m { policies = insert (policy_key p.platform p.client_id) p m.policies }

unfoldable pub remove_policy : String → String → AuthorizationManager → AuthorizationManager × Bool
unfolding lookup erase policy_key
remove_policy platform id m = elim (lookup (policy_key platform id) m.policies) [
  | none ↦ (m, false)
  | some p ↦ (record m { policies = erase (policy_key platform id) m.policies }, true)
]

unfoldable pub set_default_policy : ClientPolicy → AuthorizationManager → AuthorizationManager
set_default_policy p m = record m { default_policy = some p }

unfoldable pub check_client_allowed : Host → AuthorizationManager → ClientIdentity → Result {0} Unit
unfolding get_policy authorization_error
check_client_allowed host m c = elim (get_policy host m c) [
  | none ↦ raised (
      authorization_error "No authorization policy found for client" (some (client_id c)) none none)
  | some p ↦ ok tt
]

-- `if key_arn and not policy.allows_key(key_arn)`
unfoldable pub key_refused : ClientPolicy → Option String → Bool
unfolding allows_key
key_refused p none = false
key_refused p (some key_arn) = if is_empty key_arn then false else not (allows_key p key_arn)

or_empty : Option String → String
or_empty none = ""
or_empty (some s) = s

unfoldable pub check_policy :
    ClientPolicy → ClientIdentity → String → Option String → Result {0} Unit
unfolding allows_operation key_refused or_empty authorization_error client_id
check_policy p c operation key_arn =
    if not (allows_operation p operation)
    then raised (
        authorization_error ("Operation '" ++ (operation ++ "' not allowed")) (some (client_id c))
          (some operation) none)
    else if key_refused p key_arn
    then raised (
        authorization_error ("Access to key '" ++ (or_empty key_arn ++ "' not allowed"))
          (some (client_id c)) (some operation) key_arn)
    else ok tt

unfoldable pub check_authorization :
    Host → AuthorizationManager → ClientIdentity → String → Option String → Result {0} Unit
unfolding get_policy check_policy authorization_error
check_authorization host m c operation key_arn = elim (get_policy host m c) [
  | none ↦ raised (
      authorization_error "No authorization policy found" (some (client_id c)) (some operation)
        key_arn)
  | some p ↦ check_policy p c operation key_arn
]
