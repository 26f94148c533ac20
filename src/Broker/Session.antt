-- ===== src/Broker/Session.antt =====
-- security/broker/service/session.py: the sessions of the broker and their manager. The manager's
-- dictionary holds references to session objects, which outlive their entries (a connection keeps its
-- session), so the objects are a store. Times are whole microseconds. The metadata of a session, which
-- the broker never uses, is left out.
pub mod Entries
pub mod Kept
pub mod Changed
pub mod Cleanup
pub mod Fresh
pub mod Created
use Prim.Native.String.{◌++◌ as append}
use renesas_ra8m1_provisioni.Prelude.{
  ℕ, suc, ◌-◌, String, Bool, true, false, not, Option, none, some, List, [], ◌∷◌, ◌++◌, ltb, leb,
  ◌==◌, if◌then◌else◌, is_some, length, get_elem?, set,
}
use renesas_ra8m1_provisioni.Broker.Text.{lookup, insert, erase, pos, show_int}
use renesas_ra8m1_provisioni.Broker.Exn.{Result, ok, raised, session_error}
use renesas_ra8m1_provisioni.Broker.Policy.{ClientIdentity}

pub data SessionState : Type 0 where
  created authenticated logged_in closed : SessionState

pub record ClientSession : Type 0 where
  pub session_id : String
  pub client_identity : ClientIdentity
  pub state : SessionState
  pub created_at : ℕ
  pub last_activity : ℕ
  pub login_time : Option ℕ

abbrev pub touch : ℕ → ClientSession → ClientSession
touch now s = record s { last_activity = now }

abbrev pub authenticate : ℕ → ClientSession → ClientSession
authenticate now s = touch now (record s { state = authenticated })

abbrev pub login : ℕ → ClientSession → ClientSession
login now s = touch now (record s { state = logged_in; login_time = some now })

abbrev pub is_logged_in : ClientSession → Bool
is_logged_in s = elim s.state [
  | created ↦ false
  | authenticated ↦ false
  | logged_in ↦ true
  | closed ↦ false
]

abbrev pub logout : ℕ → ClientSession → ClientSession
logout now s =
    if is_logged_in s then touch now (record s { state = authenticated; login_time = none }) else s

abbrev pub close : ClientSession → ClientSession
close s = record s { state = closed }

-- The value of the state in a reply.
abbrev pub state_value : SessionState → String
state_value created = "created"
state_value authenticated = "authenticated"
state_value logged_in = "logged_in"
state_value closed = "closed"

-- What `__init__` is given; no timeout is 0.
pub record Limits : Type 0 where
  pub session_timeout : ℕ
  pub max_sessions : ℕ

-- The session objects, the dictionary `_sessions` with the places of its objects, and what
-- `secrets.token_hex` will return.
pub record Manager : Type 0 where
  pub objects : List ClientSession
  pub sessions : List (String × ℕ)
  pub tokens : List String

-- An object, changed in place.
unfoldable pub update :
    (ClientSession → ClientSession) → ℕ → List ClientSession → List ClientSession
update f r objects = elim (get_elem? objects r) [ none ↦ objects | some s ↦ set objects r (f s) ]

unfoldable pub modify : (ClientSession → ClientSession) → ℕ → Manager → Manager
unfolding update
modify f r m = record m { objects = update f r m.objects }

unfoldable pub is_expired : Limits → ℕ → ClientSession → Bool
is_expired l now s =
    if leb l.session_timeout 0 then false else ltb l.session_timeout (now - s.last_activity)

unfoldable pub close_session : String → Manager → Bool × Manager
unfolding lookup erase modify
close_session session_id m = elim (lookup session_id m.sessions) [
  | none ↦ (false, m)
  | some r ↦ (true, record (modify close r m) { sessions = erase session_id m.sessions })
]

-- Whether the object at a place is expired.
unfoldable pub is_expired_at : Limits → ℕ → List ClientSession → ℕ → Bool
unfolding is_expired
is_expired_at l now objects r = elim (get_elem? objects r) [
  | none ↦ false
  | some s ↦ is_expired l now s
]

unfoldable pub expired_ids : Limits → ℕ → List ClientSession → List (String × ℕ) → List String
unfolding is_expired_at
expired_ids l now objects [] = []
expired_ids l now objects ((session_id, r) ∷ d) =
    let rest = expired_ids l now objects d in
    if is_expired_at l now objects r then session_id ∷ rest else rest

unfoldable pub close_each : List String → Manager → Manager
unfolding close_session
close_each [] m = m
close_each (session_id ∷ ids) m = close_each ids (close_session session_id m).1

unfoldable pub cleanup_expired : Limits → ℕ → Manager → ℕ × Manager
unfolding expired_ids close_each
cleanup_expired l now m =
    if leb l.session_timeout 0
    then (0, m)
    else (let expired = expired_ids l now m.objects m.sessions in
        (length expired, close_each expired m))

-- `_generate_session_id`, with the tokens left; none if the loop goes on after these tokens.
unfoldable pub generate_session_id : List (String × ℕ) → List String → Option (String × List String)
unfolding lookup
generate_session_id sessions [] = none
generate_session_id sessions (token ∷ tokens) =
    let more = generate_session_id sessions tokens in
    if is_some (lookup token sessions) then more else some (token, tokens)

abbrev pub new_session : ClientIdentity → ℕ → String → ClientSession
new_session c now session_id = record {
  session_id = session_id;
  client_identity = c;
  state = created;
  created_at = now;
  last_activity = now;
  login_time = none;
}

unfoldable pub with_session : ClientIdentity → ℕ → String → List String → Manager → Manager
unfolding insert
with_session c now session_id tokens m = record {
  objects = m.objects ++ (new_session c now session_id ∷ []);
  sessions = insert session_id (length m.objects) m.sessions;
  tokens = tokens;
}

unfoldable pub add_session : ClientIdentity → ℕ → Manager → Option (Result {0} ℕ × Manager)
unfolding generate_session_id with_session
add_session c now m = elim (generate_session_id m.sessions m.tokens) [
  | none ↦ none
  | some (session_id, tokens) ↦ some (ok (length m.objects), with_session c now session_id tokens m)
]

-- `create_session`: the place of the new object.
unfoldable pub create_session :
    Limits → ClientIdentity → ℕ → Manager → Option (Result {0} ℕ × Manager)
unfolding cleanup_expired add_session show_int
create_session l c now m =
    let cleaned = (cleanup_expired l now m).1 in
    if leb l.max_sessions (length m.sessions)
    then (if leb l.max_sessions (length cleaned.sessions)
        then some (
          raised (
              session_error
                (append "Maximum sessions (" (append (show_int (pos l.max_sessions)) ") reached"))),
          cleaned,
        )
        else add_session c now cleaned)
    else add_session c now m

-- `get_session`: the place of the object, none if there is none or it is expired.
unfoldable pub get_session : Limits → String → ℕ → Manager → Option ℕ × Manager
unfolding lookup is_expired_at close_session
get_session l session_id now m = elim (lookup session_id m.sessions) [
  | none ↦ (none, m)
  | some r ↦
      (if is_expired_at l now m.objects r
        then (none, (close_session session_id m).1)
        else (some r, m))
]

unfoldable pub close_entries : List (String × ℕ) → List ClientSession → List ClientSession
unfolding update
close_entries [] objects = objects
close_entries ((session_id, r) ∷ d) objects = close_entries d (update close r objects)

unfoldable pub close_all : Manager → ℕ × Manager
unfolding close_entries
close_all m =
    (length m.sessions, record m { objects = close_entries m.sessions m.objects; sessions = [] })
