-- ===== src/Broker/Handler/Calls/Rules.antt =====
-- Rules for the calls that an action makes.
use renesas_ra8m1_provisioni.Prelude.{
  ℕ, String, List, ◌≡◌, refl, ◌∙◌, ◌⊎◌, inl, inr, true, false, Option, none, some, [], ◌∷◌, ◌++◌,
  arith, Option-cases,
}
use renesas_ra8m1_provisioni.Broker.Exn.{Result, ok, raised}
use renesas_ra8m1_provisioni.Broker.Policy.{
  ClientPolicy, AuthorizationManager, get_policy, allows_operation, key_refused,
}
use renesas_ra8m1_provisioni.Broker.Policy.Laws.{check_authorization_iff}
use renesas_ra8m1_provisioni.Broker.Session.{ClientSession, logged_in, is_logged_in, Manager}
use renesas_ra8m1_provisioni.Broker.Service.{
  done, failed, KeyType, KeyCurve, Service, State, Call, Action, ◌>>=◌, pure, lift, reads, manage,
}
use renesas_ra8m1_provisioni.Broker.Handler.Guard.{
  Caller, session_of, needs_login, has_login, check_policies, check_authorization,
}

-- The calls of the client that an operation makes. To verify a signature the public key is asked for
-- first; if that fails there is no second call.
pub data Serves (sv : Service) : String → Option String → List Call → Type 0 where
  sign : (k : String) (d : List ℕ) → Serves sv "sign" (some k) (Call.sign k d ∷ [])
  sign_digest :
      (k : String) (d : List ℕ) → Serves sv "sign_digest" (some k) (Call.sign_digest k d ∷ [])
  verify_failed :
      (k e : String)
      → sv.backend.client.get_public_key k ≡ failed e
      → Serves sv "verify" (some k) (Call.get_public_key k ∷ [])
  verify :
      (k : String) (p d g : List ℕ)
      → sv.backend.client.get_public_key k ≡ done p
      → Serves sv "verify" (some k) (Call.get_public_key k ∷ Call.verify_signature p d g k ∷ [])
  hash : (d : List ℕ) (a : String) → Serves sv "hash" none (Call.hash d a ∷ [])
  get_public_key : (k : String) → Serves sv "get_public_key" (some k) (Call.get_public_key k ∷ [])
  generate_key_pair :
      (t : KeyType) (v : KeyCurve) (l : Option String)
      → Serves sv "generate_key_pair" none (Call.generate_key_pair t v l ∷ [])
  list_keys : Serves sv "list_keys" none (Call.list_keys ∷ [])

-- An operation, with its key if it has one, is granted.
pub record Granted (sv : Service) (c : Caller) (s : State) (operation : String)
    (key : Option String) : Type 0 where
  pub login :
      (operation ≡ "list_keys")
      ⊎ ((x : ClientSession) × (session_of c s ≡ some x) × (x.state ≡ logged_in))
  pub policy :
      (m : AuthorizationManager)
      → sv.authorization_manager ≡ some m
      → (p : ClientPolicy) × (get_policy sv.host m c.client ≡ some p)
        × (allows_operation p operation ≡ true)
        × (key_refused p key ≡ false)

state_of_login : (x : ClientSession) → is_logged_in x ≡ true → x.state ≡ logged_in
state_of_login x h = ground arith

login_of :
    (c : Caller) (s : State)
    → has_login c s ≡ true
    → (x : ClientSession) × (session_of c s ≡ some x) × (x.state ≡ logged_in)
unfolding has_login
login_of c s h = elim (Option-cases (session_of c s)) [
  | inl e ↦ absurd (ground arith)
  | inr (x, e) ↦ (x, e, state_of_login x (ground arith))
]

-- What a passed check grants.
pub granted :
    (sv : Service) (c : Caller) (s : State) (operation : String) (key : Option String)
    → (operation ≡ "list_keys") ⊎ (needs_login operation ≡ true)
    → check_authorization sv c operation key s ≡ ok tt
    → Granted sv c s operation key
unfolding check_authorization check_policies
granted sv c s operation key n h = record {
  login = elim n [ inl e ↦ inl e | inr e ↦ inr (login_of c s (ground arith)) ];
  policy = λ m e. (check_authorization_iff sv.host m c.client operation key).0 (ground arith);
}

abbrev pub IsQuiet : {A : Type 0} → Action A → Type 0
IsQuiet {A} m = (s : State) (r : Result A) (t : State) → m s ≡ some (r, t) → t.calls ≡ s.calls

abbrev pub Outcome : Type 0 → Type 0
Outcome A = Option (Result A × State)

-- There was no call of the client between the two states, or there were those of this operation, which
-- is granted in the first.
abbrev pub AreGuarded : Service → Caller → State → String → State → Type 0
AreGuarded sv c s operation t =
    (t.calls ≡ s.calls)
    ⊎ ((key : Option String) × (ks : List Call) × (t.calls ≡ s.calls ++ ks)
        × Serves sv operation key ks
        × Granted sv c s operation key)

abbrev pub IsGuarded : {A : Type 0} → Service → Caller → State → String → Outcome A → Type 0
IsGuarded {A} sv c s operation o =
    (r : Result A) (t : State) → o ≡ some (r, t) → AreGuarded sv c s operation t

-- What comes of a result in a state.
abbrev pub after : {A B : Type 0} → State → Result A → (A → Outcome B) → Outcome B
after s x f = elim x [ ok a ↦ f a | raised e ↦ some (raised e, s) ]

pub IsQuiet-pure : {A : Type 0} (a : A) → IsQuiet (pure a)
IsQuiet-pure a s r t h = ground arith

pub IsQuiet-lift : {A : Type 0} (x : Result A) → IsQuiet (lift x)
IsQuiet-lift x s r t h = ground arith

pub IsQuiet-reads : {A : Type 0} (f : State → Result A) → IsQuiet (reads f)
IsQuiet-reads f s r t h = ground arith

pub IsQuiet-manage : {A : Type 0} (f : Manager → A × Manager) → IsQuiet (manage f)
IsQuiet-manage f s r t h = ground arith

quiet_step :
    {A B : Type 0} (o : Option (Result A × State)) (f : A → Action B) (s : State)
    → ((r : Result A) (t : State) → o ≡ some (r, t) → t.calls ≡ s.calls)
    → ((a : A) → IsQuiet (f a))
    → (r : Result B) (t : State)
    → ◌≡◌ {A = Option (Result B × State)}
        (elim o [
          | none ↦ none
          | some (q, u) ↦ elim q [ ok a ↦ f a u | raised e ↦ some (raised e, u) ]
        ])
        (some (r, t))
    → t.calls ≡ s.calls
quiet_step none f s h k r t e = absurd (ground arith)
quiet_step (some (ok a, u)) f s h k r t e = k a u r t e ∙ h (ok a) u refl
quiet_step (some (raised x, u)) f s h k r t e = ground (arith, h (raised x) u refl)

pub IsQuiet-bind :
    {A B : Type 0} (m : Action A) (f : A → Action B)
    → IsQuiet m
    → ((a : A) → IsQuiet (f a))
    → IsQuiet (m >>= f)
IsQuiet-bind m f h k s r t e = quiet_step (m s) f s (h s) k r t e

pub IsGuarded-lift :
    {A B : Type 0} {operation : String} (sv : Service) (c : Caller) (s : State) (x : Result A)
    (f : A → Outcome B)
    → ((a : A) → x ≡ ok a → IsGuarded sv c s operation (f a))
    → IsGuarded sv c s operation (after s x f)
IsGuarded-lift sv c s (ok a) f h r t e = h a refl r t e
IsGuarded-lift sv c s (raised x) f h r t e = inl (ground arith)

pub IsGuarded-one :
    {A : Type 0} (sv : Service) (c : Caller) (s : State) (operation : String) (key : Option String)
    (k : Call) (x : Result A)
    → Serves sv operation key (k ∷ [])
    → Granted sv c s operation key
    → IsGuarded sv c s operation (some (x, record s { calls = s.calls ++ (k ∷ []) }))
IsGuarded-one sv c s operation key k x j g r t e = inr (key, k ∷ [], ground arith, j, g)

pub IsGuarded-quiet :
    {A : Type 0} {operation : String} (sv : Service) (c : Caller) (s : State) (m : Action A)
    → IsQuiet m
    → IsGuarded sv c s operation (m s)
IsGuarded-quiet sv c s m h r t e = inl (h s r t e)

-- What makes no call keeps it so.
pub IsGuarded-then :
    {A B : Type 0} {operation : String} (sv : Service) (c : Caller) (s : State) (o : Outcome A)
    (f : A → Action B)
    → IsGuarded sv c s operation o
    → ((a : A) → IsQuiet (f a))
    → IsGuarded sv c s operation (elim o [
      | none ↦ none
      | some (q, u) ↦ elim q [ ok a ↦ f a u | raised e ↦ some (raised e, u) ]
    ])
IsGuarded-then sv c s none f h k r t e = absurd (ground arith)
IsGuarded-then sv c s (some (raised x, u)) f h k r t e = ground (arith, h (raised x) u refl)
IsGuarded-then sv c s (some (ok a, u)) f h k r t e = elim (h (ok a) u refl) [
  | inl i ↦ inl (k a u r t e ∙ i)
  | inr (key, ks, i, j, g) ↦ inr (key, ks, k a u r t e ∙ i, j, g)
]
