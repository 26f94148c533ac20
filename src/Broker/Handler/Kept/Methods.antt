-- ===== src/Broker/Handler/Kept/Methods.antt =====
-- The invariant of the session manager along the methods that use the keys.
use renesas_ra8m1_provisioni.Prelude.{
  ℕ, String, refl, inl, inr, Option, none, some, [], ◌∷◌, ◌++◌, Option-cases, Bool-cases,
}
use renesas_ra8m1_provisioni.Broker.Text.{lookup}
use renesas_ra8m1_provisioni.Broker.Json.{Json}
use renesas_ra8m1_provisioni.Broker.Exn.{Result}
use renesas_ra8m1_provisioni.Broker.Session.{
  Limits, modify, touch, login, logout, is_logged_in, authenticate,
}
use renesas_ra8m1_provisioni.Broker.Session.Kept.{IsValid}
use renesas_ra8m1_provisioni.Broker.Session.Changed.{IsHarmless, modify-IsValid}
use renesas_ra8m1_provisioni.Broker.Service.{Service, State, KeyCurve, Call, ◌>>=◌, pure, lift}
use renesas_ra8m1_provisioni.Broker.Backend as Backend
use renesas_ra8m1_provisioni.Broker.Handler.Guard.{
  Params, Caller, required, or_else, b64decode, check_authorization, touch_session,
}
use renesas_ra8m1_provisioni.Broker.Handler.Crypto as Crypto
use renesas_ra8m1_provisioni.Broker.Handler.Kept.Rules.{
  IsKept, IsKept-some, IsKept-after, IsKept-then, IsKeeping, IsKeeping-pure,
}

pub touch-IsHarmless : (now : ℕ) → IsHarmless (touch now)
touch-IsHarmless now x = (refl, λ o. o)

pub login-IsHarmless : (now : ℕ) → IsHarmless (login now)
login-IsHarmless now x = (refl, λ o e. cc)

pub authenticate-IsHarmless : (now : ℕ) → IsHarmless (authenticate now)
authenticate-IsHarmless now x = (refl, λ o e. cc)

pub logout-IsHarmless : (now : ℕ) → IsHarmless (logout now)
logout-IsHarmless now x = elim (Bool-cases (is_logged_in x)) [
  | inl e ↦ rw e (refl, λ o i. cc)
  | inr e ↦ rw e (refl, λ o. o)
]

touch_session-IsKept :
    (l : Limits) (c : Caller) (s : State) → IsValid l s.manager → IsKept l (touch_session c s)
unfolding touch_session
touch_session-IsKept l c s v = elim (Option-cases c.session) [
  | inl e ↦ rw (e, touch_session) (IsKept-some l _ s v)
  | inr (r, e) ↦
      rw (e, touch_session)
        (IsKept-some l _ (record s { manager = modify (touch c.now) r s.manager })
          (modify-IsValid l (touch c.now) r s.manager (touch-IsHarmless c.now) v))
]

-- The end of a method: the session's activity, and the reply.
end-IsKeeping : (l : Limits) (c : Caller) (j : Json) → IsKeeping l (touch_session c >>= λ _. pure j)
end-IsKeeping l c j s v =
    IsKept-then l (touch_session c s) (λ _. pure j) (touch_session-IsKept l c s v)
      (λ _. IsKeeping-pure l j)

call-IsKeeping :
    {A : Type 0} (l : Limits) (k : Call) (x : Result A)
    → IsKeeping l (λ u. some (x, record u { calls = u.calls ++ (k ∷ []) }))
call-IsKeeping l k x u v = IsKept-some l x (record u { calls = u.calls ++ (k ∷ []) }) v

-- An operation of the backend, and the end of a method.
operation-IsKept :
    {A : Type 0} (sv : Service) (l : Limits) (c : Caller) (s : State) (k : Call) (x : Result A)
    (j : A → Json)
    → IsValid l s.manager
    → IsKept l (
        ((lift (Backend.ensure_connected sv.backend) >>= λ _.
        λ (u : State). some (x, record u { calls = u.calls ++ (k ∷ []) }))
            >>= λ a. (touch_session c >>= λ _. pure (j a)))
          s)
operation-IsKept sv l c s k x j v =
    IsKept-then l _ _
      (IsKept-after l s (Backend.ensure_connected sv.backend) _ v
        (λ _. IsKept-some l x (record s { calls = s.calls ++ (k ∷ []) }) v))
      (λ a. end-IsKeeping l c (j a))

pub sign-IsKept :
    (l : Limits) (sv : Service) (c : Caller) (params : Params) (s : State)
    → IsValid l s.manager
    → IsKept l (Crypto.sign sv c params s)
unfolding Crypto.sign Backend.sign
sign-IsKept l sv c params s v = IsKept-after l s (required "key_arn" params) _ v (λ key_arn.
    IsKept-after l s (required "data" params) _ v (λ text.
      IsKept-after l s (check_authorization sv c "sign" (some key_arn) s) _ v (λ _.
        IsKept-after l s (b64decode sv text) _ v
          (λ data'. operation-IsKept sv l c s (Call.sign key_arn data') _ _ v))))

pub sign_digest-IsKept :
    (l : Limits) (sv : Service) (c : Caller) (params : Params) (s : State)
    → IsValid l s.manager
    → IsKept l (Crypto.sign_digest sv c params s)
unfolding Crypto.sign_digest Backend.sign_digest
sign_digest-IsKept l sv c params s v = IsKept-after l s (required "key_arn" params) _ v (λ key_arn.
    IsKept-after l s (required "digest" params) _ v (λ text.
      IsKept-after l s (check_authorization sv c "sign_digest" (some key_arn) s) _ v (λ _.
        IsKept-after l s (b64decode sv text) _ v
          (λ digest. operation-IsKept sv l c s (Call.sign_digest key_arn digest) _ _ v))))

pub verify-IsKept :
    (l : Limits) (sv : Service) (c : Caller) (params : Params) (s : State)
    → IsValid l s.manager
    → IsKept l (Crypto.verify sv c params s)
unfolding Crypto.verify Backend.verify
verify-IsKept l sv c params s v = IsKept-after l s (required "key_arn" params) _ v (λ key_arn.
    IsKept-after l s (required "data" params) _ v (λ text.
      IsKept-after l s (required "signature" params) _ v (λ signed.
        IsKept-after l s (check_authorization sv c "verify" (some key_arn) s) _ v (λ _.
          IsKept-after l s (b64decode sv text) _ v (λ data'.
            IsKept-after l s (b64decode sv signed) _ v (λ signature.
              IsKept-then l _ _
                (IsKept-after l s (Backend.ensure_connected sv.backend) _ v (λ _.
                  IsKept-then l _ _ (call-IsKeeping l (Call.get_public_key key_arn) _ s v)
                    (λ p. call-IsKeeping l (Call.verify_signature p data' signature key_arn) _)))
                (λ _. end-IsKeeping l c _)))))))

pub hash-IsKept :
    (l : Limits) (sv : Service) (c : Caller) (params : Params) (s : State)
    → IsValid l s.manager
    → IsKept l (Crypto.hash sv c params s)
unfolding Crypto.hash Backend.hash_data
hash-IsKept l sv c params s v = IsKept-after l s (required "data" params) _ v (λ text.
    IsKept-after l s (check_authorization sv c "hash" none s) _ v (λ _.
      IsKept-after l s (b64decode sv text) _ v (λ data'.
        operation-IsKept sv l c s (Call.hash data' (or_else "algorithm" "SHA256" params)) _ _ v)))

pub get_public_key-IsKept :
    (l : Limits) (sv : Service) (c : Caller) (params : Params) (s : State)
    → IsValid l s.manager
    → IsKept l (Crypto.get_public_key sv c params s)
unfolding Crypto.get_public_key Backend.get_public_key
get_public_key-IsKept l sv c params s v =
    IsKept-after l s (required "key_arn" params) _ v (λ key_arn.
      IsKept-after l s (check_authorization sv c "get_public_key" (some key_arn) s) _ v
        (λ _. operation-IsKept sv l c s (Call.get_public_key key_arn) _ _ v))

pub list_keys-IsKept :
    (l : Limits) (sv : Service) (c : Caller) (params : Params) (s : State)
    → IsValid l s.manager
    → IsKept l (Crypto.list_keys sv c params s)
unfolding Crypto.list_keys Backend.list_keys
list_keys-IsKept l sv c params s v =
    IsKept-after l s (check_authorization sv c "list_keys" none s) _ v (λ _.
      IsKept-then l _ _
        (IsKept-after l s (Backend.ensure_connected sv.backend) _ v (λ _.
          IsKept-then l _ _
            (IsKept-some l _ (record s { calls = s.calls ++ (Call.list_keys ∷ []) }) v)
            (λ _. IsKeeping-pure l _)))
        (λ _. end-IsKeeping l c _))

generate-IsKept :
    (l : Limits) (sv : Service) (s : State) (key_type curve key_spec : String) (kc : KeyCurve)
    (label : Option String)
    → IsValid l s.manager
    → IsKept l (Backend.generate sv.backend key_type kc curve key_spec label s)
unfolding Backend.generate
generate-IsKept l sv s key_type curve key_spec kc label v =
    elim (Option-cases (Backend.key_type_of key_type)) [
      | inl e ↦ rw (e, Backend.generate) (IsKept-some l _ s v)
      | inr (kt, e) ↦
          rw (e, Backend.generate)
            (IsKept-then l _ _
              (IsKept-some l _
                (record s { calls = s.calls ++ (Call.generate_key_pair kt kc label ∷ []) }) v)
              (λ _. IsKeeping-pure l _))
    ]

for_curve-IsKept :
    (l : Limits) (sv : Service) (s : State) (key_type curve : String) (label : Option String)
    (o : Option (KeyCurve × String))
    → IsValid l s.manager
    → IsKept l (Backend.for_curve sv.backend key_type curve label o s)
unfolding Backend.for_curve
for_curve-IsKept l sv s key_type curve label none v = IsKept-some l _ s v
for_curve-IsKept l sv s key_type curve label (some (kc, key_spec)) v =
    generate-IsKept l sv s key_type curve key_spec kc label v

pub generate_key_pair-IsKept :
    (l : Limits) (sv : Service) (c : Caller) (params : Params) (s : State)
    → IsValid l s.manager
    → IsKept l (Crypto.generate_key_pair sv c params s)
unfolding Crypto.generate_key_pair Backend.generate_key_pair
generate_key_pair-IsKept l sv c params s v =
    IsKept-after l s (required "key_type" params) _ v (λ key_type.
      IsKept-after l s (check_authorization sv c "generate_key_pair" none s) _ v (λ _.
        IsKept-then l _ _
          (IsKept-after l s (Backend.ensure_connected sv.backend) _ v
            (λ _. for_curve-IsKept l sv s key_type _ (lookup "label" params) _ v))
          (λ _. end-IsKeeping l c _)))
