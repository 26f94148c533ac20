-- ===== src/Broker/Handler/Calls/Methods.antt =====
-- The calls of the methods that use the keys, in security/broker/service/handler.py.
use mathlib.Core.List.{append_assoc}
use renesas_ra8m1_provisioni.Prelude.{
  ℕ, List, [], ◌∷◌, arith, String, ◌≡◌, refl, inl, inr, Option, none, some, Option-cases,
}
use renesas_ra8m1_provisioni.Broker.Text.{lookup}
use renesas_ra8m1_provisioni.Broker.Json.{Json}
use renesas_ra8m1_provisioni.Broker.Exn.{ok}
use renesas_ra8m1_provisioni.Broker.Service.{
  Reply, done, failed, Service, State, KeyCurve, Call, ◌>>=◌, pure, lift,
}
use renesas_ra8m1_provisioni.Broker.Backend as Backend
use renesas_ra8m1_provisioni.Broker.Handler.Guard.{
  Params, Caller, required, or_else, b64decode, needs_login, check_authorization, touch_session,
}
use renesas_ra8m1_provisioni.Broker.Handler.Crypto as Crypto
use renesas_ra8m1_provisioni.Broker.Handler.Calls.Rules.{
  Serves, Granted, granted, IsQuiet, IsGuarded, IsQuiet-pure, IsQuiet-manage, IsQuiet-bind,
  IsGuarded-lift, IsGuarded-one, IsGuarded-quiet, IsGuarded-then, IsQuiet-lift,
}

-- The end of a method: the session's activity, and the reply.
IsQuiet-end : (c : Caller) (j : Json) → IsQuiet (touch_session c >>= λ _. pure j)
unfolding touch_session
IsQuiet-end c j =
    IsQuiet-bind (touch_session c) (λ _. pure j) (IsQuiet-manage _) (λ _. IsQuiet-pure j)

pub sign-IsGuarded :
    (sv : Service) (c : Caller) (s : State) (params : Params)
    → IsGuarded sv c s "sign" (Crypto.sign sv c params s)
unfolding Crypto.sign Backend.sign needs_login
sign-IsGuarded sv c s params = IsGuarded-lift sv c s (required "key_arn" params) _ (λ key_arn _.
    IsGuarded-lift sv c s (required "data" params) _ (λ text _.
      IsGuarded-lift sv c s (check_authorization sv c "sign" (some key_arn) s) _ (λ _ h.
        IsGuarded-lift sv c s (b64decode sv text) _ (λ data' _.
          IsGuarded-then sv c s _ _
            (IsGuarded-lift sv c s (Backend.ensure_connected sv.backend) _ (λ _ _.
              IsGuarded-one sv c s "sign" (some key_arn) (Call.sign key_arn data') _
                (Serves.sign key_arn data') (granted sv c s "sign" (some key_arn) (inr refl) h)))
            (λ _. IsQuiet-end c _)))))

pub sign_digest-IsGuarded :
    (sv : Service) (c : Caller) (s : State) (params : Params)
    → IsGuarded sv c s "sign_digest" (Crypto.sign_digest sv c params s)
unfolding Crypto.sign_digest Backend.sign_digest needs_login
sign_digest-IsGuarded sv c s params =
    IsGuarded-lift sv c s (required "key_arn" params) _ (λ key_arn _.
      IsGuarded-lift sv c s (required "digest" params) _ (λ text _.
        IsGuarded-lift sv c s (check_authorization sv c "sign_digest" (some key_arn) s) _ (λ _ h.
          IsGuarded-lift sv c s (b64decode sv text) _ (λ digest _.
            IsGuarded-then sv c s _ _
              (IsGuarded-lift sv c s (Backend.ensure_connected sv.backend) _ (λ _ _.
                IsGuarded-one sv c s "sign_digest" (some key_arn) (Call.sign_digest key_arn digest)
                  _ (Serves.sign_digest key_arn digest)
                  (granted sv c s "sign_digest" (some key_arn) (inr refl) h)))
              (λ _. IsQuiet-end c _)))))

-- The calls of the client that verify a signature, when the first has answered `x`.
verified-IsGuarded :
    (sv : Service) (c : Caller) (s : State) (key_arn : String) (data' signature : List ℕ)
    → Granted sv c s "verify" (some key_arn)
    → (x : Reply (List ℕ)) → sv.backend.client.get_public_key key_arn ≡ x
    → IsGuarded sv c s "verify" (
        (Backend.call (Call.get_public_key key_arn) (Backend.reply "Verify operation" x) >>= λ p.
        Backend.call (Call.verify_signature p data' signature key_arn) (
          Backend.reply "Verify operation"
            (sv.backend.client.verify_signature p data' signature key_arn)))
          s)
verified-IsGuarded sv c s key_arn data' signature g (failed why) i r t e =
    IsGuarded-one sv c s "verify" (some key_arn) (Call.get_public_key key_arn) _
      (Serves.verify_failed key_arn why i) g r t e
verified-IsGuarded sv c s key_arn data' signature g (done p) i r t e = inr (
  some key_arn,
  Call.get_public_key key_arn ∷ Call.verify_signature p data' signature key_arn ∷ [],
  ground (
    arith,
    append_assoc s.calls (Call.get_public_key key_arn ∷ [])
        (Call.verify_signature p data' signature key_arn ∷ []),
  ),
  Serves.verify key_arn p data' signature i,
  g,
)

pub verify-IsGuarded :
    (sv : Service) (c : Caller) (s : State) (params : Params)
    → IsGuarded sv c s "verify" (Crypto.verify sv c params s)
unfolding Crypto.verify Backend.verify needs_login
verify-IsGuarded sv c s params = IsGuarded-lift sv c s (required "key_arn" params) _ (λ key_arn _.
    IsGuarded-lift sv c s (required "data" params) _ (λ text _.
      IsGuarded-lift sv c s (required "signature" params) _ (λ signed _.
        IsGuarded-lift sv c s (check_authorization sv c "verify" (some key_arn) s) _ (λ _ h.
          IsGuarded-lift sv c s (b64decode sv text) _ (λ data' _.
            IsGuarded-lift sv c s (b64decode sv signed) _ (λ signature _.
              IsGuarded-then sv c s _ _
                (IsGuarded-lift sv c s (Backend.ensure_connected sv.backend) _ (λ _ _.
                  verified-IsGuarded sv c s key_arn data' signature
                    (granted sv c s "verify" (some key_arn) (inr refl) h)
                    (sv.backend.client.get_public_key key_arn) refl))
                (λ _. IsQuiet-end c _)))))))

pub hash-IsGuarded :
    (sv : Service) (c : Caller) (s : State) (params : Params)
    → IsGuarded sv c s "hash" (Crypto.hash sv c params s)
unfolding Crypto.hash Backend.hash_data needs_login
hash-IsGuarded sv c s params = IsGuarded-lift sv c s (required "data" params) _ (λ text _.
    IsGuarded-lift sv c s (check_authorization sv c "hash" none s) _ (λ _ h.
      IsGuarded-lift sv c s (b64decode sv text) _ (λ data' _.
        IsGuarded-then sv c s _ _
          (IsGuarded-lift sv c s (Backend.ensure_connected sv.backend) _ (λ _ _.
            IsGuarded-one sv c s "hash" none (Call.hash data' (or_else "algorithm" "SHA256" params))
              _ (Serves.hash data' (or_else "algorithm" "SHA256" params))
              (granted sv c s "hash" none (inr refl) h)))
          (λ _. IsQuiet-end c _))))

pub get_public_key-IsGuarded :
    (sv : Service) (c : Caller) (s : State) (params : Params)
    → IsGuarded sv c s "get_public_key" (Crypto.get_public_key sv c params s)
unfolding Crypto.get_public_key Backend.get_public_key needs_login
get_public_key-IsGuarded sv c s params =
    IsGuarded-lift sv c s (required "key_arn" params) _ (λ key_arn _.
      IsGuarded-lift sv c s (check_authorization sv c "get_public_key" (some key_arn) s) _ (λ _ h.
        IsGuarded-then sv c s _ _
          (IsGuarded-lift sv c s (Backend.ensure_connected sv.backend) _ (λ _ _.
            IsGuarded-one sv c s "get_public_key" (some key_arn) (Call.get_public_key key_arn) _
              (Serves.get_public_key key_arn)
              (granted sv c s "get_public_key" (some key_arn) (inr refl) h)))
          (λ _. IsQuiet-end c _)))

pub list_keys-IsGuarded :
    (sv : Service) (c : Caller) (s : State) (params : Params)
    → IsGuarded sv c s "list_keys" (Crypto.list_keys sv c params s)
unfolding Crypto.list_keys Backend.list_keys needs_login
list_keys-IsGuarded sv c s params =
    IsGuarded-lift sv c s (check_authorization sv c "list_keys" none s) _ (λ _ h.
      IsGuarded-then sv c s _ _
        (IsGuarded-lift sv c s (Backend.ensure_connected sv.backend) _ (λ _ _.
          IsGuarded-then sv c s _ _
            (IsGuarded-one sv c s "list_keys" none Call.list_keys _ Serves.list_keys
              (granted sv c s "list_keys" none (inl refl) h))
            (λ _. IsQuiet-pure _)))
        (λ keys. IsQuiet-end c _))

generate-IsGuarded :
    (sv : Service) (c : Caller) (s : State) (key_type curve key_spec : String) (kc : KeyCurve)
    (label : Option String)
    → check_authorization sv c "generate_key_pair" none s ≡ ok tt
    → IsGuarded sv c s "generate_key_pair"
        (Backend.generate sv.backend key_type kc curve key_spec label s)
unfolding Backend.generate needs_login
generate-IsGuarded sv c s key_type curve key_spec kc label h =
    elim (Option-cases (Backend.key_type_of key_type)) [
      | inl e ↦ rw (e, Backend.generate) (IsGuarded-quiet sv c s (lift _) (IsQuiet-lift _))
      | inr (kt, e) ↦
          rw (e, Backend.generate)
            (IsGuarded-then sv c s _ _
              (IsGuarded-one sv c s "generate_key_pair" none (Call.generate_key_pair kt kc label) _
                (Serves.generate_key_pair kt kc label)
                (granted sv c s "generate_key_pair" none (inr refl) h))
              (λ _. IsQuiet-pure _))
    ]

for_curve-IsGuarded :
    (sv : Service) (c : Caller) (s : State) (key_type curve : String) (label : Option String)
    (o : Option (KeyCurve × String))
    → check_authorization sv c "generate_key_pair" none s ≡ ok tt
    → IsGuarded sv c s "generate_key_pair" (Backend.for_curve sv.backend key_type curve label o s)
unfolding Backend.for_curve
for_curve-IsGuarded sv c s key_type curve label none h =
    IsGuarded-quiet sv c s (lift _) (IsQuiet-lift _)
for_curve-IsGuarded sv c s key_type curve label (some (kc, key_spec)) h =
    generate-IsGuarded sv c s key_type curve key_spec kc label h

pub generate_key_pair-IsGuarded :
    (sv : Service) (c : Caller) (s : State) (params : Params)
    → IsGuarded sv c s "generate_key_pair" (Crypto.generate_key_pair sv c params s)
unfolding Crypto.generate_key_pair Backend.generate_key_pair needs_login
generate_key_pair-IsGuarded sv c s params =
    IsGuarded-lift sv c s (required "key_type" params) _ (λ key_type _.
      IsGuarded-lift sv c s (check_authorization sv c "generate_key_pair" none s) _ (λ _ h.
        IsGuarded-then sv c s _ _
          (IsGuarded-lift sv c s (Backend.ensure_connected sv.backend) _
            (λ _ _. for_curve-IsGuarded sv c s key_type _ (lookup "label" params) _ h))
          (λ result. IsQuiet-end c result)))
