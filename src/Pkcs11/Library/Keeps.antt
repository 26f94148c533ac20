-- ===== src/Pkcs11/Library/Keeps.antt =====
-- What the functions of security/broker/pkcs11/lib.py on a session keep.
use renesas_ra8m1_provisioni.Prelude.{ℕ, String, List}
use renesas_ra8m1_provisioni.Pkcs11.Types.{Ckr, Attribute}
use renesas_ra8m1_provisioni.Pkcs11.Session as Session
use renesas_ra8m1_provisioni.Pkcs11.Session.Objects as Objects
use renesas_ra8m1_provisioni.Pkcs11.Session.Objects.{Texts}
use renesas_ra8m1_provisioni.Pkcs11.Session.Calls.{Call, after}
use renesas_ra8m1_provisioni.Pkcs11.Session.Calls.Keeps.{after-IsValid}
use renesas_ra8m1_provisioni.Pkcs11.Library.{Link, Library, no_bytes}
use renesas_ra8m1_provisioni.Pkcs11.Library.Calls.{
  with_broker, no_keys, c_login, c_logout, c_sign_init, c_sign, c_sign_update, c_sign_final,
  c_verify_init, c_verify, c_digest_init, c_digest, c_find_objects_init, c_find_objects,
  c_find_objects_final, c_generate_key_pair, register_key,
}
use renesas_ra8m1_provisioni.Pkcs11.Library.Good.{IsGood, Kept, in_session-Kept}

module _ {B : Type 0} (link : Link B) (x : Texts) where
  pub c_login-Kept :
      (session user_type : ℕ) (p : Library × B)
      → IsGood p.0
      → Kept p.0 (c_login link x session user_type p.0 p.1).1
  unfolding c_login after
  c_login-Kept session user_type p g =
      in_session-Kept (λ rv. rv) session (Session.login link.ask user_type) p.0 p.1 g
        (λ s v. after-IsValid link.ask x (Call.login user_type) s p.1 v)

  pub c_logout-Kept :
      (session : ℕ) (p : Library × B) → IsGood p.0 → Kept p.0 (c_logout link x session p.0 p.1).1
  unfolding c_logout after
  c_logout-Kept session p g =
      in_session-Kept (λ rv. rv) session (Session.logout link.ask) p.0 p.1 g
        (λ s v. after-IsValid link.ask x Call.logout s p.1 v)

  pub c_sign_init-Kept :
      (session mechanism key : ℕ) (p : Library × B)
      → IsGood p.0
      → Kept p.0 (c_sign_init link x session mechanism key p.0 p.1).1
  unfolding c_sign_init after
  c_sign_init-Kept session mechanism key p g =
      in_session-Kept (λ rv. rv) session (with_broker (Session.sign_init mechanism key)) p.0 p.1 g
        (λ s v. after-IsValid link.ask x (Call.sign_init mechanism key) s p.1 v)

  pub c_sign-Kept :
      (session : ℕ) (data' : List ℕ) (p : Library × B)
      → IsGood p.0
      → Kept p.0 (c_sign link x session data' p.0 p.1).1
  unfolding c_sign after
  c_sign-Kept session data' p g =
      in_session-Kept no_bytes session (Session.sign link.ask data') p.0 p.1 g
        (λ s v. after-IsValid link.ask x (Call.sign data') s p.1 v)

  pub c_sign_update-Kept :
      (session : ℕ) (data' : List ℕ) (p : Library × B)
      → IsGood p.0
      → Kept p.0 (c_sign_update link x session data' p.0 p.1).1
  unfolding c_sign_update after
  c_sign_update-Kept session data' p g =
      in_session-Kept (λ rv. rv) session (with_broker (Session.sign_update data')) p.0 p.1 g
        (λ s v. after-IsValid link.ask x (Call.sign_update data') s p.1 v)

  pub c_sign_final-Kept :
      (session : ℕ) (p : Library × B)
      → IsGood p.0
      → Kept p.0 (c_sign_final link x session p.0 p.1).1
  unfolding c_sign_final after
  c_sign_final-Kept session p g =
      in_session-Kept no_bytes session (Session.sign_final link.ask) p.0 p.1 g
        (λ s v. after-IsValid link.ask x Call.sign_final s p.1 v)

  pub c_verify_init-Kept :
      (session mechanism key : ℕ) (p : Library × B)
      → IsGood p.0
      → Kept p.0 (c_verify_init link x session mechanism key p.0 p.1).1
  unfolding c_verify_init after
  c_verify_init-Kept session mechanism key p g =
      in_session-Kept (λ rv. rv) session (with_broker (Session.verify_init mechanism key)) p.0 p.1 g
        (λ s v. after-IsValid link.ask x (Call.verify_init mechanism key) s p.1 v)

  pub c_verify-Kept :
      (session : ℕ) (data' signature : List ℕ) (p : Library × B)
      → IsGood p.0
      → Kept p.0 (c_verify link x session data' signature p.0 p.1).1
  unfolding c_verify after
  c_verify-Kept session data' signature p g =
      in_session-Kept (λ rv. rv) session (Session.verify link.ask data' signature) p.0 p.1 g
        (λ s v. after-IsValid link.ask x (Call.verify data' signature) s p.1 v)

  pub c_digest_init-Kept :
      (session mechanism : ℕ) (p : Library × B)
      → IsGood p.0
      → Kept p.0 (c_digest_init link x session mechanism p.0 p.1).1
  unfolding c_digest_init after
  c_digest_init-Kept session mechanism p g =
      in_session-Kept (λ rv. rv) session (with_broker (Session.digest_init mechanism)) p.0 p.1 g
        (λ s v. after-IsValid link.ask x (Call.digest_init mechanism) s p.1 v)

  pub c_digest-Kept :
      (session : ℕ) (data' : List ℕ) (p : Library × B)
      → IsGood p.0
      → Kept p.0 (c_digest link x session data' p.0 p.1).1
  unfolding c_digest after
  c_digest-Kept session data' p g =
      in_session-Kept no_bytes session (Session.digest link.ask data') p.0 p.1 g
        (λ s v. after-IsValid link.ask x (Call.digest data') s p.1 v)

  pub c_find_objects_init-Kept :
      (session : ℕ) (template : List Attribute) (p : Library × B)
      → IsGood p.0
      → Kept p.0 (c_find_objects_init link x session template p.0 p.1).1
  unfolding c_find_objects_init after
  c_find_objects_init-Kept session template p g =
      in_session-Kept (λ rv. rv) session (Objects.find_objects_init link.ask template) p.0 p.1 g
        (λ s v. after-IsValid link.ask x (Call.find_objects_init template) s p.1 v)

  pub c_find_objects-Kept :
      (session max_count : ℕ) (p : Library × B)
      → IsGood p.0
      → Kept p.0 (c_find_objects link x session max_count p.0 p.1).1
  unfolding c_find_objects after
  c_find_objects-Kept session max_count p g =
      in_session-Kept no_bytes session (with_broker (Objects.find_objects max_count)) p.0 p.1 g
        (λ s v. after-IsValid link.ask x (Call.find_objects max_count) s p.1 v)

  pub c_find_objects_final-Kept :
      (session : ℕ) (p : Library × B)
      → IsGood p.0
      → Kept p.0 (c_find_objects_final link x session p.0 p.1).1
  unfolding c_find_objects_final after
  c_find_objects_final-Kept session p g =
      in_session-Kept (λ rv. rv) session (with_broker Objects.find_objects_final) p.0 p.1 g
        (λ s v. after-IsValid link.ask x Call.find_objects_final s p.1 v)

  pub c_generate_key_pair-Kept :
      (session mechanism : ℕ) (public_template private_template : List Attribute) (p : Library × B)
      → IsGood p.0
      → Kept p.0
          (c_generate_key_pair link x session mechanism public_template private_template p.0 p.1).1
  unfolding c_generate_key_pair after
  c_generate_key_pair-Kept session mechanism public_template private_template p g =
      in_session-Kept no_keys session
        (Objects.generate_key_pair link.ask x mechanism public_template private_template) p.0 p.1 g
        (λ s v.
          after-IsValid link.ask x
            (Call.generate_key_pair mechanism public_template private_template) s p.1 v)

  pub register_key-Kept :
      (session : ℕ) (key_arn : String) (p : Library × B)
      → IsGood p.0
      → Kept p.0 (register_key link x session key_arn p.0 p.1).1
  unfolding register_key after
  register_key-Kept session key_arn p g =
      in_session-Kept (λ rv. (rv, 0)) session
        (λ s b. let r = Objects.register_key key_arn s in ((Ckr.ok, r.0), r.1, b)) p.0 p.1 g
        (λ s v. after-IsValid link.ask x (Call.register_key key_arn) s p.1 v)
