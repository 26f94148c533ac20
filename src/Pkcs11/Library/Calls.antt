-- ===== src/Pkcs11/Library/Calls.antt =====
-- The functions of security/broker/pkcs11/lib.py on a session, each a method of the session.
use renesas_ra8m1_provisioni.Prelude.{ℕ, String, Option, none, List}
use renesas_ra8m1_provisioni.Pkcs11.Types.{Ckr, Attribute}
use renesas_ra8m1_provisioni.Pkcs11.Session as Session
use renesas_ra8m1_provisioni.Pkcs11.Session.{KeyInfo}
use renesas_ra8m1_provisioni.Pkcs11.Session.Objects as Objects
use renesas_ra8m1_provisioni.Pkcs11.Session.Objects.{Texts}
use renesas_ra8m1_provisioni.Pkcs11.Library.{Link, Library, in_session, no_bytes}

abbrev pub with_broker :
    {A B : Type 0}
    → (Session.Session → A × Session.Session)
    → Session.Session
    → B
    → A × Session.Session × B
with_broker method s b = let (out, s') = method s in (out, s', b)

abbrev pub no_keys : Ckr → Ckr × ℕ × ℕ
no_keys rv = (rv, 0, 0)

module _ {B : Type 0} (link : Link B) (x : Texts) where
  unfoldable pub c_login : ℕ → ℕ → Library → B → Ckr × Library × B
  unfolding in_session Session.login
  c_login session user_type = in_session (λ rv. rv) session (Session.login link.ask user_type)

  unfoldable pub c_logout : ℕ → Library → B → Ckr × Library × B
  unfolding in_session Session.logout
  c_logout session = in_session (λ rv. rv) session (Session.logout link.ask)

  unfoldable pub c_sign_init : ℕ → ℕ → ℕ → Library → B → Ckr × Library × B
  unfolding in_session Session.sign_init
  c_sign_init session mechanism key =
      in_session (λ rv. rv) session (with_broker (Session.sign_init mechanism key))

  unfoldable pub c_sign : ℕ → List ℕ → Library → B → (Ckr × List ℕ) × Library × B
  unfolding in_session Session.sign
  c_sign session data' = in_session no_bytes session (Session.sign link.ask data')

  unfoldable pub c_sign_update : ℕ → List ℕ → Library → B → Ckr × Library × B
  unfolding in_session Session.sign_update
  c_sign_update session data' =
      in_session (λ rv. rv) session (with_broker (Session.sign_update data'))

  unfoldable pub c_sign_final : ℕ → Library → B → (Ckr × List ℕ) × Library × B
  unfolding in_session Session.sign_final
  c_sign_final session = in_session no_bytes session (Session.sign_final link.ask)

  unfoldable pub c_verify_init : ℕ → ℕ → ℕ → Library → B → Ckr × Library × B
  unfolding in_session Session.verify_init
  c_verify_init session mechanism key =
      in_session (λ rv. rv) session (with_broker (Session.verify_init mechanism key))

  unfoldable pub c_verify : ℕ → List ℕ → List ℕ → Library → B → Ckr × Library × B
  unfolding in_session Session.verify
  c_verify session data' signature =
      in_session (λ rv. rv) session (Session.verify link.ask data' signature)

  unfoldable pub c_digest_init : ℕ → ℕ → Library → B → Ckr × Library × B
  unfolding in_session Session.digest_init
  c_digest_init session mechanism =
      in_session (λ rv. rv) session (with_broker (Session.digest_init mechanism))

  unfoldable pub c_digest : ℕ → List ℕ → Library → B → (Ckr × List ℕ) × Library × B
  unfolding in_session Session.digest
  c_digest session data' = in_session no_bytes session (Session.digest link.ask data')

  unfoldable pub c_get_attribute_value :
      ℕ → ℕ → List Attribute → Library → B → (Ckr × List Attribute) × Library × B
  unfolding in_session Objects.get_attribute_value
  c_get_attribute_value session obj template =
      in_session (λ rv. (rv, template)) session
        (λ s b.
          let (out, b') = Objects.get_attribute_value link.ask x obj template s b in (out, s, b'))

  unfoldable pub c_find_objects_init : ℕ → List Attribute → Library → B → Ckr × Library × B
  unfolding in_session Objects.find_objects_init
  c_find_objects_init session template =
      in_session (λ rv. rv) session (Objects.find_objects_init link.ask template)

  unfoldable pub c_find_objects : ℕ → ℕ → Library → B → (Ckr × List ℕ) × Library × B
  unfolding in_session Objects.find_objects
  c_find_objects session max_count =
      in_session no_bytes session (with_broker (Objects.find_objects max_count))

  unfoldable pub c_find_objects_final : ℕ → Library → B → Ckr × Library × B
  unfolding in_session Objects.find_objects_final
  c_find_objects_final session =
      in_session (λ rv. rv) session (with_broker Objects.find_objects_final)

  unfoldable pub c_generate_key_pair :
      ℕ → ℕ → List Attribute → List Attribute → Library → B → (Ckr × ℕ × ℕ) × Library × B
  unfolding in_session Objects.generate_key_pair
  c_generate_key_pair session mechanism public_template private_template =
      in_session no_keys session
        (Objects.generate_key_pair link.ask x mechanism public_template private_template)

  unfoldable pub get_generated_key_info : ℕ → ℕ → Library → B → Option KeyInfo × Library × B
  unfolding in_session Objects.get_generated_key_info
  get_generated_key_info session handle =
      in_session (λ rv. none) session (λ s b. (Objects.get_generated_key_info handle s, s, b))

  unfoldable pub register_key : ℕ → String → Library → B → (Ckr × ℕ) × Library × B
  unfolding in_session Objects.register_key
  register_key session key_arn =
      in_session (λ rv. (rv, 0)) session
        (λ s b. let (handle, s') = Objects.register_key key_arn s in ((Ckr.ok, handle), s', b))
