-- ===== src/Pkcs11/Session/Calls.antt =====
-- The calls of a session of security/broker/pkcs11/session.py, one after the other.
pub mod Valid
pub mod Keeps
pub mod Quiet
pub mod Signing
pub mod Signed
pub mod Pages
pub mod Search
use renesas_ra8m1_provisioni.Prelude.{
  ℕ, String, Bool, true, false, Option, none, some, List, [], ◌∷◌,
}
use renesas_ra8m1_provisioni.Pkcs11.Types.{Attribute}
use renesas_ra8m1_provisioni.Pkcs11.Session as Session
use renesas_ra8m1_provisioni.Pkcs11.Session.{Broker}
use renesas_ra8m1_provisioni.Pkcs11.Session.Objects as Objects
use renesas_ra8m1_provisioni.Pkcs11.Session.Objects.{Texts}

-- A method of the session that changes its state, with its arguments.
pub data Call : Type 0 where
  login : ℕ → Call
  logout : Call
  sign_init : ℕ → ℕ → Call
  sign : List ℕ → Call
  sign_update : List ℕ → Call
  sign_final : Call
  verify_init : ℕ → ℕ → Call
  verify : List ℕ → List ℕ → Call
  digest_init : ℕ → Call
  digest : List ℕ → Call
  digest_update : List ℕ → Call
  digest_final : Call
  find_objects_init : List Attribute → Call
  find_objects : ℕ → Call
  find_objects_final : Call
  generate_key_pair : ℕ → List Attribute → List Attribute → Call
  register_key : String → Call

module _ {B : Type 0} (broker : Broker B) (x : Texts) where
  -- The session and the broker after a call.
  unfoldable pub after : Call → Session.Session → B → Session.Session × B
  unfolding Session.login Session.logout Session.sign_init Session.sign Session.sign_update
      Session.sign_final Session.verify_init Session.verify Session.digest_init Session.digest
      Session.digest_update Session.digest_final Objects.find_objects_init Objects.find_objects
      Objects.find_objects_final Objects.generate_key_pair Objects.register_key
  after (Call.login user_type) s b = let r = Session.login broker user_type s b in (r.1, r.2)
  after Call.logout s b = let r = Session.logout broker s b in (r.1, r.2)
  after (Call.sign_init mechanism key) s b = ((Session.sign_init mechanism key s).1, b)
  after (Call.sign data') s b = let r = Session.sign broker data' s b in (r.1, r.2)
  after (Call.sign_update part) s b = ((Session.sign_update part s).1, b)
  after Call.sign_final s b = let r = Session.sign_final broker s b in (r.1, r.2)
  after (Call.verify_init mechanism key) s b = ((Session.verify_init mechanism key s).1, b)
  after (Call.verify data' signature) s b =
      let r = Session.verify broker data' signature s b in (r.1, r.2)
  after (Call.digest_init mechanism) s b = ((Session.digest_init mechanism s).1, b)
  after (Call.digest data') s b = let r = Session.digest broker data' s b in (r.1, r.2)
  after (Call.digest_update part) s b = ((Session.digest_update part s).1, b)
  after Call.digest_final s b = let r = Session.digest_final broker s b in (r.1, r.2)
  after (Call.find_objects_init template) s b =
      let r = Objects.find_objects_init broker template s b in (r.1, r.2)
  after (Call.find_objects max_count) s b = ((Objects.find_objects max_count s).1, b)
  after Call.find_objects_final s b = ((Objects.find_objects_final s).1, b)
  after (Call.generate_key_pair mechanism public_template private_template) s b =
      let r = Objects.generate_key_pair broker x mechanism public_template private_template s b in
      (r.1, r.2)
  after (Call.register_key key_arn) s b = ((Objects.register_key key_arn s).1, b)

  -- And after a sequence of calls.
  unfoldable pub after_all : List Call → Session.Session → B → Session.Session × B
  unfolding after
  after_all [] s b = (s, b)
  after_all (c ∷ cs) s b = let r = after c s b in after_all cs r.0 r.1
