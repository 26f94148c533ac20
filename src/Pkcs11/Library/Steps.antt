-- ===== src/Pkcs11/Library/Steps.antt =====
-- Calls of security/broker/pkcs11/lib.py one after the other, from `C_Initialize` to `C_Finalize`.
use renesas_ra8m1_provisioni.Prelude.{ℕ, ◌<◌, ◌≡◌, String, List, arith}
use renesas_ra8m1_provisioni.Pkcs11.Types.{Ckr, Attribute}
use renesas_ra8m1_provisioni.Pkcs11.Session.Objects.{Texts}
use renesas_ra8m1_provisioni.Pkcs11.Library.{
  Link, Library, c_open_session, c_close_session, c_close_all_sessions, c_get_token_info,
  c_get_mechanism_list, c_get_mechanism_info, c_get_session_info,
}
use renesas_ra8m1_provisioni.Pkcs11.Library.Calls.{
  c_login, c_logout, c_sign_init, c_sign, c_sign_update, c_sign_final, c_verify_init, c_verify,
  c_digest_init, c_digest, c_find_objects_init, c_find_objects, c_find_objects_final,
  c_generate_key_pair, register_key, c_get_attribute_value, get_generated_key_info,
}
use renesas_ra8m1_provisioni.Pkcs11.Library.Good.{
  IsGood, Kept, c_open_session_ok, c_open_session-Kept, c_close_session-Kept,
  c_close_all_sessions-Kept,
}
use renesas_ra8m1_provisioni.Pkcs11.Library.Keeps.{
  c_login-Kept, c_logout-Kept, c_sign_init-Kept, c_sign-Kept, c_sign_update-Kept, c_sign_final-Kept,
  c_verify_init-Kept, c_verify-Kept, c_digest_init-Kept, c_digest-Kept, c_find_objects_init-Kept,
  c_find_objects-Kept, c_find_objects_final-Kept, c_generate_key_pair-Kept, register_key-Kept,
}
use renesas_ra8m1_provisioni.Pkcs11.Library.Asks.{
  c_get_token_info-Kept, c_get_mechanism_list-Kept, c_get_mechanism_info-Kept,
  c_get_session_info-Kept, c_get_attribute_value-Kept, get_generated_key_info-Kept,
}

-- The library and the broker after a function.
abbrev pub state_of : {A B : Type 0} → A × Library × B → Library × B
state_of (out, l, b) = (l, b)

module _ {B : Type 0} (link : Link B) (x : Texts) where
  -- A function on a slot or a session, and what it leads to.
  pub data Use : Library × B → Library × B → Type 0 where
    open_session :
        (slot_id flags : ℕ) (p : Library × B)
        → Use p (state_of (c_open_session link slot_id flags p.0 p.1))
    close_session :
        (session : ℕ) (p : Library × B) → Use p (state_of (c_close_session link session p.0 p.1))
    close_all_sessions :
        (slot_id : ℕ) (p : Library × B)
        → Use p (state_of (c_close_all_sessions link slot_id p.0 p.1))
    login :
        (session user_type : ℕ) (p : Library × B)
        → Use p (state_of (c_login link x session user_type p.0 p.1))
    logout : (session : ℕ) (p : Library × B) → Use p (state_of (c_logout link x session p.0 p.1))
    sign_init :
        (session mechanism key : ℕ) (p : Library × B)
        → Use p (state_of (c_sign_init link x session mechanism key p.0 p.1))
    sign :
        (session : ℕ) (data' : List ℕ) (p : Library × B)
        → Use p (state_of (c_sign link x session data' p.0 p.1))
    sign_update :
        (session : ℕ) (data' : List ℕ) (p : Library × B)
        → Use p (state_of (c_sign_update link x session data' p.0 p.1))
    sign_final :
        (session : ℕ) (p : Library × B) → Use p (state_of (c_sign_final link x session p.0 p.1))
    verify_init :
        (session mechanism key : ℕ) (p : Library × B)
        → Use p (state_of (c_verify_init link x session mechanism key p.0 p.1))
    verify :
        (session : ℕ) (data' signature : List ℕ) (p : Library × B)
        → Use p (state_of (c_verify link x session data' signature p.0 p.1))
    digest_init :
        (session mechanism : ℕ) (p : Library × B)
        → Use p (state_of (c_digest_init link x session mechanism p.0 p.1))
    digest :
        (session : ℕ) (data' : List ℕ) (p : Library × B)
        → Use p (state_of (c_digest link x session data' p.0 p.1))
    find_objects_init :
        (session : ℕ) (template : List Attribute) (p : Library × B)
        → Use p (state_of (c_find_objects_init link x session template p.0 p.1))
    find_objects :
        (session max_count : ℕ) (p : Library × B)
        → Use p (state_of (c_find_objects link x session max_count p.0 p.1))
    find_objects_final :
        (session : ℕ) (p : Library × B)
        → Use p (state_of (c_find_objects_final link x session p.0 p.1))
    generate_key_pair :
        (session mechanism : ℕ) (public_template private_template : List Attribute)
        (p : Library × B)
        → Use p (
            state_of (
              c_generate_key_pair link x session mechanism public_template private_template p.0
                p.1))
    register :
        (session : ℕ) (key_arn : String) (p : Library × B)
        → Use p (state_of (register_key link x session key_arn p.0 p.1))
    get_attribute_value :
        (session obj : ℕ) (template : List Attribute) (p : Library × B)
        → Use p (state_of (c_get_attribute_value link x session obj template p.0 p.1))
    key_info :
        (session handle : ℕ) (p : Library × B)
        → Use p (state_of (get_generated_key_info link x session handle p.0 p.1))
    session_info :
        (session : ℕ) (p : Library × B) → Use p (state_of (c_get_session_info link session p.0 p.1))
    token_info :
        (slot_id : ℕ) (p : Library × B) → Use p (state_of (c_get_token_info link slot_id p.0 p.1))
    mechanism_list :
        (slot_id : ℕ) (p : Library × B)
        → Use p (state_of (c_get_mechanism_list link slot_id p.0 p.1))
    mechanism_info :
        (slot_id mechanism : ℕ) (p : Library × B)
        → Use p (state_of (c_get_mechanism_info link slot_id mechanism p.0 p.1))

  pub data Uses : Library × B → Library × B → Type 0 where
    start : (p : Library × B) → Uses p p
    then : {p q r : Library × B} → Uses p q → Use q r → Uses p r

  Use-Kept : {p q : Library × B} → Use p q → IsGood p.0 → Kept p.0 q.0
  Use-Kept (open_session slot_id flags p) g = c_open_session-Kept link slot_id flags p.0 p.1 g
  Use-Kept (close_session session p) g = c_close_session-Kept link session p.0 p.1 g
  Use-Kept (close_all_sessions slot_id p) g = c_close_all_sessions-Kept link slot_id p.0 p.1 g
  Use-Kept (login session user_type p) g = c_login-Kept link x session user_type p g
  Use-Kept (logout session p) g = c_logout-Kept link x session p g
  Use-Kept (sign_init session mechanism key p) g = c_sign_init-Kept link x session mechanism key p g
  Use-Kept (sign session data' p) g = c_sign-Kept link x session data' p g
  Use-Kept (sign_update session data' p) g = c_sign_update-Kept link x session data' p g
  Use-Kept (sign_final session p) g = c_sign_final-Kept link x session p g
  Use-Kept (verify_init session mechanism key p) g =
      c_verify_init-Kept link x session mechanism key p g
  Use-Kept (verify session data' signature p) g = c_verify-Kept link x session data' signature p g
  Use-Kept (digest_init session mechanism p) g = c_digest_init-Kept link x session mechanism p g
  Use-Kept (digest session data' p) g = c_digest-Kept link x session data' p g
  Use-Kept (find_objects_init session template p) g =
      c_find_objects_init-Kept link x session template p g
  Use-Kept (find_objects session max_count p) g = c_find_objects-Kept link x session max_count p g
  Use-Kept (find_objects_final session p) g = c_find_objects_final-Kept link x session p g
  Use-Kept (generate_key_pair session mechanism public_template private_template p) g =
      c_generate_key_pair-Kept link x session mechanism public_template private_template p g
  Use-Kept (register session key_arn p) g = register_key-Kept link x session key_arn p g
  Use-Kept (get_attribute_value session obj template p) g =
      c_get_attribute_value-Kept link x session obj template p g
  Use-Kept (key_info session handle p) g = get_generated_key_info-Kept link x session handle p g
  Use-Kept (session_info session p) g = c_get_session_info-Kept link session p g
  Use-Kept (token_info slot_id p) g = c_get_token_info-Kept link slot_id p g
  Use-Kept (mechanism_list slot_id p) g = c_get_mechanism_list-Kept link slot_id p g
  Use-Kept (mechanism_info slot_id mechanism p) g =
      c_get_mechanism_info-Kept link slot_id mechanism p g

  Uses-Kept : {p q : Library × B} → Uses p q → IsGood p.0 → Kept p.0 q.0
  Uses-Kept (start p) g = record { good = g; next = omega arith }
  Uses-Kept (then {p = p} {q = q} {r = r} us u) g =
      let k = Uses-Kept us g in
      let j = Use-Kept u k.good in record { good = j.good; next = omega (arith, k.next, j.next) }

  -- Take a library whose one slot has ascending session handles and valid sessions, as after
  -- `C_Initialize`. If `C_OpenSession` returns a handle, and after any of the functions on a slot or a
  -- session returns another, then the second handle is greater than the first.
  pub c_open_session-increases :
      (slot_id flags slot_id' flags' h h' : ℕ) (p q : Library × B)
      → IsGood p.0
      → (c_open_session link slot_id flags p.0 p.1).0 ≡ (Ckr.ok, h)
      → Uses (state_of (c_open_session link slot_id flags p.0 p.1)) q
      → (c_open_session link slot_id' flags' q.0 q.1).0 ≡ (Ckr.ok, h')
      → h < h'
  c_open_session-increases slot_id flags slot_id' flags' h h' p q g e us f =
      let one = c_open_session_ok link slot_id flags h p.0 p.1 g e in
      let k = Uses-Kept us (c_open_session-Kept link slot_id flags p.0 p.1 g).good in
      let two = c_open_session_ok link slot_id' flags' h' q.0 q.1 k.good f in
      omega (arith, one.1, k.next, two.0)
