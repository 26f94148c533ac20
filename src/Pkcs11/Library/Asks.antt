-- ===== src/Pkcs11/Library/Asks.antt =====
-- The functions of security/broker/pkcs11/lib.py that only ask for something, and what they keep.
use renesas_ra8m1_provisioni.Prelude.{ℕ, some, none, List}
use renesas_ra8m1_provisioni.Pkcs11.Types.{Ckr, Attribute}
use renesas_ra8m1_provisioni.Pkcs11.Token.{get_token_info, get_mechanism_list, get_mechanism_info}
use renesas_ra8m1_provisioni.Pkcs11.Session.Objects as Objects
use renesas_ra8m1_provisioni.Pkcs11.Session.Objects.{Texts}
use renesas_ra8m1_provisioni.Pkcs11.Library.{
  Link, Library, no_bytes, caught, c_get_token_info, c_get_mechanism_list, c_get_mechanism_info,
  c_get_session_info,
}
use renesas_ra8m1_provisioni.Pkcs11.Library.Calls.{c_get_attribute_value, get_generated_key_info}
use renesas_ra8m1_provisioni.Pkcs11.Library.Good.{IsGood, Kept, in_session-Kept, in_slot-Kept}
use renesas_ra8m1_provisioni.Pkcs11.Library.Slots.{KeptSlot-refl}

module _ {B : Type 0} (link : Link B) where
  pub c_get_token_info-Kept :
      (slot_id : ℕ) (p : Library × B)
      → IsGood p.0
      → Kept p.0 (c_get_token_info link slot_id p.0 p.1).1
  unfolding c_get_token_info
  c_get_token_info-Kept slot_id p g =
      in_slot-Kept (λ rv. (rv, none)) slot_id (λ t b. ((Ckr.ok, some (get_token_info t)), t, b)) p.0
        p.1 g KeptSlot-refl

  pub c_get_mechanism_list-Kept :
      (slot_id : ℕ) (p : Library × B)
      → IsGood p.0
      → Kept p.0 (c_get_mechanism_list link slot_id p.0 p.1).1
  unfolding c_get_mechanism_list
  c_get_mechanism_list-Kept slot_id p g =
      in_slot-Kept no_bytes slot_id (λ t b. ((Ckr.ok, get_mechanism_list), t, b)) p.0 p.1 g
        KeptSlot-refl

  pub c_get_mechanism_info-Kept :
      (slot_id mechanism : ℕ) (p : Library × B)
      → IsGood p.0
      → Kept p.0 (c_get_mechanism_info link slot_id mechanism p.0 p.1).1
  unfolding c_get_mechanism_info
  c_get_mechanism_info-Kept slot_id mechanism p g =
      in_slot-Kept (λ rv. (rv, none)) slot_id (λ t b. (caught (get_mechanism_info mechanism), t, b))
        p.0 p.1 g KeptSlot-refl

  pub c_get_session_info-Kept :
      (session : ℕ) (p : Library × B)
      → IsGood p.0
      → Kept p.0 (c_get_session_info link session p.0 p.1).1
  unfolding c_get_session_info
  c_get_session_info-Kept session p g =
      in_session-Kept (λ rv. (rv, none)) session
        (λ s b. ((Ckr.ok, some (s.slot_id, s.state, s.flags)), s, b)) p.0 p.1 g (λ s v. v)

  pub c_get_attribute_value-Kept :
      (x : Texts) (session obj : ℕ) (template : List Attribute) (p : Library × B)
      → IsGood p.0
      → Kept p.0 (c_get_attribute_value link x session obj template p.0 p.1).1
  unfolding c_get_attribute_value
  c_get_attribute_value-Kept x session obj template p g =
      in_session-Kept (λ rv. (rv, template)) session
        (λ s b. let r = Objects.get_attribute_value link.ask x obj template s b in (r.0, s, r.1))
        p.0 p.1 g (λ s v. v)

  pub get_generated_key_info-Kept :
      (x : Texts) (session handle : ℕ) (p : Library × B)
      → IsGood p.0
      → Kept p.0 (get_generated_key_info link x session handle p.0 p.1).1
  unfolding get_generated_key_info
  get_generated_key_info-Kept x session handle p g =
      in_session-Kept (λ rv. none) session (λ s b. (Objects.get_generated_key_info handle s, s, b))
        p.0 p.1 g (λ s v. v)
