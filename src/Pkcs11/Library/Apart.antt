-- ===== src/Pkcs11/Library/Apart.antt =====
-- Sessions of security/broker/pkcs11/lib.py side by side: what is done on one leaves the others alone.
use mathlib.Core.Path.{subst}
use renesas_ra8m1_provisioni.Prelude.{
  ℕ, String, ◌≡◌, ◌≢◌, refl, sym, ap, ◌∙◌, true, some, none, List, [], ◌∷◌, inl, inr, arith,
  Bool-cases, Option-cases,
}
use renesas_ra8m1_provisioni.Pkcs11.Table.{lookup}
use renesas_ra8m1_provisioni.Pkcs11.Types.{Ckr}
use renesas_ra8m1_provisioni.Pkcs11.Token.{Slot, get_session}
use renesas_ra8m1_provisioni.Pkcs11.Session as Session
use renesas_ra8m1_provisioni.Pkcs11.Session.{or_failed}
use renesas_ra8m1_provisioni.Pkcs11.Session.Objects as Objects
use renesas_ra8m1_provisioni.Pkcs11.Session.Objects.{Texts}
use renesas_ra8m1_provisioni.Pkcs11.Session.Calls.{after_all}
use renesas_ra8m1_provisioni.Pkcs11.Session.Calls.Valid.{IsValid}
use renesas_ra8m1_provisioni.Pkcs11.Session.Calls.Signed.{sign-sign_init}
use renesas_ra8m1_provisioni.Pkcs11.Library.{
  Link, Library, find_session, put_session, in_session, c_get_session_info, no_bytes,
}
use renesas_ra8m1_provisioni.Pkcs11.Library.Calls.{
  with_broker, no_keys, c_login, c_logout, c_sign_init, c_sign, c_sign_update, c_sign_final,
  c_verify_init, c_verify, c_digest_init, c_digest, c_find_objects_init, c_find_objects,
  c_find_objects_final, c_generate_key_pair, register_key, c_get_attribute_value,
  get_generated_key_info,
}
use renesas_ra8m1_provisioni.Pkcs11.Library.Good.{IsGood, AreSlots}
use renesas_ra8m1_provisioni.Pkcs11.Library.Found.{find-put, in_session_lem}
use renesas_ra8m1_provisioni.Pkcs11.Library.Steps.{state_of, Use}

-- Another session is found as before.
abbrev Leaves : ℕ → Library → Library → Type 0
Leaves h l l' =
    (l'.initialized ≡ l.initialized) × (find_session h l'.slots ≡ find_session h l.slots)

in_session-Leaves :
    {A B : Type 0} (fail : Ckr → A) (j : ℕ) (method : Session.Session → B → A × Session.Session × B)
    (l : Library) (b : B) (h : ℕ)
    → h ≢ j
    → Leaves h l (in_session fail j method l b).1
unfolding in_session
in_session-Leaves fail j method l b h n = elim (Bool-cases l.initialized) [
  | inr e ↦
      let same : (in_session fail j method l b).1 ≡ l = ground arith in
      subst (Leaves h l) (sym same) (refl, refl)
  | inl e ↦ elim (Option-cases (find_session j l.slots)) [
    | inl i ↦
        let same : (in_session fail j method l b).1 ≡ l = ground arith in
        subst (Leaves h l) (sym same) (refl, refl)
    | inr (s, i) ↦
        let changed : (in_session fail j method l b).1
            ≡ record l { slots = put_session j (method s b).1 l.slots } =
          simp (e, i, in_session) in
        subst (Leaves h l) (sym changed) (refl, find-put j (method s b).1 h l.slots n)
  ]
]

lookup-found :
    (h id : ℕ) (t : Slot) (s : Session.Session)
    → find_session h ((id, t) ∷ []) ≡ some s
    → lookup h t.sessions ≡ some s
unfolding find_session get_session
lookup-found h id t s i = ground arith

in_session-initialized :
    {A B : Type 0} (fail : Ckr → A) (j : ℕ) (method : Session.Session → B → A × Session.Session × B)
    (l : Library) (b : B)
    → (in_session fail j method l b).1.initialized ≡ l.initialized
unfolding in_session
in_session-initialized fail j method l b = ground arith

found-IsValid :
    (h : ℕ) (l : Library) (s : Session.Session)
    → IsGood l
    → find_session h l.slots ≡ some s
    → (l.initialized ≡ true) × IsValid s
unfolding find_session get_session
found-IsValid h l s g i = elim (Bool-cases l.initialized) [
  | inr e ↦
      let empty : l.slots ≡ [] = subst (λ z. AreSlots z l.slots) e g in
      absurd (ground (arith, ap (find_session h) empty))
  | inl e ↦
      let (t, f, k) = subst (λ z. AreSlots z l.slots) e g in
      (e, k.valid h s (lookup-found h 0 t s (ap (find_session h) (sym f) ∙ i)))
]

module _ {B : Type 0} (link : Link B) (x : Texts) where
  -- A function on a session that is not `h`.
  abbrev pub IsApart : (h : ℕ) → {p q : Library × B} → Use link x p q → Type 0
  IsApart h (Use.open_session slot_id flags p) = ⊥
  IsApart h (Use.close_session session p) = ⊥
  IsApart h (Use.close_all_sessions slot_id p) = ⊥
  IsApart h (Use.login session user_type p) = h ≢ session
  IsApart h (Use.logout session p) = h ≢ session
  IsApart h (Use.sign_init session mechanism key p) = h ≢ session
  IsApart h (Use.sign session data' p) = h ≢ session
  IsApart h (Use.sign_update session data' p) = h ≢ session
  IsApart h (Use.sign_final session p) = h ≢ session
  IsApart h (Use.verify_init session mechanism key p) = h ≢ session
  IsApart h (Use.verify session data' signature p) = h ≢ session
  IsApart h (Use.digest_init session mechanism p) = h ≢ session
  IsApart h (Use.digest session data' p) = h ≢ session
  IsApart h (Use.find_objects_init session template p) = h ≢ session
  IsApart h (Use.find_objects session max_count p) = h ≢ session
  IsApart h (Use.find_objects_final session p) = h ≢ session
  IsApart h (Use.generate_key_pair session mechanism t u p) = h ≢ session
  IsApart h (Use.register session key_arn p) = h ≢ session
  IsApart h (Use.get_attribute_value session obj template p) = h ≢ session
  IsApart h (Use.key_info session handle p) = h ≢ session
  IsApart h (Use.session_info session p) = h ≢ session
  IsApart h (Use.token_info slot_id p) = ⊥
  IsApart h (Use.mechanism_list slot_id p) = ⊥
  IsApart h (Use.mechanism_info slot_id mechanism p) = ⊥

  pub data Elsewhere (h : ℕ) : Library × B → Library × B → Type 0 where
    start : (p : Library × B) → Elsewhere h p p
    then :
        {p q r : Library × B}
        → Elsewhere h p q
        → (u : Use link x q r) → IsApart h u
        → Elsewhere h p r

  Use-Leaves : (h : ℕ) {p q : Library × B} (u : Use link x p q) → IsApart h u → Leaves h p.0 q.0
  unfolding c_login c_logout c_sign_init c_sign c_sign_update c_sign_final c_verify_init c_verify
      c_digest_init c_digest c_find_objects_init c_find_objects c_find_objects_final
      c_generate_key_pair register_key c_get_attribute_value get_generated_key_info
      c_get_session_info
  Use-Leaves h (Use.open_session slot_id flags p) n = absurd n
  Use-Leaves h (Use.close_session session p) n = absurd n
  Use-Leaves h (Use.close_all_sessions slot_id p) n = absurd n
  Use-Leaves h (Use.login session user_type p) n =
      in_session-Leaves (λ rv. rv) session (Session.login link.ask user_type) p.0 p.1 h n
  Use-Leaves h (Use.logout session p) n =
      in_session-Leaves (λ rv. rv) session (Session.logout link.ask) p.0 p.1 h n
  Use-Leaves h (Use.sign_init session mechanism key p) n =
      in_session-Leaves (λ rv. rv) session (with_broker (Session.sign_init mechanism key)) p.0 p.1 h
        n
  Use-Leaves h (Use.sign session data' p) n =
      in_session-Leaves no_bytes session (Session.sign link.ask data') p.0 p.1 h n
  Use-Leaves h (Use.sign_update session data' p) n =
      in_session-Leaves (λ rv. rv) session (with_broker (Session.sign_update data')) p.0 p.1 h n
  Use-Leaves h (Use.sign_final session p) n =
      in_session-Leaves no_bytes session (Session.sign_final link.ask) p.0 p.1 h n
  Use-Leaves h (Use.verify_init session mechanism key p) n =
      in_session-Leaves (λ rv. rv) session (with_broker (Session.verify_init mechanism key)) p.0 p.1
        h n
  Use-Leaves h (Use.verify session data' signature p) n =
      in_session-Leaves (λ rv. rv) session (Session.verify link.ask data' signature) p.0 p.1 h n
  Use-Leaves h (Use.digest_init session mechanism p) n =
      in_session-Leaves (λ rv. rv) session (with_broker (Session.digest_init mechanism)) p.0 p.1 h n
  Use-Leaves h (Use.digest session data' p) n =
      in_session-Leaves no_bytes session (Session.digest link.ask data') p.0 p.1 h n
  Use-Leaves h (Use.find_objects_init session template p) n =
      in_session-Leaves (λ rv. rv) session (Objects.find_objects_init link.ask template) p.0 p.1 h n
  Use-Leaves h (Use.find_objects session max_count p) n =
      in_session-Leaves no_bytes session (with_broker (Objects.find_objects max_count)) p.0 p.1 h n
  Use-Leaves h (Use.find_objects_final session p) n =
      in_session-Leaves (λ rv. rv) session (with_broker Objects.find_objects_final) p.0 p.1 h n
  Use-Leaves h (Use.generate_key_pair session mechanism t u p) n =
      in_session-Leaves no_keys session (Objects.generate_key_pair link.ask x mechanism t u) p.0 p.1
        h n
  Use-Leaves h (Use.register session key_arn p) n =
      in_session-Leaves (λ rv. (rv, 0)) session
        (λ s b. let r = Objects.register_key key_arn s in ((Ckr.ok, r.0), r.1, b)) p.0 p.1 h n
  Use-Leaves h (Use.get_attribute_value session obj template p) n =
      in_session-Leaves (λ rv. (rv, template)) session
        (λ s b. let r = Objects.get_attribute_value link.ask x obj template s b in (r.0, s, r.1))
        p.0 p.1 h n
  Use-Leaves h (Use.key_info session handle p) n =
      in_session-Leaves (λ rv. none) session
        (λ s b. (Objects.get_generated_key_info handle s, s, b)) p.0 p.1 h n
  Use-Leaves h (Use.session_info session p) n =
      in_session-Leaves (λ rv. (rv, none)) session
        (λ s b. ((Ckr.ok, some (s.slot_id, s.state, s.flags)), s, b)) p.0 p.1 h n
  Use-Leaves h (Use.token_info slot_id p) n = absurd n
  Use-Leaves h (Use.mechanism_list slot_id p) n = absurd n
  Use-Leaves h (Use.mechanism_info slot_id mechanism p) n = absurd n

  Elsewhere-Leaves : (h : ℕ) {p q : Library × B} → Elsewhere h p q → Leaves h p.0 q.0
  Elsewhere-Leaves h (start p) = (refl, refl)
  Elsewhere-Leaves h (then us u n) =
      let (i, f) = Elsewhere-Leaves h us in let (j, g) = Use-Leaves h u n in (j ∙ i, g ∙ f)

  -- Take a library whose one slot has ascending session handles and valid sessions, as after
  -- `C_Initialize`, with the session `h` of which `key` is a handle of the key `key_arn`. If
  -- `C_SignInit` on it returns ok, then after any functions on other sessions, but for opening and
  -- closing, `C_Sign` returns the signature that `sign_by` gets from the broker for the data, the key's
  -- name and the mechanism, or that the function failed, and the broker is as after that request.
  pub c_sign-c_sign_init :
      (h mechanism key : ℕ) (key_arn : String) (data' : List ℕ) (p q : Library × B)
      (s : Session.Session)
      → IsGood p.0
      → find_session h p.0.slots ≡ some s
      → lookup key s.object_handles ≡ some key_arn
      → (c_sign_init link x h mechanism key p.0 p.1).0 ≡ Ckr.ok
      → Elsewhere h (state_of (c_sign_init link x h mechanism key p.0 p.1)) q
      → ((c_sign link x h data' q.0 q.1).0
          ≡ or_failed (Session.sign_by link.ask mechanism (some key_arn) data' q.1).0)
        × ((c_sign link x h data' q.0 q.1).2
            ≡ (Session.sign_by link.ask mechanism (some key_arn) data' q.1).1)
  unfolding c_sign_init c_sign after_all
  c_sign-c_sign_init h m k arn d p q s g f i o us =
      let (e, v) = found-IsValid h p.0 s g f in
      let begun = in_session_lem (λ rv. rv) h (with_broker (Session.sign_init m k)) p.0 p.1 s e f in
      let (same, found) = Elsewhere-Leaves h us in
      let s1 = (Session.sign_init m k s).1 in
      let ready : q.0.initialized ≡ true =
        same
        ∙ (in_session-initialized (λ rv. rv) h (with_broker (Session.sign_init m k)) p.0 p.1 ∙ e) in
      let done =
        in_session_lem no_bytes h (Session.sign link.ask d) q.0 q.1 s1 ready (found ∙ begun.2) in
      let signed = sign-sign_init link.ask x m k arn [] d s q.1 v (sym begun.0 ∙ o) i tt in
      (done.0 ∙ ap (λ r. r.0) signed, done.1 ∙ ap (λ r. r.2) signed)
