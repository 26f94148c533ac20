-- ===== src/Pkcs11/Tests.antt =====
-- Runs of the PKCS#11 sessions and library, on a broker that has two keys and counts its requests.
use renesas_ra8m1_provisioni.Prelude.{
  ℕ, suc, ◌<◌, ◌≡◌, refl, true, none, some, List, [], ◌∷◌, ◌++◌, arith, map,
}
use mathlib.Core.List.{flatten}
use renesas_ra8m1_provisioni.Broker.Text.{codes, is_empty}
use renesas_ra8m1_provisioni.Broker.Json.{Json, Items, Fields}
use renesas_ra8m1_provisioni.Pkcs11.Types.{Ckr, has_flag}
use renesas_ra8m1_provisioni.Pkcs11.Token.{
  new_slot, open_session, add_session, session_id_of, get_session,
}
use renesas_ra8m1_provisioni.Pkcs11.Table.{lookup, insert}
use renesas_ra8m1_provisioni.Pkcs11.Session as Session
use renesas_ra8m1_provisioni.Pkcs11.Session.{Broker, or_failed, end_sign, fields1}
use renesas_ra8m1_provisioni.Pkcs11.Session.Objects as Objects
use renesas_ra8m1_provisioni.Pkcs11.Session.Objects.{Texts}
use renesas_ra8m1_provisioni.Pkcs11.Session.Calls.{Call, after, after_all}
use renesas_ra8m1_provisioni.Pkcs11.Session.Calls.Valid.{IsValid, new_session-IsValid}
use renesas_ra8m1_provisioni.Pkcs11.Session.Calls.Keeps.{after_all-IsValid}
use renesas_ra8m1_provisioni.Pkcs11.Session.Calls.Signing.{Move, view, after-Move}
use renesas_ra8m1_provisioni.Pkcs11.Session.Calls.Signed.{
  sign-sign_init, sign_updates, sign_final-sign_updates, digest_updates,
  digest_final-digest_updates,
}
use renesas_ra8m1_provisioni.Pkcs11.Session.Calls.Search.{find_objects_lem}
use renesas_ra8m1_provisioni.Pkcs11.Session.Calls.Pages.{find_objects_pages}
use renesas_ra8m1_provisioni.Pkcs11.Library.{
  Link, Library, c_initialize, c_open_session, find_session, put_session, in_session, in_slot,
  new_library,
}
use renesas_ra8m1_provisioni.Pkcs11.Library.Calls.{c_login, c_sign_init, c_sign, register_key}
use renesas_ra8m1_provisioni.Pkcs11.Library.Keeps.{c_login-Kept, register_key-Kept}
use renesas_ra8m1_provisioni.Pkcs11.Library.Apart.{Elsewhere, c_sign-c_sign_init}
use renesas_ra8m1_provisioni.Pkcs11.Library.Good.{IsGood, c_initialize-IsGood, c_open_session-Kept}
use renesas_ra8m1_provisioni.Pkcs11.Library.Steps.{Use, Uses, state_of, c_open_session-increases}

abbrev keys : Items
keys =
    Items.cons (Json.obj (fields1 "arn" (Json.str "a")))
      (Items.cons (Json.obj (fields1 "key_id" (Json.str "b"))) Items.nil)

abbrev answer : Fields
answer =
    Fields.field "keys" (Json.arr keys)
      (Fields.field "signature" (Json.str "AQI=") (fields1 "session_id" (Json.str "i")))

abbrev demo : Broker ℕ
demo method params n = (some answer, suc n)

abbrev texts : Texts
texts = record { lower = λ s. s; encode_utf8 = codes; text_of = λ v. none }

abbrev fresh : Session.Session
fresh = Session.new_session 1 0 6 "i"

fresh-IsValid : IsValid fresh
fresh-IsValid = new_session-IsValid 1 0 6 "i"

abbrev setup : List Call
setup = Call.login 1 ∷ Call.register_key "k" ∷ []

abbrev ready : Session.Session
ready = (after_all demo texts setup fresh 0).0

after_all-IsValid_example : IsValid (after_all demo texts setup fresh 0).0
after_all-IsValid_example = after_all-IsValid demo texts setup fresh 0 fresh-IsValid

ready-IsValid : IsValid ready
ready-IsValid = after_all-IsValid demo texts setup fresh 0 fresh-IsValid

after-Move_example :
    Move ready
      (view (after demo texts (Call.sign_init 0x1041 1) ready 1).0)
      (Call.sign_init 0x1041 1)
after-Move_example = after-Move demo texts (Call.sign_init 0x1041 1) ready 1 ready-IsValid

sign-sign_init_example :
    (let r =
        after_all demo texts
          (Call.find_objects_init [] ∷ [])
          (Session.sign_init 0x1041 1 ready).1
          1 in
      let q = Session.sign_by demo 0x1041 (some "k") (7 ∷ []) r.1 in
      Session.sign demo (7 ∷ []) r.0 r.1 ≡ (or_failed q.0, end_sign r.0, q.1))
unfolding Session.new_session after after_all Session.sign_init Session.login Objects.register_key
    Objects.handle_of Objects.add_handle lookup
sign-sign_init_example =
    sign-sign_init demo texts 0x1041 1 "k" (Call.find_objects_init [] ∷ []) (7 ∷ []) ready 1
      ready-IsValid refl refl (tt, tt)

sign_final-sign_updates_example :
    Session.sign_final demo
      (sign_updates ((1 ∷ []) ∷ (2 ∷ []) ∷ []) (Session.sign_init 0x1041 1 ready).1)
      1
    ≡ Session.sign demo (1 ∷ 2 ∷ []) (Session.sign_init 0x1041 1 ready).1 1
unfolding Session.new_session after after_all Session.sign_init Session.login Objects.register_key
    Objects.handle_of Objects.add_handle lookup
sign_final-sign_updates_example =
    sign_final-sign_updates demo ((1 ∷ []) ∷ (2 ∷ []) ∷ []) (Session.sign_init 0x1041 1 ready).1 1
      refl

abbrev hashing : Session.Session
hashing = (Session.digest_init 0x250 fresh).1

digest_final-digest_updates_example :
    ((Session.digest_final demo (digest_updates ((1 ∷ []) ∷ (2 ∷ []) ∷ []) hashing) 0).0
      ≡ (Session.digest demo (1 ∷ 2 ∷ []) hashing 0).0)
    × ((Session.digest_final demo (digest_updates ((1 ∷ []) ∷ (2 ∷ []) ∷ []) hashing) 0).2
        ≡ (Session.digest demo (1 ∷ 2 ∷ []) hashing 0).2)
unfolding Session.new_session Session.digest_init flatten
digest_final-digest_updates_example =
    digest_final-digest_updates demo ((1 ∷ []) ∷ (2 ∷ []) ∷ []) hashing 0 refl

abbrev searched : Session.Session
searched = (Objects.find_objects_init demo [] fresh 0).1

find_objects_lem_example :
    ((Objects.find_objects 5 searched).0.0 ≡ Ckr.ok)
    × (map
          (λ h. Objects.get_key_arn h (Objects.find_objects 5 searched).1)
          (Objects.find_objects 5 searched).0.1
        ≡ some "a" ∷ some "b" ∷ [])
unfolding is_empty Session.new_session Objects.find_objects_init Objects.keys_of Objects.found
    Objects.add_found Objects.name_of
find_objects_lem_example =
    find_objects_lem demo [] 5 answer keys fresh 0 fresh-IsValid refl refl refl (omega arith)

find_objects_pages_example :
    ((Objects.find_objects 2 searched).0.1
      ≡ (Objects.find_objects 1 searched).0.1
        ++ (Objects.find_objects 1 (Objects.find_objects 1 searched).1).0.1)
    × ((Objects.find_objects 2 searched).0.0
        ≡ (Objects.find_objects 1 (Objects.find_objects 1 searched).1).0.0)
    × ((Objects.find_objects 2 searched).1
        ≡ (Objects.find_objects 1 (Objects.find_objects 1 searched).1).1)
find_objects_pages_example = find_objects_pages 1 1 searched

-- A connection that is always made.
abbrev link : Link ℕ
link = record { ask = demo; connect = λ b. (true, b); disconnect = λ b. b }

abbrev begun : Library × ℕ
begun = state_of (c_initialize link new_library 0)

begun-IsGood : IsGood begun.0
begun-IsGood = c_initialize-IsGood link new_library 0 refl

abbrev opened_one : Library × ℕ
opened_one = state_of (c_open_session link 0 6 begun.0 begun.1)

abbrev opened_two : Library × ℕ
opened_two = state_of (c_open_session link 0 6 opened_one.0 opened_one.1)

c_open_session-increases_example : 1 < 2
unfolding is_empty c_initialize c_open_session new_slot open_session add_session session_id_of
    Session.new_session has_flag lookup in_slot
c_open_session-increases_example =
    c_open_session-increases link texts 0 6 0 4 1 2 begun opened_one begun-IsGood refl
      (Uses.start opened_one) refl

-- The second session is logged in and has a key.
abbrev with_key : Library × ℕ
with_key = state_of (
    register_key link texts 2 "k" (state_of (c_login link texts 2 1 opened_two.0 opened_two.1)).0
      (state_of (c_login link texts 2 1 opened_two.0 opened_two.1)).1)

opened_two-IsGood : IsGood opened_two.0
opened_two-IsGood =
    let one = (c_open_session-Kept link 0 6 begun.0 begun.1 begun-IsGood).good in
    (c_open_session-Kept link 0 6 opened_one.0 opened_one.1 one).good

with_key-IsGood : IsGood with_key.0
with_key-IsGood =
    let logged = state_of (c_login link texts 2 1 opened_two.0 opened_two.1) in
    (register_key-Kept link texts 2 "k" logged
      (c_login-Kept link texts 2 1 opened_two opened_two-IsGood).good).good

abbrev begun_sign : Library × ℕ
begun_sign = state_of (c_sign_init link texts 2 0x1041 1 with_key.0 with_key.1)

-- Then there is a login on the first session.
abbrev elsewhere : Library × ℕ
elsewhere = state_of (c_login link texts 1 1 begun_sign.0 begun_sign.1)

abbrev keyed : Session.Session
keyed = (Objects.register_key "k" (Session.login demo 1 (Session.new_session 2 0 6 "i") 2).1).1

c_sign-c_sign_init_example :
    ((c_sign link texts 2 (7 ∷ []) elsewhere.0 elsewhere.1).0
      ≡ or_failed (Session.sign_by demo 0x1041 (some "k") (7 ∷ []) elsewhere.1).0)
    × ((c_sign link texts 2 (7 ∷ []) elsewhere.0 elsewhere.1).2
        ≡ (Session.sign_by demo 0x1041 (some "k") (7 ∷ []) elsewhere.1).1)
unfolding is_empty c_initialize c_open_session new_slot open_session add_session session_id_of
    Session.new_session has_flag lookup in_slot in_session find_session put_session get_session
    Session.login c_login register_key Objects.register_key Objects.handle_of Objects.add_handle
    insert c_sign_init Session.sign_init
c_sign-c_sign_init_example =
    c_sign-c_sign_init link texts 2 0x1041 1 "k" (7 ∷ []) with_key elsewhere keyed with_key-IsGood
      refl refl refl
      (Elsewhere.then (Elsewhere.start begun_sign) (Use.login 1 1 begun_sign) (λ e. cc))
