-- ===== src/Pkcs11/Session/Objects.antt =====
-- The objects of security/broker/pkcs11/session.py: attributes, the search, key generation and the
-- registration of keys. What is used of Python's texts is a parameter. The broker's names of keys are
-- texts or null.
use renesas_ra8m1_provisioni.Prelude.{
  ℕ, suc, ◌+◌, String, Bool, true, false, not, ◌&&◌, ◌||◌, Option, none, some, List, [], ◌∷◌, ◌++◌,
  ◌==◌, if◌then◌else◌, str_eq, is_some, length, take, drop,
}
use renesas_ra8m1_provisioni.Broker.Text.{codes, is_empty}
use renesas_ra8m1_provisioni.Broker.Json.{Json, Items, Fields, get, has}
use renesas_ra8m1_provisioni.Pkcs11.Table.{lookup, insert}
use renesas_ra8m1_provisioni.Pkcs11.Types.{Ckr, Value, Attribute, ec_key_pair_gen}
use renesas_ra8m1_provisioni.Pkcs11.Session.{Broker, KeyInfo, Session, decoded, fields1}

-- `s.lower()`, `s.encode()`, and `value.decode("utf-8")` of bytes or `str(value)`, of which none is the
-- `UnicodeDecodeError`.
pub record Texts : Type 0 where
  pub lower : String → String
  pub encode_utf8 : String → List ℕ
  pub text_of : Value → Option String

-- A handle for a key: `_next_handle`, and the entry.
unfoldable pub add_handle : String → Session → Session
unfolding insert
add_handle key_arn s = record s {
  object_handles = insert s.next_handle key_arn s.object_handles;
  next_handle = suc s.next_handle;
}

-- `attr.value = …`, where it does not ask the broker.
unfoldable pub known_value : Texts → String → Attribute → Value
known_value x key_arn a =
    if a.type == 0
    then Value.number 3
    else if a.type == 0x100
    then Value.number 3
    else if a.type == 3
    then Value.text key_arn
    else if a.type == 0x102
    then Value.bytes (x.encode_utf8 key_arn)
    else if a.type == 0x108
    then Value.flag true
    else if a.type == 0x10A
    then Value.flag true
    else a.value

-- `d.get("arn") or d.get("key_id")`
unfoldable pub name_of : Fields → Option String
unfolding get
name_of d =
    let key_id : Option String = elim (get "key_id" d) [
      | Json.str k ↦ (if is_empty k then none else some k)
      | _ ↦ none
    ] in
    elim (get "arn" d) [ Json.str a ↦ (if is_empty a then key_id else some a) | _ ↦ key_id ]

-- The loop over the keys; a key that is no object is an exception, after which the handles stay.
unfoldable pub add_found : Items → Session → Bool × Session
unfolding name_of add_handle
add_found Items.nil s = (true, s)
add_found (Items.cons (Json.obj d) keys) s = elim (name_of d) [
  | none ↦ add_found keys s
  | some key_arn ↦
      add_found keys
        (record (add_handle key_arn s) { find_results = s.find_results ++ (s.next_handle ∷ []) })
]
add_found (Items.cons j keys) s = (false, s)

-- `response.get("keys", [])`; what is no list is an exception.
unfoldable pub keys_of : Fields → Option Items
unfolding get has
keys_of response =
    if has "keys" response
    then elim (get "keys" response) [ Json.arr keys ↦ some keys | _ ↦ none ]
    else some Items.nil

-- What the search does with the answer to `list_keys`.
unfoldable pub found : Option Fields → Session → Ckr × Session
unfolding keys_of add_found
found none s = (Ckr.function_failed, s)
found (some response) s = elim (keys_of response) [
  | none ↦ (Ckr.function_failed, s)
  | some keys ↦
      let (fine, s') = add_found keys s in (if fine then Ckr.ok else Ckr.function_failed, s')
]

unfoldable pub find_objects : ℕ → Session → (Ckr × List ℕ) × Session
find_objects max_count s =
    if is_some s.find_template
    then (let results = take max_count (drop s.find_index s.find_results) in
        ((Ckr.ok, results), record s { find_index = s.find_index + length results }))
    else ((Ckr.operation_not_initialized, []), s)

unfoldable pub find_objects_final : Session → Ckr × Session
find_objects_final s =
    (Ckr.ok, record s { find_template = none; find_results = []; find_index = 0 })

-- `bool(attr.value)`
unfoldable pub is_true : Value → Bool
is_true Value.unset = false
is_true (Value.number n) = not (n == 0)
is_true (Value.flag b) = b
is_true (Value.text s) = not (is_empty s)
is_true (Value.bytes []) = false
is_true (Value.bytes (b ∷ bs)) = true

-- The label and the kind of key in the private template, from those before; none is an exception.
unfoldable pub template_names :
    Texts → List Attribute → Option String × Option String → Option (Option String × Option String)
unfolding is_true
template_names x [] names = some names
template_names x (a ∷ as') (label, key_type) =
    let skip = template_names x as' (label, key_type) in
    elim (x.text_of a.value) [
      | none ↦ (if is_true a.value && (a.type == 3 || a.type == 0x102) then none else skip)
      | some t ↦
          let with_label = template_names x as' (some t, key_type) in
          let with_type = template_names x as' (label, some (x.lower t)) in
          if a.type == 3 && is_true a.value
          then with_label
          else if a.type == 0x102 && is_true a.value
          then with_type
          else skip
    ]

starts_with : List ℕ → List ℕ → Bool
starts_with [] cs = true
starts_with (p ∷ ps) [] = false
starts_with (p ∷ ps) (c ∷ cs) = p == c && starts_with ps cs

occurs : List ℕ → List ℕ → Bool
unfolding starts_with
occurs p [] = starts_with p []
occurs p (c ∷ cs) = starts_with p (c ∷ cs) || occurs p cs

-- `p in s`
unfoldable pub contains : String → String → Bool
unfolding occurs
contains p s = occurs (codes p) (codes s)

unfoldable pub type_of_label : Texts → Option String → String
unfolding contains
type_of_label x none = "oem_root"
type_of_label x (some label) =
    if is_empty label
    then "oem_root"
    else if contains "oem_root" (x.lower label)
    then "oem_root"
    else if contains "oem_bl" (x.lower label) || contains "bootloader" (x.lower label)
    then "oem_bootloader"
    else if contains "customer" (x.lower label)
    then "customer"
    else "oem_root"

-- The kind of key, from the template or else from the label.
unfoldable pub type_or_label : Texts → Option String → Option String → String
unfolding type_of_label
type_or_label x label none = type_of_label x label
type_or_label x label (some key_type) =
    if is_empty key_type then type_of_label x label else key_type

abbrev pub optional : Option String → Json
optional none = Json.null
optional (some s) = Json.str s

-- The handles and the description of a key that was made: first the private key, then the public one.
unfoldable pub add_pair : String → String → Fields → Session → Session
unfolding insert add_handle get
add_pair key_arn key_type response s =
    let info : KeyInfo = record {
      key_arn = key_arn;
      public_key = get "public_key" response;
      key_type = key_type;
      curve = "secp256r1";
      label = get "label" response;
    } in
    record (add_handle key_arn (add_handle key_arn s)) {
      key_info = insert (suc s.next_handle) info (insert s.next_handle info s.key_info);
    }

-- What becomes of the answer: the result, the public and the private handle.
unfoldable pub generated : String → Option Fields → Session → (Ckr × ℕ × ℕ) × Session
unfolding name_of add_pair
generated key_type none s = ((Ckr.function_failed, 0, 0), s)
generated key_type (some response) s = elim (name_of response) [
  | none ↦ ((Ckr.function_failed, 0, 0), s)
  | some key_arn ↦
      ((Ckr.ok, suc s.next_handle, s.next_handle), add_pair key_arn key_type response s)
]

-- The handle of the first entry for a key.
unfoldable pub handle_of : String → List (ℕ × String) → Option ℕ
handle_of key_arn [] = none
handle_of key_arn ((handle, arn) ∷ d) =
    if str_eq arn key_arn then some handle else handle_of key_arn d

unfoldable pub register_key : String → Session → ℕ × Session
unfolding handle_of add_handle
register_key key_arn s = elim (handle_of key_arn s.object_handles) [
  | some handle ↦ (handle, s)
  | none ↦ (s.next_handle, add_handle key_arn s)
]

unfoldable pub get_key_arn : ℕ → Session → Option String
unfolding lookup
get_key_arn handle s = lookup handle s.object_handles

unfoldable pub get_generated_key_info : ℕ → Session → Option KeyInfo
unfolding lookup
get_generated_key_info handle s = lookup handle s.key_info

module _ {B : Type 0} (broker : Broker B) where
  -- The loop over the template. Attributes are changed in place, so that a failure leaves those before
  -- it filled.
  unfoldable pub fill : Texts → String → List Attribute → B → Bool × List Attribute × B
  unfolding known_value decoded
  fill x key_arn [] b = (true, [], b)
  fill x key_arn (a ∷ rest) b =
      let (response, b') = broker "get_public_key" (fields1 "key_arn" (Json.str key_arn)) b in
      let here = fill x key_arn rest b in
      let (fine, filled, b2) = fill x key_arn rest b' in
      if a.type == 0x181
      then elim (decoded "public_key" response) [
        | none ↦ (false, a ∷ rest, b')
        | some point ↦ (fine, record a { value = Value.bytes point } ∷ filled, b2)
      ]
      else (here.0, record a { value = known_value x key_arn a } ∷ here.1, here.2)

  unfoldable pub get_attribute_value :
      Texts → ℕ → List Attribute → Session → B → (Ckr × List Attribute) × B
  unfolding fill lookup
  get_attribute_value x obj template s b = elim (lookup obj s.object_handles) [
    | none ↦ ((Ckr.object_handle_invalid, template), b)
    | some key_arn ↦
        let (fine, filled, b') = fill x key_arn template b in
        ((if fine then Ckr.ok else Ckr.function_failed, filled), b')
  ]

  -- The template is kept and not used to select.
  unfoldable pub find_objects_init : List Attribute → Session → B → Ckr × Session × B
  unfolding found
  find_objects_init template s b =
      if is_some s.find_template
      then (Ckr.operation_active, s, b)
      else (let (response, b') = broker "list_keys" Fields.end b in
          let (rv, s') =
            found response
              (record s { find_template = some template; find_results = []; find_index = 0 }) in
          (rv, s', b'))

  -- The request for a key, once its names are known.
  unfoldable pub generate_named :
      Texts → Option String → Option String → Session → B → (Ckr × ℕ × ℕ) × Session × B
  unfolding type_or_label generated
  generate_named x label key_type s b =
      let kind = type_or_label x label key_type in
      let (response, b') =
        broker "generate_key_pair"
          (Fields.field "key_type" (Json.str kind)
            (Fields.field "curve" (Json.str "secp256r1") (fields1 "label" (optional label))))
          b in
      let (out, s') = generated kind response s in (out, s', b')

  -- Whatever curve the public template names, it is `secp256r1`.
  unfoldable pub generate_key_pair :
      Texts → ℕ → List Attribute → List Attribute → Session → B → (Ckr × ℕ × ℕ) × Session × B
  unfolding template_names generate_named
  generate_key_pair x mechanism public_template private_template s b =
      if not s.logged_in
      then ((Ckr.user_not_logged_in, 0, 0), s, b)
      else if not (mechanism == ec_key_pair_gen)
      then ((Ckr.mechanism_invalid, 0, 0), s, b)
      else elim (template_names x private_template (none, none)) [
        | none ↦ ((Ckr.function_failed, 0, 0), s, b)
        | some (label, key_type) ↦ generate_named x label key_type s b
      ]
