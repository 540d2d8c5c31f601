-- ===== src/Proxy/Images/Request.antt =====
-- src/proxy/sanitize.rs: a request after sanitize_request_body, and what that routine reports.
use anser.Prelude.{
  ◌≡◌, refl, Bool, false, ◌||◌, String, Option, none, some, ◌==◌, string_key, Bool-cases, inl, inr,
}
use mathlib.Core.Path.{subst}
use anser.Json.{
  Value, null, boolean, number, other_number, string, array, object, Items, end_array, item,
  Members, end_object, member, find_member, get,
}
use anser.Proxy.Images.{
  sanitize_item, change_member, change_in, sanitize_message, sanitize_each, sanitize_messages,
  sanitize_request_body,
}
use anser.Proxy.Images.Clean.{has_image, sanitize_item_clean, sanitize_item_flag}

-- A test of the value at a key, false without one.
unfoldable pub holds : (Value → Bool) → Option Value → Bool
holds p none = false
holds p (some v) = p v

unfoldable pub any_message : Items → Bool
unfolding holds get has_image
any_message end_array = false
any_message (item msg rest) = holds has_image (get "content" msg) || any_message rest

unfoldable pub any_in : Value → Bool
unfolding any_message
any_in (array messages) = any_message messages
any_in _ = false

-- The content of a message or the prompt holds an image.
unfoldable pub request_has_image : Value → Bool
unfolding any_in holds get has_image
request_has_image body = holds any_in (get "messages" body) || holds has_image (get "prompt" body)

-- A change that clears what a test finds, and reports it.
record Clears (p : Value → Bool) (change : Value → Value × Bool) : Type 0 where
  clear : (v : Value) → p (change v).0 ≡ false
  flag : (v : Value) → (change v).1 ≡ p v

module _ (key : String) (p : Value → Bool) (change : Value → Value × Bool)
    (c : Clears p change) where
  find_member-change_member :
      (m : Members)
      → (holds p (find_member key (change_member key change m).0) ≡ false)
        × ((change_member key change m).1 ≡ holds p (find_member key m))
  unfolding find_member change_member holds
  find_member-change_member end_object = (refl, refl)
  find_member-change_member (member k v rest) = elim (Bool-cases (key == k)) [
    | inl same ↦ rw (same, same) (c.clear v, c.flag v)
    | inr other ↦ rw (other, other) (find_member-change_member rest)
  ]

  get-change_in :
      (v : Value)
      → (holds p (get key (change_in key change v).0) ≡ false)
        × ((change_in key change v).1 ≡ holds p (get key v))
  unfolding get change_in holds
  get-change_in null = (refl, refl)
  get-change_in (boolean b) = (refl, refl)
  get-change_in (number n) = (refl, refl)
  get-change_in (other_number t) = (refl, refl)
  get-change_in (string s) = (refl, refl)
  get-change_in (array items) = (refl, refl)
  get-change_in (object members) = find_member-change_member members

-- Another key keeps its value.
module _ (other key : String) (differ : (other == key) ≡ false)
    (change : Value → Value × Bool) where
  find_member-change_other :
      (m : Members) → find_member other (change_member key change m).0 ≡ find_member other m
  unfolding find_member change_member
  find_member-change_other end_object = refl
  find_member-change_other (member k v rest) = elim (Bool-cases (key == k)) [
    | inl same ↦
        rw (same, subst (λ x. (other == x) ≡ false) ((string_key.test_iff key k).0 same) differ)
          refl
    | inr apart ↦ elim (Bool-cases (other == k)) [
      | inl at ↦ rw (apart, at) refl
      | inr away ↦ rw (apart, away) (find_member-change_other rest)
    ]
  ]

  get-change_other : (v : Value) → get other (change_in key change v).0 ≡ get other v
  unfolding get change_in
  get-change_other null = refl
  get-change_other (boolean b) = refl
  get-change_other (number n) = refl
  get-change_other (other_number t) = refl
  get-change_other (string s) = refl
  get-change_other (array items) = refl
  get-change_other (object members) = find_member-change_other members

Clears-sanitize_item : Clears has_image sanitize_item
Clears-sanitize_item = record { clear = sanitize_item_clean; flag = sanitize_item_flag }

sanitize_each_messages :
    (messages : Items)
    → (any_message (sanitize_each messages).0 ≡ false)
      × ((sanitize_each messages).1 ≡ any_message messages)
unfolding any_message sanitize_each sanitize_message
sanitize_each_messages end_array = (refl, refl)
sanitize_each_messages (item msg rest) =
    let (clear, flag) = get-change_in "content" has_image sanitize_item Clears-sanitize_item msg in
    let (later, flags) = sanitize_each_messages rest in (rw clear later, rw (flag, flags) refl)

any_in-sanitize_messages :
    (v : Value) → (any_in (sanitize_messages v).0 ≡ false) × ((sanitize_messages v).1 ≡ any_in v)
unfolding any_in sanitize_messages
any_in-sanitize_messages null = (refl, refl)
any_in-sanitize_messages (boolean b) = (refl, refl)
any_in-sanitize_messages (number n) = (refl, refl)
any_in-sanitize_messages (other_number t) = (refl, refl)
any_in-sanitize_messages (string s) = (refl, refl)
any_in-sanitize_messages (array messages) = sanitize_each_messages messages
any_in-sanitize_messages (object members) = (refl, refl)

Clears-sanitize_messages : Clears any_in sanitize_messages
Clears-sanitize_messages = record {
  clear = λ v. (any_in-sanitize_messages v).0;
  flag = λ v. (any_in-sanitize_messages v).1;
}

-- A request that was sanitized holds no image in the content of a message or in the prompt, at any
-- depth; it is reported as modified exactly if it held one before.
pub sanitize_request_body-clean :
    (body : Value)
    → (request_has_image (sanitize_request_body body).0 ≡ false)
      × ((sanitize_request_body body).1 ≡ request_has_image body)
unfolding request_has_image sanitize_request_body
sanitize_request_body-clean body =
    let with_messages = (change_in "messages" sanitize_messages body).0 in
    let (clear, flag) =
      get-change_in "messages" any_in sanitize_messages Clears-sanitize_messages body in
    let (clear', flag') =
      get-change_in "prompt" has_image sanitize_item Clears-sanitize_item with_messages in
    let after = get-change_other "messages" "prompt" refl sanitize_item with_messages in
    let before = get-change_other "prompt" "messages" refl sanitize_messages body in
    (rw (after, clear) clear', rw (flag, flag', before) refl)
