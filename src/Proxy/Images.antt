-- ===== src/Proxy/Images.antt =====
-- src/proxy/sanitize.rs: sanitize_request_body and sanitize_item. Each gives the new value, and
-- whether it changed something.
pub mod Clean
pub mod Request
use anser.Prelude.{
  Bool, true, false, ◌||◌, String, Option, none, some, List, [], ◌∷◌, if◌then◌else◌, ◌==◌,
  string_key,
}
use anser.Prelude.Text.{is_some}
use anser.Json.{
  Value, null, boolean, number, other_number, string, array, object, Items, end_array, item,
  Members, end_object, member, find_member, str_in,
}

abbrev pub image_placeholder : String
image_placeholder =
    "[Image file omitted: Local Qwen3.8-27B runs in pure text mode for Universal 245K context. Images must be inspected multimodally by the Lead Architect.]"

abbrev pub placeholder : Value
placeholder =
    object (member "type" (string "text") (member "text" (string image_placeholder) end_object))

unfoldable pub is_image_type : Option String → Bool
is_image_type none = false
is_image_type (some t) = t == "image_url" || t == "image" || t == "input_image" || t == "image_file"

unfoldable pub is_image : Members → Bool
unfolding is_image_type find_member str_in
is_image members =
    is_image_type (str_in (find_member "type" members))
    || is_some (find_member "image" members)
    || is_some (find_member "image_url" members)

unfoldable mutual
  unfolding is_image

  pub sanitize_item : Value → Value × Bool
  sanitize_item (array items) =
      let (after, modified) = sanitize_elements items in (array after, modified)
  sanitize_item (object members) =
      let (after, modified) = sanitize_members members in
      if is_image members then (placeholder, true) else (object after, modified)
  sanitize_item null = (null, false)
  sanitize_item (boolean b) = (boolean b, false)
  sanitize_item (number n) = (number n, false)
  sanitize_item (other_number t) = (other_number t, false)
  sanitize_item (string s) = (string s, false)

  pub sanitize_elements : Items → Items × Bool
  sanitize_elements end_array = (end_array, false)
  sanitize_elements (item v rest) =
      let (first, here) = sanitize_item v in
      let (after, there) = sanitize_elements rest in (item first after, here || there)

  pub sanitize_members : Members → Members × Bool
  sanitize_members end_object = (end_object, false)
  sanitize_members (member key v rest) =
      let (first, here) = sanitize_item v in
      let (after, there) = sanitize_members rest in (member key first after, here || there)

-- `get_mut(key)` with a change of the value that is there.
unfoldable pub change_member : String → (Value → Value × Bool) → Members → Members × Bool
change_member key change end_object = (end_object, false)
change_member key change (member k v rest) =
    let (after, there) = change_member key change rest in
    let (first, here) = change v in
    if key == k then (member k first rest, here) else (member k v after, there)

unfoldable pub change_in : String → (Value → Value × Bool) → Value → Value × Bool
unfolding change_member
change_in key change (object members) =
    let (after, modified) = change_member key change members in (object after, modified)
change_in key change v = (v, false)

unfoldable pub sanitize_message : Value → Value × Bool
unfolding change_in sanitize_item
sanitize_message msg = change_in "content" sanitize_item msg

unfoldable pub sanitize_each : Items → Items × Bool
unfolding sanitize_message
sanitize_each end_array = (end_array, false)
sanitize_each (item msg rest) =
    let (first, here) = sanitize_message msg in
    let (after, there) = sanitize_each rest in (item first after, here || there)

unfoldable pub sanitize_messages : Value → Value × Bool
unfolding sanitize_each
sanitize_messages (array messages) =
    let (after, modified) = sanitize_each messages in (array after, modified)
sanitize_messages v = (v, false)

unfoldable pub sanitize_request_body : Value → Value × Bool
unfolding change_in sanitize_messages sanitize_item
sanitize_request_body body =
    let (with_messages, here) = change_in "messages" sanitize_messages body in
    let (with_prompt, there) = change_in "prompt" sanitize_item with_messages in
    (with_prompt, here || there)
