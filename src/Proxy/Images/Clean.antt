-- ===== src/Proxy/Images/Clean.antt =====
-- src/proxy/sanitize.rs: what sanitize_request_body leaves holds no image.
use anser.Prelude.{
  ◌≡◌, refl, ap, ◌∙◌, Bool, false, ◌||◌, String, Option, none, some, ◌==◌, string_key, Bool-cases,
  inl, inr,
}
use anser.Prelude.Text.{is_some}
use anser.Json.{
  Value, null, boolean, number, other_number, string, array, object, Items, end_array, item,
  Members, end_object, member, find_member, str_in, as_str,
}
use anser.Proxy.Images.{is_image_type, is_image, sanitize_item, sanitize_elements, sanitize_members}

-- An object of the tree is an image.
unfoldable mutual
  unfolding is_image

  pub has_image : Value → Bool
  has_image (array items) = has_image_elements items
  has_image (object members) = is_image members || has_image_members members
  has_image _ = false

  pub has_image_elements : Items → Bool
  has_image_elements end_array = false
  has_image_elements (item v rest) = has_image v || has_image_elements rest

  pub has_image_members : Members → Bool
  has_image_members end_object = false
  has_image_members (member key v rest) = has_image v || has_image_members rest

map_value : {A B : Type 0} → (A → B) → Option A → Option B
map_value f none = none
map_value f (some a) = some (f a)

find_member-sanitize_members :
    (key : String) (m : Members)
    → find_member key (sanitize_members m).0
      ≡ map_value (λ v. (sanitize_item v).0) (find_member key m)
unfolding find_member map_value sanitize_item
find_member-sanitize_members key end_object = refl
find_member-sanitize_members key (member k v rest) = elim (Bool-cases (key == k)) [
  | inl same ↦ rw same refl
  | inr other ↦ rw other (find_member-sanitize_members key rest)
]

as_str-sanitize_item : (v : Value) → as_str (sanitize_item v).0 ≡ as_str v
unfolding as_str sanitize_item
as_str-sanitize_item null = refl
as_str-sanitize_item (boolean b) = refl
as_str-sanitize_item (number n) = refl
as_str-sanitize_item (other_number t) = refl
as_str-sanitize_item (string s) = refl
as_str-sanitize_item (array items) = refl
as_str-sanitize_item (object members) = elim (Bool-cases (is_image members)) [
  | inl e ↦ rw e refl
  | inr e ↦ rw e refl
]

str_in-sanitize_item :
    (o : Option Value) → str_in (map_value (λ v. (sanitize_item v).0) o) ≡ str_in o
unfolding str_in map_value
str_in-sanitize_item none = refl
str_in-sanitize_item (some v) = as_str-sanitize_item v

is_some-map_value : {A B : Type 0} (f : A → B) (o : Option A) → is_some (map_value f o) ≡ is_some o
unfolding map_value
is_some-map_value f none = refl
is_some-map_value f (some a) = refl

is_some-sanitize_members :
    (key : String) (m : Members)
    → is_some (find_member key (sanitize_members m).0) ≡ is_some (find_member key m)
is_some-sanitize_members key m =
    ap is_some (find_member-sanitize_members key m) ∙ is_some-map_value _ (find_member key m)

-- The members decide whether an object is an image as they did before.
is_image-sanitize_members : (m : Members) → is_image (sanitize_members m).0 ≡ is_image m
unfolding is_image
is_image-sanitize_members m =
    ap
      (λ o.
        is_image_type (str_in o)
        || is_some (find_member "image" (sanitize_members m).0)
        || is_some (find_member "image_url" (sanitize_members m).0))
      (find_member-sanitize_members "type" m)
    ∙ rw
        (
          str_in-sanitize_item (find_member "type" m),
          is_some-sanitize_members "image" m,
          is_some-sanitize_members "image_url" m,
        )
        refl

mutual
  unfolding has_image sanitize_item

  pub sanitize_item_clean : (v : Value) → has_image (sanitize_item v).0 ≡ false
  sanitize_item_clean null = refl
  sanitize_item_clean (boolean b) = refl
  sanitize_item_clean (number n) = refl
  sanitize_item_clean (other_number t) = refl
  sanitize_item_clean (string s) = refl
  sanitize_item_clean (array items) = sanitize_elements_clean items
  sanitize_item_clean (object members) = elim (Bool-cases (is_image members)) [
    | inl e ↦ rw e refl
    | inr e ↦ rw (e, is_image-sanitize_members members, e) (sanitize_members_clean members)
  ]

  sanitize_elements_clean : (items : Items) → has_image_elements (sanitize_elements items).0 ≡ false
  sanitize_elements_clean end_array = refl
  sanitize_elements_clean (item v rest) = rw (sanitize_item_clean v) (sanitize_elements_clean rest)

  sanitize_members_clean :
      (members : Members) → has_image_members (sanitize_members members).0 ≡ false
  sanitize_members_clean end_object = refl
  sanitize_members_clean (member key v rest) =
      rw (sanitize_item_clean v) (sanitize_members_clean rest)

mutual
  unfolding has_image sanitize_item

  pub sanitize_item_flag : (v : Value) → (sanitize_item v).1 ≡ has_image v
  sanitize_item_flag null = refl
  sanitize_item_flag (boolean b) = refl
  sanitize_item_flag (number n) = refl
  sanitize_item_flag (other_number t) = refl
  sanitize_item_flag (string s) = refl
  sanitize_item_flag (array items) = sanitize_elements_flag items
  sanitize_item_flag (object members) = elim (Bool-cases (is_image members)) [
    | inl e ↦ rw e refl
    | inr e ↦ rw e (sanitize_members_flag members)
  ]

  sanitize_elements_flag : (items : Items) → (sanitize_elements items).1 ≡ has_image_elements items
  sanitize_elements_flag end_array = refl
  sanitize_elements_flag (item v rest) = rw (sanitize_item_flag v, sanitize_elements_flag rest) refl

  sanitize_members_flag :
      (members : Members) → (sanitize_members members).1 ≡ has_image_members members
  sanitize_members_flag end_object = refl
  sanitize_members_flag (member key v rest) =
      rw (sanitize_item_flag v, sanitize_members_flag rest) refl
