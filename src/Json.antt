-- ===== src/Json.antt =====
-- `serde_json::Value`, with the accessors that the source calls. An object keeps its keys in order,
-- as the `BTreeMap` behind `Map` does. A float is its 64-bit pattern: the library's parser and
-- printer, and arithmetic on floats, are parameters where the code needs them.
use local_proxy.Base.{
  ℕ, Bool, true, false, Option, none, some, List, [], ◌∷◌, ◌≡◌, refl, arith, if◌then◌else◌, Text,
  text_eq, text_eq_iff, text_lt, codes,
}

pub data Number : Type 0 where
  pos_int neg_int float : ℕ → Number

mutual
  pub data Value : Type 0 where
    null : Value
    bool : Bool → Value
    number : Number → Value
    string : Text → Value
    array : Items → Value
    object : Fields → Value

  pub data Items : Type 0 where
    no_items : Items
    item : Value → Items → Items

  pub data Fields : Type 0 where
    no_fields : Fields
    field : Text → Value → Fields → Fields

abbrev pub to_items : List Value → Items
to_items [] = no_items
to_items (v ∷ vs) = item v (to_items vs)

abbrev pub items : Items → List Value
items no_items = []
items (item v vs) = v ∷ items vs

abbrev pub values : Fields → List Value
values no_fields = []
values (field k v fs) = v ∷ values fs

-- `Map::get`, `Map::insert` and `Map::remove`.
unfoldable pub get_field : Text → Fields → Option Value
get_field k no_fields = none
get_field k (field j v fs) = if text_eq j k then some v else get_field k fs

unfoldable pub insert_field : Text → Value → Fields → Fields
insert_field k v no_fields = field k v no_fields
insert_field k v (field j w fs) =
    let later = field j w (insert_field k v fs) in
    if text_eq j k then field k v fs else if text_lt k j then field k v (field j w fs) else later

unfoldable pub remove_field : Text → Fields → Fields
remove_field k no_fields = no_fields
remove_field k (field j w fs) =
    let rest = remove_field k fs in if text_eq j k then rest else field j w rest

pub get_field-insert_field :
    (k j : Text) (v : Value) (fs : Fields)
    → get_field j (insert_field k v fs) ≡ (if text_eq k j then some v else get_field j fs)
unfolding get_field insert_field
get_field-insert_field k j v no_fields = refl
get_field-insert_field k j v (field i w fs) =
    ground
      (arith, text_eq_iff k j, text_eq_iff i k, text_eq_iff i j, get_field-insert_field k j v fs)

pub get_field-remove_field :
    (k j : Text) (fs : Fields)
    → get_field j (remove_field k fs) ≡ (if text_eq k j then none else get_field j fs)
unfolding get_field remove_field
get_field-remove_field k j no_fields = ground arith
get_field-remove_field k j (field i w fs) =
    ground (arith, text_eq_iff k j, text_eq_iff i k, text_eq_iff i j, get_field-remove_field k j fs)

-- `v.get(key)` on a value, and the conversions.
abbrev pub get : Text → Value → Option Value
get k (object fs) = get_field k fs
get k _ = none

abbrev pub as_str : Value → Option Text
as_str (string s) = some s
as_str _ = none

abbrev pub as_bool : Value → Option Bool
as_bool (bool b) = some b
as_bool _ = none

abbrev pub as_u64 : Value → Option ℕ
as_u64 (number (pos_int n)) = some n
as_u64 _ = none

abbrev pub as_array : Value → Option Items
as_array (array vs) = some vs
as_array _ = none

abbrev pub as_object : Value → Option Fields
as_object (object fs) = some fs
as_object _ = none

abbrev pub is_object : Value → Bool
is_object (object _) = true
is_object _ = false

abbrev pub is_null : Value → Bool
is_null null = true
is_null _ = false

-- `and_then`, `map`, `unwrap_or` and `or_else` on options.
abbrev pub and_then {ℓ κ} : {A : Type ℓ} {B : Type κ} → Option A → (A → Option B) → Option B
and_then none f = none
and_then (some a) f = f a

pub and_then-eq-some {ℓ κ} :
    {A : Type ℓ} {B : Type κ} (o : Option A) (f : A → Option B) (b : B)
    → and_then o f ≡ some b
    → (a : A) × (o ≡ some a) × (f a ≡ some b)
and_then-eq-some none f b h = cc
and_then-eq-some (some a) f b h = (a, refl, h)

abbrev pub or_none {ℓ} : {A : Type ℓ} → Option A → Option A → Option A
or_none none b = b
or_none (some a) b = some a

abbrev pub get_or {ℓ} : {A : Type ℓ} → Option A → A → A
get_or none d = d
get_or (some a) d = a

-- `v[key]` as a text, or the empty text.
abbrev pub str_of : Value → Text → Text
str_of v k = get_or (and_then (get k v) as_str) []

abbrev pub nat_of : Value → Text → Option ℕ
nat_of v k = and_then (get k v) as_u64

-- The elements of `v[key]`, if it is an array.
abbrev pub elements_of : Value → Text → List Value
elements_of v k = elim (and_then (get k v) as_array) [ none ↦ [] | some vs ↦ items vs ]

abbrev pub first_item : Items → Option Value
first_item no_items = none
first_item (item v _) = some v

-- `pointer("/0")`: the first element, or the field "0" of an object.
abbrev pub first_in : Value → Option Value
first_in (array vs) = first_item vs
first_in (object fs) = get_field (codes "0") fs
first_in _ = none

-- `pointer("/key/0")`.
abbrev pub first_of : Value → Text → Option Value
first_of v k = and_then (get k v) first_in

abbrev pub fields : List (Text × Value) → Fields
fields [] = no_fields
fields ((k, v) ∷ rest) = insert_field k v (fields rest)

-- `json!({ .. })`, `json!([ .. ])` and numbers.
abbrev pub obj : List (Text × Value) → Value
obj kvs = object (fields kvs)

abbrev pub arr : List Value → Value
arr vs = array (to_items vs)

abbrev pub nat : ℕ → Value
nat n = number (pos_int n)
