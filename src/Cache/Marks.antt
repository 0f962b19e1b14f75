-- ===== src/Cache/Marks.antt =====
-- The mutations of src/domain/cache.rs, by the cache_control markers of the body.
use local_proxy.Base.{
  ℕ, ◌+◌, ◌≤◌, Bool, true, false, ◌||◌, Option, none, some, ◌≡◌, refl, inl, inr, sym, arith,
  if◌then◌else◌, Text, text_eq, text_lt, text_eq_refl, is_some, codes, some_inj, Bool-cases,
  Option-cases,
}
use local_proxy.Cache.{
  cache_control, has_cache_control, any_item, any_field, later_or, update_last, update_end,
  update_field, update_key, update_array, marker_of, mark_object,
}
use local_proxy.Json.{
  Value, Items, Fields, item, no_items, field, no_fields, object, array, string, null, bool, number,
  get_field, insert_field, get_field-insert_field,
}

abbrev one_if : Bool → ℕ
one_if b = if b then 1 else 0

-- How many values sit under a "cache_control" key.
unfoldable mutual
  pub markers : Value → ℕ
  markers (object fs) = field_markers fs
  markers (array vs) = item_markers vs
  markers _ = 0

  pub item_markers : Items → ℕ
  item_markers no_items = 0
  item_markers (item v vs) = markers v + item_markers vs

  pub field_markers : Fields → ℕ
  field_markers no_fields = 0
  field_markers (field k v fs) = one_if (text_eq k cache_control) + (markers v + field_markers fs)

-- A mutation that, where it applies, leaves a marker and adds at most one.
abbrev pub Marks : (Value → Option Value) → Type 0
Marks f = (v w : Value) → f v ≡ some w → (has_cache_control w ≡ true) × (markers w ≤ 1 + markers v)

abbrev pub MarksItems : (Items → Option Items) → Type 0
MarksItems f =
    (v w : Items) → f v ≡ some w → (any_item w ≡ true) × (item_markers w ≤ 1 + item_markers v)

or_true : (a b : Bool) → b ≡ true → (a || b) ≡ true
or_true a b h = ground arith

true_or : (a b : Bool) → a ≡ true → (a || b) ≡ true
true_or a b h = ground arith

module _ (f : Value → Option Value) (m : Marks f) where
  later_or-Marks :
      (v : Value) (vs : Items) (o : Option Items) (p : Option Value)
      → update_last f vs ≡ o
      → f v ≡ p
      → ((w : Items) → o ≡ some w → (any_item w ≡ true) × (item_markers w ≤ 1 + item_markers vs))
      → (w : Items) → later_or v vs o p ≡ some w
      → (any_item w ≡ true) × (item_markers w ≤ 1 + item_markers (item v vs))
  unfolding later_or any_item item_markers
  later_or-Marks v vs (some ws) p e k ih w h =
      let (a, b) = ih ws refl in
      rw (sym (some_inj h)) (or_true (has_cache_control v) (any_item ws) a, omega (arith, b))
  later_or-Marks v vs none (some u) e k ih w h =
      let (a, b) = m v u k in
      rw (sym (some_inj h)) (true_or (has_cache_control u) (any_item vs) a, omega (arith, b))
  later_or-Marks v vs none none e k ih w h = (ground arith, ground arith)

  pub update_last-Marks : MarksItems (update_last f)
  unfolding update_last
  update_last-Marks no_items w h = (ground arith, ground arith)
  update_last-Marks (item v vs) w h =
      later_or-Marks v vs (update_last f vs) (f v) refl refl (update_last-Marks vs) w h

  pub update_end-Marks : MarksItems (update_end f)
  unfolding update_end any_item item_markers
  update_end-Marks no_items w h = (ground arith, ground arith)
  update_end-Marks (item v no_items) w h = elim (Option-cases (f v)) [
    | inl e ↦ (ground arith, ground arith)
    | inr (u, e) ↦
        let (a, b) = m v u e in
        let q : some (item u no_items) ≡ some w = ground arith in
        rw (sym (some_inj q)) (true_or (has_cache_control u) false a, omega (arith, b))
  ]
  update_end-Marks (item v (item x vs)) w h = elim (Option-cases (update_end f (item x vs))) [
    | inl e ↦ (ground arith, ground arith)
    | inr (ws, e) ↦
        let (a, b) = update_end-Marks (item x vs) ws e in
        let q : some (item v ws) ≡ some w = ground arith in
        rw (sym (some_inj q)) (or_true (has_cache_control v) (any_item ws) a, omega (arith, b))
  ]

  update_field-Marks :
      (k : Text) (v w : Fields)
      → update_field k f v ≡ some w
      → (any_field w ≡ true) × (field_markers w ≤ 1 + field_markers v)
  unfolding update_field any_field field_markers
  update_field-Marks k no_fields w h = (ground arith, ground arith)
  update_field-Marks k (field j v fs) w h = elim (Bool-cases (text_eq j k)) [
    | inl t ↦ elim (Option-cases (f v)) [
      | inl e ↦ (ground arith, ground arith)
      | inr (u, e) ↦
          let (a, b) = m v u e in
          let q : some (field j u fs) ≡ some w = ground arith in
          rw (sym (some_inj q)) (true_or (has_cache_control u) (any_field fs) a, omega (arith, b))
    ]
    | inr t ↦ elim (Option-cases (update_field k f fs)) [
      | inl e ↦ (ground arith, ground arith)
      | inr (ws, e) ↦
          let (a, b) = update_field-Marks k fs ws e in
          let q : some (field j v ws) ≡ some w = ground arith in
          rw (sym (some_inj q)) (or_true (has_cache_control v) (any_field ws) a, omega (arith, b))
    ]
  ]

  pub update_key-Marks : (k : Text) → Marks (update_key k f)
  unfolding update_key has_cache_control markers
  update_key-Marks k (object fs) w h = elim (Option-cases (update_field k f fs)) [
    | inl e ↦ (ground arith, ground arith)
    | inr (gs, e) ↦
        let (a, b) = update_field-Marks k fs gs e in
        let q : some (object gs) ≡ some w = ground arith in
        rw (sym (some_inj q)) (or_true (is_some (get_field cache_control gs)) (any_field gs) a, b)
  ]
  update_key-Marks k null w h = (ground arith, ground arith)
  update_key-Marks k (bool b) w h = (ground arith, ground arith)
  update_key-Marks k (number n) w h = (ground arith, ground arith)
  update_key-Marks k (string s) w h = (ground arith, ground arith)
  update_key-Marks k (array vs) w h = (ground arith, ground arith)

pub update_array-Marks : (f : Items → Option Items) → MarksItems f → Marks (update_array f)
unfolding update_array has_cache_control markers
update_array-Marks f m (array vs) w h = elim (Option-cases (f vs)) [
  | inl e ↦ (ground arith, ground arith)
  | inr (ws, e) ↦
      let (a, b) = m vs ws e in
      let q : some (array ws) ≡ some w = ground arith in rw (sym (some_inj q)) (a, b)
]
update_array-Marks f m null w h = (ground arith, ground arith)
update_array-Marks f m (bool b) w h = (ground arith, ground arith)
update_array-Marks f m (number n) w h = (ground arith, ground arith)
update_array-Marks f m (string s) w h = (ground arith, ground arith)
update_array-Marks f m (object fs) w h = (ground arith, ground arith)

one_if-le : (b : Bool) → one_if b ≤ 1
one_if-le b = ground arith

field_markers-insert_field :
    (k : Text) (v : Value) (fs : Fields)
    → field_markers (insert_field k v fs) ≤ 1 + (markers v + field_markers fs)
unfolding insert_field field_markers
field_markers-insert_field k v no_fields = ground arith
field_markers-insert_field k v (field j w fs) = elim (Bool-cases (text_eq j k)) [
  | inl t ↦ rw (t) (omega (arith, one_if-le (text_eq k cache_control)))
  | inr t ↦ elim (Bool-cases (text_lt k j)) [
    | inl l ↦ rw (t, l) (omega (arith, one_if-le (text_eq k cache_control)))
    | inr l ↦ rw (t, l) (omega (arith, field_markers-insert_field k v fs))
  ]
]

marker_of-markers : (ttl : Text) → markers (marker_of ttl) ≡ 0
unfolding markers insert_field text_eq codes text_lt
marker_of-markers ttl = refl

pub mark_object-Marks : (ttl : Text) → Marks (mark_object ttl)
unfolding mark_object has_cache_control markers
mark_object-Marks ttl (object fs) w h = rw (sym (some_inj h)) (
  true_or (is_some (get_field cache_control (insert_field cache_control (marker_of ttl) fs)))
      (any_field (insert_field cache_control (marker_of ttl) fs))
      (rw
        (
          get_field-insert_field cache_control cache_control (marker_of ttl) fs,
          text_eq_refl cache_control,
        )
        refl),
  omega (arith, field_markers-insert_field cache_control (marker_of ttl) fs, marker_of-markers ttl),
)
mark_object-Marks ttl (array vs) w h = (ground arith, ground arith)
mark_object-Marks ttl null w h = (ground arith, ground arith)
mark_object-Marks ttl (bool b) w h = (ground arith, ground arith)
mark_object-Marks ttl (number n) w h = (ground arith, ground arith)
mark_object-Marks ttl (string s) w h = (ground arith, ground arith)

pub if-Marks :
    (c : Value → Bool) (f : Value → Option Value) → Marks f → Marks (λ v. if c v then f v else none)
if-Marks c f m v w h = elim (Bool-cases (c v)) [
  | inl t ↦ m v w (ground arith)
  | inr t ↦ (ground arith, ground arith)
]
