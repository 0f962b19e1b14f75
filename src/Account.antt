-- ===== src/Account.antt =====
-- Accounts, of src/domain/account.rs: the stored credentials, the aliases that are safe, and the
-- account that a provider without a selection gets.
use local_proxy.Base.{
  ℕ, Bool, true, ◌||◌, ◌&&◌, not, Option, none, some, List, [], ◌∷◌, ◌≡◌, refl, ◌==◌, if◌then◌else◌,
  Text, text_eq_refl, text_lt, is_empty, codes, ltb, leb, byte_len, length, contains_text, all,
  arith, ◌↔◌, inl, inr, Bool-cases, some_inj, sym,
}

-- `expires` counts milliseconds after the epoch; a time before it is not modelled.
pub record OauthTokens : Type 0 where
  pub access : Text
  pub refresh : Text
  pub expires : ℕ
  pub account_id : Option Text

pub data AuthEntry : Type 0 where
  api : (key : Text) → AuthEntry
  oauth : OauthTokens → AuthEntry

unfoldable pub api_key : AuthEntry → Option Text
api_key (AuthEntry.api key) = some key
api_key (AuthEntry.oauth tokens) = none

unfoldable pub oauth_of : AuthEntry → Option OauthTokens
oauth_of (AuthEntry.api key) = none
oauth_of (AuthEntry.oauth tokens) = some tokens

unfoldable pub usable : AuthEntry → Bool
usable (AuthEntry.api key) = not (is_empty key)
usable (AuthEntry.oauth tokens) = not (is_empty tokens.access) || not (is_empty tokens.refresh)

unfoldable pub kind : AuthEntry → Text
kind (AuthEntry.api key) = codes "api"
kind (AuthEntry.oauth tokens) = codes "oauth"

abbrev pub is_ascii_alphanumeric : ℕ → Bool
is_ascii_alphanumeric c =
    (leb 48 c && leb c 57) || ((leb 65 c && leb c 90) || (leb 97 c && leb c 122))

abbrev pub is_alias_char : ℕ → Bool
is_alias_char c = is_ascii_alphanumeric c || (c == 46 || (c == 95 || c == 45))

-- A code point beyond ASCII has bytes of 128 and above only, so testing the code points is the
-- test of the bytes.
unfoldable pub is_valid_alias : Text → Bool
is_valid_alias alias = not (is_empty alias) && (leb (byte_len alias) 64 && all is_alias_char alias)

unfoldable pub min_onto : Text → List Text → Text
min_onto m [] = m
min_onto m (a ∷ aliases) = min_onto (if text_lt a m then a else m) aliases

unfoldable pub min_text : List Text → Option Text
min_text [] = none
min_text (a ∷ aliases) = some (min_onto a aliases)

unfoldable pub default_or_min : List Text → Option Text
default_or_min aliases =
    if ltb 1 (length aliases) && contains_text aliases (codes "default")
    then some (codes "default")
    else min_text aliases

unfoldable pub pick_selection : List Text → (legacy : Option Text) → Option Text
pick_selection aliases none = default_or_min aliases
pick_selection aliases (some l) = if contains_text aliases l then some l else default_or_min aliases

min_onto-mem :
    (m : Text) (aliases : List Text) → contains_text (m ∷ aliases) (min_onto m aliases) ≡ true
unfolding min_onto contains_text
min_onto-mem m [] = rw (text_eq_refl m) refl
min_onto-mem m (a ∷ aliases) = elim (Bool-cases (text_lt a m)) [
  | inl l ↦ ground (arith, min_onto-mem a aliases)
  | inr l ↦ ground (arith, min_onto-mem m aliases)
]

min_text-mem :
    (aliases : List Text) (a : Text) → min_text aliases ≡ some a → contains_text aliases a ≡ true
unfolding min_text
min_text-mem [] a h = ground arith
min_text-mem (b ∷ aliases) a h = rw (sym (some_inj h)) (min_onto-mem b aliases)

default_or_min-mem :
    (aliases : List Text) (a : Text)
    → default_or_min aliases ≡ some a
    → contains_text aliases a ≡ true
unfolding default_or_min
default_or_min-mem aliases a h =
    elim (Bool-cases (ltb 1 (length aliases) && contains_text aliases (codes "default"))) [
      | inl e ↦
          let q : some (codes "default") ≡ some a = ground (arith, e, h) in
          rw (sym (some_inj q)) (ground (arith, e))
      | inr e ↦ min_text-mem aliases a (ground (arith, e, h))
    ]

-- The account picked is one of the stored ones.
pub pick_selection-mem :
    (aliases : List Text) (legacy : Option Text) (a : Text)
    → pick_selection aliases legacy ≡ some a
    → contains_text aliases a ≡ true
unfolding pick_selection
pick_selection-mem aliases none a h = default_or_min-mem aliases a h
pick_selection-mem aliases (some l) a h = elim (Bool-cases (contains_text aliases l)) [
  | inl e ↦ ground (arith, e, h)
  | inr e ↦ default_or_min-mem aliases a (ground (arith, e, h))
]

-- A provider with an account has a selection, and one without has none.
pub pick_selection-none :
    (aliases : List Text) (legacy : Option Text)
    → (pick_selection aliases legacy ≡ none) ↔ (aliases ≡ [])
unfolding pick_selection default_or_min min_text contains_text
pick_selection-none [] none = ground arith
pick_selection-none [] (some l) = ground arith
pick_selection-none (a ∷ aliases) none = ground arith
pick_selection-none (a ∷ aliases) (some l) = ground arith
