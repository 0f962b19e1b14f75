-- ===== src/Config.antt =====
-- src/domain/config.rs: the configuration data, without its parsers. A `usize`, `u16` or `u64` is a
-- natural number.
use local_proxy.Base.{ℕ, Bool, Option, List, ◌∷◌, [], ◌++◌, Text, Dict, starts_with, if◌then◌else◌}

pub data ProviderFormat : Type 0 where
  anthropic openai openai_responses : ProviderFormat

pub data PromptCachePolicy : Type 0 where
  preserve anthropic_5m anthropic_1h : PromptCachePolicy

pub data TokenEncoding : Type 0 where
  json form : TokenEncoding

pub data OAuthFlow : Type 0 where
  paste callback : OAuthFlow

pub record OAuthProvider : Type 0 where
  pub flow : OAuthFlow
  pub authorize_url : Text
  pub token_url : Text
  pub client_id : Text
  pub scopes : List Text
  pub redirect_uri : Text
  pub authorize_params : Dict Text
  pub token_params : Dict Text
  pub headers : Dict Text
  pub identity : Option Text
  pub token_encoding : TokenEncoding
  pub account_id_claim : Option Text
  pub account_id_header : Option Text

pub record Server : Type 0 where
  pub host : Text
  pub port : ℕ
  pub api_keys : List Text
  pub passthrough_keys : Bool

pub record Provider : Type 0 where
  pub name : Text
  pub base_url : Text
  pub format : ProviderFormat
  pub models : List Text
  pub context_windows : Dict ℕ
  pub auto_model : Option Text
  pub headers : Dict Text
  pub session_header : Option Text
  pub oauth : Option OAuthProvider
  pub prompt_cache : PromptCachePolicy

pub record Route : Type 0 where
  pub model : Text
  pub provider : Text
  pub prefix : Bool
  pub upstream_model : Option Text
  pub reasoning_effort : Option Text

pub record Exec : Type 0 where
  pub enabled : Bool
  pub token : Text
  pub command : Text
  pub timeout_secs : ℕ

pub record Defaults : Type 0 where
  pub provider : Text
  pub active_model : Option Text
  pub active_effort : Option Text
  pub active_accounts : Dict Text

pub record Config : Type 0 where
  pub server : Server
  pub providers : List Provider
  pub routes : List Route
  pub defaults : Defaults
  pub exec : Exec

-- `provider/model`, unless the model carries that prefix.
unfoldable pub qualified_id : Text → Text → Text
unfolding starts_with
qualified_id provider model =
    if starts_with (provider ++ b'/' ∷ []) model then model else provider ++ b'/' ∷ model
