-- ===== src/Core/Models.antt =====
-- crates/darius-core/src/config.rs: the configuration of a model, and the catalog that the picker
-- shows.
use darius.Base.{ℕ, String, Option, none, some, List, [], ◌∷◌, ◌++◌, map, Dict, ◌>>=◌, or_default}
use darius.Core.Providers.{AuthType, ProviderProfile, all_profiles, resolve}

pub record ModelConfig : Type 0 where
  pub provider : String
  pub base_url : String
  pub model : String
  pub api_key_env : String
  pub auth_type : Option AuthType
  pub default_max_tokens : Option ℕ
  pub context_length : Option ℕ
  pub headers : Option (Dict String String)

pub record ModelCatalogEntry : Type 0 where
  pub id : String
  pub label : String
  pub provider : String
  pub model : String
  pub base_url : String

catalog_entry : ProviderProfile → String → ModelCatalogEntry
catalog_entry p m = record { id = m; label = m; provider = p.id; model = m; base_url = p.base_url }

flat : List ProviderProfile → List ModelCatalogEntry
unfolding catalog_entry
flat [] = []
flat (p ∷ ps) = map (catalog_entry p) p.fallback_models ++ flat ps

unfoldable pub default_model_catalog : List ModelCatalogEntry
unfolding flat
default_model_catalog = flat all_profiles

profile_key_env : Option ProviderProfile → String
profile_key_env profile = or_default "NONE" (profile >>= λ (p : ProviderProfile). p.key_env)

unfoldable pub catalog_entry_to_config : ModelCatalogEntry → ModelConfig
unfolding profile_key_env
catalog_entry_to_config entry =
    let profile = resolve entry.provider in
    record {
      provider = entry.provider;
      base_url = entry.base_url;
      model = entry.model;
      api_key_env = profile_key_env profile;
      auth_type = profile >>= λ (p : ProviderProfile). some p.auth_type;
      default_max_tokens = profile >>= λ (p : ProviderProfile). p.default_max_tokens;
      context_length = none;
      headers = none;
    }
