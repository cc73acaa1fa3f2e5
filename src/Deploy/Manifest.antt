-- ===== src/Deploy/Manifest.antt =====
-- backend/internal/deploy/manifest.go: the functions of a manifest and its configuration. Texts
-- that are only compared are numbers, 0 for the empty text.
use pbvex.Base.{ℕ, ◌==◌, Bool, not, ◌||◌, Option, none, some, List, if◌then◌else◌}

pub data FunctionType : Type 0 where
  query mutation action http_action : FunctionType

pub data FunctionVisibility : Type 0 where
  visible_public visible_internal : FunctionVisibility

pub record FunctionDescriptor : Type 0 where
  pub name : ℕ
  pub type : FunctionType
  pub visibility : FunctionVisibility
  pub module_path : ℕ

pub record DeploymentConfig : Type 0 where
  pub http_path_prefix : ℕ
  pub realtime_path : ℕ
  pub max_upload_bytes : ℕ
  pub max_function_args_bytes : ℕ
  pub max_return_value_bytes : ℕ
  pub default_request_timeout_ms : ℕ

-- The keys that the JSON of a configuration holds.
pub record Present : Type 0 where
  pub http_path_prefix : Bool
  pub realtime_path : Bool
  pub max_upload_bytes : Bool
  pub max_function_args_bytes : Bool
  pub max_return_value_bytes : Bool
  pub default_request_timeout_ms : Bool

-- `if cfg.has(field) || cfg.Field != zero { out.Field = cfg.Field }`.
abbrev or_given : Bool → ℕ → ℕ → ℕ
or_given has value default = if has || not (value == 0) then value else default

-- `default` stands for DefaultDeploymentConfig.
unfoldable pub normalize_config :
    DeploymentConfig → Option (DeploymentConfig × Present) → DeploymentConfig
normalize_config default none = default
normalize_config default (some (cfg, has)) = record {
  http_path_prefix = or_given has.http_path_prefix cfg.http_path_prefix default.http_path_prefix;
  realtime_path = or_given has.realtime_path cfg.realtime_path default.realtime_path;
  max_upload_bytes = or_given has.max_upload_bytes cfg.max_upload_bytes default.max_upload_bytes;
  max_function_args_bytes =
      or_given has.max_function_args_bytes cfg.max_function_args_bytes
        default.max_function_args_bytes;
  max_return_value_bytes =
      or_given has.max_return_value_bytes cfg.max_return_value_bytes default.max_return_value_bytes;
  default_request_timeout_ms =
      or_given has.default_request_timeout_ms cfg.default_request_timeout_ms
        default.default_request_timeout_ms;
}

-- The parts of DeploymentManifest that the scheduler reads. `namespace_for_module` stands for
-- NamespaceForModule over the manifest's components: the namespace's ID, if the module has one.
pub record DeploymentManifest : Type 0 where
  pub functions : List FunctionDescriptor
  pub config : Option (DeploymentConfig × Present)
  pub namespace_for_module : ℕ → Option ℕ
