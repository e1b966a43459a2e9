-- ===== src/Config.antt =====
-- The configuration of both programs: what agent/logline_agent/configuration.py and
-- server/logline_server/configuration.py have in common.
pub mod Address
pub mod Agent
pub mod Server
pub mod Complete
pub mod Usable
pub mod Samples
mod Tests
use logline.Base.{
  ℕ, ◌+◌, ◌≡◌, refl, Bool, true, false, ◌&&◌, ◌||◌, not, Option, none, some, List, [], ◌∷◌, ◌++◌,
  leb, if◌then◌else◌, map, Text, text_eq, is_empty, codes,
}
use logline.Json.{
  Value, null, bool, int, float, str, arr, obj, Items, nil, cons, Fields, end, get, truthy,
}

-- `ConfigurationError`, and the other exceptions that a configuration can lead to.
pub data ConfigError : Type 0 where
  configuration_error other_error : ConfigError

pub data Outcome (A : Type 0) : Type 0 where
  ok : A → Outcome A
  err : ConfigError → Outcome A

infixl 10 ◌>>=◌ ◌>>◌
unfoldable pub ◌>>=◌ : {A B : Type 0} → Outcome A → (A → Outcome B) → Outcome B
ok a >>= f = f a
err e >>= f = err e

abbrev pub ◌>>◌ : {A B : Type 0} → Outcome A → Outcome B → Outcome B
m >> n = m >>= λ _. n

abbrev pub require : Bool → ConfigError → Outcome Unit
require true e = ok tt
require false e = err e

-- A path of the configuration: as it is given on the command line, or beside the file.
pub data ConfPath : Type 0 where
  given : Text → ConfPath
  beside : Text → ConfPath

-- What a configuration is made from, besides the command line.
pub record Environment : Type 0 where
  -- `yaml.safe_load` of the configuration file; none where it raises
  pub load : Text → Option Value
  -- `os.environ.get`
  pub getenv : Text → Option Text
  -- `path.read_text()`; none where it raises
  pub read_text : ConfPath → Option Text
  -- `path.is_file()`
  pub is_file : ConfPath → Bool
  -- `str.isspace` of a character
  pub is_space : ℕ → Bool

-- `if args.x:` of an option with a text.
abbrev pub given_text : Option Text → Bool
given_text none = false
given_text (some s) = not (is_empty s)

-- The file's contents: an empty or comments-only file loads as `None`.
pub loaded : Option Value → Outcome Fields
loaded none = err ConfigError.other_error
loaded (some (obj fs)) = ok fs
loaded (some v) = if truthy v then err ConfigError.other_error else ok end

unfoldable pub load_fields : Environment → Option Text → Outcome Fields
unfolding loaded
load_fields env none = ok end
load_fields env (some path) = if is_empty path then ok end else loaded (env.load path)

-- `cfg.get(key) or {}`, where its keys are then asked for.
pub sub_fields : Value → Outcome Fields
sub_fields (obj fs) = ok fs
sub_fields v = if truthy v then err ConfigError.other_error else ok end

unfoldable pub section : Text → Fields → Outcome Fields
unfolding sub_fields
section key cfg = sub_fields (get key cfg)

-- `cfg_dir / value`
pub beside_conf : Value → Outcome ConfPath
beside_conf (str s) = ok (beside s)
beside_conf v = err ConfigError.other_error

-- The path of an option, of a key of the file, or none.
unfoldable pub pick_path : Option Text → Value → Outcome (Option ConfPath)
unfolding beside_conf
pick_path none value = if truthy value then beside_conf value >>= (λ p. ok (some p)) else ok none
pick_path (some s) value =
    if is_empty s
    then (if truthy value then beside_conf value >>= (λ p. ok (some p)) else ok none)
    else ok (some (given s))

-- `(cfg.get(section) or {}).get(key)`: a value that is truthy and no dict is an exception.
unfoldable pub entry : Text → Value → Outcome Value
unfolding sub_fields
entry key v = sub_fields v >>= λ fs. ok (get key fs)

-- The path of an option, or of a key of a section, which is looked at without the option alone.
unfoldable pub pick_entry : Option Text → Text → Value → Outcome (Option ConfPath)
unfolding pick_path entry
pick_entry option key v =
    if given_text option then pick_path option null else entry key v >>= pick_path none

items : Items → List Value
items nil = []
items (cons v vs) = v ∷ items vs

-- `if value: assert isinstance(value, list)`, and its items.
unfoldable pub as_list : Value → Outcome (List Value)
unfolding items
as_list (arr vs) = ok (items vs)
as_list v = if truthy v then err ConfigError.other_error else ok []

-- The texts of a repeatable option.
unfoldable pub texts : Option (List Text) → List Value
texts none = []
texts (some ts) = map str ts

-- `s.strip()`, for the white space of the environment.
strip_left : (ℕ → Bool) → Text → Text
strip_left p [] = []
strip_left p (c ∷ s) = let rest = strip_left p s in if p c then rest else c ∷ s

strip_right : (ℕ → Bool) → Text → Text
strip_right p [] = []
strip_right p (c ∷ s) = let rest = strip_right p s in if p c && is_empty rest then [] else c ∷ rest

unfoldable pub strip_space : Environment → Text → Text
unfolding strip_left strip_right
strip_space env s = strip_right env.is_space (strip_left env.is_space s)

-- `s.lower()`, for the letters of ASCII: no other character has a lower case that the texts compared
-- with it could match.
unfoldable pub lower : Text → Text
lower [] = []
lower (c ∷ s) = (if leb b'A' c && leb c b'Z' then c + 32 else c) ∷ lower s

pub data LogLevel : Type 0 where
  debug info : LogLevel

-- `LOG_FILE_LEVELS[…]`
level_named : Text → Outcome LogLevel
level_named name =
    if text_eq name (codes "debug")
    then ok debug
    else if text_eq name (codes "info")
    then ok info
    else err ConfigError.configuration_error

-- `str(value)` of any other truthy value is the name of no level.
unfoldable pub parse_log_file_level : Environment → Value → Outcome LogLevel
unfolding level_named
parse_log_file_level env (str s) =
    if is_empty s then ok info else level_named (lower (strip_space env s))
parse_log_file_level env value =
    if truthy value then err ConfigError.configuration_error else ok info

-- `a or b` of an optional value and a variable of the environment.
unfoldable pub or_env : Value → Option Text → Value
or_env value none = if truthy value then value else null
or_env value (some s) = if truthy value then value else str s

-- The settings of the metrics.
pub record Metrics : Type 0 where
  pub enabled : Bool
  pub endpoint : Value
  pub host_name : Value

unfoldable pub sdk_disabled : Environment → Option Text → Bool
sdk_disabled env none = false
sdk_disabled env (some s) = text_eq (lower (strip_space env s)) (codes "true")

unfoldable pub metrics_settings : Environment → Fields → Metrics
unfolding sdk_disabled or_env
metrics_settings env cfg =
    let enabled =
      truthy (get (codes "enabled") cfg)
      && not (sdk_disabled env (env.getenv (codes "OTEL_SDK_DISABLED"))) in
    record {
      enabled = enabled;
      endpoint =
          or_env (get (codes "endpoint") cfg) (env.getenv (codes "OTEL_EXPORTER_OTLP_ENDPOINT"));
      host_name =
          if enabled
          then or_env (get (codes "host_name") cfg) (env.getenv (codes "LOGLINE_HOST_NAME"))
          else null;
    }
