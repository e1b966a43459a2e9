-- ===== src/Config/Complete.antt =====
-- What a configuration that is accepted has.
use logline.Base.{
  ℕ, ◌≡◌, refl, Bool, true, false, ◌||◌, Option, none, some, [], ◌∷◌, if◌then◌else◌, Text, is_empty,
  text_eq, codes, arith, ◌⊎◌, inl, inr, Bool-cases,
}
use logline.Json.{Value, str, Fields, get, truthy}
use logline.Config.{
  ConfigError, configuration_error, other_error, Outcome, ok, err, ◌>>=◌, require, ConfPath,
  Environment, given, Metrics, strip_space, lower, metrics_settings, sdk_disabled, beside_conf,
}
use logline.Config.Address.{parse_address}
use logline.Config.Agent
use logline.Config.Agent.{
  is_nil, is_some, is_present, address_of, server_address, read_stripped, token_from_conf,
  token_from_env, client_token, wants_tls,
}

-- The result of the last step of a chain, under any first step.
module _ {B : Type 0} (P : B → Type 0) where
  abbrev pub Holds : Outcome B → Type 0
  Holds (ok b) = P b
  Holds (err e) = Unit

  pub record Yields (m : Outcome B) : Type 0 where
    pub holds : Holds m

  pub then-Yields :
      {A : Type 0} (m : Outcome A) (f : A → Outcome B)
      → ((a : A) → m ≡ ok a → Yields (f a))
      → Yields (m >>= f)
  unfolding ◌>>=◌
  then-Yields (ok a) f h = h a refl
  then-Yields (err e) f h = record { holds = tt }

  pub require-Yields :
      (b : Bool) (e : ConfigError) (f : Unit → Outcome B)
      → (b ≡ true → Yields (f tt))
      → Yields (require b e >>= f)
  unfolding ◌>>=◌
  require-Yields true e f h = h refl
  require-Yields false e f h = record { holds = tt }

  pub of_ok : (m : Outcome B) (b : B) → m ≡ ok b → Holds m → P b
  of_ok (ok c) b e h = let p : c ≡ b = cc in rw (← p) h
  of_ok (err e') b e h = cc

-- A token that was read from a file.
pub IsRead : Environment → Value → Type 0
IsRead env token =
    (path : ConfPath) × (s : Text) × (env.read_text path ≡ some s)
    × (token ≡ str (strip_space env s))

-- Metrics that the environment does not turn off.
unfoldable pub IsAllowed : Environment → Metrics → Type 0
IsAllowed env m =
    m.enabled ≡ true
    → (s : Text) → env.getenv (codes "OTEL_SDK_DISABLED") ≡ some s
    → text_eq (lower (strip_space env s)) (codes "true") ≡ false

pub metrics-IsAllowed :
    (env : Environment) (cfg : Fields) → IsAllowed env (metrics_settings env cfg)
unfolding IsAllowed metrics_settings sdk_disabled
metrics-IsAllowed env cfg h s e = ground arith

-- What the agent may rely on.
pub record IsComplete (env : Environment) (args : Agent.Args) (c : Agent.Configuration)
    : Type 0 where
  pub scanned : is_nil c.scan_globs ≡ false
  pub addressed : (s : Text) × (parse_address s ≡ ok (c.server_host, c.server_port))
  pub cert_file : (path : ConfPath) → c.tls_cert_file ≡ some path → env.is_file path ≡ true
  pub plain : c.use_tls ≡ false → (args.tls ≡ false) × (c.tls_cert_file ≡ none)
  pub identified : (truthy c.client_token ≡ true) ⊎ IsRead env c.client_token
  pub measured : IsAllowed env c.metrics

abbrev Identified : Environment → Value → Type 0
Identified env t = (truthy t ≡ true) ⊎ IsRead env t

read-Identified :
    (env : Environment) (path : ConfPath)
    → Holds (Identified env) (read_stripped env path >>= λ s. ok (str s))
unfolding read_stripped IsRead ◌>>=◌
read-Identified env path = read (env.read_text path) refl
  where
    read :
        (o : Option Text)
        → env.read_text path ≡ o
        → Holds (Identified env) (
            (elim o [ none ↦ err other_error | some s ↦ ok (strip_space env s) ]) >>= λ s.
            ok (str s))
    read none e = tt
    read (some s) e = inr (path, s, e, refl)

str-truthy : (s : Text) → is_empty s ≡ false → truthy (str s) ≡ true
unfolding truthy
str-truthy [] h = cc
str-truthy (c ∷ s) h = refl

conf-Identified :
    (env : Environment) (cfg : Fields) → Holds (Identified env) (token_from_conf env cfg)
unfolding token_from_conf
conf-Identified env cfg = elim (Bool-cases (truthy (get (codes "client_token") cfg))) [
  | inl t ↦ rw t (inl t)
  | inr f ↦ rw f (elim (Bool-cases (truthy (get (codes "client_token_file") cfg))) [
    | inl t ↦
        rw t
          (then-Yields (Identified env) (beside_conf (get (codes "client_token_file") cfg)) _
            λ path _. record { holds = read-Identified env path }).holds
    | inr f' ↦ rw f' tt
  ])
]

env-Identified :
    (env : Environment) (cfg : Fields) → Holds (Identified env) (token_from_env env cfg)
unfolding token_from_env
env-Identified env cfg = pick (env.getenv (codes "CLIENT_TOKEN"))
  where
    pick :
        (o : Option Text)
        → Holds (Identified env) (elim o [
          | none ↦ token_from_conf env cfg
          | some s ↦ if is_empty s then token_from_conf env cfg else ok (str s)
        ])
    pick none = conf-Identified env cfg
    pick (some s) = elim (Bool-cases (is_empty s)) [
      | inl empty ↦ rw empty (conf-Identified env cfg)
      | inr text ↦ rw text (inl (str-truthy s text))
    ]

client_token-Identified :
    (env : Environment) (option : Option Text) (cfg : Fields)
    → Holds (Identified env) (client_token env option cfg)
unfolding client_token
client_token-Identified env none cfg = env-Identified env cfg
client_token-Identified env (some path) cfg = elim (Bool-cases (is_empty path)) [
  | inl empty ↦ rw empty (env-Identified env cfg)
  | inr text ↦ rw text (read-Identified env (given path))
]

wants_tls-plain :
    (option : Bool) (cert : Option ConfPath) (use_tls : Bool) (tls : Value)
    → wants_tls (option || is_some cert) tls ≡ ok use_tls
    → use_tls ≡ false
    → (option ≡ false) × (cert ≡ none)
unfolding wants_tls
wants_tls-plain true cert use_tls tls e h = absurd (cc)
wants_tls-plain false (some path) use_tls tls e h = absurd (cc)
wants_tls-plain false none use_tls tls e h = (refl, refl)

present_file :
    (env : Environment) (o : Option ConfPath) (path : ConfPath)
    → is_present env o ≡ true
    → o ≡ some path
    → env.is_file path ≡ true
unfolding is_present
present_file env none path h e = absurd (cc)
present_file env (some p) path h e = let same : p ≡ path = cc in rw (← same) h

abbrev Parsed : Text × ℕ → Type 0
Parsed a = (s : Text) × (parse_address s ≡ ok a)

address_of-Parsed : (v : Value) (a : Text × ℕ) → address_of v ≡ ok a → Parsed a
unfolding address_of
address_of-Parsed (str s) a e = (s, e)
address_of-Parsed Value.null a e = absurd (cc)
address_of-Parsed (Value.bool b) a e = absurd (cc)
address_of-Parsed (Value.int n) a e = absurd (cc)
address_of-Parsed (Value.float b) a e = absurd (cc)
address_of-Parsed (Value.arr vs) a e = absurd (cc)
address_of-Parsed (Value.obj fs) a e = absurd (cc)

file-Parsed :
    (v : Value) (a : Text × ℕ)
    → (if truthy v then address_of v else err configuration_error) ≡ ok a
    → Parsed a
file-Parsed v a e = elim (Bool-cases (truthy v)) [
  | inl given_value ↦ address_of-Parsed v a (rw given_value at e)
  | inr missing ↦ absurd (
      let x : ◌≡◌ {A = Outcome (Text × ℕ)} (err configuration_error) (ok a) = rw missing at e in cc)
]

server_address-Parsed :
    (option : Option Text) (v : Value) (a : Text × ℕ) → server_address option v ≡ ok a → Parsed a
unfolding server_address
server_address-Parsed none v a e = file-Parsed v a e
server_address-Parsed (some s) v a e = elim (Bool-cases (is_empty s)) [
  | inl empty ↦ file-Parsed v a (rw empty at e)
  | inr text ↦ (s, rw text at e)
]

configure-Yields :
    (env : Environment) (args : Agent.Args)
    → Yields (IsComplete env args) (Agent.configure env args)
unfolding Agent.configure
configure-Yields env args =
    let P = IsComplete env args in
    then-Yields P _ _ λ cfg _. then-Yields P _ _ λ log_cfg _. then-Yields P _ _ λ log_file _.
      then-Yields P _ _ λ level _. then-Yields P _ _ λ scan _. require-Yields P _ _ _ λ scanned.
        then-Yields P _ _ λ exclude _. then-Yields P _ _ λ ephemeral _.
          then-Yields P _ _ λ present _. then-Yields P _ _ λ address parsed.
            then-Yields P _ _ λ cert _. require-Yields P _ _ _ λ is_file.
              then-Yields P _ _ λ use_tls wanted. then-Yields P _ _ λ token found.
                then-Yields P _ _ λ metrics_cfg _. record {
                  holds = record {
                    scanned = ground arith;
                    addressed = server_address-Parsed _ _ address parsed;
                    cert_file = λ path h. present_file env cert path is_file h;
                    plain = λ h. wants_tls-plain args.tls cert use_tls _ wanted h;
                    identified = of_ok _ _ token found (client_token-Identified env _ _);
                    measured = metrics-IsAllowed env metrics_cfg;
                  };
                }

-- A configuration that the agent accepts has something to scan, and an address that was parsed from a
-- text; the certificate is a file, if it names one; it is without TLS only where neither the option asks
-- for it nor a certificate is named; its token is not empty, or was read from a file, where it may be
-- empty; and metrics are on only where `OTEL_SDK_DISABLED` does not turn them off.
pub configure-IsComplete :
    (env : Environment) (args : Agent.Args) (c : Agent.Configuration)
    → Agent.configure env args ≡ ok c
    → IsComplete env args c
configure-IsComplete env args c e =
    of_ok (IsComplete env args) _ c e (configure-Yields env args).holds
