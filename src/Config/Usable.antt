-- ===== src/Config/Usable.antt =====
-- What a configuration that the server accepts has.
use logline.Base.{◌≡◌, refl, false, List, ◌++◌, arith}
use logline.Json.{Value, null}
use logline.Config.{ok, Environment, metrics_settings, texts}
use logline.Config.Agent.{is_nil, is_some}
use logline.Config.Server.{Args, Configuration, configure}
use logline.Config.Complete.{
  Yields, then-Yields, require-Yields, of_ok, IsAllowed, metrics-IsAllowed,
}

-- What the server may rely on.
pub record IsUsable (env : Environment) (args : Args) (c : Configuration) : Type 0 where
  pub authenticating : is_nil c.client_token_hashes ≡ false
  pub secured : c.use_tls ≡ is_some c.tls_cert_file
  pub listed :
      (hashes : List Value) × (c.client_token_hashes ≡ texts args.client_token_hash ++ hashes)
  pub measured : IsAllowed env c.metrics
  pub unnamed : c.metrics.enabled ≡ false → c.metrics.host_name ≡ null

configure-Yields :
    (env : Environment) (args : Args) → Yields (IsUsable env args) (configure env args)
unfolding configure metrics_settings
configure-Yields env args =
    let P = IsUsable env args in
    then-Yields P _ _ λ cfg _. then-Yields P _ _ λ log_cfg _. then-Yields P _ _ λ log_file _.
      then-Yields P _ _ λ level _. then-Yields P _ _ λ address _. then-Yields P _ _ λ dest _.
        then-Yields P _ _ λ directory _. then-Yields P _ _ λ cert _. then-Yields P _ _ λ key _.
          then-Yields P _ _ λ password _. then-Yields P _ _ λ listed _.
            then-Yields P _ _ λ hashes _. require-Yields P _ _ _ λ some_hash.
              then-Yields P _ _ λ metrics_cfg _. record {
                holds = record {
                  authenticating = ground arith;
                  secured = refl;
                  listed = (hashes, refl);
                  measured = metrics-IsAllowed env metrics_cfg;
                  unnamed = λ h. ground arith;
                };
              }

-- A configuration that the server accepts has a token hash, the ones of the options before those of
-- the file; TLS exactly where it has a certificate; metrics only where `OTEL_SDK_DISABLED` does not
-- turn them off, and no host name for them where they are off.
pub configure-IsUsable :
    (env : Environment) (args : Args) (c : Configuration)
    → configure env args ≡ ok c
    → IsUsable env args c
configure-IsUsable env args c e = of_ok (IsUsable env args) _ c e (configure-Yields env args).holds
