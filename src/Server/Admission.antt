-- ===== src/Server/Admission.antt =====
-- Who may change the disk: `check_client_auth` accepts a client exactly when it presents a token
-- whose hash is configured, and a connection without such a token leaves the disk as it was.
pub mod Disk
use logline.Base.{
  ℕ, ◌≡◌, refl, sym, ap, ◌∙◌, ◌≢◌, ◌↔◌, ◌⊎◌, inl, inr, Bool, true, false, not, Bool-cases, Option,
  none, some, List, [], ◌∷◌, ◌++◌, ◌||◌, any, if◌then◌else◌, Text, Bytes, text_eq, text_eq_iff,
  arith, codes,
}
use logline.Base.Encoding.{utf8}
use logline.Json.{
  Value, null, bool, int, float, arr, str, Fields, field, end, get, truthy, obj, as_str,
}
use logline.Host.{Host, sha1_hex}
use logline.Server.World.{Error, Result, ok, err, World, Action, raise, ◌>>=◌}
use logline.Server.World.Keeps.{IsStable, Keeps, keeps_rules}
use logline.Server.World.Gives.{Gives, Gives-bind, Gives-then, Gives-raise}
use logline.Server.Quiet.{
  IsQuiet, Keeps-record_event, Keeps-record_auth_failure, Keeps-recv_command,
}
use logline.Server.Auth.{
  Configuration, check_token, check_encoded, check_client_token, check_client_auth,
}

abbrev pub Member : Text → List Text → Type 0
Member t [] = ⊥
Member t (s ∷ ts) = (t ≡ s) ⊎ Member t ts

any-Member : (t : Text) (ts : List Text) → (any (text_eq t) ts ≡ true) ↔ Member t ts
any-Member t [] = (λ h. cc, λ h. absurd h)
any-Member t (s ∷ ts) = ground (arith, text_eq_iff t s, any-Member t ts)

-- A token that the configuration knows: a text that is not empty and whose hash is listed.
pub record IsKnown (host : Host) (conf : Configuration) (auth : Fields) : Type 0 where
  pub token : Text
  pub presented : get (codes "client_token") auth ≡ str token
  pub present : token ≢ []
  pub bytes : Bytes
  pub encoded : utf8 token ≡ some bytes
  pub listed : Member (sha1_hex host bytes) conf.client_token_hashes

-- The same of the value that stands under `client_token`.
record IsKnownToken (host : Host) (conf : Configuration) (v : Value) : Type 0 where
  token : Text
  presented : v ≡ str token
  present : token ≢ []
  bytes : Bytes
  encoded : utf8 token ≡ some bytes
  listed : Member (sha1_hex host bytes) conf.client_token_hashes

module _ (host : Host) (conf : Configuration) where
  token-IsKnown :
      (c : ℕ) (s : Text) (o : Option Bytes)
      → utf8 (c ∷ s) ≡ o
      → check_encoded host conf o ≡ ok tt
      → IsKnownToken host conf (str (c ∷ s))
  unfolding check_encoded
  token-IsKnown c s none e h = cc
  token-IsKnown c s (some b) e h = record {
    token = c ∷ s;
    presented = refl;
    present = cc;
    bytes = b;
    encoded = e;
    listed = (any-Member (sha1_hex host b) conf.client_token_hashes).0 (ground arith);
  }

  value-IsKnown : (v : Value) → check_client_token host conf v ≡ ok tt → IsKnownToken host conf v
  unfolding check_client_token truthy
  value-IsKnown (str []) h = cc
  value-IsKnown (str (c ∷ s)) h = token-IsKnown c s (utf8 (c ∷ s)) refl h
  value-IsKnown null h = cc
  value-IsKnown (bool b) h = ground arith
  value-IsKnown (int z) h = ground arith
  value-IsKnown (float b) h = ground arith
  value-IsKnown (arr xs) h = ground arith
  value-IsKnown (obj fs) h = ground arith

  text_accepted :
      (token : Text) (b : Bytes)
      → token ≢ []
      → utf8 token ≡ some b
      → Member (sha1_hex host b) conf.client_token_hashes
      → check_client_token host conf (str token) ≡ ok tt
  unfolding check_client_token truthy
  text_accepted [] b p e m = absurd (p refl)
  text_accepted (c ∷ s) b p e m =
      rw e (rw ((any-Member (sha1_hex host b) conf.client_token_hashes).1 m))

  fields_accepted :
      (auth : Fields) (v : Value)
      → get (codes "client_token") auth ≡ v
      → v ≢ null
      → check_client_token host conf v ≡ ok tt
      → check_client_auth host conf auth ≡ ok tt
  unfolding check_client_auth get truthy
  fields_accepted end v e n h = absurd (n (sym e))
  fields_accepted (field k u fs) v e n h = cc

  fields_checked :
      (auth : Fields)
      → check_client_auth host conf auth ≡ ok tt
      → check_client_token host conf (get (codes "client_token") auth) ≡ ok tt
  unfolding check_client_auth get truthy
  fields_checked end h = cc
  fields_checked (field k u fs) h = h

  -- The server accepts the `auth` object of a handshake exactly when it holds a non-empty token
  -- that can be encoded and whose hash is one of those configured.
  pub check_client_auth_iff :
      (auth : Fields) → (check_client_auth host conf auth ≡ ok tt) ↔ IsKnown host conf auth
  check_client_auth_iff auth = (known, accepted)
    where
      known : check_client_auth host conf auth ≡ ok tt → IsKnown host conf auth
      known h =
          let k = value-IsKnown _ (fields_checked auth h) in
          record {
            token = k.token;
            presented = k.presented;
            present = k.present;
            bytes = k.bytes;
            encoded = k.encoded;
            listed = k.listed;
          }

      accepted : IsKnown host conf auth → check_client_auth host conf auth ≡ ok tt
      accepted k =
          fields_accepted auth (str k.token) k.presented (λ e. cc)
            (text_accepted k.token k.bytes k.present k.encoded k.listed)
