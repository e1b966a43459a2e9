-- ===== src/Server/Auth.antt =====
-- `check_client_auth` of server/logline_server/main.py, and the configuration that it reads.
use logline.Base.{not, Option, none, some, List, if◌then◌else◌, any, Bytes, Text, text_eq, codes}
use logline.Base.Encoding.{utf8}
use logline.Json.{Value, Fields, get, truthy, obj, as_str}
use logline.Fs.{FilePath}
use logline.Host.{Host, sha1_hex}
use logline.Server.World.{
  protocol_error, unknown_token, missing_token, missing_auth, unicode_error, Result, ok, err,
}

pub record Configuration : Type 0 where
  pub destination_directory : FilePath
  pub client_token_hashes : List Text

-- The token is in the configured set of hashes.
unfoldable pub check_token : Host → Configuration → Bytes → Result Unit
unfolding sha1_hex
check_token host conf ct_bytes =
    if any (text_eq (sha1_hex host ct_bytes)) conf.client_token_hashes
    then ok tt
    else err unknown_token

-- After `client_token.encode('utf-8')`.
unfoldable pub check_encoded : Host → Configuration → Option Bytes → Result Unit
unfolding check_token
check_encoded host conf none = err unicode_error
check_encoded host conf (some ct_bytes) = check_token host conf ct_bytes

-- After `isinstance(client_token, str)`.
unfoldable pub check_text : Host → Configuration → Option Text → Result Unit
unfolding check_encoded
check_text host conf none = err protocol_error
check_text host conf (some token) = check_encoded host conf (utf8 token)

unfoldable pub check_client_token : Host → Configuration → Value → Result Unit
unfolding check_text
check_client_token host conf client_token =
    if truthy client_token then check_text host conf (as_str client_token) else err missing_token

unfoldable pub check_client_auth : Host → Configuration → Fields → Result Unit
unfolding check_client_token
check_client_auth host conf header_auth =
    if not (truthy (obj header_auth))
    then err missing_auth
    else check_client_token host conf (get (codes "client_token") header_auth)
