-- ===== src/Server/World.antt =====
-- What one connection of the server sees and changes, and the actions on it: they may raise, and
-- what they did before that stays done.
pub mod Keeps
pub mod Gives
use logline.Base.{
  ℕ, ◌≡◌, refl, Bool, true, false, Option, none, some, List, [], ◌∷◌, ◌++◌, if◌then◌else◌, Bytes,
  Text,
}
use logline.Fs.{FilePath, Fs}

-- The exceptions, told apart where the program or this development does.
pub data Error : Type 0 where
  connection_closed received_http_request protocol_error timeout : Error
  unknown_token missing_token missing_auth unexpected_hello unsupported_compression : Error
  incomplete_read value_error attribute_error unicode_error json_error : Error
  decompress_error no_zstd file_not_found os_error : Error

pub data Result (A : Type 0) : Type 0 where
  ok : A → Result A
  err : Error → Result A

-- server/logline_server/telemetry.py: a measurement with its labels. A duration is a reading of
-- the clock and is left out.
pub data Event : Type 0 where
  connection : Text → Event
  active_connection_inc active_connection_dec : Event
  bytes_received bytes_written : ℕ → Event
  write_duration : Event
  decompress_duration : Text → Event
  protocol_error : Text → Event
  auth_failure : Event
  rename : Text → Event

-- What was made durable by `os.fsync`: an inode with its bytes, or the entries of a directory.
pub data Sync : Type 0 where
  synced_file : ℕ → Bytes → Sync
  synced_dir : FilePath → Sync

-- `input` is all that the client will ever send and the server has not read, up to its end.
pub record World : Type 0 where
  pub fs : Fs
  pub syncs : List Sync
  pub input : Bytes
  pub output : Bytes
  pub closed : Bool
  pub metrics_enabled : Bool
  pub metrics : List Event

abbrev pub Action : Type 0 → Type 0
Action A = World → Result A × World

module _ {A : Type 0} where
  unfoldable pub pure : A → Action A
  pure a w = (ok a, w)

  unfoldable pub raise : Error → Action A
  raise e w = (err e, w)

  unfoldable pub or_raise : Error → Option A → Action A
  or_raise e none w = (err e, w)
  or_raise e (some a) w = (ok a, w)

  unfoldable pub gets : (World → A) → Action A
  gets f w = (ok (f w), w)

unfoldable pub modify : (World → World) → Action Unit
modify f w = (ok tt, f w)

-- A call of the file system that gives a new one, or none where it raises.
unfoldable pub commit : Option Fs → Action Unit
commit none w = (err os_error, w)
commit (some fs) w = (ok tt, record w { fs = fs })

unfoldable pub update_fs : (Fs → Option Fs) → Action Unit
unfolding commit
update_fs f w = commit (f w.fs) w

unfoldable pub unless : Bool → Error → Action Unit
unless true e w = (ok tt, w)
unless false e w = (err e, w)

module _ {A B : Type 0} where
  abbrev pub continue : Result A → (A → Action B) → Action B
  continue (ok a) f w = f a w
  continue (err e) f w = (err e, w)

  infixl 10 ◌>>=◌ ◌>>◌
  unfoldable pub ◌>>=◌ : Action A → (A → Action B) → Action B
  unfolding pure raise or_raise gets modify update_fs unless
  ◌>>=◌ m f w = let (r, w') = m w in continue r f w'

  abbrev pub ◌>>◌ : Action A → Action B → Action B
  m >> n = m >>= λ _. n
