-- ===== src/Agent/Network.antt =====
-- What a segment of the agent runs on: its own state, the file that it reads and its connections
-- to a server, with the actions on them.
pub mod Keeps
use logline.Base.{ℕ, Bool, Option, Bytes, Text}

-- The reply to a header.
pub record HeaderReply : Type 0 where
  pub length : ℕ
  pub prefix_sha1 : Option Text

-- The surroundings of a segment. They may change in any way while a call is awaited: the file
-- grows, the server stops, a reply is lost. A call that raises gives none or false.
pub record Network : Type 1 where
  pub State : Type 0
  -- the bytes that a read of the file at its beginning would give
  pub source : State → Bytes
  -- `connect_to_server` for a target and a prefix
  pub connect : Text → Bytes → State → Option HeaderReply × State
  -- `send_data` on the connection that was opened last
  pub send_data : ℕ → Bytes → State → Bool × State
  -- `send_rename` on that connection
  pub send_rename : Text → Text → State → Bool × State
  -- `utc_iso_dt()`
  pub utc_iso_dt : State → Text
  -- `markers.sha13_for(iso_dt)`
  pub sha13_for : Text → State → Option Text × State
  -- `asyncio.sleep`
  pub sleep : State → State

-- What the coordinator asks of a segment.
pub record Seal : Type 0 where
  pub seal_name : Text
  pub is_orphan : Bool
  pub iso_dt : Text

-- coordinator.py, `Segment`: `position` is that of its file stream, `header_length` the length in
-- the header reply of its connection, and `bytes_read` what was reported to the metrics.
pub record Segment : Type 0 where
  pub target : Text
  pub role_live : Bool
  pub is_own_log : Bool
  pub ephemeral : Bool
  pub pending_seal : Option Seal
  pub sealed : Bool
  pub no_resume : Bool
  pub lag : ℕ
  pub position : ℕ
  pub header_length : ℕ
  pub bytes_read : ℕ

-- How an action on a segment ends: with a value, by `_EndSegment`, by another exception, or not
-- within the rounds that its loops were given.
pub data Outcome (A : Type 0) : Type 0 where
  done : A → Outcome A
  end_segment failed unfinished : Outcome A

abbrev pub Act : Type 0 → Type 0 → Type 0
Act S A = Segment → S → Outcome A × (Segment × S)

module _ {S A : Type 0} where
  unfoldable pub pure : A → Act S A
  pure a g s = (done a, (g, s))

  unfoldable pub raise : Outcome A → Act S A
  raise o g s = (o, (g, s))

  unfoldable pub gets : (Segment → A) → Act S A
  gets f g s = (done (f g), (g, s))

  -- A call of the network.
  unfoldable pub call : (S → A × S) → Act S A
  call f g s = let (a, s') = f s in (done a, (g, s'))

  unfoldable pub asks : (S → A) → Act S A
  asks f g s = (done (f s), (g, s))

module _ {S : Type 0} where
  unfoldable pub modify : (Segment → Segment) → Act S Unit
  modify f g s = (done tt, (f g, s))

module _ {S A B : Type 0} where
  unfoldable pub continue : Outcome A → (A → Act S B) → Act S B
  continue (done a) f g s = f a g s
  continue end_segment f g s = (end_segment, (g, s))
  continue failed f g s = (failed, (g, s))
  continue unfinished f g s = (unfinished, (g, s))

  infixl 10 ◌>>=◌ ◌>>◌
  unfoldable pub ◌>>=◌ : Act S A → (A → Act S B) → Act S B
  unfolding pure raise gets call asks continue
  ◌>>=◌ m f g s = let (o, (g', s')) = m g s in continue o f g' s'

  abbrev pub ◌>>◌ : Act S A → Act S B → Act S B
  m >> n = m >>= λ _. n
