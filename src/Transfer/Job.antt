-- ===== src/Transfer/Job.antt =====
-- QXmppTransferJob and QXmppTransferIncomingJob: the members of QXmppTransferJobPrivate that
-- in-band bytestreams use, and the methods on them. The devices and the hash are Qt's. The signals
-- to the user are left out, and so are the socket, the file's URL and the timer of its speed.
use qxmpp.Common.{
  ℕ, ◌+◌, Bool, true, false, not, ◌&&◌, ◌||◌, [], ◌∷◌, ◌++◌, List, Option, none, some, Text, Bytes,
  is_empty, text_eq, ◌==◌, if◌then◌else◌,
}
use qxmpp.Stream.Failed.{Condition}

pub data Direction : Type 0 where
  incoming outgoing : Direction

pub data Method : Type 0 where
  no_method in_band socks : Method

pub data State : Type 0 where
  offer start transfer finished : State

pub data JobError : Type 0 where
  no_error abort_error file_access_error file_corrupt_error protocol_error : JobError

abbrev pub is_in_band : Method → Bool
is_in_band in_band = true
is_in_band _ = false

abbrev pub is_start : State → Bool
is_start start = true
is_start _ = false

abbrev pub is_transfer : State → Bool
is_transfer transfer = true
is_transfer _ = false

abbrev pub is_finished : State → Bool
is_finished finished = true
is_finished _ = false

abbrev pub state_eq : State → State → Bool
state_eq offer offer = true
state_eq start start = true
state_eq transfer transfer = true
state_eq finished finished = true
state_eq _ _ = false

abbrev pub is_incoming : Direction → Bool
is_incoming incoming = true
is_incoming outgoing = false

-- What is used of QIODevice and QCryptographicHash. Writing gives how many bytes were written, or
-- nothing for a negative number.
pub record Io (D : Type 0) : Type 0 where
  pub read : ℕ → D → Bytes × D
  pub write : Bytes → D → Option ℕ × D
  pub is_open : D → Bool
  pub is_writable : D → Bool
  pub close : D → D
  pub md5 : Bytes → Bytes

pub data ErrorType : Type 0 where
  cancel modify : ErrorType

-- The stanzas that are sent: the answers, with the recipient and the ID, and the requests.
pub data Sent : Type 0 where
  result_iq : Text → Text → Sent
  error_iq : Text → Text → ErrorType → Condition → Sent
  initiation_result : Text → Text → Method → Sent
  data_iq : Text → Text → Text → ℕ → Bytes → Sent
  close_iq : Text → Text → Text → Sent

-- `watched`: stateChanged is connected to _q_jobStateChanged. `hashed`: what the hash was fed.
pub record Job (D : Type 0) : Type 0 where
  pub direction : Direction
  pub jid : Text
  pub sid : Text
  pub offer_id : Text
  pub request_id : Text
  pub method : Method
  pub state : State
  pub error : JobError
  pub block_size : ℕ
  pub ibb_sequence : ℕ
  pub done : ℕ
  pub device : Option D
  pub device_is_own : Bool
  pub file_size : ℕ
  pub file_hash : Bytes
  pub hashed : Bytes
  pub watched : Bool

-- A job, and what was sent on the way to it.
abbrev pub Sending : Type 0 → Type 0
Sending D = Job D × List Sent

module _ {D : Type 0} (io : Io D) where
  abbrev pub close_own : Bool → Option D → Option D
  close_own true (some d) = some (io.close d)
  close_own _ d = d

  unfoldable pub terminate : JobError → Job D → Job D
  terminate cause j =
      if is_finished j.state
      then j
      else record j { error = cause; state = finished; device = close_own j.device_is_own j.device }

  abbrev pub can_write : Option D → Bool
  can_write none = false
  can_write (some d) = io.is_writable d

  -- _q_jobStateChanged, for a job in the manager's list.
  unfoldable pub job_state_changed : Job D → Sending D
  job_state_changed j =
      let unwatched = record j { watched = false } in
      if not (is_start j.state) || not (can_write j.device)
      then (
        terminate abort_error unwatched,
        error_iq j.jid j.offer_id cancel Condition.forbidden ∷ [],
      )
      else (unwatched, initiation_result j.jid j.offer_id j.method ∷ [])

  -- The signal stateChanged.
  unfoldable pub state_changed : Job D → Sending D
  state_changed j = if j.watched && is_incoming j.direction then job_state_changed j else (j, [])

  unfoldable pub set_state : State → Job D → Sending D
  set_state s j = if state_eq j.state s then (j, []) else state_changed (record j { state = s })

  -- The queued call behind terminate.
  unfoldable pub terminated : Job D → Sending D
  terminated j = state_changed j

  unfoldable pub accept : D → Job D → Sending D
  accept d j = elim j.device [
    | none ↦
        if is_incoming j.direction && state_eq j.state offer
        then set_state start (record j { device = some d })
        else (j, [])
    | some _ ↦ (j, [])
  ]

  unfoldable pub check_data : Job D → Job D
  check_data j =
      if not (j.file_size == 0) && not (j.done == j.file_size)
        || not (is_empty j.file_hash) && not (text_eq (io.md5 j.hashed) j.file_hash)
      then terminate file_corrupt_error j
      else terminate no_error j

  -- What a device's answer to `write` does to the job.
  unfoldable pub written : Bytes → Job D → Option ℕ × D → Job D
  written data_bytes j (none, d) = record j { device = some d }
  written data_bytes j (some n, d) = record j {
    device = some d;
    done = j.done + n;
    hashed = if is_empty j.file_hash then j.hashed else j.hashed ++ data_bytes;
  }

  -- writeData; nothing stands for the dereference of a null device.
  unfoldable pub write_data : Bytes → Job D → Option (Job D)
  write_data data_bytes j = elim j.device [
    | none ↦ none
    | some d ↦ some (written data_bytes j (io.write data_bytes d))
  ]
