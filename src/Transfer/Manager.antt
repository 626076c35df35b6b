-- ===== src/Transfer/Manager.antt =====
-- The jobs of QXmppTransferManager and its handlers of in-band bytestreams. A job is changed where
-- it stands in the list. The ID that the constructor of a stanza makes is an argument.
use qxmpp.Common.{
  ℕ, ◌+◌, ◌%◌, Bool, not, ◌&&◌, ◌||◌, [], ◌∷◌, ◌++◌, List, Option, none, some, Text, Bytes, text_eq,
  ◌==◌, ltb, length, if◌then◌else◌,
}
use qxmpp.Stream.Failed.{Condition}
use qxmpp.Transfer.Job.{
  transfer, no_error, protocol_error, is_in_band, is_transfer, is_finished, is_incoming, Io, cancel,
  modify, Sent, result_iq, error_iq, data_iq, close_iq, Job, set_state, terminate, check_data,
  write_data,
}

pub record OpenIq : Type 0 where
  pub from : Text
  pub id : Text
  pub sid : Text
  pub block_size : ℕ

-- The sequence is a quint16.
pub record DataIq : Type 0 where
  pub from : Text
  pub id : Text
  pub sid : Text
  pub sequence : ℕ
  pub payload : Bytes

pub record CloseIq : Type 0 where
  pub from : Text
  pub id : Text
  pub sid : Text

pub data ResponseType : Type 0 where
  result_response error_response other_response : ResponseType

pub record Response : Type 0 where
  pub from : Text
  pub id : Text
  pub kind : ResponseType

pub record TransferManager (D : Type 0) : Type 0 where
  pub ibb_block_size : ℕ
  pub jobs : List (Job D)
  pub sent : List Sent

abbrev pub sequence_mod : ℕ
sequence_mod = 65536

unfoldable pub find_job : {D : Type 0} → (Job D → Bool) → List (Job D) → Option (Job D)
find_job p [] = none
find_job p (j ∷ js) = if p j then some j else find_job p js

unfoldable pub replace_job : {D : Type 0} → (Job D → Bool) → Job D → List (Job D) → List (Job D)
replace_job p k [] = []
replace_job p k (j ∷ js) = if p j then k ∷ js else j ∷ replace_job p k js

-- The tests of getIncomingJobBySid and getOutgoingJobByRequestId.
unfoldable pub has_sid : {D : Type 0} → Text → Text → Job D → Bool
has_sid jid sid j = is_incoming j.direction && text_eq j.jid jid && text_eq j.sid sid

unfoldable pub has_request : {D : Type 0} → Text → Text → Job D → Bool
has_request jid id j = not (is_incoming j.direction) && text_eq j.jid jid && text_eq j.request_id id

module _ {D : Type 0} (io : Io D) where
  -- The job that `p` finds becomes `k`, and `more` is sent.
  unfoldable pub store_job :
      (Job D → Bool) → Job D → List Sent → TransferManager D → TransferManager D
  store_job p k more m = record m { jobs = replace_job p k m.jobs; sent = m.sent ++ more }

  unfoldable pub send : Sent → TransferManager D → TransferManager D
  send s m = record m { sent = m.sent ++ s ∷ [] }

  unfoldable pub ibb_close_iq_received : CloseIq → TransferManager D → TransferManager D
  ibb_close_iq_received iq m = elim (find_job (has_sid iq.from iq.sid) m.jobs) [
    | none ↦ send (error_iq iq.from iq.id cancel Condition.item_not_found) m
    | some j ↦
        if not (is_in_band j.method)
        then send (error_iq iq.from iq.id cancel Condition.item_not_found) m
        else store_job (has_sid iq.from iq.sid) (check_data io j) (result_iq iq.from iq.id ∷ []) m
  ]

  -- `job->d->ibbSequence++` behind writeData, whose result is not looked at.
  abbrev pub next_sequence : Job D → Job D
  next_sequence j = record j { ibb_sequence = j.ibb_sequence + 1 }

  abbrev pub store_written :
      (Job D → Bool) → Sent → Option (Job D) → TransferManager D → Option (TransferManager D)
  store_written p answer none m = none
  store_written p answer (some j) m = some (store_job p (next_sequence j) (answer ∷ []) m)

  -- Nothing stands for the dereference of a null device.
  unfoldable pub ibb_data_iq_received : DataIq → TransferManager D → Option (TransferManager D)
  ibb_data_iq_received iq m = elim (find_job (has_sid iq.from iq.sid) m.jobs) [
    | none ↦ some (send (error_iq iq.from iq.id cancel Condition.item_not_found) m)
    | some j ↦
        if not (is_in_band j.method) || not (is_transfer j.state)
        then some (send (error_iq iq.from iq.id cancel Condition.item_not_found) m)
        else if not (iq.sequence == j.ibb_sequence)
        then some (send (error_iq iq.from iq.id cancel Condition.unexpected_request) m)
        else store_written (has_sid iq.from iq.sid) (result_iq iq.from iq.id)
            (write_data io iq.payload j) m
  ]

  unfoldable pub ibb_open_iq_received : OpenIq → TransferManager D → TransferManager D
  ibb_open_iq_received iq m = elim (find_job (has_sid iq.from iq.sid) m.jobs) [
    | none ↦ send (error_iq iq.from iq.id cancel Condition.item_not_found) m
    | some j ↦
        if not (is_in_band j.method)
        then send (error_iq iq.from iq.id cancel Condition.item_not_found) m
        else if ltb m.ibb_block_size iq.block_size
        then send (error_iq iq.from iq.id modify Condition.resource_constraint) m
        else (let started = set_state io transfer (record j { block_size = iq.block_size }) in
            store_job (has_sid iq.from iq.sid) started.0 (started.1 ++ result_iq iq.from iq.id ∷ [])
              m)
  ]

  -- The next block of the file, or the end of the stream where none is left.
  unfoldable pub send_block : Text → Job D → Bytes × D → Job D × List Sent
  send_block new_id j ([], d) = (
    terminate io no_error (record j { device = some d; request_id = new_id }),
    close_iq j.jid new_id j.sid ∷ [],
  )
  send_block new_id j (b ∷ bs, d) = (
    record j {
      device = some d;
      request_id = new_id;
      ibb_sequence = j.ibb_sequence + 1;
      done = j.done + length (b ∷ bs);
    },
    data_iq j.jid new_id j.sid (j.ibb_sequence % sequence_mod) (b ∷ bs) ∷ [],
  )

  unfoldable pub respond : Text → ResponseType → D → Job D → Job D × List Sent
  respond new_id result_response d j =
      let r = io.read j.block_size d in
      let started = set_state io transfer (record j { device = some r.1 }) in
      let block = send_block new_id started.0 r in (block.0, started.1 ++ block.1)
  respond new_id error_response d j = (
    terminate io protocol_error (record j { request_id = new_id }),
    close_iq j.jid new_id j.sid ∷ [],
  )
  respond new_id other_response d j = (j, [])

  abbrev pub store_response :
      (Job D → Bool) → Job D × List Sent → TransferManager D → TransferManager D
  store_response p (j, more) m = store_job p j more m

  -- Nothing stands for the dereference of a null device.
  unfoldable pub ibb_response_received :
      Text → Response → TransferManager D → Option (TransferManager D)
  ibb_response_received new_id iq m = elim (find_job (has_request iq.from iq.id) m.jobs) [
    | none ↦ some m
    | some j ↦ if not (is_in_band j.method) || is_finished j.state then some m else elim j.device [
      | none ↦ none
      | some d ↦
          if not (io.is_open d)
          then some m
          else some (store_response (has_request iq.from iq.id) (respond new_id iq.kind d j) m)
    ]
  ]
