-- ===== src/Transfer/Tests.antt =====
-- The theorems about in-band bytestreams at concrete inputs, and the course of a stream that is
-- opened before the user has accepted the file.
use qxmpp.Common.{
  ℕ, ◌≤◌, ◌≡◌, inr, refl, true, false, [], ◌∷◌, ◌++◌, none, some, Text, Bytes, text_eq,
  text_eq_refl, length, take, drop, codes, arith,
}
use qxmpp.Transfer.Job.{
  incoming, in_band, offer, start, no_error, Io, Job, terminate, job_state_changed, state_changed,
  set_state, written, write_data,
}
use qxmpp.Transfer.Manager.{
  TransferManager, sequence_mod, OpenIq, DataIq, find_job, has_sid, replace_job, store_job, send,
  ibb_open_iq_received, ibb_data_iq_received,
}
use qxmpp.Transfer.Channel.{send_file}
use qxmpp.Transfer.Steps.{IsFile, sending, receiving, managing}
use qxmpp.Transfer.Full.{acknowledged, receive_run, receive_run-acknowledged}
use qxmpp.Transfer.Copy.{Copied, send_file-Copied}

-- A device that is the bytes of a file.
abbrev memory : Io Bytes
memory = record {
  read = λ n d. (take n d, drop n d);
  write = λ s d. (some (length s), d ++ s);
  is_open = λ d. true;
  is_writable = λ d. true;
  close = λ d. d;
  md5 = λ s. s;
}

memory-IsFile : IsFile Bytes memory (λ d. d)
memory-IsFile = record {
  read_block = λ n d. refl;
  read_rest = λ n d. refl;
  read_open = λ n d. refl;
  write_length = λ s d. refl;
  write_content = λ s d. refl;
  close_content = λ d. refl;
}

abbrev alice : Text
alice = codes "a@b/c"

abbrev bob : Text
bob = codes "d@e/f"

abbrev session : Text
session = codes "s1"

-- A file that was offered and not yet accepted.
abbrev offered : Text → Job Bytes
offered jid = record {
  direction = incoming;
  jid = jid;
  sid = session;
  offer_id = codes "o1";
  request_id = codes "r1";
  method = in_band;
  state = offer;
  error = no_error;
  block_size = 2;
  ibb_sequence = 0;
  done = 0;
  device = none;
  device_is_own = false;
  file_size = 5;
  file_hash = 1 ∷ 2 ∷ 3 ∷ 4 ∷ 5 ∷ [];
  hashed = [];
  watched = true;
}

abbrev five : Bytes
five = 1 ∷ 2 ∷ 3 ∷ 4 ∷ 5 ∷ []

abbrev ids : ℕ → Text
ids n = n ∷ []

send_file-Copied_example :
    Copied memory
      (λ d. d)
      memory-IsFile
      alice
      bob
      ids
      4096
      4096
      []
      []
      []
      []
      (offered bob)
      (offered alice)
      five
      (send_file memory alice bob ids 6
        (codes "r1")
        (managing 4096 [] (sending (offered bob) start five (codes "r1") 0 0) [] [])
        (managing 4096 [] (receiving (offered alice) [] 0 0 []) [] []))
send_file-Copied_example =
    send_file-Copied memory (λ d. d) memory-IsFile alice bob ids 4096 4096 [] [] [] [] (offered bob)
      (offered alice) tt tt (text_eq_refl bob) (text_eq_refl alice) (text_eq_refl session)
      (omega arith) 6 five [] (codes "r1") [] [] refl (omega arith) (omega arith) (inr refl)
      (inr refl)

abbrev late : DataIq
late = record { from = alice; id = codes "x"; sid = session; sequence = 0; payload = five }

receive_run-acknowledged_example :
    (m : TransferManager Bytes) × (receive_run memory
        (late ∷ late ∷ [])
        (managing 4096 [] (receiving (offered alice) [] 0 0 []) [] [])
      ≡ some m)
    × (acknowledged m.sent ≤ sequence_mod)
receive_run-acknowledged_example =
    receive_run-acknowledged memory 4096 (late ∷ late ∷ []) (receiving (offered alice) [] 0 0 []) []
      ((omega arith, (omega arith, tt))) refl refl refl refl

abbrev opening : OpenIq
opening = record { from = alice; id = codes "y"; sid = session; block_size = 2 }

-- Before the user accepts, the first request to open ends the job, and the second starts it anew
-- without a device, so that the first block is written through a null pointer.
opened_twice :
    ibb_data_iq_received memory late (
      ibb_open_iq_received memory opening (
        ibb_open_iq_received memory opening
          (record { ibb_block_size = 4096; jobs = offered alice ∷ []; sent = [] })))
    ≡ none
unfolding ibb_data_iq_received ibb_open_iq_received find_job has_sid text_eq replace_job store_job
    send set_state state_changed job_state_changed terminate write_data written
opened_twice = refl
