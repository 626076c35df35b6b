-- ===== src/Transfer/Steps.antt =====
-- The handlers of both sides on a stream that goes as it should, each job behind others of its manager.
-- The other jobs before it belong to other JIDs.
use qxmpp.Common.{
  ℕ, ◌+◌, ◌%◌, ◌≡◌, refl, Bool, true, false, not, ◌&&◌, [], ◌∷◌, ◌++◌, List, some, Text, Bytes,
  is_empty, text_eq, text_eq_refl, ==_refl, length, take, drop, if◌then◌else◌, All,
}
use qxmpp.Transfer.Job.{
  incoming, outgoing, in_band, State, offer, start, transfer, finished, no_error, is_finished,
  is_incoming, Io, Sent, result_iq, data_iq, close_iq, Job, set_state, terminate, check_data,
  write_data, written, state_changed,
}
use qxmpp.Transfer.Manager.{
  result_response, TransferManager, has_sid, has_request, store_job, ibb_close_iq_received,
  ibb_data_iq_received, send_block, respond, ibb_response_received, sequence_mod,
}
use qxmpp.Transfer.Lookup.{find_job-behind, replace_job-behind}

-- Devices that read and write a file as a whole: `content` is what is left to read, or what was
-- written.
pub record IsFile (D : Type 0) (io : Io D) (content : D → Bytes) : Type 0 where
  pub read_block : (n : ℕ) (d : D) → (io.read n d).0 ≡ take n (content d)
  pub read_rest : (n : ℕ) (d : D) → content (io.read n d).1 ≡ drop n (content d)
  pub read_open : (n : ℕ) (d : D) → io.is_open (io.read n d).1 ≡ io.is_open d
  pub write_length : (s : Bytes) (d : D) → (io.write s d).0 ≡ some (length s)
  pub write_content : (s : Bytes) (d : D) → content (io.write s d).1 ≡ content d ++ s
  pub close_content : (d : D) → content (io.close d) ≡ content d

pub and_false : (b : Bool) → (b && false) ≡ false
and_false true = refl
and_false false = refl

-- The sender's job with its device, its last request, its sequence number and how much it sent.
abbrev pub sending : {D : Type 0} → Job D → State → D → Text → ℕ → ℕ → Job D
sending j st d id n k = record j {
  direction = outgoing;
  method = in_band;
  state = st;
  device = some d;
  request_id = id;
  ibb_sequence = n;
  done = k;
}

-- The receiver's job likewise, with what its hash was fed.
abbrev pub receiving : {D : Type 0} → Job D → D → ℕ → ℕ → Bytes → Job D
receiving j d n k h = record j {
  direction = incoming;
  method = in_band;
  state = transfer;
  device = some d;
  ibb_sequence = n;
  done = k;
  hashed = h;
}

-- A manager with this job behind others, and what it has sent.
abbrev pub managing :
    {D : Type 0} → ℕ → List (Job D) → Job D → List (Job D) → List Sent → TransferManager D
managing b before j after out = record {
  ibb_block_size = b;
  jobs = before ++ j ∷ after;
  sent = out;
}

module _ {D : Type 0} (io : Io D) (content : D → Bytes) (file : IsFile D io content) where
  others_sid :
      (from sid : Text) (jobs : List (Job D))
      → All (λ k. text_eq k.jid from ≡ false) jobs
      → All (λ k. has_sid from sid k ≡ false) jobs
  unfolding has_sid
  others_sid from sid [] h = tt
  others_sid from sid (k ∷ ks) h =
      (rw (h.0, and_false (is_incoming k.direction)), others_sid from sid ks h.1)

  others_request :
      (from id : Text) (jobs : List (Job D))
      → All (λ k. text_eq k.jid from ≡ false) jobs
      → All (λ k. has_request from id k ≡ false) jobs
  unfolding has_request
  others_request from id [] h = tt
  others_request from id (k ∷ ks) h =
      (rw (h.0, and_false (not (is_incoming k.direction))), others_request from id ks h.1)

  own_sid :
      (from sid : Text) (j : Job D) (d : D) (n k : ℕ) (h : Bytes)
      → text_eq j.jid from ≡ true
      → text_eq j.sid sid ≡ true
      → has_sid from sid (receiving j d n k h) ≡ true
  unfolding has_sid
  own_sid from sid j d n k h own same = rw (own, same)

  own_request :
      (from id : Text) (j : Job D) (st : State) (d : D) (n k : ℕ)
      → text_eq j.jid from ≡ true
      → has_request from id (sending j st d id n k) ≡ true
  unfolding has_request
  own_request from id j st d n k own = rw (own, text_eq_refl id)

  module _ (limit : ℕ) (before after : List (Job D)) (j : Job D) where
    pub receive_block :
        (d : D) (n k : ℕ) (h payload : Bytes) (out : List Sent) (from id sid : Text)
        → All (λ k. text_eq k.jid from ≡ false) before
        → text_eq j.jid from ≡ true
        → text_eq j.sid sid ≡ true
        → ibb_data_iq_received io
            (record { from = from; id = id; sid = sid; sequence = n; payload = payload })
            (managing limit before (receiving j d n k h) after out)
          ≡ some (
              managing limit before
                (receiving j
                  (io.write payload d).1
                  (n + 1)
                  (k + length payload)
                  (if is_empty j.file_hash then h else h ++ payload))
                after
                (out ++ result_iq from id ∷ []))
    unfolding ibb_data_iq_received write_data written store_job
    receive_block d n k h payload out from id sid others own same =
        let p = has_sid from sid in
        let r = receiving j d n k h in
        let fits = own_sid from sid j d n k h own same in
        let misfits = others_sid from sid before others in
        rw (
          ibb_data_iq_received,
          find_job-behind p after before r misfits fits,
          ==_refl n,
          file.write_length payload d,
          replace_job-behind p after before r
              (receiving j (io.write payload d).1 (n + 1) (k + length payload)
                (if is_empty j.file_hash then h else h ++ payload))
              misfits fits,
        )

    -- The end of the stream.
    pub receive_end :
        (d : D) (n k : ℕ) (h : Bytes) (out : List Sent) (from id sid : Text)
        → All (λ k. text_eq k.jid from ≡ false) before
        → text_eq j.jid from ≡ true
        → text_eq j.sid sid ≡ true
        → ibb_close_iq_received io
            (record { from = from; id = id; sid = sid })
            (managing limit before (receiving j d n k h) after out)
          ≡ managing limit before
              (check_data io (receiving j d n k h))
              after
              (out ++ result_iq from id ∷ [])
    unfolding ibb_close_iq_received store_job
    receive_end d n k h out from id sid others own same =
        let p = has_sid from sid in
        let r = receiving j d n k h in
        let fits = own_sid from sid j d n k h own same in
        let misfits = others_sid from sid before others in
        rw (
          ibb_close_iq_received,
          find_job-behind p after before r misfits fits,
          replace_job-behind p after before r (check_data io r) misfits fits,
        )

    abbrev pub next_block : State → D → Text → ℕ → ℕ → Text → Job D × List Sent
    next_block st d id n k new_id =
        send_block io new_id (sending j transfer (io.read j.block_size d).1 id n k)
          (io.read j.block_size d)

    respond_sending :
        (st : State) (d : D) (id : Text) (n k : ℕ) (new_id : Text)
        → is_finished st ≡ false
        → respond io new_id result_response d (sending j st d id n k)
          ≡ next_block st d id n k new_id
    unfolding respond set_state state_changed
    respond_sending finished d id n k new_id live = absurd cc
    respond_sending offer d id n k new_id live = rw (and_false j.watched)
    respond_sending start d id n k new_id live = rw (and_false j.watched)
    respond_sending transfer d id n k new_id live = refl

    -- The sender's answer to an acknowledgement: the next block, or the end of the stream.
    pub send_step :
        (st : State) (d : D) (n k : ℕ) (out : List Sent) (from id new_id : Text)
        → All (λ k. text_eq k.jid from ≡ false) before
        → text_eq j.jid from ≡ true
        → is_finished st ≡ false
        → io.is_open d ≡ true
        → let b = next_block st d id n k new_id in
          ibb_response_received io new_id
            (record { from = from; id = id; kind = result_response })
            (managing limit before (sending j st d id n k) after out)
          ≡ some (managing limit before b.0 after (out ++ b.1))
    unfolding ibb_response_received store_job
    send_step st d n k out from id new_id others own live opened =
        let p = has_request from id in
        let s = sending j st d id n k in
        let fits = own_request from id j st d n k own in
        let misfits = others_request from id before others in
        let b = next_block st d id n k new_id in
        rw (
          ibb_response_received,
          find_job-behind p after before s misfits fits,
          live,
          opened,
          respond_sending st d id n k new_id live,
          replace_job-behind p after before s b.0 misfits fits,
        )

    -- Nothing is left to read: the job ends, and the stream is closed.
    pub next_block-end :
        (st : State) (d : D) (id : Text) (n k : ℕ) (new_id : Text)
        → (io.read j.block_size d).0 ≡ []
        → next_block st d id n k new_id ≡ (
          terminate io no_error (sending j transfer (io.read j.block_size d).1 new_id n k),
          close_iq j.jid new_id j.sid ∷ [],
        )
    unfolding send_block
    next_block-end st d id n k new_id e = rw e

    pub next_block-data :
        (st : State) (d : D) (id : Text) (n k : ℕ) (new_id : Text) (c : ℕ) (cs : Bytes)
        → (io.read j.block_size d).0 ≡ c ∷ cs
        → next_block st d id n k new_id ≡ (
          sending j transfer (io.read j.block_size d).1 new_id (n + 1) (k + length (c ∷ cs)),
          data_iq j.jid new_id j.sid (n % sequence_mod) (c ∷ cs) ∷ [],
        )
    unfolding send_block
    next_block-data st d id n k new_id c cs e = rw e
