-- ===== src/Transfer/Copy.antt =====
-- A whole file over an in-band bytestream, block by block.
use mathlib.Core.Path.{subst}
use mathlib.Core.List.{append-nil, append_assoc}
use qxmpp.Common.{
  ℕ, zero, suc, ◌+◌, ◌-◌, ◌*◌, ◌%◌, ◌<◌, ◌≤◌, ◌≡◌, ◌⊎◌, inl, inr, refl, sym, ap, ◌∙◌, true, false,
  [], ◌∷◌, ◌++◌, List, Option, some, Text, Bytes, is_empty, text_eq, length, take-drop,
  length-append, if◌then◌else◌, All, arith,
}
use qxmpp.Transfer.Job.{
  State, start, transfer, finished, no_error, is_finished, Io, Sent, result_iq, data_iq, close_iq,
  Job, terminate,
}
use qxmpp.Transfer.Manager.{TransferManager, sequence_mod, result_response}
use qxmpp.Transfer.Channel.{last_sent, respond_with, respond_to, exchange, exchange_next, send_file}
use qxmpp.Transfer.Lookup.{last_sent-append}
use qxmpp.Transfer.Ending.{
  take_none, length-drop, some_left, next_left, Bytes-cases, terminated_state, terminated_error,
  terminated_device, closed_content, IsWhole, check_data-whole, fed,
}
use qxmpp.Transfer.Steps.{
  IsFile, sending, receiving, managing, next_block-end, next_block-data, receive_block, receive_end,
  send_step,
}

module _ {D : Type 0} (io : Io D) (content : D → Bytes) (file : IsFile D io content) where
  module _ (sender_jid receiver_jid : Text) (ids : ℕ → Text) (ls lr : ℕ)
      (before_s after_s before_r after_r : List (Job D)) (js jr : Job D) where
    -- Both jobs are finished without an error, and the receiver's device holds the whole file.
    pub record Copied (whole : Bytes) (result : Option (TransferManager D × TransferManager D))
        : Type 0 where
      pub sender : TransferManager D
      pub receiver : TransferManager D
      pub ended : result ≡ some (sender, receiver)
      pub sender_job : Job D
      pub receiver_job : Job D
      pub sender_has : sender.jobs ≡ before_s ++ sender_job ∷ after_s
      pub receiver_has : receiver.jobs ≡ before_r ++ receiver_job ∷ after_r
      pub sender_finished : sender_job.state ≡ finished
      pub receiver_finished : receiver_job.state ≡ finished
      pub sender_ok : sender_job.error ≡ no_error
      pub receiver_ok : receiver_job.error ≡ no_error
      pub device : D
      pub receiver_device : receiver_job.device ≡ some device
      pub received : content device ≡ whole

    module _ (others_s : All (λ k. text_eq k.jid receiver_jid ≡ false) before_s)
        (others_r : All (λ k. text_eq k.jid sender_jid ≡ false) before_r)
        (own_s : text_eq js.jid receiver_jid ≡ true) (own_r : text_eq jr.jid sender_jid ≡ true)
        (session : text_eq jr.sid js.sid ≡ true) (blocks : 0 < js.block_size) where
      -- The sender has read its whole file and closes the stream.
      finish :
          (f i n ks kr : ℕ) (ds dr : D) (new_id : Text) (h : Bytes) (outs outr : List Sent)
          → IsWhole io jr kr h
          → Copied (content dr) (
              exchange io sender_jid receiver_jid ids
                (suc f)
                i
                (last_sent (outs ++ close_iq js.jid new_id js.sid ∷ []))
                (managing ls before_s
                  (terminate io no_error (sending js transfer ds new_id n ks))
                  after_s
                  (outs ++ close_iq js.jid new_id js.sid ∷ []))
                (managing lr before_r (receiving jr dr n kr h) after_r outr))
      unfolding exchange
      finish f i n ks kr ds dr new_id h outs outr w =
          let s = sending js transfer ds new_id n ks in
          let r = receiving jr dr n kr h in
          let closed = closed_content io content file jr.device_is_own dr in
          rw
            (
              last_sent-append outs (close_iq js.jid new_id js.sid),
              receive_end io content file lr before_r after_r jr dr n kr h outr sender_jid new_id
                  js.sid others_r own_r session,
              check_data-whole io jr dr n kr h w,
            )
            (record {
              sender =
                  managing ls before_s (terminate io no_error s) after_s
                    (outs ++ close_iq js.jid new_id js.sid ∷ []);
              receiver =
                  managing lr before_r (terminate io no_error r) after_r
                    (outr ++ result_iq sender_jid new_id ∷ []);
              ended = refl;
              sender_job = terminate io no_error s;
              receiver_job = terminate io no_error r;
              sender_has = refl;
              receiver_has = refl;
              sender_finished = terminated_state io s refl;
              receiver_finished = terminated_state io r refl;
              sender_ok = terminated_error io s refl;
              receiver_ok = terminated_error io r refl;
              device = closed.0;
              receiver_device = terminated_device io r refl ∙ closed.1;
              received = closed.2;
            })

      -- What the sender's next reading gives, and what is left behind it.
      read_all :
          (ds : D)
          → (io.read js.block_size ds).0 ++ content (io.read js.block_size ds).1 ≡ content ds
      read_all ds =
          rw (file.read_block js.block_size ds, file.read_rest js.block_size ds)
            (take-drop js.block_size (content ds))

      read_none : (ds : D) → (io.read js.block_size ds).0 ≡ [] → content ds ≡ []
      read_none ds e =
          take_none js.block_size (content ds) blocks (sym (file.read_block js.block_size ds) ∙ e)

      abbrev resumed :
          ℕ
          → ℕ
          → State
          → D
          → Text
          → ℕ
          → ℕ
          → List Sent
          → TransferManager D
          → Option (TransferManager D × TransferManager D)
      resumed f i st ds id n ks outs r =
          exchange_next io sender_jid receiver_jid ids (exchange io sender_jid receiver_jid ids f) i
            (respond_with io sender_jid receiver_jid ids i
              (record { from = receiver_jid; id = id; kind = result_response })
              (managing ls before_s (sending js st ds id n ks) after_s outs) r)

      resumed-end :
          (f i n ks : ℕ) (st : State) (ds : D) (id : Text) (outs : List Sent)
          (r : TransferManager D)
          → is_finished st ≡ false
          → io.is_open ds ≡ true
          → (io.read js.block_size ds).0 ≡ []
          → resumed f i st ds id n ks outs r
            ≡ exchange io sender_jid receiver_jid ids f
                (suc i)
                (last_sent (outs ++ close_iq js.jid (ids i) js.sid ∷ []))
                (managing ls before_s
                  (terminate io no_error
                    (sending js transfer (io.read js.block_size ds).1 (ids i) n ks))
                  after_s
                  (outs ++ close_iq js.jid (ids i) js.sid ∷ []))
                r
      unfolding exchange_next respond_with
      resumed-end f i n ks st ds id outs r live opened e = rw (
        respond_with,
        send_step io content file ls before_s after_s js st ds n ks outs receiver_jid id (ids i)
            others_s own_s live opened,
        next_block-end io content file ls before_s after_s js st ds id n ks (ids i) e,
      )

      -- A block is read, sent, written and acknowledged.
      resumed-data :
          (f i n ks kr c : ℕ) (cs : Bytes) (st : State) (ds dr : D) (id : Text) (h : Bytes)
          (outs outr : List Sent)
          → is_finished st ≡ false
          → io.is_open ds ≡ true
          → (io.read js.block_size ds).0 ≡ c ∷ cs
          → n % sequence_mod ≡ n
          → resumed
              (suc f)
              i
              st
              ds
              id
              n
              ks
              outs
              (managing lr before_r (receiving jr dr n kr h) after_r outr)
            ≡ resumed f
                (suc i)
                transfer
                (io.read js.block_size ds).1
                (ids i)
                (n + 1)
                (ks + length (c ∷ cs))
                (outs ++ data_iq js.jid (ids i) js.sid n (c ∷ cs) ∷ [])
                (managing lr before_r
                  (receiving jr
                    (io.write (c ∷ cs) dr).1
                    (n + 1)
                    (kr + length (c ∷ cs))
                    (if is_empty jr.file_hash then h else h ++ c ∷ cs))
                  after_r
                  (outr ++ result_iq sender_jid (ids i) ∷ []))
      unfolding exchange_next respond_with respond_to exchange
      resumed-data f i n ks kr c cs st ds dr id h outs outr live opened e small = rw (
        respond_with,
        send_step io content file ls before_s after_s js st ds n ks outs receiver_jid id (ids i)
            others_s own_s live opened,
        next_block-data io content file ls before_s after_s js st ds id n ks (ids i) c cs e,
        small,
        last_sent-append outs (data_iq js.jid (ids i) js.sid n (c ∷ cs)),
        receive_block io content file lr before_r after_r jr dr n kr h (c ∷ cs) outr sender_jid
            (ids i) js.sid others_r own_r session,
        last_sent-append outr (result_iq sender_jid (ids i)),
      )

      resumed-Copied :
          (f m i n ks kr : ℕ) (st : State) (ds dr : D) (id : Text) (h : Bytes)
          (outs outr : List Sent)
          → is_finished st ≡ false
          → io.is_open ds ≡ true
          → length (content ds) < f
          → n + m ≤ sequence_mod
          → length (content ds) ≤ m * js.block_size
          → (jr.file_size ≡ 0) ⊎ (jr.file_size ≡ kr + length (content ds))
          → (jr.file_hash ≡ []) ⊎ (io.md5 (h ++ content ds) ≡ jr.file_hash)
          → Copied (content dr ++ content ds) (
              resumed f i st ds id n ks outs
                (managing lr before_r (receiving jr dr n kr h) after_r outr))
      resumed-Copied zero m i n ks kr st ds dr id h outs outr live opened fuel room blocks_left size
            hash =
          absurd (omega arith)
      resumed-Copied (suc f) m i n ks kr st ds dr id h outs outr live opened fuel room blocks_left
            size hash =
          let r = io.read js.block_size ds in
          elim (Bytes-cases r.0) [
            | inl e ↦
                (let empty = read_none ds e in
                  let none_left : length (content ds) ≡ 0 = rw empty in
                  rw
                    (
                      resumed-end (suc f) i n ks st ds id outs
                          (managing lr before_r (receiving jr dr n kr h) after_r outr) live opened
                          e,
                      empty,
                      append-nil (content dr),
                    )
                    (finish f (suc i) n ks kr r.1 dr (ids i) h outs outr (
                      subst (λ t. (jr.file_size ≡ 0) ⊎ (jr.file_size ≡ t))
                          (omega (arith, none_left)) size,
                      subst (λ t. (jr.file_hash ≡ []) ⊎ (io.md5 t ≡ jr.file_hash))
                          (ap (λ t. h ++ t) empty ∙ append-nil h) hash,
                    )))
            | inr (c, cs, e) ↦
                (let x = c ∷ cs in
                  let whole : x ++ content r.1 ≡ content ds =
                    ap (λ t. t ++ content r.1) (sym e) ∙ read_all ds in
                  let parts : length x + length (content r.1) ≡ length (content ds) =
                    sym (length-append x (content r.1)) ∙ ap length whole in
                  let rest : length (content r.1) ≡ length (content ds) - js.block_size =
                    ap length (file.read_rest js.block_size ds)
                    ∙ length-drop js.block_size (content ds) in
                  let counted : 0 < m =
                    some_left m js.block_size (length (content ds)) (omega arith) blocks_left in
                  let small : n % sequence_mod ≡ n = omega arith in
                  let copied : content dr ++ content ds ≡ content (io.write x dr).1 ++ content r.1 =
                    ap (λ t. content dr ++ t) (sym whole)
                    ∙ sym (append_assoc (content dr) x (content r.1))
                    ∙ ap (λ t. t ++ content r.1) (sym (file.write_content x dr)) in
                  rw
                    (
                      copied,
                      resumed-data f i n ks kr c cs st ds dr id h outs outr live opened e small,
                    )
                    (resumed-Copied f (m - 1) (suc i) (n + 1) (ks + length x) (kr + length x)
                      transfer r.1 (io.write x dr).1 (ids i)
                      (if is_empty jr.file_hash then h else h ++ x) _ _ refl
                      (file.read_open js.block_size ds ∙ opened) (omega arith) (omega arith)
                      (rw rest (next_left m js.block_size (length (content ds)) blocks_left))
                      (subst (λ t. (jr.file_size ≡ 0) ⊎ (jr.file_size ≡ t)) (omega (arith, parts))
                        size)
                      (fed io jr.file_hash h x (content r.1) (
                        subst (λ t. (jr.file_hash ≡ []) ⊎ (io.md5 (h ++ t) ≡ jr.file_hash))
                          (sym whole) hash))))
          ]

      -- A file of at most 65536 blocks, sent over an accepted stream, ends with both jobs finished
      -- without an error, and with the whole file behind what the receiver's device held before.
      -- The receiver expects no size and no hash, or those of the file; both jobs stand behind jobs
      -- with other JIDs; the devices read and write in full.
      pub send_file-Copied :
          (f : ℕ) (ds dr : D) (id : Text) (outs outr : List Sent)
          → io.is_open ds ≡ true
          → length (content ds) < f
          → length (content ds) ≤ sequence_mod * js.block_size
          → (jr.file_size ≡ 0) ⊎ (jr.file_size ≡ length (content ds))
          → (jr.file_hash ≡ []) ⊎ (io.md5 (content ds) ≡ jr.file_hash)
          → Copied (content dr ++ content ds) (
              send_file io sender_jid receiver_jid ids f id
                (managing ls before_s (sending js start ds id 0 0) after_s outs)
                (managing lr before_r (receiving jr dr 0 0 []) after_r outr))
      unfolding send_file
      send_file-Copied f ds dr id outs outr opened fuel blocks_left size hash =
          resumed-Copied f sequence_mod 0 0 0 0 start ds dr id [] outs outr refl opened fuel
            (omega arith) blocks_left
            (subst (λ t. (jr.file_size ≡ 0) ⊎ (jr.file_size ≡ t)) (omega arith) size) hash
