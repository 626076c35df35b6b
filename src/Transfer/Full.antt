-- ===== src/Transfer/Full.antt =====
-- The end of the sequence numbers of an in-band bytestream in client/QXmppTransferManager.cpp: how many
-- blocks a receiver takes.
use qxmpp.Common.{
  ℕ, suc, ◌+◌, ◌<◌, ◌≤◌, ◌≡◌, refl, ap, ◌∙◌, Bool, true, [], ◌∷◌, ◌++◌, List, Option, none, some,
  Bytes, All, ◌==◌, inl, inr, Bool-cases, arith,
}
use qxmpp.Stream.Failed.{Condition}
use qxmpp.Transfer.Job.{
  is_in_band, is_transfer, Io, cancel, Sent, result_iq, error_iq, Job, written, write_data,
}
use qxmpp.Transfer.Manager.{
  DataIq, TransferManager, sequence_mod, find_job, replace_job, has_sid, send, store_job,
  store_written, next_sequence, ibb_data_iq_received,
}
use qxmpp.Transfer.Steps.{managing}

-- How many results were sent.
unfoldable pub acknowledged : List Sent → ℕ
acknowledged [] = 0
acknowledged (result_iq to id ∷ more) = suc (acknowledged more)
acknowledged (_ ∷ more) = acknowledged more

acknowledged-append :
    (l more : List Sent) → acknowledged (l ++ more) ≡ acknowledged l + acknowledged more
unfolding acknowledged
acknowledged-append [] more = omega arith
acknowledged-append (s ∷ l) more = ground (arith, acknowledged-append l more)

module _ {D : Type 0} (io : Io D) where
  -- Blocks that arrive one after the other.
  unfoldable pub receive_run : List DataIq → TransferManager D → Option (TransferManager D)
  receive_run [] m = some m
  receive_run (iq ∷ iqs) m = elim (ibb_data_iq_received io iq m) [
    | none ↦ none
    | some m' ↦ receive_run iqs m'
  ]

  -- A job that receives, when `out` was sent.
  record IsReceiving (j : Job D) (out : List Sent) : Type 0 where
    in_band : is_in_band j.method ≡ true
    in_transfer : is_transfer j.state ≡ true
    has_device : (d : D) × (j.device ≡ some d)
    counted : acknowledged out ≡ j.ibb_sequence
    bounded : j.ibb_sequence ≤ sequence_mod

  written-IsReceiving :
      (payload : Bytes) (j : Job D) (out : List Sent) (answer : Sent) (r : Option ℕ × D)
      → j.ibb_sequence < sequence_mod
      → acknowledged (answer ∷ []) ≡ 1
      → IsReceiving j out
      → IsReceiving (next_sequence io (written io payload j r)) (out ++ answer ∷ [])
  unfolding written
  written-IsReceiving payload j out answer (none, d) small one h = record {
    in_band = h.in_band;
    in_transfer = h.in_transfer;
    has_device = (d, refl);
    counted = omega (arith, h.counted, one, acknowledged-append out (answer ∷ []));
    bounded = omega arith;
  }
  written-IsReceiving payload j out answer (some n, d) small one h = record {
    in_band = h.in_band;
    in_transfer = h.in_transfer;
    has_device = (d, refl);
    counted = omega (arith, h.counted, one, acknowledged-append out (answer ∷ []));
    bounded = omega arith;
  }

  write_data-some :
      (payload : Bytes) (j : Job D) (d : D)
      → j.device ≡ some d
      → write_data io payload j ≡ some (written io payload j (io.write payload d))
  unfolding write_data
  write_data-some payload j d e =
      ap
        (λ (o : Option D). elim o [
          | none ↦ none
          | some d ↦ some (written io payload j (io.write payload d))
        ])
        e

  refused-IsReceiving :
      (j : Job D) (out : List Sent) (answer : Sent)
      → acknowledged (answer ∷ []) ≡ 0
      → IsReceiving j out
      → IsReceiving j (out ++ answer ∷ [])
  refused-IsReceiving j out answer zero_more h = record {
    in_band = h.in_band;
    in_transfer = h.in_transfer;
    has_device = h.has_device;
    counted = omega (arith, h.counted, zero_more, acknowledged-append out (answer ∷ []));
    bounded = h.bounded;
  }

  module _ (limit : ℕ) where
    store_own :
        (p : Job D → Bool) (j k : Job D) (more out : List Sent)
        → p j ≡ true
        → store_job io p k more (managing limit [] j [] out) ≡ managing limit [] k [] (out ++ more)
    unfolding store_job replace_job
    store_own p j k more out fits = rw fits

    taken :
        (iq : DataIq) (j : Job D) (out : List Sent)
        → has_sid iq.from iq.sid j ≡ true
        → IsReceiving j out
        → (iq.sequence == j.ibb_sequence) ≡ true
        → ibb_data_iq_received io iq (managing limit [] j [] out)
          ≡ store_written io
              (has_sid iq.from iq.sid)
              (result_iq iq.from iq.id)
              (write_data io iq.payload j)
              (managing limit [] j [] out)
    unfolding ibb_data_iq_received find_job
    taken iq j out own h next = rw (ibb_data_iq_received, own, h.in_band, h.in_transfer, next)

    receive_one :
        (iq : DataIq) (j : Job D) (out : List Sent)
        → iq.sequence < sequence_mod
        → IsReceiving j out
        → (j' : Job D) × (out' : List Sent) × (ibb_data_iq_received io iq
              (managing limit [] j [] out)
            ≡ some (managing limit [] j' [] out'))
          × IsReceiving j' out'
    unfolding ibb_data_iq_received find_job send store_job replace_job write_data acknowledged
    receive_one iq j out small h = elim (Bool-cases (has_sid iq.from iq.sid j)) [
      | inr other ↦
          let answer = error_iq iq.from iq.id cancel Condition.item_not_found in
          (
            j,
            out ++ answer ∷ [],
            rw (ibb_data_iq_received, other),
            refused-IsReceiving j out answer refl h,
          )
      | inl own ↦ elim (Bool-cases (iq.sequence == j.ibb_sequence)) [
        | inr behind ↦
            let answer = error_iq iq.from iq.id cancel Condition.unexpected_request in
            (
              j,
              out ++ answer ∷ [],
              rw (ibb_data_iq_received, own, h.in_band, h.in_transfer, behind),
              refused-IsReceiving j out answer refl h,
            )
        | inl next ↦
            let (d, device) = h.has_device in
            let answer = result_iq iq.from iq.id in
            let same : iq.sequence ≡ j.ibb_sequence = ground arith in
            (
              next_sequence io (written io iq.payload j (io.write iq.payload d)),
              out ++ answer ∷ [],
              taken iq j out own h next
                  ∙ ap
                      (λ (o : Option (Job D)).
                        store_written io (has_sid iq.from iq.sid) answer o
                          (managing limit [] j [] out))
                      (write_data-some iq.payload j d device)
                  ∙ ap some (store_own (has_sid iq.from iq.sid) j _ (answer ∷ []) out own),
              written-IsReceiving iq.payload j out answer (io.write iq.payload d)
                  (omega (arith, same, small)) refl h,
            )
      ]
    ]

    run-IsReceiving :
        (iqs : List DataIq) (j : Job D) (out : List Sent)
        → All (λ (iq : DataIq). iq.sequence < sequence_mod) iqs
        → IsReceiving j out
        → (j' : Job D) × (out' : List Sent) × (receive_run iqs (managing limit [] j [] out)
            ≡ some (managing limit [] j' [] out'))
          × IsReceiving j' out'
    unfolding receive_run
    run-IsReceiving [] j out small h = (j, out, refl, h)
    run-IsReceiving (iq ∷ iqs) j out small h =
        let (k, sent, e, kept) = receive_one iq j out small.0 h in
        let (j', out', r, end) = run-IsReceiving iqs k sent small.1 kept in
        (j', out', rw (receive_run, e) r, end)

    -- Let a job start to receive in band, with a device and the sequence number 0, alone in its manager.
    -- Then, however many blocks arrive, with whatever numbers of 16 bits, the manager handles them
    -- all and acknowledges 65536 of them at most.
    pub receive_run-acknowledged :
        (iqs : List DataIq) (j : Job D) (d : D)
        → All (λ (iq : DataIq). iq.sequence < sequence_mod) iqs
        → is_in_band j.method ≡ true
        → is_transfer j.state ≡ true
        → j.device ≡ some d
        → j.ibb_sequence ≡ 0
        → (m : TransferManager D) × (receive_run iqs (managing limit [] j [] []) ≡ some m)
          × (acknowledged m.sent ≤ sequence_mod)
    receive_run-acknowledged iqs j d small band busy device new =
        let (j', out, e, end) = run-IsReceiving iqs j [] small (record {
          in_band = band;
          in_transfer = busy;
          has_device = (d, device);
          counted = unfold acknowledged in omega (arith, new);
          bounded = omega (arith, new);
        }) in
        (managing limit [] j' [] out, e, omega (arith, end.counted, end.bounded))
