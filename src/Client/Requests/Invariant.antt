-- ===== src/Client/Requests/Invariant.antt =====
-- Histories of calls of the manager, and what an invariant of them takes.
use qxmpp.Common.{
  ℕ, suc, ◌≡◌, Bool, true, false, List, [], ◌∷◌, ◌++◌, some, Text, codes, ◌==◌, length, drop,
  Option-cases, Bool-cases, inl, inr, is_empty,
}
use qxmpp.Xml.{Element, attribute}
use qxmpp.Stream.Ack.{Packet, success, failure, SendError, Reports, StreamAckManager, internal_send}
use qxmpp.Stream.Ack.History.{Call, step}
use qxmpp.Client.Requests.{
  IqError, invalid_id, no_recipient, send_error, iq_error, is_expected, result_of, IqResult,
  IqState, OutgoingIqManager, find, erase, make_ready, is_id_valid, start, finish_found, finish,
  fail_sent, continue_sends, on_stream, send_packet, chosen_id, send_iq, cancel_all,
  on_session_opened, on_session_closed, is_response, handle_found, handle_stanza,
}

-- The calls that the outgoing stream makes of the manager. A call of the stream management, such as
-- an acknowledgement from the server, finishes promises of packets.
pub data IqCall : Type 0 where
  sends : Bool → (Text → Packet) → Text → Text → Text → Text → IqCall
  sends_packet : Bool → Packet → Text → Text → IqCall
  receives : Element → IqCall
  streams : Call → IqCall
  opens closes : Bool → IqCall
  cancels : IqCall

unfoldable pub iq_step : (Text → ℕ) → OutgoingIqManager → IqCall → OutgoingIqManager
iq_step to_uint m (sends accepts serialize uuid uuid' id to) =
    send_iq accepts serialize uuid uuid' id to m
iq_step to_uint m (sends_packet accepts p id to) = send_packet accepts p id to m
iq_step to_uint m (receives stanza) = (handle_stanza stanza m).0
iq_step to_uint m (streams c) = on_stream (λ s. step to_uint s c) m
iq_step to_uint m (opens resumed) = on_session_opened resumed m
iq_step to_uint m (closes can_resume) = on_session_closed can_resume m
iq_step to_uint m cancels = cancel_all m

unfoldable pub iq_run : (Text → ℕ) → OutgoingIqManager → List IqCall → OutgoingIqManager
iq_run to_uint m [] = m
iq_run to_uint m (c ∷ cs) = iq_run to_uint (iq_step to_uint m c) cs

-- What every call does to the requests and the results: a request that is found is finished and
-- erased, a promise is finished at once, a request is added under a new ID, all are cancelled, or
-- only the stream management moves.
pub record IsInductive (P : OutgoingIqManager → Type 0) : Type 0 where
  pub settle :
      (id : Text) (st : IqState) (result : IqResult) (m : OutgoingIqManager)
      → find id m.requests ≡ some st
      → P m
      → P (record m {
        requests = erase id m.requests;
        finished = m.finished ++ (st.interface, result) ∷ [];
      })
  pub ready : (e : IqError) (m : OutgoingIqManager) → P m → P (make_ready e m)
  pub add :
      (id to : Text) (m : OutgoingIqManager)
      → is_id_valid id m ≡ true
      → P m
      → P (record m {
        promises = suc m.promises;
        requests = (id, record { interface = m.promises; jid = to }) ∷ m.requests;
      })
  pub cancel : (m : OutgoingIqManager) → P m → P (cancel_all m)
  pub move :
      (s : StreamAckManager) (ws : List (ℕ × Text)) (m : OutgoingIqManager)
      → P m
      → P (record m { stream = s; sending = ws })

module _ (P : OutgoingIqManager → Type 0) (i : IsInductive P) where
  preserved-finish :
      (id : Text) (result : IqResult) (m : OutgoingIqManager) → P m → P (finish id result m)
  unfolding finish finish_found
  preserved-finish id result m h = elim (Option-cases (find id m.requests)) [
    | inl e ↦ rw e h
    | inr (st, e) ↦ rw e (i.settle id st result m e h)
  ]

  preserved-fail_sent :
      (ws : List (ℕ × Text)) (p : ℕ) (e : SendError) (m : OutgoingIqManager)
      → P m
      → P (fail_sent ws p e m)
  unfolding fail_sent
  preserved-fail_sent [] p e m h = h
  preserved-fail_sent ((q, id) ∷ ws) p e m h = elim (Bool-cases (q == p)) [
    | inl y ↦
        rw (y, fail_sent)
          (let result = iq_error (send_error e) in
            preserved-fail_sent ws p e (finish id result m) (preserved-finish id result m h))
    | inr y ↦ rw (y, fail_sent) (preserved-fail_sent ws p e m h)
  ]

  preserved-continue_sends : (rs : Reports) (m : OutgoingIqManager) → P m → P (continue_sends rs m)
  unfolding continue_sends
  preserved-continue_sends [] m h = h
  preserved-continue_sends ((p, success acknowledged) ∷ rs) m h = preserved-continue_sends rs m h
  preserved-continue_sends ((p, failure e) ∷ rs) m h =
      preserved-continue_sends rs (fail_sent m.sending p e m)
        (preserved-fail_sent m.sending p e m h)

  preserved-start : (id to : Text) (m : OutgoingIqManager) → P m → P (start id to m).0
  unfolding start
  preserved-start id to m h = elim (Bool-cases (is_id_valid id m)) [
    | inl valid ↦ elim (Bool-cases (is_empty to)) [
      | inl e ↦ rw (valid, e) (i.ready no_recipient m h)
      | inr e ↦ rw (valid, e) (i.add id to m valid h)
    ]
    | inr e ↦ rw e (i.ready invalid_id m h)
  ]

  preserved-handle_stanza :
      (stanza : Element) (m : OutgoingIqManager) → P m → P (handle_stanza stanza m).0
  unfolding handle_stanza handle_found
  preserved-handle_stanza stanza m h = elim (Bool-cases (is_response stanza)) [
    | inl r ↦ elim (Option-cases (find (attribute stanza (codes "id")) m.requests)) [
      | inl e ↦ rw (r, e) h
      | inr (st, e) ↦ elim (Bool-cases (is_expected (attribute stanza (codes "from")) st.jid)) [
        | inl y ↦
            rw (r, e, y) (i.settle (attribute stanza (codes "id")) st (result_of stanza) m e h)
        | inr y ↦ rw (r, e, y) h
      ]
    ]
    | inr r ↦ rw r h
  ]

  preserved-on_stream :
      (f : StreamAckManager → StreamAckManager) (m : OutgoingIqManager) → P m → P (on_stream f m)
  unfolding on_stream
  preserved-on_stream f m h =
      preserved-continue_sends (drop (length m.stream.reports) (f m.stream).reports)
        (record m { stream = f m.stream }) (i.move (f m.stream) m.sending m h)

  preserved-send_packet :
      (accepts : Bool) (p : Packet) (id to : Text) (m : OutgoingIqManager)
      → P m
      → P (send_packet accepts p id to m)
  unfolding send_packet
  preserved-send_packet accepts p id to m h =
      let started = preserved-start id to m h in
      elim (Bool-cases (start id to m).1) [
        | inl y ↦ rw y (
            preserved-on_stream (internal_send accepts p)
              (record (start id to m).0 { sending = (p.promise, id) ∷ m.sending })
              (i.move (start id to m).0.stream ((p.promise, id) ∷ m.sending) (start id to m).0
                started))
        | inr y ↦ rw y started
      ]

  preserved-iq_step :
      (to_uint : Text → ℕ) (m : OutgoingIqManager) (c : IqCall) → P m → P (iq_step to_uint m c)
  unfolding iq_step send_iq on_session_opened on_session_closed
  preserved-iq_step to_uint m (sends accepts serialize uuid uuid' id to) h =
      let chosen = chosen_id uuid uuid' id m in
      preserved-send_packet accepts (serialize chosen) chosen to m h
  preserved-iq_step to_uint m (sends_packet accepts p id to) h =
      preserved-send_packet accepts p id to m h
  preserved-iq_step to_uint m (receives stanza) h = preserved-handle_stanza stanza m h
  preserved-iq_step to_uint m (streams c) h = preserved-on_stream (λ s. step to_uint s c) m h
  preserved-iq_step to_uint m (opens true) h = h
  preserved-iq_step to_uint m (opens false) h = i.cancel m h
  preserved-iq_step to_uint m (closes true) h = h
  preserved-iq_step to_uint m (closes false) h = i.cancel m h
  preserved-iq_step to_uint m cancels h = i.cancel m h

  -- What every call preserves holds after any history of calls.
  pub preserved-iq_run :
      (to_uint : Text → ℕ) (cs : List IqCall) (m : OutgoingIqManager)
      → P m
      → P (iq_run to_uint m cs)
  unfolding iq_run
  preserved-iq_run to_uint [] m h = h
  preserved-iq_run to_uint (c ∷ cs) m h =
      preserved-iq_run to_uint cs (iq_step to_uint m c) (preserved-iq_step to_uint m c h)
