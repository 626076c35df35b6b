-- ===== src/Stream/Ack/Send.antt =====
-- What internalSend does with a packet, by whether it is tracked.
use mathlib.Core.List.{append_assoc}
use qxmpp.Common.{ℕ, ◌+◌, ◌<◌, ◌≡◌, Bool, true, false, ◌&&◌, [], ◌∷◌, ◌++◌, arith, if◌then◌else◌}
use qxmpp.Stream.Ack.{
  Packet, packet_data, sm_request, success, failure, socket_write_error, StreamAckManager, uint_mod,
  increment, send_acknowledgement_request, internal_send,
}
use qxmpp.Stream.Ack.Window.{Window, insert-Window}

module _ (accepts : Bool) (p : Packet) (s : StreamAckManager) (b : ℕ)
    (w : Window b s.unacknowledged s.last_outgoing) (fits : s.last_outgoing + 1 < uint_mod) where
  -- A stanza under stream management waits as the newest entry, and nothing is reported.
  pub internal_send-tracked :
      s.enabled ≡ true
      → p.is_xmpp_stanza ≡ true
      → internal_send accepts p s ≡ record s {
        unacknowledged = s.unacknowledged ++ (s.last_outgoing + 1, p) ∷ [];
        last_outgoing = s.last_outgoing + 1;
        written = s.written ++ packet_data p.content ∷ sm_request ∷ [];
      }
  unfolding internal_send send_acknowledgement_request
  internal_send-tracked on stanza =
      let e : increment s.last_outgoing ≡ s.last_outgoing + 1 = omega arith in
      simp (
        on,
        stanza,
        e,
        insert-Window b s.unacknowledged s.last_outgoing (s.last_outgoing + 1) p w (omega arith),
        append_assoc,
      )

-- Any other packet is reported at once, by what the socket says, and does not wait.
pub internal_send-untracked :
    (accepts : Bool) (p : Packet) (s : StreamAckManager)
    → (s.enabled && p.is_xmpp_stanza) ≡ false
    → internal_send accepts p s ≡ record s {
      written = s.written ++ packet_data p.content ∷ [];
      reports =
          s.reports
          ++ (p.promise, if accepts then success false else failure socket_write_error) ∷ [];
    }
unfolding internal_send
internal_send-untracked accepts p s h = rw h
