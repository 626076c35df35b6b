-- ===== src/Stream/Ack/WrapAround.antt =====
-- What the numbers of packets do when the 32-bit counter starts again at 0.
use qxmpp.Common.{◌-◌, ◌≡◌, Bool, true, [], ◌∷◌, ◌++◌}
use qxmpp.Stream.Ack.{
  Packet, success, StreamAckManager, uint_mod, insert, acknowledge, set_acknowledged, internal_send,
  send_acknowledgement_request,
}

-- With stream management on, let `p` be the one packet that waits, under the last number before
-- the counter wraps around. If the stanza `q` is sent then, and the server acknowledges up to
-- the number of `p` only, `q` is reported as acknowledged too, and before `p`.
pub set_acknowledged_wrapped :
    (accepts : Bool) (p q : Packet) (s : StreamAckManager)
    → s.enabled ≡ true
    → s.unacknowledged ≡ (uint_mod - 1, p) ∷ []
    → s.last_outgoing ≡ uint_mod - 1
    → q.is_xmpp_stanza ≡ true
    → (set_acknowledged (uint_mod - 1) (internal_send accepts q s)).reports
      ≡ s.reports ++ (q.promise, success true) ∷ (p.promise, success true) ∷ []
unfolding set_acknowledged internal_send send_acknowledgement_request insert acknowledge
set_acknowledged_wrapped accepts p q s on waits last stanza = simp (on, waits, last, stanza)
