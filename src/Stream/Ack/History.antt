-- ===== src/Stream/Ack/History.antt =====
-- Histories of calls of the manager, and how often a promise occurs in its state.
use qxmpp.Common.{
  ℕ, ◌+◌, ◌-◌, ◌<◌, ◌≡◌, refl, Bool, List, [], ◌∷◌, ◌++◌, arith, Text, ◌==◌, if◌then◌else◌,
}
use qxmpp.Xml.{Element}
use qxmpp.Stream.Ack.{
  Packet, Unacknowledged, Reports, StreamAckManager, uint_mod, acknowledge, internal_send,
  enable_stream_management, set_acknowledged, on_session_closed, disconnect_all, reset_cache,
  handle_stanza,
}
use qxmpp.Stream.Ack.Window.{Window, Window-drop, set_acknowledged-Window}
use qxmpp.Stream.Ack.Resend.{numbered}

-- The calls that the streams make of the manager.
pub data Call : Type 0 where
  sends : Bool → Packet → Call
  receives : Element → Call
  enables : Bool → Call
  acknowledges : ℕ → Call
  closes resets : Call

unfoldable pub step : (Text → ℕ) → StreamAckManager → Call → StreamAckManager
step to_uint s (sends accepts p) = internal_send accepts p s
step to_uint s (receives el) = (handle_stanza to_uint el s).0
step to_uint s (enables reset) = enable_stream_management reset s
step to_uint s (acknowledges h) = set_acknowledged h s
step to_uint s closes = on_session_closed s
step to_uint s resets = reset_cache s

unfoldable pub run : (Text → ℕ) → StreamAckManager → List Call → StreamAckManager
run to_uint s [] = s
run to_uint s (c ∷ cs) = run to_uint (step to_uint s c) cs

-- How often the promise `n` has been finished.
abbrev pub reported : ℕ → Reports → ℕ
reported n [] = 0
reported n ((q, r) ∷ rs) = (if q == n then 1 else 0) + reported n rs

-- How often it waits for an acknowledgement.
abbrev pub pending : ℕ → Unacknowledged → ℕ
pending n [] = 0
pending n ((k, p) ∷ m) = (if p.promise == n then 1 else 0) + pending n m

-- How often it has been handed in.
abbrev pub handed_in : ℕ → Call → ℕ
handed_in n (sends accepts p) = if p.promise == n then 1 else 0
handed_in n _ = 0

abbrev pub issued : ℕ → List Call → ℕ
issued n [] = 0
issued n (c ∷ cs) = handed_in n c + issued n cs

-- Keys without a gap, and a counter that has not wrapped around.
pub record IsWindow (s : StreamAckManager) : Type 0 where
  pub base : ℕ
  pub keys : Window base s.unacknowledged s.last_outgoing
  pub fits : s.last_outgoing < uint_mod

abbrev pub tally : ℕ → StreamAckManager → ℕ
tally n s = reported n s.reports + pending n s.unacknowledged

pub reported-append : (n : ℕ) (a b : Reports) → reported n (a ++ b) ≡ reported n a + reported n b
reported-append n [] b = omega arith
reported-append n ((q, r) ∷ a) b = omega (arith, reported-append n a b)

pub pending-append : (n : ℕ) (a b : Unacknowledged) → pending n (a ++ b) ≡ pending n a + pending n b
pending-append n [] b = omega arith
pending-append n ((k, p) ∷ a) b = omega (arith, pending-append n a b)

pub pending-numbered : (n k : ℕ) (m : Unacknowledged) → pending n (numbered k m) ≡ pending n m
pending-numbered n k [] = refl
pending-numbered n k ((j, p) ∷ m) = omega (arith, pending-numbered n (k + 1) m)

pub reported-disconnect_all :
    (n : ℕ) (m : Unacknowledged) → reported n (disconnect_all m) ≡ pending n m
unfolding disconnect_all
reported-disconnect_all n [] = refl
reported-disconnect_all n ((k, p) ∷ m) = omega (arith, reported-disconnect_all n m)

-- The loop of an acknowledgement reports what it takes out.
acknowledge-tally :
    (n h : ℕ) (m : Unacknowledged)
    → reported n (acknowledge h m).0 + pending n (acknowledge h m).1 ≡ pending n m
unfolding acknowledge
acknowledge-tally n h [] = refl
acknowledge-tally n h ((k, p) ∷ m) = ground (arith, acknowledge-tally n h m)

pub set_acknowledged-tally :
    (n h : ℕ) (s : StreamAckManager) → tally n (set_acknowledged h s) ≡ tally n s
unfolding set_acknowledged
set_acknowledged-tally n h s = omega (
  arith,
  acknowledge-tally n h s.unacknowledged,
  reported-append n s.reports (acknowledge h s.unacknowledged).0,
)

pub set_acknowledged-IsWindow :
    (h : ℕ) (s : StreamAckManager) → IsWindow s → IsWindow (set_acknowledged h s)
set_acknowledged-IsWindow h s w =
    let (c, keys) = Window-drop (h - w.base) w.base s.unacknowledged s.last_outgoing w.keys in
    rw (set_acknowledged-Window h w.base s w.keys) (record { base = c; keys = keys; fits = w.fits })
