-- ===== src/Stream/Ack/Promises.antt =====
-- The promises of packets over a whole history of calls: none is lost and none is finished twice.
use native.Mathlib.Nat.{zero-add}
use qxmpp.Common.{
  ℕ, ◌+◌, ◌<◌, ◌≤◌, ◌≡◌, refl, Bool, true, false, List, [], ◌∷◌, ◌&&◌, arith, length, Text, codes,
  ◌==◌, if◌then◌else◌, Bool-cases, inl, inr,
}
use qxmpp.Xml.{Element, attribute}
use qxmpp.Stream.Ack.{
  Packet, StreamAckManager, uint_mod, init, internal_send, enable_stream_management,
  set_acknowledged, handle_acknowledgement, send_acknowledgement, on_session_closed, disconnect_all,
  reset_cache, handle_stanza,
}
use qxmpp.Stream.Ack.Window.{Window-length, Window-append}
use qxmpp.Stream.Ack.Send.{internal_send-tracked, internal_send-untracked}
use qxmpp.Stream.Ack.Resend.{
  Window-numbered, enable_stream_management-reset, enable_stream_management-resume,
}
use qxmpp.Stream.Ack.History.{
  Call, sends, receives, enables, acknowledges, closes, resets, step, run, reported, pending,
  handed_in, issued, IsWindow, tally, reported-append, pending-append, pending-numbered,
  reported-disconnect_all, set_acknowledged-tally, set_acknowledged-IsWindow,
}

-- A step from `s` to `t` keeps the window, gives out one number at most, and accounts for the
-- promise `n`, handed in `k` times.
record Accounts (n k : ℕ) (s t : StreamAckManager) : Type 0 where
  window : IsWindow t
  grows : t.last_outgoing ≤ s.last_outgoing + 1
  balance : tally n t ≡ k + tally n s

module _ (n : ℕ) (s : StreamAckManager) (w : IsWindow s) where
  Accounts-self : Accounts n 0 s s
  Accounts-self = record { window = w; grows = omega arith; balance = omega arith }

  Accounts-acknowledged : (h : ℕ) → Accounts n 0 s (set_acknowledged h s)
  Accounts-acknowledged h = record {
    window = set_acknowledged-IsWindow h s w;
    grows = unfold set_acknowledged in omega arith;
    balance = omega (arith, set_acknowledged-tally n h s);
  }

  Accounts-receives :
      (to_uint : Text → ℕ) (el : Element) → Accounts n 0 s (handle_stanza to_uint el s).0
  unfolding handle_stanza handle_acknowledgement send_acknowledgement
  Accounts-receives to_uint el =
      ground (arith, Accounts-self, Accounts-acknowledged (to_uint (attribute el (codes "h"))))

  Accounts-sends :
      (accepts : Bool) (p : Packet)
      → s.last_outgoing + 1 < uint_mod
      → Accounts n (if p.promise == n then 1 else 0) s (internal_send accepts p s)
  Accounts-sends accepts p h = elim (Bool-cases s.enabled) [
    | inl on ↦ elim (Bool-cases p.is_xmpp_stanza) [
      | inl stanza ↦ rw (internal_send-tracked accepts p s w.base w.keys h on stanza) (record {
        window = record {
          base = w.base;
          keys = Window-append w.base s.unacknowledged s.last_outgoing p w.keys;
          fits = h;
        };
        grows = omega arith;
        balance = omega (arith, pending-append n s.unacknowledged ((s.last_outgoing + 1, p) ∷ []));
      })
      | inr other ↦ untracked (rw (other, on))
    ]
    | inr off ↦ untracked (rw off)
  ]
    where
      untracked :
          (s.enabled && p.is_xmpp_stanza) ≡ false
          → Accounts n (if p.promise == n then 1 else 0) s (internal_send accepts p s)
      untracked e = rw (internal_send-untracked accepts p s e) (record {
        window = record { base = w.base; keys = w.keys; fits = w.fits };
        grows = omega arith;
        balance = omega (arith, reported-append n s.reports);
      })

  Accounts-enables : (reset : Bool) → Accounts n 0 s (enable_stream_management reset s)
  Accounts-enables true =
      let size = Window-length w.base s.unacknowledged s.last_outgoing w.keys in
      rw (enable_stream_management-reset s (omega arith)) (record {
        window = record {
          base = 0;
          keys = rw zero-add at (Window-numbered 0 s.unacknowledged);
          fits = omega arith;
        };
        grows = omega arith;
        balance = omega (arith, pending-numbered n 0 s.unacknowledged);
      })
  Accounts-enables false = rw (enable_stream_management-resume s) (record {
    window = record { base = w.base; keys = w.keys; fits = w.fits };
    grows = omega arith;
    balance = omega arith;
  })

  Accounts-resets : Accounts n 0 s (reset_cache s)
  unfolding reset_cache
  Accounts-resets = record {
    window = record { base = s.last_outgoing; keys = refl; fits = w.fits };
    grows = omega arith;
    balance = omega (
      arith,
      reported-append n s.reports (disconnect_all s.unacknowledged),
      reported-disconnect_all n s.unacknowledged,
    );
  }

step-Accounts :
    (to_uint : Text → ℕ) (n : ℕ) (s : StreamAckManager) (c : Call)
    → IsWindow s
    → s.last_outgoing + 1 < uint_mod
    → Accounts n (handed_in n c) s (step to_uint s c)
unfolding step on_session_closed
step-Accounts to_uint n s (sends accepts p) w h = Accounts-sends n s w accepts p h
step-Accounts to_uint n s (receives el) w h = Accounts-receives n s w to_uint el
step-Accounts to_uint n s (enables reset) w h = Accounts-enables n s w reset
step-Accounts to_uint n s (acknowledges h') w h = Accounts-acknowledged n s w h'
step-Accounts to_uint n s closes w h = record {
  window = record { base = w.base; keys = w.keys; fits = w.fits };
  grows = omega arith;
  balance = omega arith;
}
step-Accounts to_uint n s resets w h = Accounts-resets n s w

run-Accounts :
    (to_uint : Text → ℕ) (n : ℕ) (cs : List Call) (s : StreamAckManager)
    → IsWindow s
    → s.last_outgoing + length cs < uint_mod
    → IsWindow (run to_uint s cs) × (tally n (run to_uint s cs) ≡ issued n cs + tally n s)
unfolding run
run-Accounts to_uint n [] s w h = (w, omega arith)
run-Accounts to_uint n (c ∷ cs) s w h =
    let a = step-Accounts to_uint n s c w (omega arith) in
    let later = run-Accounts to_uint n cs (step to_uint s c) a.window (omega (arith, a.grows)) in
    (later.0, omega (arith, later.1, a.balance))

tally-init : (n : ℕ) → tally n init ≡ 0
unfolding init
tally-init n = omega arith

init-IsWindow : IsWindow init
unfolding init
init-IsWindow = record { base = 0; keys = refl; fits = omega arith }

-- Over any history of fewer than 2^32 calls from the start, the unacknowledged packets bear
-- consecutive numbers that end with the last one given out.
pub run-IsWindow :
    (to_uint : Text → ℕ) (cs : List Call) → length cs < uint_mod → IsWindow (run to_uint init cs)
run-IsWindow to_uint cs h =
    (run-Accounts to_uint 0 cs init init-IsWindow (unfold init in omega arith)).0

-- Over any history of fewer than 2^32 calls from the start, and for each promise: the times that it
-- was finished and the times that it waits for an acknowledgement are together the times that
-- it was handed in with a packet. So no promise is lost, and none is finished twice.
pub run-reported :
    (to_uint : Text → ℕ) (cs : List Call) (n : ℕ)
    → length cs < uint_mod
    → let s = run to_uint init cs in reported n s.reports + pending n s.unacknowledged ≡ issued n cs
run-reported to_uint cs n h = omega (
  arith,
  (run-Accounts to_uint n cs init init-IsWindow (unfold init in omega arith)).1,
  tally-init n,
)
