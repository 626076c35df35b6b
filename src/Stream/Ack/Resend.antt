-- ===== src/Stream/Ack/Resend.antt =====
-- What enableStreamManagement sends again, and under which numbers.
use mathlib.Core.List.{append-nil, append_assoc}
use native.Mathlib.Nat.{add-zero, zero-add}
use qxmpp.Common.{ℕ, suc, ◌+◌, ◌<◌, ◌≡◌, refl, ◌∙◌, true, false, List, [], ◌∷◌, ◌++◌, arith, length}
use qxmpp.Stream.Ack.{
  Unacknowledged, Output, packet_data, sm_request, StreamAckManager, uint_mod, increment, renumber,
  resend, send_acknowledgement_request, enable_stream_management,
}
use qxmpp.Stream.Ack.Window.{Window, Window-append, insert-Window}

-- The packets in their order, under the numbers after `n`.
abbrev pub numbered : ℕ → Unacknowledged → Unacknowledged
numbered n [] = []
numbered n ((k, p) ∷ m) = (n + 1, p) ∷ numbered (n + 1) m

-- Their data, in their order.
abbrev pub contents : Unacknowledged → List Output
contents [] = []
contents ((k, p) ∷ m) = packet_data p.content ∷ contents m

-- With something to send again, the server is asked once for an acknowledgement.
abbrev pub requests : Unacknowledged → List Output
requests [] = []
requests (_ ∷ _) = sm_request ∷ []

shift : (a c : ℕ) → a + 1 + c ≡ a + suc c
shift a c = omega arith

pub Window-numbered : (n : ℕ) (m : Unacknowledged) → Window n (numbered n m) (n + length m)
Window-numbered n [] = omega arith
Window-numbered n ((k, p) ∷ m) = (refl, rw (shift n (length m)) at (Window-numbered (n + 1) m))

increment-add : (n : ℕ) → n + 1 < uint_mod → increment n ≡ n + 1
increment-add n h = omega arith

pub renumber_lem :
    (old : Unacknowledged) (s : StreamAckManager) (b : ℕ)
    → Window b s.unacknowledged s.last_outgoing
    → s.last_outgoing + length old < uint_mod
    → renumber old s ≡ record s {
      last_outgoing = s.last_outgoing + length old;
      unacknowledged = s.unacknowledged ++ numbered s.last_outgoing old;
      written = s.written ++ contents old;
    }
unfolding renumber
renumber_lem [] s b w h = simp (append-nil, add-zero)
renumber_lem ((k, p) ∷ old) s b w h =
    rw
      (
        increment-add s.last_outgoing (omega arith),
        insert-Window b s.unacknowledged s.last_outgoing (s.last_outgoing + 1) p w (omega arith),
      )
      (renumber_lem old _ b (Window-append b s.unacknowledged s.last_outgoing p w) (omega arith)
        ∙ simp (append_assoc, shift))

pub resend_lem :
    (old : Unacknowledged) (s : StreamAckManager)
    → resend old s ≡ record s { written = s.written ++ contents old }
unfolding resend
resend_lem [] s = simp append-nil
resend_lem ((k, p) ∷ old) s = resend_lem old _ ∙ simp append_assoc

module _ (s : StreamAckManager) where
  -- With the map given apart, so that it can be split.
  reset_with :
      (m : Unacknowledged)
      → s.unacknowledged ≡ m
      → length m < uint_mod
      → enable_stream_management true s ≡ record s {
        enabled = true;
        unacknowledged = numbered 0 m;
        last_outgoing = length m;
        last_incoming = 0;
        written = s.written ++ (contents m ++ requests m);
      }
  unfolding enable_stream_management send_acknowledgement_request
  reset_with [] e h = simp (e, append-nil)
  reset_with ((k, p) ∷ m) e h =
      simp (e, renumber_lem ((k, p) ∷ m) fresh 0 refl (omega arith), zero-add, append_assoc)
    where
      fresh : StreamAckManager
      fresh = record s { enabled = true; last_outgoing = 0; last_incoming = 0; unacknowledged = [] }

  resume_with :
      (m : Unacknowledged)
      → s.unacknowledged ≡ m
      → enable_stream_management false s
        ≡ record s { enabled = true; written = s.written ++ (contents m ++ requests m) }
  unfolding enable_stream_management send_acknowledgement_request
  resume_with [] e = simp (e, append-nil)
  resume_with ((k, p) ∷ m) e = simp (e, resend_lem ((k, p) ∷ m), append_assoc)

-- On a new session the packets that the server has not acknowledged get the numbers 1, 2, … in
-- their old order, all their data is written again in that order, followed by one request for an
-- acknowledgement if there are any, and no promise is reported; for less than 2^32 packets.
pub enable_stream_management-reset :
    (s : StreamAckManager)
    → length s.unacknowledged < uint_mod
    → enable_stream_management true s ≡ record s {
      enabled = true;
      unacknowledged = numbered 0 s.unacknowledged;
      last_outgoing = length s.unacknowledged;
      last_incoming = 0;
      written = s.written ++ (contents s.unacknowledged ++ requests s.unacknowledged);
    }
enable_stream_management-reset s h = reset_with s s.unacknowledged refl h

-- On a resumed session the packets keep their numbers: all their data is written again in order,
-- followed by one request for an acknowledgement if there are any, and nothing else changes.
pub enable_stream_management-resume :
    (s : StreamAckManager)
    → enable_stream_management false s ≡ record s {
      enabled = true;
      written = s.written ++ (contents s.unacknowledged ++ requests s.unacknowledged);
    }
enable_stream_management-resume s = resume_with s s.unacknowledged refl
