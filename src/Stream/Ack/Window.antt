-- ===== src/Stream/Ack/Window.antt =====
-- The numbers of the unacknowledged packets: without a wrap-around of the counter they are the
-- last numbers given out, without a gap.
use qxmpp.Common.{
  ℕ, zero, suc, ◌+◌, ◌-◌, ◌<◌, ◌≡◌, refl, inl, inr, true, [], ◌∷◌, ◌++◌, arith, length, take, drop,
  ℕ-cases,
}
use qxmpp.Stream.Ack.{
  Packet, Unacknowledged, Reports, success, StreamAckManager, insert, acknowledge, set_acknowledged,
}

-- The keys of the map are `b + 1`, `b + 2`, …, `l`.
abbrev pub Window : ℕ → Unacknowledged → ℕ → Type 0
Window b [] l = b ≡ l
Window b ((k, p) ∷ m) l = (k ≡ b + 1) × Window (b + 1) m l

pub Window-length : (b : ℕ) (m : Unacknowledged) (l : ℕ) → Window b m l → b + length m ≡ l
Window-length b [] l w = omega arith
Window-length b ((k, p) ∷ m) l w = omega (arith, Window-length (b + 1) m l w.1)

pub Window-append :
    (b : ℕ) (m : Unacknowledged) (l : ℕ) (p : Packet)
    → Window b m l
    → Window b (m ++ (l + 1, p) ∷ []) (l + 1)
Window-append b [] l p w = (omega arith, omega arith)
Window-append b ((k, q) ∷ m) l p w = (w.0, Window-append (b + 1) m l p w.1)

-- A number above the window goes to the end of the map.
pub insert-Window :
    (b : ℕ) (m : Unacknowledged) (l k : ℕ) (p : Packet)
    → Window b m l
    → l < k
    → insert k p m ≡ m ++ (k, p) ∷ []
unfolding insert
insert-Window b [] l k p w h = refl
insert-Window b ((j, q) ∷ m) l k p w h =
    ground (arith, insert-Window (b + 1) m l k p w.1 h, Window-length (b + 1) m l w.1)

-- The packets of a list of entries, each reported as acknowledged by the server.
abbrev pub acknowledged : Unacknowledged → Reports
acknowledged [] = []
acknowledged ((k, p) ∷ m) = (p.promise, success true) ∷ acknowledged m

pub acknowledge-Window :
    (h b : ℕ) (m : Unacknowledged) (l : ℕ)
    → Window b m l
    → acknowledge h m ≡ (acknowledged (take (h - b) m), drop (h - b) m)
unfolding acknowledge
acknowledge-Window h b [] l w = elim (ℕ-cases (h - b)) [ inl e ↦ rw e | inr (d, e) ↦ rw e ]
acknowledge-Window h b ((k, p) ∷ m) l w = elim (ℕ-cases (h - b)) [
  | inl e ↦ rw e (ground arith)
  | inr (d, e) ↦
      let e' : h - (b + 1) ≡ d = omega arith in
      rw e (ground (arith, rw e' at (acknowledge-Window h (b + 1) m l w.1)))
]

-- An acknowledgement up to `h` takes the oldest `h - b` packets out of the window, and reports just
-- these, in the order of sending.
pub set_acknowledged-Window :
    (h b : ℕ) (s : StreamAckManager)
    → Window b s.unacknowledged s.last_outgoing
    → set_acknowledged h s ≡ record s {
      unacknowledged = drop (h - b) s.unacknowledged;
      reports = s.reports ++ acknowledged (take (h - b) s.unacknowledged);
    }
unfolding set_acknowledged
set_acknowledged-Window h b s w = rw (acknowledge-Window h b s.unacknowledged s.last_outgoing w)

-- What an acknowledgement leaves is a window again.
pub Window-drop :
    (n b : ℕ) (m : Unacknowledged) (l : ℕ) → Window b m l → (c : ℕ) × Window c (drop n m) l
Window-drop zero b m l w = (b, w)
Window-drop (suc n) b [] l w = (b, w)
Window-drop (suc n) b ((k, p) ∷ m) l w = Window-drop n (b + 1) m l w.1
