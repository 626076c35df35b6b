-- ===== src/Client/Requests/Matching.antt =====
-- Which response answers which request.
use qxmpp.Common.{
  ℕ, ◌≡◌, ◌≢◌, ◌⊎◌, inl, inr, refl, true, false, List, [], ◌∷◌, ◌++◌, Option, none, some, arith,
  Text, codes, text_eq, text_eq_iff, Bool-cases,
}
use qxmpp.Xml.{Element, attribute}
use qxmpp.Client.Requests.{
  IqState, Requests, OutgoingIqManager, initial, find, erase, has_id, is_id_valid, cancel_all,
  is_expected, is_response, result_of, handle_found, handle_stanza,
}
use qxmpp.Client.Requests.Invariant.{IqCall, iq_run, IsInductive, preserved-iq_run}

abbrev pub id_of : Element → Text
id_of stanza = attribute stanza (codes "id")

abbrev pub from_of : Element → Text
from_of stanza = attribute stanza (codes "from")

-- No ID occurs twice.
abbrev pub IsUnique : Requests → Type 0
IsUnique [] = Unit
IsUnique ((id, st) ∷ rs) = (find id rs ≡ none) × IsUnique rs

find-erase : (id : Text) (rs : Requests) → IsUnique rs → find id (erase id rs) ≡ none
unfolding find erase
find-erase id [] u = refl
find-erase id ((k, st) ∷ rs) u = elim (Bool-cases (text_eq k id)) [
  | inl e ↦ let same : k ≡ id = (text_eq_iff k id).0 e in rw e (let x = u.0 in cc)
  | inr e ↦ rw (e, e) (find-erase id rs u.1)
]

find-erase_other : (k id : Text) (rs : Requests) → k ≢ id → find k (erase id rs) ≡ find k rs
unfolding find erase
find-erase_other k id [] h = refl
find-erase_other k id ((j, st) ∷ rs) h = elim (Bool-cases (text_eq j id)) [
  | inl e ↦
      let other : text_eq j k ≡ false = ground (arith, text_eq_iff j id, text_eq_iff j k) in
      rw (e, other)
  | inr e ↦ ground (arith, find-erase_other k id rs h)
]

none-erase : (k id : Text) (rs : Requests) → find k rs ≡ none → find k (erase id rs) ≡ none
unfolding find erase
none-erase k id [] h = refl
none-erase k id ((j, st) ∷ rs) h = ground (arith, none-erase k id rs)

erase-IsUnique : (id : Text) (rs : Requests) → IsUnique rs → IsUnique (erase id rs)
unfolding erase
erase-IsUnique id [] u = u
erase-IsUnique id ((k, st) ∷ rs) u = elim (Bool-cases (text_eq k id)) [
  | inl e ↦ rw e (u.1)
  | inr e ↦ rw e (none-erase k id rs u.0, erase-IsUnique id rs u.1)
]

expected-cases : (from jid : Text) → is_expected from jid ≡ true → (from ≡ []) ⊎ (from ≡ jid)
expected-cases [] jid h = inl refl
expected-cases (c ∷ from) jid h = inr ((text_eq_iff (c ∷ from) jid).0 h)

IsUnique-IsInductive : IsInductive (λ m. IsUnique m.requests)
unfolding cancel_all is_id_valid has_id
IsUnique-IsInductive = record {
  settle = λ id st result m found u. erase-IsUnique id m.requests u;
  ready = λ e m u. u;
  add = λ id to m valid u. (ground arith, u);
  cancel = λ m u. tt;
  move = λ s ws m u. u;
}

run-IsUnique :
    (to_uint : Text → ℕ) (cs : List IqCall) → IsUnique (iq_run to_uint initial cs).requests
run-IsUnique to_uint cs =
    preserved-iq_run (λ m. IsUnique m.requests) IsUnique-IsInductive to_uint cs initial
      (unfold initial in tt)

taken_found :
    (stanza : Element) (m : OutgoingIqManager) (o : Option IqState)
    → (handle_found stanza m o).1 ≡ true
    → (st : IqState) × (o ≡ some st) × (is_expected (from_of stanza) st.jid ≡ true)
unfolding handle_found
taken_found stanza m none h = ground arith
taken_found stanza m (some st) h = (st, refl, ground arith)

taken :
    (stanza : Element) (m : OutgoingIqManager)
    → (handle_stanza stanza m).1 ≡ true
    → (is_response stanza ≡ true)
      × (st : IqState) × (find (id_of stanza) m.requests ≡ some st)
      × (is_expected (from_of stanza) st.jid ≡ true)
unfolding handle_stanza
taken stanza m h =
    let r : is_response stanza ≡ true = ground arith in
    let (st, e, y) = taken_found stanza m (find (id_of stanza) m.requests) (ground arith) in
    (r, st, e, y)

-- A stanza that the manager takes is a response (an IQ of type "result" or "error") to a request that
-- waits under its ID, and has no sender, as the server's own, or that request's recipient as
-- the sender. It finishes that request's promise with what it says, and no other; all other
-- requests go on waiting.
pub handle_stanza-answer :
    (stanza : Element) (m : OutgoingIqManager)
    → (handle_stanza stanza m).1 ≡ true
    → (st : IqState) × (is_response stanza ≡ true)
      × (find (id_of stanza) m.requests ≡ some st)
      × ((from_of stanza ≡ []) ⊎ (from_of stanza ≡ st.jid))
      × ((handle_stanza stanza m).0.finished ≡ m.finished ++ (st.interface, result_of stanza) ∷ [])
      × ((k : Text)
          → k ≢ id_of stanza
          → find k (handle_stanza stanza m).0.requests ≡ find k m.requests)
unfolding handle_stanza handle_found
handle_stanza-answer stanza m h =
    let (r, st, e, y) = taken stanza m h in
    (
      st,
      r,
      e,
      expected-cases (from_of stanza) st.jid y,
      rw (r, e, y),
      λ k other. rw (r, e, y) (find-erase_other k (id_of stanza) m.requests other),
    )

-- A stanza under an ID that no request waits for is not taken.
unknown :
    (stanza : Element) (m : OutgoingIqManager)
    → find (id_of stanza) m.requests ≡ none
    → handle_stanza stanza m ≡ (m, false)
unfolding handle_stanza handle_found
unknown stanza m h = elim (Bool-cases (is_response stanza)) [ inl r ↦ rw (r, h) | inr r ↦ rw r ]

-- After any history of calls, when a response is taken, a second stanza with the same ID that arrives
-- next, from whomever, is not taken and changes nothing.
pub handle_stanza-once :
    (to_uint : Text → ℕ) (cs : List IqCall) (stanza again : Element)
    → let m = iq_run to_uint initial cs in
      (handle_stanza stanza m).1 ≡ true
      → id_of again ≡ id_of stanza
      → handle_stanza again (handle_stanza stanza m).0 ≡ ((handle_stanza stanza m).0, false)
unfolding handle_stanza handle_found
handle_stanza-once to_uint cs stanza again h same =
    let m = iq_run to_uint initial cs in
    let (r, st, e, y) = taken stanza m h in
    let gone : find (id_of again) (handle_stanza stanza m).0.requests ≡ none =
      rw (r, e, y, same) (find-erase (id_of stanza) m.requests (run-IsUnique to_uint cs)) in
    unknown again (handle_stanza stanza m).0 gone
