-- ===== src/Transfer/Channel.antt =====
-- A sender and a receiver of a file over in-band bytestreams, with a stream between them that
-- delivers each stanza once and in order, as XMPP does. Each data stanza is answered before the
-- next is sent.
use qxmpp.Common.{ℕ, zero, suc, [], ◌∷◌, List, Option, none, some, Text}
use qxmpp.Transfer.Job.{Io, Sent, result_iq, error_iq, data_iq, close_iq}
use qxmpp.Transfer.Manager.{
  result_response, error_response, other_response, Response, TransferManager, ibb_close_iq_received,
  ibb_data_iq_received, ibb_response_received,
}

unfoldable pub last_sent : List Sent → Option Sent
last_sent [] = none
last_sent (s ∷ []) = some s
last_sent (_ ∷ t ∷ ts) = last_sent (t ∷ ts)

-- What an answer from `jid` is to the one who asked.
abbrev pub response_of : Text → Text → Option Sent → Response
response_of jid id (some (result_iq _ _)) = record { from = jid; id = id; kind = result_response }
response_of jid id (some (error_iq _ _ _ _)) = record { from = jid; id = id; kind = error_response }
response_of jid id _ = record { from = jid; id = id; kind = other_response }

module _ {D : Type 0} (io : Io D) (sender_jid receiver_jid : Text) (ids : ℕ → Text) where
  abbrev pub Ends : Type 0
  Ends = TransferManager D × TransferManager D

  -- The sender handles an answer.
  unfoldable pub respond_with : ℕ → Response → TransferManager D → TransferManager D → Option Ends
  respond_with i answer s r = elim (ibb_response_received io (ids i) answer s) [
    | none ↦ none
    | some s' ↦ some (s', r)
  ]

  unfoldable pub respond_to :
      ℕ → Text → TransferManager D → Option (TransferManager D) → Option Ends
  respond_to i id s none = none
  respond_to i id s (some r) = respond_with i (response_of receiver_jid id (last_sent r.sent)) s r

  -- A round of the exchange.
  abbrev pub Round : Type 0
  Round = ℕ → Option Sent → TransferManager D → TransferManager D → Option Ends

  unfoldable pub exchange_next : Round → ℕ → Option Ends → Option Ends
  exchange_next k i none = none
  exchange_next k i (some (s, r)) = k (suc i) (last_sent s.sent) s r

  -- What the sender sent last is handled by the receiver, and its answer by the sender, until the
  -- stream is closed.
  unfoldable pub exchange : ℕ → Round
  exchange zero i request s r = none
  exchange (suc f) i (some (close_iq to id sid)) s r =
      some (s, ibb_close_iq_received io (record { from = sender_jid; id = id; sid = sid }) r)
  exchange (suc f) i (some (data_iq to id sid n payload)) s r = exchange_next (exchange f) i (
      respond_to i id s (
        ibb_data_iq_received io
          (record { from = sender_jid; id = id; sid = sid; sequence = n; payload = payload }) r))
  exchange (suc f) i _ s r = none

  -- From the acceptance of the stream on, which answers the request `id`.
  unfoldable pub send_file : ℕ → Text → TransferManager D → TransferManager D → Option Ends
  send_file f id s r =
      exchange_next (exchange f) 0
        (respond_with 0 (record { from = receiver_jid; id = id; kind = result_response }) s r)
