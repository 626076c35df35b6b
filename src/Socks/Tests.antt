-- ===== src/Socks/Tests.antt =====
-- The theorems about SOCKS5 at concrete inputs.
use qxmpp.Common.{◌≡◌, arith, Bytes, Text, [], ◌∷◌, false, length, codes}
use qxmpp.Socks.{Conversions, ready_state, slot_new_connection}
use qxmpp.Socks.Handshake.{client_answered, server_asked, sent_host, handshake_lem}
use qxmpp.Socks.Signals.{server_run, signals, server_run-signals}

-- The conversions on text whose characters are single bytes.
abbrev plain : Conversions
plain = record { to_latin1 = λ t. t; from_utf8 = λ b. b }

abbrev proxy : Text
proxy = codes "proxy"

abbrev wire : Bytes
wire = 3 ∷ 2 ∷ 104 ∷ 105 ∷ 4 ∷ 56 ∷ 9 ∷ []

handshake_lem_example :
    ((client_answered plain proxy 1080).state ≡ ready_state)
    × ((client_answered plain proxy 1080).ready ≡ 1)
    × ((client_answered plain proxy 1080).closed ≡ false)
    × ((server_asked plain proxy 1080).state ≡ ready_state)
    × ((server_asked plain proxy 1080).announced
        ≡ (plain.from_utf8 (sent_host plain proxy 1080), 1080) ∷ [])
    × ((server_asked plain proxy 1080).closed ≡ false)
handshake_lem_example = handshake_lem plain proxy 1080 (omega arith)

server_run-signals_example :
    let c = server_run plain ((5 ∷ 1 ∷ 0 ∷ []) ∷ (5 ∷ 1 ∷ 0 ∷ wire) ∷ []) slot_new_connection in
    length c.announced ≡ signals c.state
server_run-signals_example = server_run-signals plain ((5 ∷ 1 ∷ 0 ∷ []) ∷ (5 ∷ 1 ∷ 0 ∷ wire) ∷ [])
