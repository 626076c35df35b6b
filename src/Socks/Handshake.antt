-- ===== src/Socks/Handshake.antt =====
-- The handshake of client and server, and what either does with any bytes.
use mathlib.Core.List.{append-nil}
use qxmpp.Common.{
  ℕ, Text, ◌%◌, ◌<◌, ◌≡◌, refl, [], ◌∷◌, some, Bytes, length, take, drop, ◌∙◌, sym, ap, true, false,
}
use qxmpp.Socks.{
  Conversions, command_state, ready_state, domain_name, encode_host_and_port, parse_host_and_port,
  read_head, parse_after, SocksClient, connect_to_host, slot_connected, is_method_reply,
  client_connected, client_step, client_receive, Connection, slot_new_connection, is_greeting,
  found_method, server_connected, server_step, server_receive,
}
use qxmpp.Socks.Address.{parse-encode}

-- The bytes that a socket has written since the log was `before`.
abbrev since : Bytes → Bytes → Bytes
since before output = drop (length before) output

-- One run of the handshake: what one side writes, the other receives in one piece.
module _ (q : Conversions) (host : Text) (port : ℕ) where
  unfoldable pub client_start : SocksClient
  client_start = slot_connected (connect_to_host host port)

  unfoldable pub server_greeted : Connection
  server_greeted = server_receive q client_start.output slot_new_connection

  unfoldable pub client_greeted : SocksClient
  client_greeted = client_receive q server_greeted.output client_start

  unfoldable pub server_asked : Connection
  server_asked = server_receive q (since client_start.output client_greeted.output) server_greeted

  unfoldable pub client_answered : SocksClient
  client_answered =
      client_receive q (since server_greeted.output server_asked.output) client_greeted

  server_greeted_lem : server_greeted ≡ record {
    state = command_state;
    input = [];
    output = 5 ∷ 0 ∷ [];
    closed = false;
    reading = true;
    announced = [];
  }
  unfolding server_greeted client_start server_receive server_step slot_connected connect_to_host
      slot_new_connection is_greeting found_method
  server_greeted_lem = refl

  client_greeted_lem : client_greeted ≡ record {
    host_name = host;
    host_port = port;
    state = command_state;
    input = [];
    output = 5 ∷ 1 ∷ 0 ∷ 5 ∷ 1 ∷ 0 ∷ encode_host_and_port domain_name (q.to_latin1 host) port;
    closed = false;
    reading = true;
    ready = 0;
  }
  unfolding client_greeted client_start client_receive client_step slot_connected connect_to_host
      is_method_reply
  client_greeted_lem = rw server_greeted_lem refl

  -- The host as it goes over the wire.
  abbrev pub sent_host : Bytes
  sent_host = let bytes = q.to_latin1 host in take (length bytes % 256) bytes

  parsed :
      (h : Bytes)
      → port < 65536
      → parse_host_and_port (encode_host_and_port domain_name h port)
        ≡ some (domain_name, take (length h % 256) h, port, [])
  parsed h fits =
      ap parse_host_and_port (sym (append-nil (encode_host_and_port domain_name h port)))
      ∙ parse-encode domain_name port h [] fits

  server_asked_lem :
      port < 65536
      → server_asked ≡ record {
        state = ready_state;
        input = [];
        output = 5 ∷ 0 ∷ 5 ∷ 0 ∷ 0 ∷ encode_host_and_port domain_name sent_host port;
        closed = false;
        reading = false;
        announced = (q.from_utf8 sent_host, port) ∷ [];
      }
  unfolding server_asked client_start server_receive server_step server_connected parse_after
      read_head slot_connected connect_to_host
  server_asked_lem fits =
      rw (server_greeted_lem, client_greeted_lem, parsed (q.to_latin1 host) fits)

  client_answered_lem :
      port < 65536
      → client_answered ≡ record client_greeted {
        state = ready_state;
        input = [];
        reading = false;
        ready = 1;
        closed = false;
      }
  unfolding client_answered client_receive client_step client_connected parse_after read_head
  client_answered_lem fits =
      rw (server_greeted_lem, client_greeted_lem, server_asked_lem fits, parsed sent_host fits)

  -- Let the client ask for a host and a port, and each side receive in one piece what the other
  -- writes. Then the client is ready, having signalled it once, and the server has announced,
  -- once, that port and the host's Latin-1 bytes, read as UTF-8; no socket is closed. Of a host of
  -- more than 255 bytes the server reads as many as the length is modulo 256.
  pub handshake_lem :
      port < 65536
      → (client_answered.state ≡ ready_state)
        × (client_answered.ready ≡ 1)
        × (client_answered.closed ≡ false)
        × (server_asked.state ≡ ready_state)
        × (server_asked.announced ≡ (q.from_utf8 sent_host, port) ∷ [])
        × (server_asked.closed ≡ false)
  handshake_lem fits =
      let asked = server_asked_lem fits in
      let answered = client_answered_lem fits in
      (rw answered, rw answered, rw answered, rw asked, rw asked, rw asked)
