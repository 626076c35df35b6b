-- ===== src/Socks/Signals.antt =====
-- What client and server signal, whatever bytes arrive in whatever pieces.
use qxmpp.Common.{
  ℕ, ◌≡◌, refl, List, [], ◌∷◌, ◌++◌, Option, some, none, arith, Bytes, length, length-append, false,
}
use qxmpp.Socks.{
  Conversions, State, connect_state, command_state, ready_state, connect_command, succeeded,
  read_head, parse_after, SocksClient, connect_to_host, slot_connected, client_connected,
  client_step, client_receive, Connection, slot_new_connection, server_connected, server_step,
  server_receive,
}

-- Chunks of bytes that arrive one after the other.
unfoldable pub client_run : Conversions → List Bytes → SocksClient → SocksClient
client_run q [] c = c
client_run q (b ∷ bs) c = client_run q bs (client_receive q b c)

unfoldable pub server_run : Conversions → List Bytes → Connection → Connection
server_run q [] c = c
server_run q (b ∷ bs) c = server_run q bs (server_receive q b c)

-- How many signals there have been in a state.
abbrev pub signals : State → ℕ
signals ready_state = 1
signals _ = 0

abbrev IsServerSane : Connection → Type 0
IsServerSane c = length c.announced ≡ signals c.state

server_connected-sane :
    (q : Conversions) (r : Option (ℕ × Bytes × ℕ × Bytes)) (c : Connection)
    → length c.announced ≡ 0
    → signals c.state ≡ 0
    → IsServerSane (server_connected q r c)
unfolding server_connected
server_connected-sane q none c h z = omega (arith, h, z)
server_connected-sane q (some (type, host, port, rest)) c h z =
    omega (arith, h, length-append c.announced ((q.from_utf8 host, port) ∷ []))

server_step-sane :
    (q : Conversions) (st : State) (c : Connection)
    → c.state ≡ st
    → IsServerSane c
    → IsServerSane (server_step q st c)
unfolding server_step
server_step-sane q connect_state c e h = let z : signals c.state ≡ 0 = rw e in ground arith
server_step-sane q command_state c e h =
    let z : signals c.state ≡ 0 = rw e in
    server_connected-sane q (parse_after (read_head connect_command c.input))
      (record c { reading = false }) (omega (arith, h, z)) z
server_step-sane q ready_state c e h = h

server_receive-sane :
    (q : Conversions) (b : Bytes) (c : Connection)
    → IsServerSane c
    → IsServerSane (server_receive q b c)
unfolding server_receive
server_receive-sane q b c h =
    let step = server_step-sane q c.state (record c { input = c.input ++ b }) refl h in ground arith

server_run-sane :
    (q : Conversions) (bs : List Bytes) (c : Connection)
    → IsServerSane c
    → IsServerSane (server_run q bs c)
unfolding server_run
server_run-sane q [] c h = h
server_run-sane q (b ∷ bs) c h =
    server_run-sane q bs (server_receive q b c) (server_receive-sane q b c h)

-- Whatever bytes arrive at a new connection, in whatever pieces, the server announces it once at most,
-- and just when it gets ready.
pub server_run-signals :
    (q : Conversions) (bs : List Bytes)
    → let c = server_run q bs slot_new_connection in length c.announced ≡ signals c.state
server_run-signals q bs =
    server_run-sane q bs slot_new_connection (unfold slot_new_connection in refl)

abbrev IsClientSane : SocksClient → Type 0
IsClientSane c = c.ready ≡ signals c.state

client_connected-sane :
    (r : Option (ℕ × Bytes × ℕ × Bytes)) (c : SocksClient)
    → c.ready ≡ 0
    → signals c.state ≡ 0
    → IsClientSane (client_connected r c)
unfolding client_connected
client_connected-sane none c h z = omega (arith, h, z)
client_connected-sane (some (type, host, port, rest)) c h z = omega (arith, h)

client_step-sane :
    (q : Conversions) (st : State) (c : SocksClient)
    → c.state ≡ st
    → IsClientSane c
    → IsClientSane (client_step q st c)
unfolding client_step
client_step-sane q connect_state c e h = let z : signals c.state ≡ 0 = rw e in ground arith
client_step-sane q command_state c e h =
    let z : signals c.state ≡ 0 = rw e in
    client_connected-sane (parse_after (read_head succeeded c.input)) (record c { reading = false })
      (omega (arith, h, z)) z
client_step-sane q ready_state c e h = h

client_receive-sane :
    (q : Conversions) (b : Bytes) (c : SocksClient)
    → IsClientSane c
    → IsClientSane (client_receive q b c)
unfolding client_receive
client_receive-sane q b c h =
    let step = client_step-sane q c.state (record c { input = c.input ++ b }) refl h in ground arith

client_run-sane :
    (q : Conversions) (bs : List Bytes) (c : SocksClient)
    → IsClientSane c
    → IsClientSane (client_run q bs c)
unfolding client_run
client_run-sane q [] c h = h
client_run-sane q (b ∷ bs) c h =
    client_run-sane q bs (client_receive q b c) (client_receive-sane q b c h)

-- Whatever bytes a connected client receives, in whatever pieces, it signals once at most that it is
-- ready, and just when it gets ready.
pub client_run-signals :
    (q : Conversions) (host : Bytes) (port : ℕ) (bs : List Bytes)
    → let c = client_run q bs (slot_connected (connect_to_host host port)) in
      c.ready ≡ signals c.state
client_run-signals q host port bs =
    client_run-sane q bs (slot_connected (connect_to_host host port))
      (unfold slot_connected connect_to_host in refl)
