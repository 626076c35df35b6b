-- ===== src/Socks.antt =====
-- The SOCKS5 client and server of base/QXmppSocks.cpp, by which files are sent over a proxy. A byte
-- is a number below 256. What a socket has received and not yet given out is a list of bytes, and
-- what is written to it is a log, oldest byte first. `char` is signed: a byte from 128 on is
-- negative where the source reads it as a number.
pub mod Address
pub mod Handshake
pub mod Signals
mod Tests
use qxmpp.Common.{
  ℕ, suc, ◌+◌, ◌*◌, ◌/◌, ◌%◌, Bool, true, false, ◌&&◌, ◌||◌, List, [], ◌∷◌, ◌++◌, Option, none,
  some, Text, Bytes, ◌==◌, ltb, leb, if◌then◌else◌, length, take, drop,
}

abbrev pub socks_version : ℕ
socks_version = 5

abbrev pub no_authentication : ℕ
no_authentication = 0

abbrev pub no_acceptable_method : ℕ
no_acceptable_method = 255

abbrev pub connect_command : ℕ
connect_command = 1

abbrev pub domain_name : ℕ
domain_name = 3

abbrev pub succeeded : ℕ
succeeded = 0

-- The conversions of QString between text and bytes.
pub record Conversions : Type 0 where
  pub to_latin1 : Text → Bytes
  pub from_utf8 : Bytes → Text

pub data State : Type 0 where
  connect_state command_state ready_state : State

-- QDataStream << quint16: the high byte first.
abbrev pub port_bytes : ℕ → Bytes
port_bytes port = port / 256 % 256 ∷ port % 256 ∷ []

-- The length is cut to a byte, and so is the host.
unfoldable pub encode_host_and_port : ℕ → Bytes → ℕ → Bytes
encode_host_and_port type host port =
    let host_length = length host % 256 in
    type ∷ host_length ∷ take host_length host ++ port_bytes port

unfoldable pub parse_port : ℕ → Bytes → Bytes → Option (ℕ × Bytes × ℕ × Bytes)
parse_port type host (a ∷ b ∷ rest) = some (type, host, a * 256 + b, rest)
parse_port type host _ = none

-- The type, the host and the port, with the bytes that are left; none where bytes are missing.
unfoldable pub parse_host_and_port : Bytes → Option (ℕ × Bytes × ℕ × Bytes)
parse_host_and_port (type ∷ host_length ∷ s) =
    if leb host_length (length s)
    then parse_port type (take host_length s) (drop host_length s)
    else none
parse_host_and_port _ = none

-- `read(3)`, which is to be the version, the code and a zero; what is left then.
unfoldable pub read_head : ℕ → Bytes → Option Bytes
read_head code (a ∷ b ∷ c ∷ rest) =
    if a == socks_version && b == code && c == 0 then some rest else none
read_head code _ = none

-- The head, then the address behind it.
unfoldable pub parse_after : Option Bytes → Option (ℕ × Bytes × ℕ × Bytes)
parse_after none = none
parse_after (some rest) = parse_host_and_port rest

-- QXmppSocksClient with its socket: `reading` tells whether readyRead is connected to the slot, and
-- `ready` counts the signals ready().
pub record SocksClient : Type 0 where
  pub host_name : Text
  pub host_port : ℕ
  pub state : State
  pub input : Bytes
  pub output : Bytes
  pub closed : Bool
  pub reading : Bool
  pub ready : ℕ

unfoldable pub connect_to_host : Text → ℕ → SocksClient
connect_to_host host port = record {
  host_name = host;
  host_port = port;
  state = connect_state;
  input = [];
  output = [];
  closed = false;
  reading = true;
  ready = 0;
}

unfoldable pub slot_connected : SocksClient → SocksClient
slot_connected c = record c {
  state = connect_state;
  output = c.output ++ socks_version ∷ 1 ∷ no_authentication ∷ [];
}

abbrev close_client : SocksClient → SocksClient
close_client c = record c { closed = true }

unfoldable pub is_method_reply : Bytes → Bool
is_method_reply (a ∷ b ∷ []) = a == socks_version && b == no_authentication
is_method_reply _ = false

unfoldable pub client_connected : Option (ℕ × Bytes × ℕ × Bytes) → SocksClient → SocksClient
client_connected none c = close_client c
client_connected (some (type, host, port, rest)) c = record c {
  state = ready_state;
  input = rest;
  ready = suc c.ready;
}

-- QXmppSocksClient::slotReadyRead, by the state.
unfoldable pub client_step : Conversions → State → SocksClient → SocksClient
client_step q connect_state c =
    if is_method_reply c.input
    then record c {
      input = [];
      state = command_state;
      output =
          c.output
          ++ socks_version
            ∷ connect_command
            ∷ 0
            ∷ encode_host_and_port domain_name (q.to_latin1 c.host_name) c.host_port;
    }
    else close_client (record c { input = [] })
client_step q command_state c =
    client_connected (parse_after (read_head succeeded c.input)) (record c { reading = false })
client_step q ready_state c = c

-- Bytes arrive at the socket.
unfoldable pub client_receive : Conversions → Bytes → SocksClient → SocksClient
client_receive q bytes c =
    let got = record c { input = c.input ++ bytes } in
    if c.closed then c else if c.reading then client_step q c.state got else got

-- A socket of the server with its entry of `m_states`; `announced` has the hosts and ports of the
-- signals newConnection.
pub record Connection : Type 0 where
  pub state : State
  pub input : Bytes
  pub output : Bytes
  pub closed : Bool
  pub reading : Bool
  pub announced : List (Text × ℕ)

unfoldable pub slot_new_connection : Connection
slot_new_connection = record {
  state = connect_state;
  input = [];
  output = [];
  closed = false;
  reading = true;
  announced = [];
}

abbrev close_connection : Connection → Connection
close_connection c = record c { closed = true }

-- `buffer.at(1) + 2` is the size: never where the byte is negative, for a size of three or more.
unfoldable pub is_greeting : Bytes → Bool
is_greeting (a ∷ b ∷ m ∷ ms) = a == socks_version && ltb b 128 && b + 2 == length (a ∷ b ∷ m ∷ ms)
is_greeting _ = false

unfoldable pub found_method : Bytes → Bool
found_method [] = false
found_method (m ∷ ms) = m == no_authentication || found_method ms

unfoldable pub server_connected :
    Conversions → Option (ℕ × Bytes × ℕ × Bytes) → Connection → Connection
server_connected q none c = close_connection c
server_connected q (some (type, host, port, rest)) c = record c {
  state = ready_state;
  input = rest;
  announced = c.announced ++ (q.from_utf8 host, port) ∷ [];
  output = c.output ++ socks_version ∷ succeeded ∷ 0 ∷ encode_host_and_port domain_name host port;
}

-- QXmppSocksServer::slotReadyRead, by the state.
unfoldable pub server_step : Conversions → State → Connection → Connection
server_step q connect_state c =
    let got = record c { input = [] } in
    if is_greeting c.input
    then if found_method (drop 2 c.input)
      then record got {
        state = command_state;
        output = c.output ++ socks_version ∷ no_authentication ∷ [];
      }
      else close_connection
          (record got { output = c.output ++ socks_version ∷ no_acceptable_method ∷ [] })
    else close_connection got
server_step q command_state c =
    server_connected q (parse_after (read_head connect_command c.input))
      (record c { reading = false })
server_step q ready_state c = c

unfoldable pub server_receive : Conversions → Bytes → Connection → Connection
server_receive q bytes c =
    let got = record c { input = c.input ++ bytes } in
    if c.closed then c else if c.reading then server_step q c.state got else got
