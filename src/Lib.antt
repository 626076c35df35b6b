-- ===== src/Lib.antt =====
-- Verification of QXmpp, an XMPP library in C++.
--
-- Parts and files (paths are those of the repository):
--   Common, Common/*   text, Boolean tests and lists that the other files share.
--   Xml                QDomElement as the library reads it: tag name, namespace, attributes, child
--                      elements; firstChildElement of src/base/QXmppUtils.cpp.
--   Jid                the functions on JIDs of src/base/QXmppUtils.cpp.
--   Client/Requests    OutgoingIqManager of src/client/QXmppOutgoingClient.cpp: the requests that
--                      wait for a response, their promises as numbers, and the stream manager that
--                      it sends through.
--   Client/Configuration
--                      the JIDs of src/client/QXmppConfiguration.cpp, and the recipient of a request.
--   Socks              the SOCKS5 client and server of src/base/QXmppSocks.cpp: a socket is the bytes
--                      received and not yet read, the bytes written, and whether it is closed. The
--                      conversions of QString to Latin-1 and from UTF-8 are a parameter.
--   Stream/Nonzas, Stream/Failed
--                      the elements SmEnable to SmRequest of src/base/QXmppStreamManagement.cpp, read
--                      and written; the conversions of numbers are a parameter with their laws. An
--                      SmFailed is written only where what toXml writes is an element.
--   Stream/Ack         StreamAckManager of src/base/QXmppStreamManagement.cpp: the record has the
--                      members of the class, each method is a function of the same name in snake
--                      case. What it writes to the socket and the promises that it finishes are
--                      kept in the fields `written` and `reports`.
--   Trust/Levels       TrustLevel and TrustSecurityPolicy (src/client/QXmppTrustLevel.h,
--                      src/client/QXmppTrustSecurityPolicy.h).
--   Trust/Storage      src/client/QXmppTrustMemoryStorage.cpp: the maps and multi-hashes of Qt are
--                      lists of entries.
--   Trust/Postponed    src/client/QXmppAtmTrustMemoryStorage.cpp.
--   Trust/Atm          src/client/QXmppAtmManager.cpp with the calls it makes in
--                      src/client/QXmppTrustManager.cpp: a manager is its trust storage and its
--                      postponed decisions. The futures of the storage in memory are ready when
--                      they are returned, so a chain of continuations is a sequence of calls.
--   Trust/Atm/Manual   the decisions made by hand, with the trust messages that they send.
--   Utils/Crc, Utils/Hmac
--                      generateCrc32 and generateHmac of src/base/QXmppUtils.cpp, with the CRC-32 bit
--                      by bit and the HMAC of RFC 2104 beside them; the hash is a parameter.
--   Stun               QXmppStunMessage of src/base/QXmppStun.cpp: encode as lists of bytes, decode as
--                      a loop of steps, each an answer or the next round. UTF-8, SHA-1 and what
--                      memory holds before it is written are a parameter with their laws.
--   Stun/RoundTrip, Stun/Total
--                      runs of the decoder over what the encoder writes, and over any bytes.
--   Transfer           the jobs and the handlers of in-band bytestreams of
--                      src/client/QXmppTransferManager.cpp: a job is a record of the private members,
--                      a handler changes the job where it stands in the manager's list and adds what
--                      it sends. Devices and the hash are a parameter.
--   Transfer/Channel   the handlers of a sender and a receiver put together over a stream.
--   Roster             QXmppRosterManager (src/client/QXmppRosterManager.cpp): what is sent and the
--                      signals are kept in fields; the client's configuration and the verification
--                      of moved accounts are a parameter, whose answer comes at once.
--   Roster/Spec        histories of the manager, and the roster as a map that they specify, with its own
--                      rule for the sender of a push.
--
--   Sasl/Mechanism, Sasl/Credentials, Sasl/Choose
--                      SaslMechanism, its names and order, and the credentials, of
--                      src/base/QXmppSasl_p.h and src/base/QXmppSasl.cpp; chooseMechanism of
--                      src/client/QXmppSaslManager.cpp.
--   Sasl/Message, Sasl/DigestMd5, Sasl/Scram, Sasl/Clients, Sasl/Servers
--                      the messages of DIGEST-MD5, and the SASL clients and servers of
--                      src/base/QXmppSasl.cpp: a client is a record of the private members, respond
--                      gives the answer and the new record. Hashes, base64, UTF-8 and random nonces
--                      are parameters. Sasl/Scram/Server is a server of RFC 5802 to compare with, which
--                      derives its account by itself and looks users up by name, and
--                      Sasl/DigestMd5/Dialog passes messages between client and server.
--   Sasl/Manager, Sasl/Manager2, Sasl/Fast
--                      SaslManager, Sasl2Manager and FastTokenManager of
--                      src/client/QXmppSaslManager.cpp, which choose, create and call the clients.
--                      An element is given as the data that fromDom reads from it.
--
-- The stream manager is a part of each stream; the client gives it every packet that is sent and
-- every element that is received. The request manager sends through it, and a request whose packet
-- cannot be sent ends with that error. The trust manager stands on the trust storage, which answers at
-- once, and is called by the encryption manager and by the handler of trust messages.
--
-- Bounds and fuel. `unsigned` is the numbers below `uint_mod`, 2 ^ 32, and an increment is
-- written with its wrap-around. Trust decisions call themselves through the postponed decisions
-- that they free; the model takes fuel, one for each level of calls. Each level but the last
-- removes a postponed key, so two more than the number of postponed keys are enough.
--
-- A host name on the wire has one byte for its length, and a port is below 2 ^ 16; a SOCKS5 reply
-- is taken as it arrives, in one piece or in several.
--
-- The STUN decoder has one round for each byte that the header names, and one more: a round counts
-- four bytes or more. An exchange of a file has one round for each byte, and one to close. The numbers of
-- in-band blocks are below 2 ^ 16 on the wire; the receiver's counter goes on.
--
-- The loop of parseMessage takes an equals sign off the text in each round, so that one round more
-- than the text has bytes is enough. A client and a server of DIGEST-MD5 have three rounds to talk.
--
-- Not modelled: Qt (sockets, signals, XML reader and writer, futures) and the callbacks that its
-- users attach to futures; the serialisation of most stanzas,
-- the XML of the elements of SASL, the negotiation of a stream, the managers of the other extensions, OMEMO, calls and the server.
pub mod Common
pub mod Xml
pub mod Stream
pub mod Client
pub mod Jid
pub mod Utils
pub mod Sasl
pub mod Socks
pub mod Stun
pub mod Transfer
pub mod Roster
pub mod Trust
