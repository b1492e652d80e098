-- ===== src/Lib.antt =====
-- ShadowsocksQt: a shadowsocks client and server library on Qt and Botan (lib/), with a command line
-- program (client.cpp, main.cpp).
--
-- A Controller starts a TcpServer and a UdpRelay. The server makes a TcpRelay for each connection;
-- a relay reads the SOCKS or shadowsocks header with Common, looks up an Address, and passes bytes
-- through an Encryptor, which makes a Cipher of the key and method of an EncryptorPrivate. A
-- Cipher is the ChaCha of the repository or a pipe of Botan.
--
-- The files and what they model:
--   Prelude     lists, bytes, results and tests that all parts share; the calls on the segments of a
--               stream; the exclusive or of numbers
--   Botan, Qt, Crypto
--               what the program takes from Botan and Qt: parameters, with the documented facts
--   Address     lib/address.cpp, lib/address.h; Order is operator<
--   Common      lib/common.cpp: Header is packAddress and parseHeader, Xor is exclusive_or, Ban is
--               banAddress and isAddressBanned
--   ChaCha      lib/chacha.cpp
--   Cipher      lib/cipher.cpp, as it is built with Botan 1.10
--   EncryptorPrivate
--               lib/encryptorprivate.cpp, with the tables of methods of lib/cipher.cpp;
--               Supported is getSupportedMethodList
--   Encryptor   lib/encryptor.cpp; Auth is its one-time authentication
--   TcpRelay    lib/tcprelay.cpp: each slot is a function from a state to a state and the effects
--               on sockets, resolver, timer and log in order; Event is a signal, run a sequence;
--               closings says which sockets emit disconnected within close, and so call it again
--   Tunnel      two relays of lib/tcprelay.cpp and the TCP connection between them: Destination is
--               what the client asks for, Streams, Runs and Begun follow one relay, Session and
--               Answers are the two directions, Reached is about their connections, Total about
--               their failures
--   UdpRelay    lib/udprelay.cpp, likewise; the banned addresses are a part of its state
--   TcpServer   lib/tcpserver.cpp: the list of relays, the worker threads, refused peers; posted
--               is the queue of finished signals, since the relays live in other threads; ServerEvent
--               is what happens to a server, server_run a sequence of it
--   AddressTester
--               lib/addresstester.cpp; Can says which signals Qt can send, Run is a run
--   Profile, Controller
--               lib/profile.cpp and lib/controller.cpp; the references that the TCP server and the UDP
--               relay hold to the settings are written out in refer; Loop is a running controller with
--               all that comes to it
--   Client      client.cpp and main.cpp up to the event loop
--   Tests       small instances of Botan, Qt and Crypto; the Tests below each part run it
--
-- Names are those of the source in snake_case: ChaCha::update is update of ChaCha, parseHeader is
-- parse_header. An exception, an abort or an undefined access is a Failure of Result. A pointer to a
-- cipher is a Handle, which can be to a deleted object. Random bytes are arguments.
--
-- Bytes are natural numbers; additions of quint32 keep their wrap-around. Three loops run on fuel: that
-- of ChaCha::update on one more than the number of bytes, since each pass does at least one byte,
-- that of evpBytesToKey on one more than the number of hashes it makes, and that of
-- verifyExtractChunkAuth on the number of bytes, since each pass takes at least twelve.
--
-- Not modelled: the sockets, threads, timers, files, JSON and the parsing of the command line, which
-- Qt provides; the texts of messages and the signal handler; the deletion of objects by deleteLater,
-- except where a pointer to a deleted object is used again; a second test that is started on an
-- address tester whose socket is not idle, which Qt refuses.
pub mod Prelude
pub mod Botan
pub mod Qt
pub mod Address
pub mod Common
pub mod ChaCha
pub mod Crypto
pub mod Cipher
pub mod EncryptorPrivate
pub mod Encryptor
pub mod TcpRelay
pub mod UdpRelay
pub mod Tunnel
pub mod TcpServer
pub mod AddressTester
pub mod Profile
pub mod Controller
pub mod Client
pub mod Tests
