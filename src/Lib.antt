-- ===== src/Lib.antt =====
-- CMD-Chat: a model of the Go program's protocol core, and the theorems about it.
--
-- CMD-Chat is a peer-to-peer chat. Two programs find each other (phonebook, local network),
-- connect directly or through a relay, and run the CMDC2 protocol over that connection: a
-- handshake that proves both identities (internal/e2ee/handshake.go) and then records under a
-- Double Ratchet (internal/e2ee/ratchet.go, session.go). A peer that is proven is shown to the
-- trust store (internal/auth/trust.go), which remembers the first key of every ID. The relay
-- carries the bytes in WebSocket frames (internal/relay/websocket.go). On top is the chat itself
-- (internal/chat/chat.go): a host that admits guests, relays what they say and keeps the list of
-- members.
--
-- Which file models which part:
--   E2ee/Wire.antt          internal/e2ee/wire.go: readFrame, writeFrame, the cursor over a frame
--                           (reader.take, u8, u16, u32, lp, done), the encoders, the package's errors
--   E2ee/Padding.antt       internal/e2ee/primitives.go: pad, unpad
--   E2ee/Crypto.antt        the libraries that the package calls, as a record of functions (Crypto) and
--                           the behaviour that their documentation promises (CryptoLaws);
--                           Crypto/Toy.antt is a small instance that keeps the promises, for examples
--   E2ee/Header.antt        internal/e2ee/ratchet.go: header.encode, decodeHeader
--   E2ee/Ratchet.antt       internal/e2ee/ratchet.go: newRatchetInitiator, newRatchetResponder, next,
--                           step, skipTo, receive, destroy; Ratchet/Skipped.antt is the bounded store of
--                           skipped keys (remember, forget)
--   E2ee/Session.antt       internal/e2ee/session.go: Encrypt, Decrypt, WriteMessage, ReadMessage, Close,
--                           CanSend, NeedsRekey
--   E2ee/Identity.antt      internal/e2ee/smallorder.go, internal/e2ee/safety.go and DeriveID of
--                           internal/identity/identity.go
--   E2ee/Auth.antt          internal/e2ee/handshake.go: Credentials, Config, authPayload, sealAuth,
--                           openAuth
--   E2ee/Handshake.antt     internal/e2ee/handshake.go: Initiate and Respond, cut into the step from one
--                           message to the next (make_offer, make_answer, take_answer, take_finish);
--                           Handshake/Schedule.antt has the key schedule and newSession,
--                           Handshake/Versions.antt the negotiation; Handshake/Binding.antt
--                           says what a peer's proof belongs to, apart from that code
--   Trust.antt              internal/auth/trust.go: Authorize, Trust, IsTrusted, Known, Forget, LoadFrom
--   Relay/WebSocket.antt    internal/relay/websocket.go: readFrame, writeFrame, Write, parseClose;
--                           WebSocket/Stream.antt: Read and nextControl
--   Relay/Session.antt      internal/relay/relay.go: Listen, Dial, awaitPeer, the signed headers
--   Phonebook.antt          internal/phonebook/candidates.go: GatherCandidates; nextIssuedAt and ValidID
--                           of internal/phonebook/phonebook.go
--   Phonebook/Handle.antt   internal/phonebook/handle.go: Handle, WriteKey, seal, open, SealAnnouncement
--   Phonebook/Directory.antt  internal/phonebook/phonebook.go: do, sign, Register, Heartbeat, Unregister,
--                           Lookup and a tick of KeepAlive; itoa of internal/phonebook/candidates.go
--   Discovery.antt          internal/discovery/discovery.go: Find, Serve
--   Connect.antt            internal/connect/connect.go: Join and its stages; Connect/Race.antt is
--                           dialFastest; TCPEndpoints of internal/phonebook/candidates.go
--   Connect/Serve.antt      internal/connect/serve.go: ServeRelay
--   Identity.antt           internal/identity/identity.go and internal/identity/store.go: Save, Load,
--                           verifySeal, LoadOrCreate, Generate, StoredProtection
--   Terminal.antt           cmd/cmd-chat/main.go: the station, its nickname and its group chat (setNickname,
--                           setGroupChat, apply, OnPeer); Terminal/Text.antt is splitCommand
--   Terminal/Hosting.antt   cmd/cmd-chat/main.go: hostChat; Terminal/Guest.antt: chatSession, over an
--                           interface that Guest/Wired.antt fills with the connection of internal/chat;
--                           Terminal/Ready.antt: runCommand, Ready/Loop.antt: joinPeer and the loop of
--                           ready; Terminal/Turns.antt: what the loops share
--   Network.antt            internal/network/nat.go: the request and the answer of discoverSTUN;
--                           internal/network/strategy.go: Order
--   Profile.antt            internal/profile/profile.go: CleanNickname, truncate, Name, GroupChatEnabled;
--                           Profile/Runes.antt is the UTF-8 of the language; Profile/Storage.antt is Load,
--                           save, SetNickname and SetGroupChatEnabled
--   Chat.antt               internal/chat/chat.go: the packets, the peers and the members
--   Chat/Conn.antt          internal/chat/chat.go: Send, Receive, Rekey, Rename, Close of Conn and a tick of
--                           keepRatchetTurning
--   Chat/Room.antt          internal/chat/chat.go: Host with serve, broadcast, Members, SetName, SetGroup,
--                           Disconnect; Room/Steps.antt has the runs of a host as a step relation,
--                           Room/Acts.antt the abstract room
--   Chat/Link.antt          internal/chat/chat.go: Accept, clientConn, trustRecorder; TLSChannelBinding of
--                           internal/e2ee/binding.go
--   Prelude.antt            lists, results, equality, maps and words that the parts share
-- The files below those are the proofs, named for what they prove, and the modules called Tests run
-- the definitions and apply the theorems at concrete inputs.
--
-- How the code corresponds to the model. A byte is a number below 256 and a byte slice or string a
-- list of them. A function that returns an error gives a Result. An object that a method changes
-- is passed in and out as a record. A file is what it holds. A terminal is the list of what was
-- shown on it, with a constructor for each call that prints and what that call is given; a loop
-- over select takes a list of what select picks, in order. A reader is the list of the bytes that
-- the peer sends before it closes; a writer is a parameter that takes bytes or fails. Randomness
-- is the list of the bytes that it will yield, and the clock is an argument, in nanoseconds where
-- a file does not say otherwise. Counters keep their width: uint32 and uint64 additions are taken
-- modulo the word. A connection of the race is a number and the race a list of what its loop is
-- told, in order. Locks are not modelled: every method runs alone, as the mutex makes it, and in a
-- room a handler runs whole: the interleavings inside one broadcast are not there. Wipe has no
-- trace in the model, since it overwrites buffers that nothing reads again.
--
-- Bounds and fuel. The loop of skipTo runs on the distance to its target as fuel, which the loop
-- uses up exactly (Ratchet/Skipping); a target more than 1000 away is refused before it. The store
-- of skipped keys is trimmed by recursion on its list. The loop of the WebSocket's readFrame runs
-- on one more than the bytes left, and each round takes two of them (Relay/WebSocket/Limits). The
-- loop of Write runs on one more than the bytes to write. The loop of awaitPeer runs on the
-- waiting messages and the bytes left; Conn.Receive on one more than the bytes left, since every
-- record takes some. The loop over the attributes of a STUN answer runs on the length of the
-- datagram (Network/Ending). The loop of ready runs on one more than its inputs, of which every turn takes one
-- (Terminal/Ready/Loop/Ending).
--
-- What is not modelled: TLS itself (newTLSConfig), the sockets and the deadlines, because they are
-- calls of the libraries; the probes of TryHolePunch, the update check, the subcommands and the
-- start-up of cmd/cmd-chat and its browser interface, ipc and the debug log, which are input and
-- output; the Cloudflare workers, scripts and clients, which are not Go.
pub mod Prelude
pub mod E2ee
pub mod Trust
pub mod Relay
pub mod Terminal
pub mod Connect
pub mod Phonebook
pub mod Discovery
pub mod Identity
pub mod Network
pub mod Profile
pub mod Chat
