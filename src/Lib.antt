-- ===== src/Lib.antt =====
-- smb-mem-lib: an SMB2 server in Go over a file system in memory, with a honeypot mode in which what
-- clients write is thrown away.
--
-- The parts. The server (server/) reads requests and calls a file system through the interface of
-- vfs/vfs.go; memoryshare/memory_fs.go implements that interface on a tree of nodes in memory. In the
-- honeypot mode it discards changes and keeps closed files as ghost files, for each session apart, so
-- that a client can open again what it believes to have written; limits on the number and the size of
-- ghost files are kept by evicting the oldest, and a goroutine removes those of three minutes' age.
--
-- The files.
--   Prelude            tests on numbers, lists, association lists for maps, 64-bit words
--   GoPath             path.Clean, Dir, Base, Join and strings.Split, Trim as the code uses them
--   Vfs                vfs/vfs.go, attributes.go, permissions.go: contexts, callbacks, attributes
--   MemoryFs.Types     the state of MemoryFS: nodes on a heap (a *MemoryNode is a number), open files,
--                      the registry of ghost files; an operation takes the state to a result (a value, an
--                      error, a panic, a deadlock) and a state
--   MemoryFs.Paths     resolvePath, getOrCreateDirPath, AddFile, AddDirectory
--   MemoryFs.Ghost     makeGhostKey, addGhostFile with its two eviction loops, getGhostFile,
--                      removeGhostFile; in Upkeep cleanupGhostFiles, the statistics, the limits
--   MemoryFs.Handles   GetAttr, SetAttr, Open, Close, Lookup, OpenDir and the create callback
--   MemoryFs.Content   Read, Write, Truncate and the write callback
--   MemoryFs.Names     Mkdir, Unlink, Rename, Link and the rename callback
--   MemoryFs.Extras    ReadDir, Symlink, Readlink, extended attributes, StatFS, setters
--   MemoryFs.Calls     a call of any method, and a history of calls
--   Wire               slices that are written in place: make, copy, reads and writes of words in low
--                      byte first order, internal/utf16le, Roundup
--   Smb2.Packet        internal/smb2/packet.go: the header; in Contexts the loops that write contexts, in
--                      Codec PacketCodec and TransformCodec
--   Smb2.Request       internal/smb2/request.go, a file for each request: the record, Size as size, the
--                      writes of Encode as fields and encode, IsInvalid as is_invalid, the accessors that
--                      slice under their names, and decode for all that the decoder reads
--   Smb2.Response      internal/smb2/response.go in the same way
--   Conn               server/conn.go: the loop of runReciever over the packets of a message (receive, of
--                      rounds), with tryDecrypt, tryVerify and tryHandle; in Send sendPacket,
--                      in Accept accept and acceptError
--   Conn.Chain         server/compound.go: the responses of a compound request in one message
--   Server             server/server.go, server/spnego.go: the state of the server (Front: the negotiator that
--                      all connections share, and a connection, Link), and what a handler leads to (Step)
--   Server.Answers     PrepareResponse, accept as the handlers use it, makeResponse with its contexts
--   Server.Negotiation negotiate of conn and of ServerNegotiator; Server.Setup sessionSetup and the two
--                      handlers it goes to, over challenge and authenticate; Server.Trees treeConnect,
--                      treeDisconnect, echo, logoff
--   Server.Run         Run: handle for one request, and run for the requests of all connections in the
--                      order in which they are handled
--   Server.Files       server/file_tree.go: the table of opens, and the interface FileSystem for VFSFileSystem;
--                      below it Create (create and handleCreateEA) and Calls (close, flush, read, write and
--                      setInfo, which take the decoded request)
--   Server.Acl         server/acl.go: lists, and the loop of setSecInfo over them; Descriptor: what stands around them
--   Credit             server/credit.go: the account of credits
--   SmbPath            server/path.go: paths with backslashes
--   Dtyp               internal/smb2/dtyp.go: Filetime and Sid
--   Ccm                internal/crypto/ccm: Seal and Open, the cipher and the key stream as parameters
-- The other modules below these hold proofs, named for what they are about: Honeypot (what the mode
-- protects), Sound (contents as long as sizes), Reopen (ghost files that are opened again), Wire.Words and
-- Wire.Writes (words and lists read back), Headers and RoundTrip (the header of a packet), Messages (all
-- requests, and all responses), Cuts and Pieces (the packets of a message), Checks (what
-- tryVerify leaves of a packet), Contexts (a packet with no context before it), Bytes, Marks, Rounds and RoundTrip below
-- Conn.Chain (the way of a chain of responses to the receiver); below Server: Effects (what the handlers
-- leave), Login (what a client can do before it has logged in), Phases (the login as a machine of three
-- phases), Handshake (a login that succeeds), Dialects (the choice), Crashes (requests that end the
-- process); below Server.Files: Laws (create) and Closed (what follows close). Tests at each level hold concrete inputs.
--
-- Numbers and bounds. Go's uint64 and int64 are numbers below 2 ^ 64, an int64 by its bit pattern, and
-- their sums wrap round. Maps are lists with one entry for a key, in some order of iteration. The
-- eviction loops run on fuel: the length of the session's list and of the registry, of which each round
-- takes one file. The decimal digits of a session are computed on twenty rounds, as a number below
-- 2 ^ 64 has at most twenty.
--
-- A slice is its length, its bytes as a function, and whether a write has gone beyond it; its capacity is
-- its length. A write of more bytes than there is room for sets the fault, which is a panic. An Encoder is
-- the bytes it writes, a Go string the code units of its UTF-16, a file id or a GUID two numbers. The
-- receiver's loop runs on fuel: each round cuts off at least a byte, so that one more than the length of
-- the message is enough.
--
-- Parameters. The time, the random handle and the number of the goroutine are given with each call;
-- callbacks are functions of what they are shown. The block cipher and the key stream of Ccm are functions
-- on bytes; the theorems ask of them the sizes and that the key stream undoes itself. A session's hash, of
-- which verify makes the signature, and its decrypt are functions that stand in the session. For the server the token formats of internal/spnego are a
-- Mechanism, and what the authenticator answers, the random numbers, the time and the transport are an
-- Env that comes with each request, as does the way in which a handler of a tree ends.
--
-- Not modelled: interleavings within one operation (the locks are held as the code holds them, and only
-- a node's lock that nodeToAttributes waits for is in the state), the log, the exhaustion of memory; the
-- parts of CREATE contexts, the encoders of error contexts and the symbolic link error of internal/smb2/response.go,
-- internal/smb2/fscc.go and dcerpc.go; the other handlers of the trees (server/file_tree.go, server/ipc_tree.go), the times and
-- sizes in the answers of create and close, STATUS_PENDING before the answers of read and write, the derivation of
-- keys, the preauthentication hash and the credits in encodePacket, the channels and goroutines around the
-- receiver, internal/ntlm, internal/spnego, internal/crypto/cmac, internal/msrpc; the operating system's
-- file system (fs_impl.go) and the start of the server.
pub mod Prelude
pub mod GoPath
pub mod Smb2
pub mod Wire
pub mod Ccm
pub mod Tests
pub mod SmbPath
pub mod Dtyp
pub mod Credit
pub mod Vfs
pub mod MemoryFs
pub mod Conn
pub mod Server
