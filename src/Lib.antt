-- ===== src/Lib.antt =====
-- SocketTemplate: the BitTorrent client of the repository (folder BitTorrent), as a model with theorems.
--
-- The program joins the swarm of one torrent. It reads a .torrent file (bencoded data, decoded by BInt,
-- BStr, BList and BDict into a tree, from which TorrentFile takes its fields), asks the trackers for peers,
-- shakes hands with them (HandShake), and then exchanges length-prefixed messages: SelectSwitch reads a
-- message from a socket and hands it to a handler, the handlers look up and change the pieces that are
-- here (LocalBitField, a BitField), what the torrent says of a piece's length (TorrentFile), the peers
-- (PeerManager), which peer has what (NeedPiece) and how fast each peer is (DownSpeed).
--
-- Base: what the files share: tests on numbers, lists, `int32_t` values as integers with their 32-bit
--   patterns (to_u32, to_i32), a read-write lock, the masks of a byte, and a stable sort.
-- BitField: the class BitField of BitTorrent/CszBitTorrent.h and BitTorrent/CszBitField.cpp, and
--   CheckBitField of BitTorrent/CszLocalBitField.cpp. The string with its five bytes of prefix, `total`,
--   `cur_sum` and the lock are a record; a read outside of the string gives none, and a method whose lock is
--   not free does what its source does when the lock is refused.
--   Fill, Lack and Progress have the theorems on marking, on what is missing and on the progress.
-- Wire: the messages that the client sends, from BitTorrent/CszBitTorrent.h, BitTorrent/CszReqCleBase.cpp
--   and BitTorrent/CszPiece.cpp, as lists of bytes. Wire.HandShake is BitTorrent/CszHandShake.cpp.
--   Wire.Frame is how SelectSwitch of BitTorrent/CszSelectSwitch.cpp takes one message off a socket, and how
--   DHave, DRequest and DPiece read their fields.
-- Torrent: the arithmetic of pieces and slices of BitTorrent/CszTorrentFile.cpp, the tests of
--   SelectSwitch::DPiece, and the requests that NeedPiece::SendReq and DPiece send for a piece.
-- Bencode: the decoders of BitTorrent/CszBInt.cpp, CszBStr.cpp, CszBList.cpp and CszBDict.cpp, with their
--   text as a list of bytes, and GetDictLength of BitTorrent/CszGetDictLength.cpp in Bencode.DictLength.
-- Swarm: PeerStatus, and in Swarm.DownSpeed the class of BitTorrent/CszDownSpeed.cpp and in Swarm.NeedPiece
--   that of BitTorrent/CszNeedPiece.cpp, with their comparisons of BitTorrent/CszMicro.hpp. A method is a
--   function on a record of the fields; the calls that CalculateSpeed makes on PeerManager are part of its result,
--   the time and the answer of GameEnd are arguments. std::list::sort is a stable insertion sort.
--   Swarm.PeerManager is the table of BitTorrent/CszPeerManager.cpp with the objects that it calls, and
--   SendReq of NeedPiece, which calls it back; the messages that are sent are part of a result.
--   Agreement states what the three objects must have in common; Changed, Steps, Asking, UnChoke, Sockets and
--   Closing show for the methods that Reach lists that it stays so. An id is an int32_t, kept by its bits.
-- BitMemory: the class of BitTorrent/CszBitMemory.cpp. A block is a function from offsets to bytes, an access out of bounds gives none,
--   and the writes to files are part of a result. The pool of blocks, Sha1 and the files are parameters (Outside).
--   The loop that takes blocks has the length of the piece as its fuel, as each round takes a block of 512 KiB off it.
--   BitMemory.Folders is what `_Write` does with the answers of GetFileName.
-- Torrent.FileNames: GetFileName of BitTorrent/CszTorrentFile.cpp, for one file and for several.
-- Client: the handlers DKeepAlive, DChoke, DUnChoke, DInterested, DUnInterested, DHave and DBitField of
--   BitTorrent/CszSelectSwitch.cpp with the methods of BitTorrent/CszLocalBitField.cpp, on the bit field and the peers.
--   A null Parameter, which they only report, is left out.
--   Client.Serve is DRequest with _SendPiece; the reading of a file is a parameter.
--   Client.Download is DPiece with _LockPiece, DCancle and DPort: a Node is the client with the pieces in the making and what it has sent and
--   written, a World what is given from outside. The loop of _LockPiece has one more than the number of bytes that the peer
--   sends as its fuel, and each round reads at least four. Client.Sound and Client.Download.Sound, Rounds,
--   Unlocked and Done follow what holds through every handler to the end of DPiece.
-- Web: UrlEscape of Web/CszUrlEscape.cpp and the buffered reader of Web/CszCacheRegio.cpp; what the socket gives is a list of reads. ReadBuf is on
--   fuel, and one round more than bytes asked for is enough where the peer sends them. It is told whether the peer keeps the connection
--   behind its last read. Web.Rounds is one round of it.
--   Web.Request is HttpRequest of Web/CszHttpRequest.cpp, with its array of parts as a list.
--
-- Numbers are natural numbers; where the code computes in 32 or 64 bits the wrap-around is written out.
-- The decoders recurse on fuel: each call takes one unit, and twice the length of the encoding of a value
-- is enough to read it. No fuel is enough where the code does not end. GetDictLength needs no fuel, as it
-- counts down its own argument.
--
-- Not modelled: sockets, threads, timers and files as such, the log, the allocation of memory and its
-- failure, the tracker's dialogue, the responses of Web, the Ping, Sock, Signal and Daemon tools, and SHA-1, which is the
-- work of others.
pub mod Base
pub mod Bencode
pub mod BitField
pub mod BitMemory
pub mod Client
pub mod Swarm
pub mod Torrent
pub mod Web
pub mod Wire
