-- ===== src/Swarm.antt =====
-- The peers of the swarm: what PeerManager, NeedPiece and DownSpeed keep of each (BitTorrent/CszBitTorrent.h).
pub mod DownSpeed
pub mod NeedPiece
pub mod PeerManager
use socket_template.Base.{Bool, true, false}

-- PeerStatus, with its bits as truth values
pub record PeerStatus : Type 0 where
  pub am_choke : Bool
  pub am_interested : Bool
  pub peer_choke : Bool
  pub peer_interested : Bool
  pub request_piece : Bool
  pub recv_piece : Bool

pub peer_status_new : PeerStatus
peer_status_new = record {
  am_choke = true;
  am_interested = false;
  peer_choke = true;
  peer_interested = false;
  request_piece = false;
  recv_piece = false;
}
