-- ===== src/Client/Download/Sound.antt =====
-- What a round of _LockPiece keeps (BitTorrent/CszSelectSwitch.cpp): the peers in agreement, a valid field, no needed piece that is here already,
-- and the peer that the piece is taken from in the table.
use socket_template.Base.{
  ℕ, ◌<◌, ◌≡◌, ◌≢◌, refl, sym, true, false, ◌==◌, Option, none, some, Option-cases, Bool-cases, inl,
  inr, List, ℤ, to_i32, find_key, subst,
}
use socket_template.Wire.Frame.{have_index, request_fields}
use socket_template.BitField.{BitField, check_bit_field}
use socket_template.BitField.Fill as Field
use socket_template.BitField.Fill.{has_piece, fill_bit_field-IsValid}
use socket_template.Swarm.DownSpeed.{check_socket}
use socket_template.Swarm.DownSpeed.Totals.{check_socket-free}
use socket_template.Swarm.PeerManager.{Swarm, update_expire}
use socket_template.Swarm.PeerManager.Kept.{update_expire-Mild}
use socket_template.Client.{Client, Result, Message, handle}
use socket_template.Client.Sound.{IsSound, IsKept, Keeps, update_expire-IsSound, handle-Keeps}
use socket_template.Client.Serve.{d_request}
use socket_template.Client.Serve.State.{requested, Leaves, d_request-Leaves}
use socket_template.Client.Download.{World, Node, with_swarm, lift, told, run_task, short_request}

-- The peer is in the table, the index that it gives slices of is one of the torrent.
pub record IsReady (socket : ℤ) (index : ℕ) (c : Client) : Type 0 where
  pub field : Field.IsValid c.bit_field
  pub in_torrent : index < c.bit_field.total
  pub sound : IsSound c.bit_field c.swarm
  pub present : find_key socket c.swarm.peer_list ≢ none

module _ (socket : ℤ) (index : ℕ) where
  abbrev pub Ready : Option Node → Type 0
  Ready none = Unit
  Ready (some n) = IsReady socket index n.client

  lift-Ready :
      (n : Node) (f : BitField) (s : Swarm) (r : Option Result)
      → Field.IsValid f
      → index < f.total
      → find_key socket s.peer_list ≢ none
      → Keeps f s r
      → Ready (lift n r)
  unfolding lift
  lift-Ready n f s none w i p k = tt
  lift-Ready n f s (some (sent, c)) w i p k = record {
    field = rw k.field w;
    in_torrent = rw k.field i;
    sound = rw k.field k.sound;
    present = λ e. p (k.stays socket e);
  }

  kept-Ready :
      (n : Node) (r : Option Result)
      → IsReady socket index n.client
      → Keeps n.client.bit_field n.client.swarm r
      → Ready (lift n r)
  kept-Ready n r h = lift-Ready n n.client.bit_field n.client.swarm r h.field h.in_torrent h.present

  pub told-Ready :
      (w : World) (now : ℕ) (m : Message) (n : Node)
      → IsReady socket index n.client
      → Ready (told w now socket m n)
  unfolding told
  told-Ready w now m n h =
      kept-Ready n (handle now (w.game_end n.client.bit_field) socket m n.client) h
        (handle-Keeps now (w.game_end n.client.bit_field) socket m n.client h.field h.sound)

  pub renewed-Ready :
      (now : ℕ) (n : Node)
      → IsReady socket index n.client
      → IsReady socket index (with_swarm (update_expire now socket) n).client
  renewed-Ready now n h = record {
    field = h.field;
    in_torrent = h.in_torrent;
    sound = update_expire-IsSound n.client.bit_field now socket n.client.swarm h.sound;
    present = λ e. h.present ((update_expire-Mild now socket n.client.swarm).0 socket e);
  }

  requested-Keeps :
      (now : ℕ) (c : Client)
      → IsSound c.bit_field c.swarm
      → IsKept c.bit_field c.swarm (requested now socket c)
  requested-Keeps now c h =
      let s = update_expire now socket c.swarm in
      let sound = update_expire-IsSound c.bit_field now socket c.swarm h in
      let same : (check_socket socket s.speeds).1 ≡ s.speeds =
        check_socket-free socket s.speeds sound.peers.speeds_free in
      record {
        sound = rw same sound;
        field = refl;
        stays = (update_expire-Mild now socket c.swarm).0;
      }

  Leaves-Keeps :
      (now : ℕ) (c : Client) (r : Option Result)
      → IsSound c.bit_field c.swarm
      → Leaves (requested now socket c) r
      → Keeps c.bit_field c.swarm r
  Leaves-Keeps now c none h e = tt
  Leaves-Keeps now c (some out) h e =
      subst (IsKept c.bit_field c.swarm) (sym e) (requested-Keeps now c h)

  short_request-Leaves :
      (now : ℕ) (buf : List ℕ) (c : Client)
      → Leaves (requested now socket c) (short_request now socket buf c)
  unfolding short_request
  short_request-Leaves now buf c =
      let s = update_expire now socket c.swarm in
      elim (Bool-cases (check_socket socket s.speeds).0) [
        | inr stranger ↦ rw stranger refl
        | inl among ↦ elim (Option-cases (have_index buf)) [
          | inl out ↦ rw (short_request, among, out) tt
          | inr (index, at) ↦ elim (Option-cases (check_bit_field c.bit_field (to_i32 index))) [
            | inl out ↦ rw (short_request, among, at, out) tt
            | inr (false, there) ↦ rw (short_request, among, at, there) refl
            | inr (true, there) ↦ rw (short_request, among, at, there) tt
          ]
        ]
      ]

  pub run_task-Ready :
      (w : World) (now id : ℕ) (buf : List ℕ) (n : Node)
      → IsReady socket index n.client
      → Ready (run_task w now socket id buf n)
  unfolding run_task
  run_task-Ready w now id buf n h = elim (Bool-cases (id == 4)) [
    | inl four ↦ elim (Option-cases (have_index buf)) [
      | inl out ↦ rw (run_task, four, out) tt
      | inr (i, at) ↦ rw (run_task, four, at) (told-Ready w now (Message.have (to_i32 i)) n h)
    ]
    | inr no4 ↦ elim (Bool-cases (id == 5)) [
      | inl five ↦ rw (no4, five) (told-Ready w now (Message.bit_field buf) n h)
      | inr no5 ↦ elim (Bool-cases (id == 6)) [
        | inr no6 ↦ elim (Bool-cases (id == 8)) [
          | inl eight ↦ rw (no4, no5, no6, eight) (renewed-Ready now n h)
          | inr no8 ↦ rw (no4, no5, no6, no8) (renewed-Ready now n h)
        ]
        | inl six ↦ elim (Option-cases (request_fields buf)) [
          | inl short ↦
              let r = short_request now socket buf n.client in
              rw (run_task, no4, no5, six, short)
                (kept-Ready n r h
                  (Leaves-Keeps now n.client r h.sound (short_request-Leaves now buf n.client)))
          | inr ((i, begin, len), at) ↦
              let r =
                d_request w.info w.reads now socket (to_i32 i) (to_i32 begin) (to_i32 len)
                  n.client in
              rw (run_task, no4, no5, six, at)
                (kept-Ready n r h (
                  Leaves-Keeps now n.client r h.sound (
                    d_request-Leaves w.info w.reads now socket (to_i32 i) (to_i32 begin)
                      (to_i32 len) n.client)))
        ]
      ]
    ]
  ]
