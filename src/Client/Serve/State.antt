-- ===== src/Client/Serve/State.antt =====
-- What DRequest of BitTorrent/CszSelectSwitch.cpp leaves of the client.
use socket_template.Base.{
  ℕ, ◌≡◌, refl, true, false, Option, none, some, Option-cases, Bool-cases, inl, inr, ℤ,
}
use socket_template.Torrent.{Info}
use socket_template.BitField.{check_bit_field}
use socket_template.Swarm.DownSpeed.{check_socket}
use socket_template.Swarm.PeerManager.{Swarm, update_expire}
use socket_template.Client.{Client, Result}
use socket_template.Client.Serve.{Reads, send_piece, d_request}

abbrev pub requested : ℕ → ℤ → Client → Client
requested now socket c =
    let s = update_expire now socket c.swarm in
    record c { swarm = record s { speeds = (check_socket socket s.speeds).1 } }

abbrev pub Leaves : Client → Option Result → Type 0
Leaves c none = Unit
Leaves c (some out) = out.1 ≡ c

pub d_request-Leaves :
    (t : Info) (reads : Reads) (now : ℕ) (socket index begin len : ℤ) (c : Client)
    → Leaves (requested now socket c) (d_request t reads now socket index begin len c)
unfolding d_request
d_request-Leaves t reads now socket index begin len c =
    let s = update_expire now socket c.swarm in
    elim (Bool-cases (check_socket socket s.speeds).0) [
      | inr stranger ↦ rw stranger refl
      | inl among ↦ elim (Option-cases (check_bit_field c.bit_field index)) [
        | inl out ↦ rw (d_request, among, out) tt
        | inr (false, there) ↦ rw (d_request, among, there) refl
        | inr (true, there) ↦
            let s' : Swarm = record s { speeds = (check_socket socket s.speeds).1 } in
            elim (Option-cases (send_piece t reads socket index begin len s')) [
              | inl out ↦ rw (d_request, among, there, out) tt
              | inr (sent, e) ↦ rw (d_request, among, there, e) refl
            ]
      ]
    ]
