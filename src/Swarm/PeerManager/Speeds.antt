-- ===== src/Swarm/PeerManager/Speeds.antt =====
-- The agreement of the peers (BitTorrent/CszPeerManager.cpp) when DownSpeed counts what a peer sends.
use socket_template.Base.{
  ℕ, ◌≡◌, refl, ap, ◌∙◌, false, some, Bool-cases, inl, inr, ℤ, eq_ℤ, eq_ℤ_eq, unlocked, find_key,
  update_key, find_key-update_key, find_key-update_key_ne, find_key-update_key-none,
  update_key-DistinctKeys, arith,
}
use socket_template.Swarm.DownSpeed.{DownSpeed, update_first, add_total}
use socket_template.Swarm.DownSpeed.Table.{table, table-update_first}
use socket_template.Swarm.DownSpeed.Totals.{counted, add_total-there}
use socket_template.Swarm.PeerManager.{Peer, Swarm}
use socket_template.Swarm.PeerManager.Agreement.{SocketShows, IsValid}

module _ (i : ℤ) (n : ℕ) (p : Peer) (s : Swarm) (at : find_key i s.peer_list ≡ some p)
    (v : IsValid s) where
  told : DownSpeed
  told = add_total i n s.speeds

  told_is : told ≡ record { queue = update_first i (counted n) s.speeds.queue; lock = unlocked }
  unfolding told
  told_is =
      let (by_id, (u, there, shows)) = v.agree i p at in
      add_total-there i n s.speeds u v.speeds_free there

  told_table : table told.queue ≡ update_key i (counted n) (table s.speeds.queue)
  told_table =
      ap (λ (d : DownSpeed). table d.queue) told_is
      ∙ table-update_first (counted n) (λ x. refl) i s.speeds.queue

  -- What is shown of a peer stays: its total is no part of it.
  told_shows :
      (j : ℤ) (q : Peer)
      → SocketShows q.status (find_key j (table s.speeds.queue))
      → SocketShows q.status (find_key j (table told.queue))
  told_shows j q (u, there, shows) = elim (Bool-cases (eq_ℤ i j)) [
    | inl e ↦
        let same = eq_ℤ_eq i j e in
        (
          counted n u,
          rw (told_table, same) (find_key-update_key (counted n) j (table s.speeds.queue) u there),
          shows,
        )
    | inr e ↦ (
      u,
      rw told_table (
          find_key-update_key_ne (counted n) i j (table s.speeds.queue) (λ same. differ j e same)
          ∙ there),
      shows,
    )
  ]
    where
      differ : (j : ℤ) → eq_ℤ i j ≡ false → i ≡ j → ⊥
      differ j e same = ground arith

  pub add_total-IsValid : IsValid (record s { speeds = add_total i n s.speeds })
  unfolding told
  add_total-IsValid = record {
    ids_free = v.ids_free;
    speeds_free = ap (λ (d : DownSpeed). d.lock) told_is;
    distinct = v.distinct;
    distinct_speeds =
        rw told_table
          (update_key-DistinctKeys (counted n) i (table s.speeds.queue) v.distinct_speeds);
    distinct_ids = v.distinct_ids;
    injective = v.injective;
    fresh = v.fresh;
    below = v.below;
    absent = λ j e.
        rw told_table
          (find_key-update_key-none (counted n) i j (table s.speeds.queue) (v.absent j e));
    agree = λ j q e. let (by_id, shows) = v.agree j q e in (by_id, told_shows j q shows);
  }
