-- ===== src/Swarm/PeerManager/Agreement.antt =====
-- The statuses that PeerManager, NeedPiece and DownSpeed keep of a peer.
use socket_template.Base.{
  ℕ, ◌≤◌, ◌<◌, ◌≡◌, ◌≢◌, ◌⊎◌, refl, ap, sym, ◌∙◌, Bool, false, Option, none, some, Option-cases,
  Bool-cases, inl, inr, ℤ, pos, eq_ℤ, eq_ℤ_eq, List, unlocked, find_key, update_key, DistinctKeys,
  find_key-update_key, find_key-update_key_ne, find_key-update_key-none, update_key-DistinctKeys,
  arith,
}
use socket_template.Swarm.{PeerStatus}
use socket_template.Swarm.DownSpeed.{Speed, DownSpeed}
use socket_template.Swarm.DownSpeed.Table.{table}
use socket_template.Swarm.PeerManager.{Peer, Swarm}

-- The four bits that all three keep.
abbrev pub flags : PeerStatus → Bool × Bool × Bool × Bool
flags t = (t.am_choke, t.am_interested, t.peer_choke, t.peer_interested)

-- What is looked up shows the status of a peer.
abbrev pub IdShows : PeerStatus → Option PeerStatus → Type 0
IdShows status found = (t : PeerStatus) × (found ≡ some t) × (flags t ≡ flags status)

abbrev pub SocketShows : PeerStatus → Option Speed → Type 0
SocketShows status found = (u : Speed) × (found ≡ some u) × (flags u.status ≡ flags status)

-- No lock is held, sockets and ids belong to one peer each, the ids below `cur_id` are the ones in use, and
-- NeedPiece and DownSpeed show the status of each peer.
pub record IsValid (s : Swarm) : Type 0 where
  pub ids_free : s.needs.id_lock ≡ unlocked
  pub speeds_free : s.speeds.lock ≡ unlocked
  pub distinct : DistinctKeys s.peer_list
  pub distinct_speeds : DistinctKeys (table s.speeds.queue)
  pub distinct_ids : DistinctKeys s.needs.id_queue
  pub injective :
      (i j : ℤ) (p q : Peer)
      → find_key i s.peer_list ≡ some p
      → find_key j s.peer_list ≡ some q
      → p.id ≡ q.id
      → i ≡ j
  pub fresh : (k : ℕ) → s.cur_id ≤ k → find_key (pos k) s.needs.id_queue ≡ none
  pub below :
      (i : ℤ) (p : Peer)
      → find_key i s.peer_list ≡ some p
      → (k : ℕ) × (p.id ≡ pos k) × (k < s.cur_id)
  pub absent : (i : ℤ) → find_key i s.peer_list ≡ none → find_key i (table s.speeds.queue) ≡ none
  pub agree :
      (i : ℤ) (p : Peer)
      → find_key i s.peer_list ≡ some p
      → IdShows p.status (find_key p.id s.needs.id_queue)
        × SocketShows p.status (find_key i (table s.speeds.queue))

-- A change of the peers that keeps what the others see of them.
abbrev pub Keeps : List (ℤ × Peer) → List (ℤ × Peer) → Type 0
Keeps old new =
    ((j : ℤ) (q : Peer)
      → find_key j new ≡ some q
      → (q' : Peer) × (find_key j old ≡ some q')
        × (q.id ≡ q'.id)
        × (flags q.status ≡ flags q'.status))
    × ((j : ℤ) → find_key j new ≡ none → find_key j old ≡ none)
    × (DistinctKeys old → DistinctKeys new)

-- The states differ in such a change and in the queue of pieces only.
pub record SameTables (s s' : Swarm) : Type 0 where
  pub peers : Keeps s.peer_list s'.peer_list
  pub cur_id : s'.cur_id ≡ s.cur_id
  pub speeds : s'.speeds ≡ s.speeds
  pub id_queue : s'.needs.id_queue ≡ s.needs.id_queue
  pub id_lock : s'.needs.id_lock ≡ s.needs.id_lock

pub SameTables-IsValid : (s s' : Swarm) → SameTables s s' → IsValid s → IsValid s'
SameTables-IsValid s s' h v = record {
  ids_free = h.id_lock ∙ v.ids_free;
  speeds_free = ap (λ (d : DownSpeed). d.lock) h.speeds ∙ v.speeds_free;
  distinct = h.peers.2 v.distinct;
  distinct_speeds = rw h.speeds v.distinct_speeds;
  distinct_ids = rw h.id_queue v.distinct_ids;
  injective = λ i j p q ei ej same.
      let (p', ei', idp, fp) = h.peers.0 i p ei in
      let (q', ej', idq, fq) = h.peers.0 j q ej in
      v.injective i j p' q' ei' ej' (sym idp ∙ same ∙ idq);
  fresh = λ k le. rw h.id_queue (v.fresh k (rw h.cur_id at le));
  below = λ i p e.
      let (p', e', idp, fp) = h.peers.0 i p e in
      let (k, at, lt) = v.below i p' e' in (k, idp ∙ at, rw h.cur_id lt);
  absent = λ i e. rw h.speeds (v.absent i (h.peers.1 i e));
  agree = λ i p e.
      let (p', e', idp, fp) = h.peers.0 i p e in
      let ((t, et, ft), (u, eu, fu)) = v.agree i p' e' in
      (
        (t, ap (λ (k : ℤ). find_key k s'.needs.id_queue) idp ∙ rw h.id_queue et, ft ∙ sym fp),
        (u, rw h.speeds eu, fu ∙ sym fp),
      );
}

-- What an update of one peer leaves of another look-up.
pub update_back :
    (f : Peer → Peer) (i j : ℤ) (l : List (ℤ × Peer)) (q : Peer)
    → find_key j (update_key i f l) ≡ some q
    → (q' : Peer) × (find_key j l ≡ some q') × (((i ≡ j) × (q ≡ f q')) ⊎ ((i ≢ j) × (q ≡ q')))
update_back f i j l q e = elim (Option-cases (find_key j l)) [
  | inl lost ↦
      let no : none ≡ some q = sym (find_key-update_key-none f i j l lost) ∙ e in ground arith
  | inr (q', there) ↦ elim (Bool-cases (eq_ℤ i j)) [
    | inl same ↦
        let ij = eq_ℤ_eq i j same in
        let now : find_key j (update_key i f l) ≡ some (f q') =
          rw ij (find_key-update_key f j l q' there) in
        let both : some q ≡ some (f q') = sym e ∙ now in (q', there, inl (ij, ground arith))
    | inr other ↦
        let ne : i ≢ j = λ ij. differ other ij in
        let both : some q ≡ some q' = sym e ∙ find_key-update_key_ne f i j l ne ∙ there in
        (q', there, inr (ne, ground arith))
  ]
]
  where
    differ : eq_ℤ i j ≡ false → i ≢ j
    differ other ij = ground arith

pub update_absent :
    (f : Peer → Peer) (i j : ℤ) (l : List (ℤ × Peer))
    → find_key j (update_key i f l) ≡ none
    → find_key j l ≡ none
update_absent f i j l e = elim (Option-cases (find_key j l)) [
  | inl lost ↦ lost
  | inr (q', there) ↦ elim (Bool-cases (eq_ℤ i j)) [
    | inl same ↦
        let ij = eq_ℤ_eq i j same in
        let now : find_key j (update_key i f l) ≡ some (f q') =
          rw ij (find_key-update_key f j l q' there) in
        let no : some (f q') ≡ none = sym now ∙ e in ground arith
    | inr other ↦ sym (find_key-update_key_ne f i j l (differ other)) ∙ e
  ]
]
  where
    differ : eq_ℤ i j ≡ false → i ≢ j
    differ other ij = ground arith

-- An update that keeps the id and the four bits.
pub update_key-Keeps :
    (f : Peer → Peer)
    → ((p : Peer) → ((f p).id ≡ p.id) × (flags (f p).status ≡ flags p.status))
    → (i : ℤ) (l : List (ℤ × Peer)) → Keeps l (update_key i f l)
update_key-Keeps f keeps i l = (
  λ j q e.
      let (q', there, how) = update_back f i j l q e in
      elim how [
        | inl (ij, at) ↦ (
          q',
          there,
          ap (λ (p : Peer). p.id) at ∙ (keeps q').0,
          ap (λ (p : Peer). flags p.status) at ∙ (keeps q').1,
        )
        | inr (ne, at) ↦
            (q', there, ap (λ (p : Peer). p.id) at, ap (λ (p : Peer). flags p.status) at)
      ],
  (λ j e. update_absent f i j l e),
  update_key-DistinctKeys f i l,
)

pub Keeps-refl : (l : List (ℤ × Peer)) → Keeps l l
Keeps-refl l = ((λ j q e. (q, e, refl, refl)), (λ j e. e), (λ d. d))

Keeps-trans : (l m n : List (ℤ × Peer)) → Keeps l m → Keeps m n → Keeps l n
Keeps-trans l m n a b = (
  λ j q e.
      let (q', e', idq, fq) = b.0 j q e in
      let (q'', e'', idq', fq') = a.0 j q' e' in (q'', e'', idq ∙ idq', fq ∙ fq'),
  (λ j e. a.1 j (b.1 j e)),
  (λ d. b.2 (a.2 d)),
)

pub SameTables-refl : (s : Swarm) → SameTables s s
SameTables-refl s = record {
  peers = Keeps-refl s.peer_list;
  cur_id = refl;
  speeds = refl;
  id_queue = refl;
  id_lock = refl;
}

pub SameTables-trans : (a b c : Swarm) → SameTables a b → SameTables b c → SameTables a c
SameTables-trans a b c h k = record {
  peers = Keeps-trans a.peer_list b.peer_list c.peer_list h.peers k.peers;
  cur_id = k.cur_id ∙ h.cur_id;
  speeds = k.speeds ∙ h.speeds;
  id_queue = k.id_queue ∙ h.id_queue;
  id_lock = k.id_lock ∙ h.id_lock;
}
