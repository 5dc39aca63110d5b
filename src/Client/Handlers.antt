-- ===== src/Client/Handlers.antt =====
-- The handlers of BitTorrent/CszSelectSwitch.cpp keep the peers in agreement.
use socket_template.Base.{
  ℕ, ◌<◌, ◌≡◌, ◌⊎◌, refl, ◌∙◌, Bool, Option, none, some, Bool-cases, inl, inr, List, [], ◌∷◌, ◌++◌,
  map, All, ℤ, pos, negsuc, ℤ-cases,
}
use socket_template.BitField.{BitField, check_piece, lack_need_piece}
use socket_template.BitField.Fill as Field
use socket_template.BitField.Fill.{check_piece-has_piece}
use socket_template.Swarm.NeedPiece.{push_need, push_needs}
use socket_template.Swarm.NeedPiece.Status.{push_need-SameIds, push_needs-SameIds}
use socket_template.Swarm.PeerManager.{get_socket_id, update_expire, am_interested}
use socket_template.Swarm.PeerManager.Agreement.{IsValid}
use socket_template.Swarm.PeerManager.Steps.{
  am_interested-IsValid, pr_choke-IsValid, pr_interested-IsValid, pr_un_interested-IsValid,
}
use socket_template.Swarm.PeerManager.Asking.{update_expire-IsValid}
use socket_template.Swarm.PeerManager.UnChoke.{pr_un_choke-IsValid}
use socket_template.Swarm.PeerManager.Reach.{needs-IsValid}
use socket_template.Client.{
  Client, Result, Message, recv_have, recv_bit_field, handle, quiet, keep_alive, choke, unchoke,
  interested, uninterested, have, bit_field,
}

-- The messages of the peers, each from its socket and at its time, handled one after another
unfoldable pub handle_all : Bool → List (ℕ × ℤ × Message) → Client → Option Result
handle_all game_end [] c = some ([], c)
handle_all game_end ((now, socket, m) ∷ ms) c = elim (handle now game_end socket m c) [
  | none ↦ none
  | some (sent, d) ↦ elim (handle_all game_end ms d) [
    | none ↦ none
    | some (sent', e) ↦ some (sent ++ sent', e)
  ]
]

-- The handler returns, the field stays and the peers are in agreement.
abbrev Keeps : BitField → Option Result → Type 0
Keeps field r = (out : Result) × (r ≡ some out) × (out.1.bit_field ≡ field) × IsValid out.1.swarm

-- The index of a Have is one of a piece of the torrent, or below 0.
abbrev pub IsIndexed : BitField → Message → Type 0
IsIndexed field (have (pos n)) = n < field.total
IsIndexed field (have (negsuc n)) = Unit
IsIndexed field other = Unit

check_piece-reads :
    (field : BitField) (index : ℤ)
    → Field.IsValid field
    → IsIndexed field (have index)
    → (r : Bool × ℤ) × (check_piece field index ≡ some r)
check_piece-reads field (pos n) w h = (_, (check_piece-has_piece field w).0 n h)
check_piece-reads field (negsuc n) w h = (_, (check_piece-has_piece field w).1 n)

recv_have-Keeps :
    (socket index : ℤ) (c : Client) (r : Bool × ℤ)
    → check_piece c.bit_field index ≡ some r
    → IsValid c.swarm
    → Keeps c.bit_field (recv_have socket index c)
unfolding recv_have
recv_have-Keeps socket index c (found, index') e v = elim (Bool-cases found) [
  | inl there ↦ (([], c), rw (recv_have, e, there), refl, v)
  | inr missing ↦ elim (ℤ-cases (get_socket_id socket c.swarm)) [
    | inr (n, unknown) ↦ (([], c), rw (recv_have, e, missing, unknown), refl, v)
    | inl (n, known) ↦
        let s = (am_interested socket c.swarm).1 in
        let c' : Client = record c {
          swarm = record s { needs = push_need index' socket (pos n) s.needs };
        } in
        (
          ((am_interested socket c.swarm).0, c'),
          rw (recv_have, e, missing, known),
          refl,
          needs-IsValid s (push_need index' socket (pos n) s.needs)
              (push_need-SameIds index' socket (pos n) s.needs)
              (am_interested-IsValid socket c.swarm v),
        )
  ]
]

List-cases : (l : List ℕ) → (l ≡ []) ⊎ ((x : ℕ) × (xs : List ℕ) × (l ≡ x ∷ xs))
List-cases [] = inl refl
List-cases (x ∷ xs) = inr (x, xs, refl)

recv_bit_field-Keeps :
    (socket : ℤ) (bits : List ℕ) (c : Client)
    → IsValid c.swarm
    → Keeps c.bit_field (some (recv_bit_field socket (some bits) c))
unfolding recv_bit_field
recv_bit_field-Keeps socket bits c v = elim (List-cases (lack_need_piece c.bit_field (some bits))) [
  | inl nothing ↦ (([], c), rw (recv_bit_field, nothing), refl, v)
  | inr (index, indexs, e) ↦ elim (ℤ-cases (get_socket_id socket c.swarm)) [
    | inr (n, unknown) ↦ (([], c), rw (recv_bit_field, e, unknown), refl, v)
    | inl (n, known) ↦
        let s = (am_interested socket c.swarm).1 in
        let pushed = push_needs (some (map pos (index ∷ indexs))) socket (pos n) s.needs in
        let c' : Client = record c { swarm = record s { needs = pushed } } in
        (
          ((am_interested socket c.swarm).0, c'),
          rw (recv_bit_field, e, known),
          refl,
          needs-IsValid s pushed
              (push_needs-SameIds (some (map pos (index ∷ indexs))) socket (pos n) s.needs)
              (am_interested-IsValid socket c.swarm v),
        )
  ]
]

handle-Keeps :
    (now : ℕ) (game_end : Bool) (socket : ℤ) (m : Message) (c : Client)
    → IsIndexed c.bit_field m
    → Field.IsValid c.bit_field
    → IsValid c.swarm
    → Keeps c.bit_field (handle now game_end socket m c)
unfolding handle quiet
handle-Keeps now game_end socket keep_alive c h w v =
    (_, refl, refl, update_expire-IsValid now socket c.swarm v)
handle-Keeps now game_end socket choke c h w v =
    (_, refl, refl, pr_choke-IsValid socket _ (update_expire-IsValid now socket c.swarm v))
handle-Keeps now game_end socket unchoke c h w v = (
  _,
  refl,
  refl,
  pr_un_choke-IsValid now game_end socket _ (update_expire-IsValid now socket c.swarm v),
)
handle-Keeps now game_end socket interested c h w v =
    (_, refl, refl, pr_interested-IsValid socket _ (update_expire-IsValid now socket c.swarm v))
handle-Keeps now game_end socket uninterested c h w v =
    (_, refl, refl, pr_un_interested-IsValid socket _ (update_expire-IsValid now socket c.swarm v))
handle-Keeps now game_end socket (have index) c h w v =
    let (r, e) = check_piece-reads c.bit_field index w h in
    recv_have-Keeps socket index (record c { swarm = update_expire now socket c.swarm }) r e
      (update_expire-IsValid now socket c.swarm v)
handle-Keeps now game_end socket (bit_field bits) c h w v =
    recv_bit_field-Keeps socket bits (record c { swarm = update_expire now socket c.swarm })
      (update_expire-IsValid now socket c.swarm v)

-- The messages KeepAlive, Choke, UnChoke, Interested, UnInterested, Have and BitField of any peers, in any order and at any times, are
-- all handled when the bit field is valid and each index of a Have is below the number of pieces: the field stays as it is, and when
-- PeerManager, NeedPiece and DownSpeed were in agreement (IsValid) they are afterwards.
pub handle_all-IsValid :
    (game_end : Bool) (ms : List (ℕ × ℤ × Message)) (c : Client)
    → All (λ m. IsIndexed c.bit_field m.2) ms
    → Field.IsValid c.bit_field
    → IsValid c.swarm
    → (out : Result) × (handle_all game_end ms c ≡ some out)
      × (out.1.bit_field ≡ c.bit_field)
      × IsValid out.1.swarm
unfolding handle_all
handle_all-IsValid game_end [] c h w v = (([], c), refl, refl, v)
handle_all-IsValid game_end ((now, socket, m) ∷ ms) c h w v =
    let ((sent, d), e, same, v') = handle-Keeps now game_end socket m c h.0 w v in
    let indexed : All (λ m. IsIndexed d.bit_field m.2) ms = rw same h.1 in
    let ((sent', d'), e', same', v'') = handle_all-IsValid game_end ms d indexed (rw same w) v' in
    ((sent ++ sent', d'), rw (handle_all, e, e'), same' ∙ same, v'')
