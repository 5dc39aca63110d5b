-- ===== src/Client/Sound.antt =====
-- No needed piece is here already: what the handlers of BitTorrent/CszSelectSwitch.cpp keep of the bit field and the queue of NeedPiece.
use socket_template.Base.{
  ℕ, ◌≡◌, refl, ap, sym, ◌∙◌, Bool, true, false, Option, none, some, Option-cases, inl, inr, List,
  [], ◌∷◌, map, All, ℤ, pos, negsuc, ℤ-cases, ◌⊎◌, arith,
}
use socket_template.BitField.{BitField, check_piece, lack_need_piece}
use socket_template.BitField.Fill as Field
use socket_template.BitField.Fill.{has_piece, check_piece-has_piece}
use socket_template.BitField.Answers.{check_piece-answers, lack_need_piece-missing}
use socket_template.Swarm.NeedPiece.{NeedPiece, push_need, push_needs}
use socket_template.Swarm.NeedPiece.Status.{SameIds, push_need-SameIds, push_needs-SameIds}
use socket_template.Swarm.NeedPiece.Pop.Again.{Distinct}
use socket_template.Swarm.NeedPiece.Indices.{need_piece-Distinct}
use socket_template.Swarm.NeedPiece.Entries.{
  Entries, push_need-Entries, push_needs-Entries, pop_need-Entries,
}
use socket_template.Swarm.PeerManager.{
  Swarm, get_socket_id, update_expire, am_interested, pr_un_choke,
}
use socket_template.Swarm.PeerManager.Agreement.{IsValid}
use socket_template.Swarm.PeerManager.Steps.{
  am_interested-IsValid, pr_choke-IsValid, pr_interested-IsValid, pr_un_interested-IsValid,
}
use socket_template.Swarm.PeerManager.Asking.{update_expire-IsValid}
use socket_template.Swarm.PeerManager.UnChoke.{pr_un_choke-IsValid}
use socket_template.Swarm.PeerManager.Reach.{needs-IsValid}
use socket_template.Swarm.PeerManager.Kept.{
  Stays, Mild, update_expire-Mild, am_interested-Mild, pr_choke-Mild, pr_interested-Mild,
  pr_un_interested-Mild, pr_un_choke-Stays, pr_un_choke-queue,
}
use socket_template.Client.{
  Client, Result, Message, recv_have, recv_bit_field, handle, quiet, keep_alive, choke, unchoke,
  interested, uninterested, have, bit_field,
}

-- The piece of this index is not here.
abbrev pub IsMissing : BitField → ℤ → Type 0
IsMissing f (pos n) = has_piece f.prefix_and_bit_field n ≡ false
IsMissing f (negsuc n) = Unit

-- The peers are in agreement, and each needed piece has one entry and is missing.
pub record IsSound (f : BitField) (s : Swarm) : Type 0 where
  pub peers : IsValid s
  pub distinct : Distinct s.needs.index_queue
  pub missing : Entries (IsMissing f) s.needs.index_queue

-- What a handler leaves: that, the field as it was, and every socket that was there.
pub record IsKept (f : BitField) (s : Swarm) (c : Client) : Type 0 where
  pub sound : IsSound f c.swarm
  pub field : c.bit_field ≡ f
  pub stays : Stays s c.swarm

abbrev pub Keeps : BitField → Swarm → Option Result → Type 0
Keeps f s none = Unit
Keeps f s (some out) = IsKept f s out.1

pub Mild-IsSound :
    (f : BitField) (s s' : Swarm) → Mild s s' → IsValid s' → IsSound f s → IsSound f s'
Mild-IsSound f s s' m v h = record {
  peers = v;
  distinct = rw m.1 h.distinct;
  missing = rw m.1 h.missing;
}

pub update_expire-IsSound :
    (f : BitField) (now : ℕ) (socket : ℤ) (s : Swarm)
    → IsSound f s
    → IsSound f (update_expire now socket s)
update_expire-IsSound f now socket s h =
    Mild-IsSound f s (update_expire now socket s) (update_expire-Mild now socket s)
      (update_expire-IsValid now socket s h.peers) h

pushed-IsSound :
    (f : BitField) (s : Swarm) (n : NeedPiece)
    → SameIds s.needs n
    → Distinct n.index_queue
    → Entries (IsMissing f) n.index_queue
    → IsValid s
    → IsSound f (record s { needs = n })
pushed-IsSound f s n same d m v = record {
  peers = needs-IsValid s n same v;
  distinct = d;
  missing = m;
}

List-cases : (l : List ℕ) → (l ≡ []) ⊎ ((x : ℕ) × (xs : List ℕ) × (l ≡ x ∷ xs))
List-cases [] = inl refl
List-cases (x ∷ xs) = inr (x, xs, refl)

-- An index for which CheckPiece answers no is one of a missing piece.
lacking :
    (f : BitField) (index index' : ℤ)
    → Field.IsValid f
    → check_piece f index ≡ some (false, index')
    → (n : ℕ) × (index' ≡ pos n) × IsMissing f (pos n)
lacking f (pos n) index' w e =
    let r = check_piece-answers f n (false, index') w e in
    (n, ap (λ (p : Bool × ℤ). p.1) r, sym (ap (λ (p : Bool × ℤ). p.0) r))
lacking f (negsuc n) index' w e =
    let no : ◌≡◌ {A = Option (Bool × ℤ)} (some (true, negsuc 0)) (some (false, index')) =
      sym ((check_piece-has_piece f w).1 n) ∙ e in
    absurd (ground arith)

module _ (socket : ℤ) (c : Client) (w : Field.IsValid c.bit_field)
    (h : IsSound c.bit_field c.swarm) where
  asked : IsSound c.bit_field (am_interested socket c.swarm).1
  asked =
      Mild-IsSound c.bit_field c.swarm (am_interested socket c.swarm).1
        (am_interested-Mild socket c.swarm) (am_interested-IsValid socket c.swarm h.peers) h

  same_client : (sent : List (ℤ × List ℕ)) → Keeps c.bit_field c.swarm (some (sent, c))
  same_client sent = record { sound = h; field = refl; stays = λ j e. e }

  recv_have-Keeps : (index : ℤ) → Keeps c.bit_field c.swarm (recv_have socket index c)
  unfolding recv_have
  recv_have-Keeps index = elim (Option-cases (check_piece c.bit_field index)) [
    | inl out ↦ rw (recv_have, out) tt
    | inr ((true, index'), there) ↦ rw (recv_have, there) (same_client [])
    | inr ((false, index'), there) ↦ elim (ℤ-cases (get_socket_id socket c.swarm)) [
      | inr (k, unknown) ↦ rw (recv_have, there, unknown) (same_client [])
      | inl (k, known) ↦
          let (n, at, missing) = lacking c.bit_field index index' w there in
          let needs = (am_interested socket c.swarm).1.needs in
          rw (recv_have, there, known, at)
            (record {
              sound =
                  pushed-IsSound c.bit_field (am_interested socket c.swarm).1
                    (push_need (pos n) socket (pos k) needs)
                    (push_need-SameIds (pos n) socket (pos k) needs)
                    ((need_piece-Distinct needs asked.distinct).0 (pos n) socket (pos k))
                    (push_need-Entries (IsMissing c.bit_field) n socket (pos k) needs missing
                      asked.missing)
                    asked.peers;
              field = refl;
              stays = (am_interested-Mild socket c.swarm).0;
            })
    ]
  ]

  recv_bit_field-Keeps :
      (bits : List ℕ) → Keeps c.bit_field c.swarm (some (recv_bit_field socket (some bits) c))
  unfolding recv_bit_field
  recv_bit_field-Keeps bits = elim (List-cases (lack_need_piece c.bit_field (some bits))) [
    | inl nothing ↦ rw (recv_bit_field, nothing) (same_client [])
    | inr (index, indexs, e) ↦ elim (ℤ-cases (get_socket_id socket c.swarm)) [
      | inr (k, unknown) ↦ rw (recv_bit_field, e, unknown) (same_client [])
      | inl (k, known) ↦
          let missing : All (λ n. IsMissing c.bit_field (pos n)) (index ∷ indexs) =
            rw e at (lack_need_piece-missing c.bit_field bits w) in
          let needs = (am_interested socket c.swarm).1.needs in
          let all = some (map pos (index ∷ indexs)) in
          rw (recv_bit_field, e, known)
            (record {
              sound =
                  pushed-IsSound c.bit_field (am_interested socket c.swarm).1
                    (push_needs all socket (pos k) needs)
                    (push_needs-SameIds all socket (pos k) needs)
                    ((need_piece-Distinct needs asked.distinct).1 (map pos (index ∷ indexs)) socket
                      (pos k))
                    (push_needs-Entries (IsMissing c.bit_field) (index ∷ indexs) socket (pos k)
                      needs missing asked.missing)
                    asked.peers;
              field = refl;
              stays = (am_interested-Mild socket c.swarm).0;
            })
    ]
  ]

-- After UpdateExpire
module _ (now : ℕ) (socket : ℤ) (c : Client) (h : IsSound c.bit_field c.swarm) where
  abbrev renewed : Swarm
  renewed = update_expire now socket c.swarm

  abbrev behind : Client
  behind = record c { swarm = renewed }

  renewed-IsSound : IsSound c.bit_field renewed
  renewed-IsSound = update_expire-IsSound c.bit_field now socket c.swarm h

  renewed-Keeps : (r : Option Result) → Keeps c.bit_field renewed r → Keeps c.bit_field c.swarm r
  renewed-Keeps none k = tt
  renewed-Keeps (some out) k = record {
    sound = k.sound;
    field = k.field;
    stays = λ j e. (update_expire-Mild now socket c.swarm).0 j (k.stays j e);
  }

  moved :
      (s : Swarm) (sent : List (ℤ × List ℕ))
      → Mild renewed s
      → IsValid s
      → Keeps c.bit_field c.swarm (some (sent, record c { swarm = s }))
  moved s sent m v = renewed-Keeps (some (sent, record c { swarm = s })) (record {
    sound = Mild-IsSound c.bit_field renewed s m v renewed-IsSound;
    field = refl;
    stays = m.0;
  })

-- Each of these handlers keeps all of that.
pub handle-Keeps :
    (now : ℕ) (game_end : Bool) (socket : ℤ) (m : Message) (c : Client)
    → Field.IsValid c.bit_field
    → IsSound c.bit_field c.swarm
    → Keeps c.bit_field c.swarm (handle now game_end socket m c)
unfolding handle quiet
handle-Keeps now game_end socket keep_alive c w h =
    moved now socket c h _ [] ((λ j e. e), refl) (renewed-IsSound now socket c h).peers
handle-Keeps now game_end socket choke c w h =
    moved now socket c h _ [] (pr_choke-Mild socket (renewed now socket c h))
      (pr_choke-IsValid socket _ (renewed-IsSound now socket c h).peers)
handle-Keeps now game_end socket unchoke c w h =
    let s = renewed now socket c h in
    let r = renewed-IsSound now socket c h in
    let s' = (pr_un_choke now game_end socket s).1 in
    renewed-Keeps now socket c h
      (some ((pr_un_choke now game_end socket s).0, record c { swarm = s' }))
      (record {
        sound = record {
          peers = pr_un_choke-IsValid now game_end socket s r.peers;
          distinct =
              pr_un_choke-queue Distinct now game_end socket s
                (λ n d. (need_piece-Distinct n d).2 now game_end) r.distinct;
          missing =
              pr_un_choke-queue (Entries (IsMissing c.bit_field)) now game_end socket s
                (λ n. pop_need-Entries (IsMissing c.bit_field) n now game_end) r.missing;
        };
        field = refl;
        stays = pr_un_choke-Stays now game_end socket s;
      })
handle-Keeps now game_end socket interested c w h =
    moved now socket c h _ [] (pr_interested-Mild socket (renewed now socket c h))
      (pr_interested-IsValid socket _ (renewed-IsSound now socket c h).peers)
handle-Keeps now game_end socket uninterested c w h =
    moved now socket c h _ [] (pr_un_interested-Mild socket (renewed now socket c h))
      (pr_un_interested-IsValid socket _ (renewed-IsSound now socket c h).peers)
handle-Keeps now game_end socket (have index) c w h =
    renewed-Keeps now socket c h (recv_have socket index (behind now socket c h))
      (recv_have-Keeps socket (behind now socket c h) w (renewed-IsSound now socket c h) index)
handle-Keeps now game_end socket (bit_field bits) c w h =
    renewed-Keeps now socket c h (some (recv_bit_field socket (some bits) (behind now socket c h)))
      (recv_bit_field-Keeps socket (behind now socket c h) w (renewed-IsSound now socket c h) bits)
