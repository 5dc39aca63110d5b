-- ===== src/Swarm/NeedPiece/Pop/Between.antt =====
-- A piece that PopNeed gave, through the calls of NeedPiece that follow (BitTorrent/CszNeedPiece.cpp).
use socket_template.Base.{ℕ, ◌+◌, ◌^◌, ◌<◌, ◌≤◌, ◌≡◌, ◌≢◌, refl, Bool, false, [], ℤ, sort, arith}
use socket_template.Swarm.NeedPiece as Needs
use socket_template.Swarm.NeedPiece.{
  Need, NeedPiece, np_comp, judge, lock_read, pop_loop, push_into, find_need, erase_index,
  update_index, clear_status, set_write,
}
use socket_template.Swarm.NeedPiece.Pop.Again.{
  Distinct, pop_loop_taken, pop_loop-Taken, pop_loop-index, sort-All, sort-Distinct,
}
use socket_template.Swarm.NeedPiece.Pop.Held.{
  Held, push_need-Held, set_index_w-Held, un_lock_index-Held, clear_index-Held, pop_need-Held,
  pop_loop-Absent,
}

-- The calls between two times of PopNeed: `i` is not cleared and not unlocked, and the time does not go back behind `now`. What
-- changes the peers alone leaves the queue of pieces as it is.
pub data Between (i : ℤ) (now : ℕ) (n : NeedPiece) : NeedPiece → Type 0 where
  here : Between i now n n
  peers :
      (m m' : NeedPiece) → m'.index_queue ≡ m.index_queue → Between i now n m → Between i now n m'
  push_need :
      (j s id : ℤ) (m : NeedPiece) → Between i now n m → Between i now n (Needs.push_need j s id m)
  set_index_w :
      (j : ℤ) (m : NeedPiece) → Between i now n m → Between i now n (Needs.set_index_w j m).1
  un_lock_index :
      (j : ℤ) (m : NeedPiece)
      → j ≢ i
      → Between i now n m
      → Between i now n (Needs.un_lock_index j m)
  clear_index :
      (j : ℤ) (m : NeedPiece) → j ≢ i → Between i now n m → Between i now n (Needs.clear_index j m)
  pop_need :
      (later : ℕ) (game_end : Bool) (m : NeedPiece)
      → now ≤ later
      → later < 2 ^ 32
      → Between i now n m
      → Between i now n (Needs.pop_need later game_end m).1

Between-Held :
    (i : ℤ) (now' now : ℕ) (n m : NeedPiece)
    → now' < now + 120
    → Held i now' n.index_queue
    → Between i now n m
    → Held i now' m.index_queue
Between-Held i now' now n m soon h here = h
Between-Held i now' now n m soon h (peers k _ same b) =
    rw same (Between-Held i now' now n k soon h b)
Between-Held i now' now n m soon h (push_need j s id k b) =
    push_need-Held i now' j s id k (Between-Held i now' now n k soon h b)
Between-Held i now' now n m soon h (set_index_w j k b) =
    set_index_w-Held i now' j k (Between-Held i now' now n k soon h b)
Between-Held i now' now n m soon h (un_lock_index j k ne b) =
    un_lock_index-Held i now' j k ne (Between-Held i now' now n k soon h b)
Between-Held i now' now n m soon h (clear_index j k ne b) =
    clear_index-Held i now' j k ne (Between-Held i now' now n k soon h b)
Between-Held i now' now n m soon h (pop_need later game_end k after fits b) =
    pop_need-Held i now' k later game_end fits (omega arith) (Between-Held i now' now n k soon h b)

-- While no index stands in the queue twice: for two minutes after PopNeed gave a piece at a time of 32 bits, PopNeed does not give that
-- piece again before the end of the game, whatever happens to the peers in between, and after any calls of PushNeed, SetIndexW and, at no earlier
-- time, PopNeed, and of UnLockIndex and ClearIndex for other pieces. Where PopNeed gives the piece in between, at the end of the game, the two minutes
-- are still those of the first time.
pub pop_need-Between :
    (n m : NeedPiece) (now now' : ℕ) (game_end : Bool)
    → Distinct n.index_queue
    → now < 2 ^ 32
    → now' < now + 120
    → (Needs.pop_need now game_end n).0.1 ≢ []
    → Between (Needs.pop_need now game_end n).0.0 now (Needs.pop_need now game_end n).1 m
    → (Needs.pop_need now' false m).0.1 ≢ []
    → (Needs.pop_need now' false m).0.0 ≢ (Needs.pop_need now game_end n).0.0
unfolding Needs.pop_need
pop_need-Between n m now now' game_end d fits soon found between found' e =
    let i = (Needs.pop_need now game_end n).0.0 in
    let first : Held i now' (Needs.pop_need now game_end n).1.index_queue = record {
      taken =
          pop_loop-Taken n now now' game_end (sort np_comp n.index_queue) _
            (sort-Distinct n.index_queue d) fits soon found refl;
      present = λ gone.
          pop_loop-index n now game_end (sort np_comp n.index_queue) i
            (pop_loop-Absent i now' n now game_end (sort np_comp n.index_queue) gone) found refl;
    } in
    let held = Between-Held i now' now _ m soon first between in
    pop_loop_taken m now' (sort np_comp m.index_queue) i (sort-All _ m.index_queue held.taken)
      found' e
