-- ===== src/Swarm/NeedPiece/Examples.antt =====
-- NeedPiece: runs, and the theorems at concrete inputs.
use socket_template.Base.{
  ℕ, ◌≡◌, ◌≢◌, refl, Bool, true, false, some, List, [], ◌∷◌, ℤ, pos, unlocked, sort, arith,
}
use socket_template.Swarm.NeedPiece.{
  senders, lock_read, NeedPiece, push_need, push_needs, pop_need, socket_map_id, pr_un_choke,
  clear_index, un_lock_index, set_index_w,
}
use socket_template.Swarm.NeedPiece.Pop.Between.{Between, pop_need-Between}
use socket_template.Swarm.NeedPiece.Pop.Again.{Distinct}
use socket_template.Swarm.NeedPiece.Indices.{need_piece-Distinct}
use socket_template.Swarm.NeedPiece.Locking.Owned.{Owned, set_index_w-Owned}

-- Two unchoked peers have piece 4, one of them piece 6 as well.
abbrev pushed : NeedPiece
pushed = push_need (pos 6) (pos 21) (pos 1) (
    push_need (pos 4) (pos 21) (pos 1) (
      push_need (pos 4) (pos 20) (pos 0) (
        socket_map_id (pos 1) (
          socket_map_id (pos 0) (record { index_queue = []; id_queue = []; id_lock = unlocked })))))

abbrev two : NeedPiece
two = (pr_un_choke (pos 1) (pr_un_choke (pos 0) pushed).1).1

two_Distinct : Distinct two.index_queue
unfolding push_need socket_map_id pr_un_choke Distinct
two_Distinct = (((λ e. ground arith), tt), (tt, tt))

two_run : (pop_need 1000 false two).0 ≡ (pos 6, pos 21 ∷ [])
unfolding pop_need push_need socket_map_id pr_un_choke sort senders lock_read
two_run = refl

two_again : (pop_need 1100 false (pop_need 1000 false two).1).0 ≡ (pos 4, pos 20 ∷ pos 21 ∷ [])
unfolding pop_need push_need socket_map_id pr_un_choke sort senders lock_read
two_again = refl

-- Another peer has the piece, and a slice of the other one comes.
abbrev going_on : NeedPiece
going_on = (set_index_w (pos 4) (push_need (pos 6) (pos 9) (pos 2) (pop_need 1000 false two).1)).1

pop_need-Between_example : (pop_need 1100 false going_on).0.0 ≢ (pop_need 1000 false two).0.0
unfolding pop_need push_need socket_map_id pr_un_choke sort senders lock_read set_index_w
pop_need-Between_example =
    pop_need-Between two going_on 1000 1100 false two_Distinct (omega arith) (omega arith)
      (λ e. ground arith)
      (Between.set_index_w (pos 4) _ (Between.push_need (pos 6) (pos 9) (pos 2) _ Between.here))
      (λ e. ground arith)

need_piece-Distinct_example :
    ((i s id : ℤ) → Distinct (push_need i s id two).index_queue)
    × ((is : List ℤ) (s id : ℤ) → Distinct (push_needs (some is) s id two).index_queue)
    × ((now : ℕ) (game_end : Bool) → Distinct (pop_need now game_end two).1.index_queue)
    × ((i : ℤ) → Distinct (clear_index i two).index_queue)
    × ((i : ℤ) → Distinct (un_lock_index i two).index_queue)
    × ((i : ℤ) → Distinct (set_index_w i two).1.index_queue)
need_piece-Distinct_example = need_piece-Distinct two two_Distinct

-- The write bit of piece 4 is taken, the one of piece 6 is taken and given back, and another peer has piece 4.
abbrev owned : NeedPiece
owned =
    push_need (pos 4) (pos 9) (pos 2)
      (un_lock_index (pos 6) (set_index_w (pos 6) (set_index_w (pos 4) two).1).1)

set_index_w-Owned_example :
    ((set_index_w (pos 4) owned).0 ≡ false)
    × ((set_index_w (pos 4) (un_lock_index (pos 4) owned)).0 ≡ true)
unfolding set_index_w push_need socket_map_id pr_un_choke
set_index_w-Owned_example = set_index_w-Owned two owned (pos 4) refl (
    Owned.push_need (pos 4) (pos 9) (pos 2) _
      (Owned.un_lock_index (pos 6) _ (λ e. ground arith) (Owned.set_index_w (pos 6) _ Owned.here)))
