-- ===== src/Client/Download/Examples.antt =====
-- DPiece: runs, and the theorems at concrete inputs.
use socket_template.Base.{
  ℕ, ◌+◌, ◌≡◌, ◌≢◌, refl, ap, sym, Bool, true, false, Option, none, some, List, [], ◌∷◌, replicate,
  pos, find_key, update_key, emplace_key, arith,
}
use socket_template.Torrent.{Info, accepts_slice, get_piece_bit, get_hash}
use socket_template.Torrent.FileNames.{get_file_names}
use socket_template.Wire.Frame.{piece_fields, next_frame}
use socket_template.BitField.{set_parameter, new, fill_bit_field, check_bit_field}
use socket_template.BitField.Progress.{set_parameter-IsValid}
use socket_template.BitMemory.{write}
use socket_template.Swarm.NeedPiece.Locking.{Unlocked}
use socket_template.Swarm.NeedPiece.{
  Need, judge, find_need, push_needs, un_lock_index, clear_socket, socket_map_id, set_index_w,
  clear_index,
}
use socket_template.Swarm.NeedPiece.Pop.Again.{Distinct}
use socket_template.Swarm.NeedPiece.Indices.{need_piece-Distinct}
use socket_template.Swarm.NeedPiece.Entries.{Entries, push_needs-Entries}
use socket_template.Swarm.PeerManager.{
  Swarm, update_expire, clear_piece_status, close_socket, send_have,
}
use socket_template.Swarm.PeerManager as Manager
use socket_template.Swarm.PeerManager.Agreement.{IsValid}
use socket_template.Swarm.PeerManager.Reach.{Reachable, swarm_new, Reachable-IsValid}
use socket_template.Client.{complete, fill}
use socket_template.Client.Sound.{IsMissing}
use socket_template.Client.Download.{
  World, Node, with_swarm, store_slice, ask_rest, d_piece, lock_piece,
}
use socket_template.Client.Download.Sound.{IsReady}
use socket_template.Client.Download.Ends.{lock_piece_ends}
use socket_template.Client.Download.Unlocked.{IsDone}
use socket_template.Client.Download.Done.{d_piece-IsDone, d_piece-judge}
use socket_template.Client.Download.Whole.{locked, behind, d_piece-store_all, d_piece_single}
use socket_template.Client.Download.Complete.{Slice, store_all, send_slices}

abbrev twenty : List ℕ
twenty = replicate 20 1

-- A torrent of one piece.
abbrev torrent : ℕ → Info
torrent size = record {
  files = [];
  pieces = twenty;
  name = 97 ∷ [];
  length = size;
  piece_length = size;
  single = true;
}

abbrev world : ℕ → World
world size = record {
  info = torrent size;
  outside = record { fresh = λ k. 0; sha1 = λ bytes. twenty; valid = λ name. true };
  reads = λ name place len. none;
  reaches = λ socket. true;
  room = 9;
  game_end = λ f. false;
  clock = λ k. 1000 + k;
}

abbrev peers : Swarm
peers = Manager.add_socket (pos 7) swarm_new

abbrev swarm : Swarm
swarm = record peers { needs = push_needs (some (pos 0 ∷ [])) (pos 7) (pos 0) peers.needs }

abbrev node : ℕ → Node
node size = record {
  client = record { bit_field = set_parameter new (0 ∷ []) 1; swarm = swarm };
  memory = record { index_end = pos 0; length_end = size; length_normal = size; memory_pool = [] };
  sent = [];
  written = [];
}

node-IsReady : (size : ℕ) → IsReady (pos 7) 0 (node size).client
unfolding find_key
node-IsReady size =
    let valid : IsValid peers =
      Reachable-IsValid peers (Reachable.add_socket (pos 7) _ refl (omega arith) Reachable.start) in
    let whole : IsValid swarm = Reachable-IsValid swarm (
      Reachable.push_needs (some (pos 0 ∷ [])) (pos 7) (pos 0) peers
        (Reachable.add_socket (pos 7) _ refl (omega arith) Reachable.start)) in
    record {
      field = (set_parameter-IsValid 0 1 (omega arith)).0;
      in_torrent = unfold set_parameter new in omega arith;
      sound = record {
        peers = whole;
        distinct = (need_piece-Distinct peers.needs nothing_needed).1 (pos 0 ∷ []) (pos 7) (pos 0);
        missing =
            push_needs-Entries (IsMissing (node size).client.bit_field) (0 ∷ []) (pos 7) (pos 0)
              peers.needs ((set_parameter-IsValid 0 1 (omega arith)).1 0, tt) nothing_there;
      };
      present = there;
    }
  where
    nothing_needed : Distinct peers.needs.index_queue
    nothing_needed = unfold Manager.add_socket socket_map_id Distinct in tt

    nothing_there : Entries (IsMissing (node size).client.bit_field) peers.needs.index_queue
    nothing_there = unfold Manager.add_socket socket_map_id in tt

    there : find_key (pos 7) peers.peer_list ≢ none
    there = unfold Manager.add_socket find_key emplace_key in λ e. ground arith

-- The state behind a call of Write that succeeds
abbrev outcome : Option (Bool × Node) → Node
outcome none = node 0
outcome (some (wrote, n)) = n

abbrev Succeeds : Option (Bool × Node) → Type 0
Succeeds none = ⊥
Succeeds (some (false, n)) = ⊥
Succeeds (some (true, n)) = Unit {0}

outcome_lem : (o : Option (Bool × Node)) → Succeeds o → o ≡ some (true, outcome o)
outcome_lem none h = absurd h
outcome_lem (some (false, n)) h = absurd h
outcome_lem (some (true, n)) h = refl

abbrev three : List ℕ
three = 1 ∷ 2 ∷ 3 ∷ []

abbrev single_stored : Option (Bool × Node)
single_stored = store_slice (world 3) (pos 0) (pos 0) three (locked (world 3) (pos 7) 0 (node 3))

single_taken :
    (set_index_w (pos 0) (update_expire 1000 (pos 7) (node 3).client.swarm).needs).0 ≡ true
unfolding set_index_w update_expire push_needs socket_map_id Manager.add_socket find_key update_key
    emplace_key
single_taken = refl

single-Succeeds : Succeeds single_stored
unfolding store_slice write set_index_w update_expire push_needs Manager.add_socket find_key
    update_key emplace_key complete fill fill_bit_field send_have clear_index set_parameter new
    get_hash get_file_names
single-Succeeds = tt

d_piece_single_example :
    (n' : Node) × (d_piece
        (world 3)
        (pos 7)
        (0 ∷ 0 ∷ 0 ∷ 0 ∷ 0 ∷ 0 ∷ 0 ∷ 0 ∷ three)
        (9 ∷ [])
        (node 3)
      ≡ some n')
    × (find_key (pos 7) n'.client.swarm.peer_list ≡ none)
    × (n'.client.bit_field ≡ (outcome single_stored).client.bit_field)
unfolding piece_fields accepts_slice get_piece_bit
d_piece_single_example =
    d_piece_single (world 3) (pos 7) 0 (0 ∷ 0 ∷ 0 ∷ 0 ∷ 0 ∷ 0 ∷ 0 ∷ 0 ∷ three) 0 0 three (node 3)
      (outcome single_stored) refl refl refl single_taken
      (outcome_lem single_stored single-Succeeds) refl (node-IsReady 3) (9 ∷ []) refl

-- The last byte comes first, and the slice before it behind it.
abbrev other_slice : Slice
other_slice = (0, 5, replicate 16383 5)

abbrev first_byte : List ℕ
first_byte = 0 ∷ 0 ∷ 0 ∷ 0 ∷ 0 ∷ 0 ∷ 64 ∷ 0 ∷ 8 ∷ []

abbrev first_stored : Option (Bool × Node)
first_stored =
    store_slice (world 16385) (pos 0) (pos 16384) (8 ∷ [])
      (locked (world 16385) (pos 7) 0 (node 16385))

first-Succeeds : Succeeds first_stored
unfolding store_slice write set_index_w update_expire push_needs socket_map_id Manager.add_socket
    find_key update_key emplace_key complete fill fill_bit_field send_have clear_index set_parameter
    new get_hash get_file_names
first-Succeeds = tt

first_taken :
    (set_index_w (pos 0) (update_expire 1000 (pos 7) (node 16385).client.swarm).needs).0 ≡ true
unfolding set_index_w update_expire push_needs socket_map_id Manager.add_socket find_key update_key
    emplace_key
first_taken = refl

abbrev all_stored : Option Node
all_stored =
    store_all (world 16385) (pos 7) 0 1 (other_slice ∷ [])
      (behind (world 16385) (pos 7) 0 2 (8 ∷ []) (outcome first_stored))

abbrev IsYes : Option Bool → Type 0
IsYes none = ⊥
IsYes (some false) = ⊥
IsYes (some true) = Unit {0}

yes_lem : (o : Option Bool) → IsYes o → o ≡ some true
yes_lem none h = absurd h
yes_lem (some false) h = absurd h
yes_lem (some true) h = refl

abbrev EndsMarked : Option Node → Type 0
EndsMarked none = ⊥
EndsMarked (some n) = IsYes (check_bit_field n.client.bit_field (pos 0))

all_marked : EndsMarked all_stored
unfolding store_all check_bit_field store_slice write set_index_w update_expire push_needs
    socket_map_id Manager.add_socket find_key update_key emplace_key complete fill fill_bit_field
    send_have clear_index set_parameter new get_hash get_file_names
all_marked = tt

abbrev the_node : Option Node → Node
the_node none = node 0
the_node (some n) = n

marked_lem :
    (o : Option Node)
    → EndsMarked o
    → (o ≡ some (the_node o)) × (check_bit_field (the_node o).client.bit_field (pos 0) ≡ some true)
marked_lem none h = absurd h
marked_lem (some n) h = (refl, yes_lem (check_bit_field n.client.bit_field (pos 0)) h)

d_piece-store_all_example :
    (d_piece
        (world 16385)
        (pos 7)
        first_byte
        (send_slices 0 (other_slice ∷ []) (9 ∷ []))
        (node 16385)
      ≡ some (with_swarm (clear_piece_status (pos 7)) (the_node all_stored)))
    × (find_key (pos 7) (clear_piece_status (pos 7) (the_node all_stored).client.swarm).peer_list
        ≢ none)
unfolding piece_fields accepts_slice get_piece_bit
d_piece-store_all_example =
    d_piece-store_all (world 16385) (pos 7) 0 first_byte 0 16384 (8 ∷ []) (node 16385)
      (outcome first_stored) refl refl refl first_taken (outcome_lem first_stored first-Succeeds)
      refl (node-IsReady 16385) other_slice [] (9 ∷ []) (the_node all_stored) (omega arith)
      ((omega arith, omega arith), tt) refl (marked_lem all_stored all_marked).0
      (marked_lem all_stored all_marked).1

nobody : Unlocked 0 (node 16385).client.swarm.needs.index_queue
unfolding find_need push_needs socket_map_id Manager.add_socket
nobody x e = sym (ap (λ (o : Option Need). elim o [ none ↦ false | some y ↦ y.write ]) e)

d_piece-IsDone_example :
    IsDone (Unlocked 0) (with_swarm (clear_piece_status (pos 7)) (the_node all_stored)).client
unfolding piece_fields
d_piece-IsDone_example =
    d_piece-IsDone (pos 7) 0 (world 16385) refl first_byte
      (send_slices 0 (other_slice ∷ []) (9 ∷ [])) (node 16385)
      (with_swarm (clear_piece_status (pos 7)) (the_node all_stored)) 0 16384 (8 ∷ []) refl refl
      (node-IsReady 16385) nobody d_piece-store_all_example.0

lock_piece_ends_example :
    lock_piece (world 3) (pos 7) (pos 0) 9 1 1 (pos 0) (0 ∷ 0 ∷ 0 ∷ 0 ∷ 0 ∷ []) (node 3)
    ≡ lock_piece (world 3) (pos 7) (pos 0) 6 1 1 (pos 0) (0 ∷ 0 ∷ 0 ∷ 0 ∷ 0 ∷ []) (node 3)
lock_piece_ends_example =
    lock_piece_ends (world 3) (pos 7) (pos 0) 9 6 1 1 (pos 0) (0 ∷ 0 ∷ 0 ∷ 0 ∷ 0 ∷ []) (node 3)
      (omega arith) (omega arith)

-- The peer sends nothing more, and the piece is given up.
abbrev given_up : Option Node
given_up = d_piece (world 16385) (pos 7) first_byte [] (node 16385)

abbrev IsFound : Option Need → Type 0
IsFound none = ⊥
IsFound (some x) = Unit {0}

abbrev the_entry : Option Need → Need
the_entry none = record { index = pos 0; read = true; write = true; expire = 0; queue = [] }
the_entry (some x) = x

found_lem : (o : Option Need) → IsFound o → o ≡ some (the_entry o)
found_lem none h = absurd h
found_lem (some x) h = refl

abbrev entry_of : Option Node → Option Need
entry_of none = none
entry_of (some n) = find_need (pos 0) n.client.swarm.needs.index_queue

needed_lem : (o : Option Node) → IsFound (entry_of o) → o ≡ some (the_node o)
needed_lem none h = absurd h
needed_lem (some n) h = refl

entry_lem :
    (o : Option Node)
    → IsFound (entry_of o)
    → find_need (pos 0) (the_node o).client.swarm.needs.index_queue ≡ some (the_entry (entry_of o))
entry_lem none h = absurd h
entry_lem (some n) h = found_lem (entry_of (some n)) h

given_up_needed : IsFound (entry_of given_up)
unfolding d_piece find_need piece_fields accepts_slice get_piece_bit store_slice write set_index_w
    update_expire push_needs socket_map_id Manager.add_socket find_key update_key emplace_key
    complete fill fill_bit_field send_have clear_index set_parameter new get_hash get_file_names
    ask_rest un_lock_index close_socket clear_socket next_frame
given_up_needed = tt

d_piece-judge_example : judge 5 false (the_entry (entry_of given_up)) ≡ true
unfolding piece_fields accepts_slice
d_piece-judge_example =
    d_piece-judge (pos 7) 0 (world 16385) refl first_byte [] (node 16385) (the_node given_up) 0
      16384 (8 ∷ []) refl refl refl first_taken (node-IsReady 16385)
      (needed_lem given_up given_up_needed) (the_entry (entry_of given_up))
      (entry_lem given_up given_up_needed) 5 false
