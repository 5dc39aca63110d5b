-- ===== src/Swarm/DownSpeed/Choice.antt =====
-- Whom CalculateSpeed and RetSocket choose.
use socket_template.Base.{
  sort, Sorted, sort-Sorted, filter-sort-Perm, sort-Perm, length-take, ltb, ◌&&◌, ◌/◌, ℕ, zero, suc,
  ◌+◌, ◌-◌, ◌≤◌, ◌<◌, ◌≡◌, refl, ap, ◌∙◌, Bool, true, false, some, List, [], ◌∷◌, ◌++◌, map, min,
  length, take, drop, All, filter, ◌==◌, Bool-cases, inl, inr, ℤ, unlocked, arith,
}
use mathlib.Core.List.{Perm}
use socket_template.Swarm.DownSpeed.{
  Speed, DownSpeed, unchoke, ret_sockets, ret_socket, check_socket, is_among, reset, ds_comp,
  collect, command, sum_totals, calculate_speed,
}
use socket_template.Swarm.DownSpeed.Order.{ds_comp_asym, ds_comp_trans}

abbrev pub is_interested : Speed → Bool
is_interested x = x.status.peer_interested

abbrev pub interested : List Speed → List Speed
interested xs = filter is_interested xs

abbrev pub sockets : List Speed → List ℤ
sockets xs = map (λ x. x.socket) xs

ret_sockets-interested :
    (left : ℕ) (xs : List Speed)
    → left < 5
    → ret_sockets (4 - left) xs ≡ sockets (take (suc left) (interested xs))
unfolding ret_sockets
ret_sockets-interested left [] h = refl
ret_sockets-interested zero (x ∷ xs) h = elim (Bool-cases (is_interested x)) [
  | inr e ↦ rw (e, ret_sockets-interested zero xs h)
  | inl e ↦ rw e
]
ret_sockets-interested (suc left) (x ∷ xs) h = elim (Bool-cases (is_interested x)) [
  | inr e ↦
      let more : (4 - suc left == 5) ≡ false = ground arith in
      rw (e, more, ret_sockets-interested (suc left) xs h)
  | inl e ↦
      let next : 4 - suc left + 1 ≡ 4 - left = omega arith in
      let more : (4 - left == 5) ≡ false = ground arith in
      rw (e, next, more, ret_sockets-interested left xs (omega arith))
]

take-drop : (n : ℕ) (xs : List Speed) → take n xs ++ drop n xs ≡ xs
take-drop zero xs = refl
take-drop (suc n) [] = refl
take-drop (suc n) (x ∷ xs) = ap (λ (ys : List Speed). x ∷ ys) (take-drop n xs)

filter-All :
    (P : Speed → Type 0) (p : Speed → Bool) (xs : List Speed) → All P xs → All P (filter p xs)
filter-All P p [] h = tt
filter-All P p (x ∷ xs) h = elim (Bool-cases (p x)) [
  | inl e ↦ rw e (h.0, filter-All P p xs h.1)
  | inr e ↦ rw e (filter-All P p xs h.1)
]

-- Among the interested, in order, nobody behind has sent more.
Descending : List Speed → Type 0
Descending [] = Unit
Descending (x ∷ xs) = All (λ y. y.total ≤ x.total) xs × Descending xs

not_more :
    (x : Speed) (xs : List Speed)
    → is_interested x ≡ true
    → All (λ y. ds_comp y x ≡ false) xs
    → All (λ y. y.total ≤ x.total) (interested xs)
unfolding ds_comp
not_more x [] e h = tt
not_more x (y ∷ ys) e h = elim (Bool-cases (is_interested y)) [
  | inl i ↦ rw i (ground (arith, h.0), not_more x ys e h.1)
  | inr i ↦ rw i (not_more x ys e h.1)
]

interested-Descending : (xs : List Speed) → Sorted ds_comp xs → Descending (interested xs)
unfolding Descending Sorted
interested-Descending [] s = tt
interested-Descending (x ∷ xs) s = elim (Bool-cases (is_interested x)) [
  | inl e ↦ rw e (not_more x xs e s.0, interested-Descending xs s.1)
  | inr e ↦ rw e (interested-Descending xs s.1)
]

take-All : (P : Speed → Type 0) (n : ℕ) (xs : List Speed) → All P xs → All P (drop n xs)
take-All P zero xs h = h
take-All P (suc n) [] h = tt
take-All P (suc n) (x ∷ xs) h = take-All P n xs h.1

Descending-drop :
    (n : ℕ) (xs : List Speed)
    → Descending xs
    → All (λ x. All (λ y. y.total ≤ x.total) (drop n xs)) (take n xs)
unfolding Descending
Descending-drop zero xs h = tt
Descending-drop (suc n) [] h = tt
Descending-drop (suc n) (x ∷ xs) h = (take-All _ n xs h.0, Descending-drop n xs h.1)

interested-reset : (xs : List Speed) → interested (map reset xs) ≡ map reset (interested xs)
unfolding reset
interested-reset [] = refl
interested-reset (x ∷ xs) = elim (Bool-cases (is_interested x)) [
  | inl e ↦ rw (e, interested-reset xs)
  | inr e ↦ rw (e, interested-reset xs)
]

sockets-take-reset :
    (n : ℕ) (xs : List Speed) → sockets (take n (map reset xs)) ≡ sockets (take n xs)
unfolding reset
sockets-take-reset zero xs = refl
sockets-take-reset (suc n) [] = refl
sockets-take-reset (suc n) (x ∷ xs) = ap (λ (ys : List ℤ). x.socket ∷ ys) (sockets-take-reset n xs)

commands : (k : ℕ) (xs : List Speed) → map command (collect k xs) ≡ map (λ x. unchoke x.socket) xs
unfolding collect command
commands k [] = refl
commands k (x ∷ xs) = elim (Bool-cases (is_interested x && ltb 0 k)) [
  | inl e ↦ rw (e, commands (k - 1) xs)
  | inr e ↦ rw (e, commands k xs)
]

-- With its lock free, RetSocket gives the first five interested peers of the queue, or all when they are fewer, and
-- CheckSocket agrees with it; nothing is changed.
pub ret_socket-interested :
    (d : DownSpeed)
    → d.lock ≡ unlocked
    → (ret_socket d ≡ (sockets (take 5 (interested d.queue)), d))
      × ((s : ℤ) → check_socket s d ≡ (is_among s (sockets (take 5 (interested d.queue))), d))
unfolding ret_socket check_socket
ret_socket-interested d free =
    let first = ret_sockets-interested 4 d.queue (omega arith) in
    (rw (free, first), λ s. rw (free, first))

-- Just after CalculateSpeed of a queue whose lock is free, RetSocket gives five of the interested peers, or all when
-- they are fewer, and none of the interested peers that it leaves out had sent more than one that it gives.
pub ret_socket-calculate_speed :
    (d : DownSpeed)
    → d.lock ≡ unlocked
    → (top : List Speed) × (rest : List Speed) × ((ret_socket (calculate_speed d).0).0
        ≡ sockets top)
      × (length top ≡ min 5 (length (top ++ rest)))
      × Perm (top ++ rest) (interested d.queue)
      × All (λ x. All (λ y. y.total ≤ x.total) rest) top
unfolding calculate_speed
ret_socket-calculate_speed d free =
    let order = interested (sort ds_comp d.queue) in
    let split = take-drop 5 order in
    let after : DownSpeed = record { queue = map reset (sort ds_comp d.queue); lock = unlocked } in
    (
      take 5 order,
      drop 5 order,
      (rw free (
          ap (λ (r : List ℤ × DownSpeed). r.0) (ret_socket-interested after refl).0
          ∙ ap (λ (xs : List Speed). sockets (take 5 xs)) (interested-reset (sort ds_comp d.queue))
          ∙ sockets-take-reset 5 order)),
      rw split (length-take 5 order),
      rw split (filter-sort-Perm ds_comp is_interested d.queue),
      Descending-drop 5 order (
          interested-Descending (sort ds_comp d.queue)
            (sort-Sorted ds_comp ds_comp_asym ds_comp_trans d.queue)),
    )

-- CalculateSpeed of a queue whose lock is free calls AmUnChoke for every peer of the queue, in the new order, and
-- AmChoke for none; it keeps each peer with its status and sets what it has sent to 0.
pub calculate_speed-unchoke :
    (d : DownSpeed)
    → d.lock ≡ unlocked
    → (order : List Speed) × (speed : ℕ) × Perm order d.queue
      × (calculate_speed d ≡ (
        record { queue = map reset order; lock = unlocked },
        some (map (λ x. unchoke x.socket) order, speed),
      ))
unfolding calculate_speed
calculate_speed-unchoke d free = (
  sort ds_comp d.queue,
  sum_totals 0 (sort ds_comp d.queue) / 1024,
  sort-Perm ds_comp d.queue,
  rw (free, commands 4 (sort ds_comp d.queue)),
)
