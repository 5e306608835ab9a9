-- ===== src/Rest/Pool/Exclusive.antt =====
-- No connection is given to two requests at once, in any interleaving of the coroutines.
use bintrade.Prelude.{
  subst, false≢true, ℕ, ◌≤◌, ◌<◌, ◌≡◌, ◌≢◌, ◌∙◌, sym, refl, Bool, true, false, List, Option, none,
  some, ◌==◌, ==_iff, inl, inr, ◌⊎◌, Option-cases, Bool-cases, arith,
}
use bintrade.Rest.Pool.{
  Slot, Pool, Acquired, acquired_id, reused, idle_unconnected, appended, take_idle, acquire_begin,
  append_slot, connect_done, connect_failed, release,
}
use bintrade.Rest.Pool.Slots.{
  idle_at, unconnected_at, idle_at-above, idle_at-erase_slot, idle_at-mark_idle,
  idle_at-mark_connected, idle_at-append, take_idle-idle_at, take_idle-unconnected_at,
  unconnected_at-erase_slot, unconnected_at-mark_idle, unconnected_at-mark_connected,
  unconnected_at-append, pop_back-at,
}
use bintrade.Rest.Pool.Valid.{IsValid, take_idle-keeps}
use bintrade.Rest.Pool.Steps.{
  acquire_begin-cases, acquire_begin-IsValid, connect_done-IsValid, connect_failed-IsValid,
  release-cases, release-IsValid,
}
use bintrade.Rest.Pool.Ownership.{
  Phase, connecting, serving, System, update, first_phase, Step, begin, connect_succeeds,
  connect_fails, finish, start, Reach, here, next, Inv,
}

-- What a request that holds `j` relies on, from one pool to the next.
record Keeps (p q : Pool) (j : ℕ) : Type 0 where
  known : p.next_id ≤ q.next_id
  still_busy : idle_at j p.slots ≡ false → idle_at j q.slots ≡ false
  still_connected : unconnected_at j p.slots ≡ false → unconnected_at j q.slots ≡ false

reused-Keeps :
    (p : Pool) (i : ℕ) (rest : List Slot) (j : ℕ)
    → IsValid p
    → take_idle true p.slots ≡ some (i, rest)
    → Keeps p (record p { slots = rest }) j
reused-Keeps p i rest j v t = record {
  known = omega arith;
  still_busy = λ h. ground (arith, take_idle-idle_at true 0 i j p.slots v.rising t);
  still_connected = λ h. ground (arith, take_idle-unconnected_at 0 i j p.slots v.rising t);
}

append_slot-Keeps : (p : Pool) (j : ℕ) → p.next_id ≢ j → Keeps p (append_slot p).1 j
unfolding append_slot
append_slot-Keeps p j ne = record {
  known = omega arith;
  still_busy = λ h. ground (
    arith,
    idle_at-append j p.slots (record { id = p.next_id; in_use = true; connected = false }) refl,
  );
  still_connected = λ h. ground (
    arith,
    unconnected_at-append j p.next_id p.slots
        (record { id = p.next_id; in_use = true; connected = false }) refl ne,
  );
}

connect_done-Keeps : (p : Pool) (a : Acquired) (j : ℕ) → Keeps p (connect_done a p) j
unfolding connect_done
connect_done-Keeps p (reused i) j = record {
  known = omega arith;
  still_busy = λ h. h;
  still_connected = λ h. h;
}
connect_done-Keeps p (idle_unconnected i) j = record {
  known = omega arith;
  still_busy = λ h. idle_at-mark_connected i j p.slots ∙ h;
  still_connected = λ h. ground (arith, unconnected_at-mark_connected i j p.slots);
}
connect_done-Keeps p (appended i) j = record {
  known = omega arith;
  still_busy = λ h. idle_at-mark_connected i j p.slots ∙ h;
  still_connected = λ h. ground (arith, unconnected_at-mark_connected i j p.slots);
}

connect_failed-Keeps : (p : Pool) (a : Acquired) (j : ℕ) → Keeps p (connect_failed a p) j
unfolding connect_failed
connect_failed-Keeps p (reused i) j = record {
  known = omega arith;
  still_busy = λ h. h;
  still_connected = λ h. h;
}
connect_failed-Keeps p (idle_unconnected i) j = record {
  known = omega arith;
  still_busy = λ h. h;
  still_connected = λ h. h;
}
connect_failed-Keeps p (appended i) j = record {
  known = omega arith;
  still_busy = (pop_back-at j p.slots).0;
  still_connected = (pop_back-at j p.slots).1;
}

release-Keeps :
    (p : Pool) (i j : ℕ) (keep_alive : Bool)
    → IsValid p
    → i ≢ j
    → Keeps p (release i keep_alive p) j
release-Keeps p i j keep_alive v ne = elim (release-cases p i keep_alive) [
  | inl (_, e) ↦
      rw e (record { known = omega arith; still_busy = λ h. h; still_connected = λ h. h })
  | inr (inl (_, e)) ↦ rw e (record {
    known = omega arith;
    still_busy = λ h. ground (arith, idle_at-erase_slot i j 0 p.slots v.rising);
    still_connected = λ h. ground (arith, unconnected_at-erase_slot i j 0 p.slots v.rising);
  })
  | inr (inr (c, _, _, e)) ↦ rw e (record {
    known = omega arith;
    still_busy = λ h. ground (arith, idle_at-mark_idle i j p.slots c);
    still_connected = λ h. unconnected_at-mark_idle i j p.slots ∙ h;
  })
]

-- The connection that `acquire_connection` picks is idle until then, or new.
abbrev Fresh : Pool → Type 0
Fresh p =
    let (a, q) = acquire_begin p in
    ((idle_at (acquired_id a) p.slots ≡ true) ⊎ (acquired_id a ≡ p.next_id))
    × (acquired_id a < q.next_id)
    × (idle_at (acquired_id a) q.slots ≡ false)
    × (first_phase a ≡ serving → unconnected_at (acquired_id a) q.slots ≡ false)
    × ((j : ℕ) → acquired_id a ≢ j → Keeps p q j)

acquire_begin-Fresh : (p : Pool) → IsValid p → Fresh p
acquire_begin-Fresh p v = elim (acquire_begin-cases p v) [
  | inl (i, rest, t, e) ↦ rw e (
    inl (take_idle-idle_at true 0 i i p.slots v.rising t).0,
    (take_idle-keeps true i 0 p.next_id p.slots t v.rising v.below v.idle_connected).5,
    ground (arith, take_idle-idle_at true 0 i i p.slots v.rising t),
    λ _. (take_idle-unconnected_at 0 i i p.slots v.rising t).0,
    λ j ne. reused-Keeps p i rest j v t,
  )
  | inr (n, e) ↦ rw e (
      unfold append_slot in
      (
        inr refl,
        omega arith,
        idle_at-append p.next_id p.slots
              (record { id = p.next_id; in_use = true; connected = false }) refl
            ∙ idle_at-above p.next_id p.next_id p.slots (omega arith) v.below,
        λ h. cc,
        λ j ne. append_slot-Keeps p j ne,
      ))
]

-- A step of the request that holds `i`, or will hold it, keeps the invariant.
update-Inv :
    (s : System) (q : Pool) (i : ℕ) (v : Option Phase)
    → Inv s
    → IsValid q
    → ((j : ℕ) → i ≢ j → Keeps s.pool q j)
    → ((ph : Phase) → v ≡ some ph → (i < q.next_id) × (idle_at i q.slots ≡ false))
    → (v ≡ some serving → unconnected_at i q.slots ≡ false)
    → Inv (record s { pool = q; held = update s.held i v })
update-Inv s q i v inv valid others active ready = record {
  valid = valid;
  active = λ j ph e. elim (Bool-cases (i == j)) [
    | inl same ↦
        subst (λ n. (n < q.next_id) × (idle_at n q.slots ≡ false)) ((==_iff i j).0 same)
          (active ph (rw same at e))
    | inr apart ↦
        let old = inv.active j ph (rw apart at e) in
        let k = others j (λ eq. false≢true (sym apart ∙ (==_iff i j).1 eq)) in
        (omega (arith, old.0, k.known), k.still_busy old.1)
  ];
  ready = λ j e. elim (Bool-cases (i == j)) [
    | inl same ↦
        subst (λ n. unconnected_at n q.slots ≡ false) ((==_iff i j).0 same) (ready (rw same at e))
    | inr apart ↦
        (others j (λ eq. false≢true (sym apart ∙ (==_iff i j).1 eq))).still_connected
          (inv.ready j (rw apart at e))
  ];
}

none≢some : (ph : Phase) → none ≡ some ph → ⊥
none≢some ph e = cc e

connected_after :
    (p : Pool) (a : Acquired)
    → first_phase a ≡ connecting a
    → unconnected_at (acquired_id a) (connect_done a p).slots ≡ false
unfolding connect_done
connected_after p (reused i) e = cc e
connected_after p (idle_unconnected i) e = ground (arith, unconnected_at-mark_connected i i p.slots)
connected_after p (appended i) e = ground (arith, unconnected_at-mark_connected i i p.slots)

Step-Inv : {s t : System} → Step s t → Inv s → Inv t
Step-Inv (begin s _) inv =
    let (_, below, busy, ready, others) = acquire_begin-Fresh s.pool inv.valid in
    update-Inv s _ _ _ inv (acquire_begin-IsValid s.pool inv.valid) others (λ ph e. (below, busy))
      (λ e. ready (cc e))
Step-Inv (connect_succeeds s a new h) inv =
    let (below, busy) = inv.active (acquired_id a) (connecting a) h in
    let k = connect_done-Keeps s.pool a (acquired_id a) in
    update-Inv s (connect_done a s.pool) (acquired_id a) (some serving) inv
      (connect_done-IsValid s.pool a inv.valid) (λ j _. connect_done-Keeps s.pool a j)
      (λ ph e. (omega (arith, k.known), k.still_busy busy)) (λ e. connected_after s.pool a new)
Step-Inv (connect_fails s a h) inv =
    update-Inv s (connect_failed a s.pool) (acquired_id a) none inv
      (connect_failed-IsValid s.pool a inv.valid) (λ j _. connect_failed-Keeps s.pool a j)
      (λ ph e. absurd (none≢some ph e)) (λ e. absurd (none≢some serving e))
Step-Inv (finish s i keep_alive h _) inv =
    update-Inv s (release i keep_alive s.pool) i none inv
      (release-IsValid s.pool i keep_alive inv.valid (inv.ready i h))
      (λ j ne. release-Keeps s.pool i j keep_alive inv.valid ne) (λ ph e. absurd (none≢some ph e))
      (λ e. absurd (none≢some serving e))

start-Inv : (n : ℕ) → Inv (start n)
start-Inv n = record {
  valid = record {
    rising = tt;
    below = tt;
    idle_connected = tt;
    spare = λ e. absurd (false≢true e);
  };
  active = λ i ph e. absurd (none≢some ph e);
  ready = λ i e. absurd (none≢some serving e);
}

Reach-Inv : {s t : System} → Inv s → Reach s t → Inv t
Reach-Inv inv here = inv
Reach-Inv inv (next r st) = Step-Inv st (Reach-Inv inv r)

not_held :
    (s : System) (ph : Phase) → Inv s → s.held (acquired_id (acquire_begin s.pool).0) ≡ some ph → ⊥
not_held s ph inv e =
    let (below, busy) = inv.active _ ph e in
    elim (acquire_begin-Fresh s.pool inv.valid).0 [
      | inl idle ↦ false≢true (sym busy ∙ idle)
      | inr new ↦ omega (arith, new)
    ]

-- In every interleaving of requests over a pool that starts empty in which no connection is added to
-- the pool or removed from it while another is being opened, whatever connections fail: the
-- connection that the next request is given is held by no other one; and where some connection
-- is idle, the pool is no larger than its configured size, and all idle ones are connected.
pub acquire_begin-exclusive :
    (pool_size : ℕ) {s : System}
    → Reach (start pool_size) s
    → (s.held (acquired_id (acquire_begin s.pool).0) ≡ none) × IsValid s.pool
acquire_begin-exclusive n {s} r =
    let inv = Reach-Inv (start-Inv n) r in
    (
      elim (Option-cases (s.held (acquired_id (acquire_begin s.pool).0))) [
        | inl free ↦ free
        | inr (ph, e) ↦ absurd (not_held s ph inv e)
      ],
      inv.valid,
    )
