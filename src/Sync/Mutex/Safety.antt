-- ===== src/Sync/Mutex/Safety.antt =====
-- Mutual exclusion of the mutex.
use badger_os.Base.{ℕ, ◌+◌, ◌-◌, ◌*◌, ◌≤◌, ◌<◌, ◌≡◌, ◌⊎◌, inl, inr, arith, Bool, true, false}
use badger_os.Base.{get_elem?, some, count, count-set, count-get_elem?, count-replicate, bit}
use badger_os.Sync.Mutex.{
  exclusive_magic, await_swap_round, thresh_add_round, unequal_sub_round, Phase, System, Step,
  Reachable, goes, is_owner, is_sharer,
}

abbrev pub owners : System → ℕ
owners s = count is_owner s.threads

abbrev pub sharers : System → ℕ
sharers s = count is_sharer s.threads

-- The word says who has the mutex.
abbrev pub IsConsistent : System → Type 0
IsConsistent s =
    ((owners s ≡ 0) × (s.shares ≡ sharers s) × (sharers s < exclusive_magic))
    ⊎ ((owners s ≡ 1) × (sharers s ≡ 0) × (s.shares ≡ exclusive_magic))

goes-counts :
    (s : System) (i shares : ℕ) (p q : Phase)
    → get_elem? s.threads i ≡ some p
    → (owners (goes s i shares q) + bit (is_owner p) ≡ owners s + bit (is_owner q))
      × (sharers (goes s i shares q) + bit (is_sharer p) ≡ sharers s + bit (is_sharer q))
goes-counts s i shares p q at =
    (count-set is_owner s.threads i q at, count-set is_sharer s.threads i q at)

-- What a round leaves: a success, or the word as it was.
await_swap_round_lem :
    (expected new_value : ℕ) (spurious : Bool) (shares : ℕ)
    → let r = await_swap_round expected new_value spurious shares in
      ((r.2 ≡ true) × (shares ≡ expected) × (r.0 ≡ new_value)) ⊎ ((r.2 ≡ false) × (r.0 ≡ shares))
unfolding await_swap_round
await_swap_round_lem expected new_value spurious shares = ground arith

thresh_add_round_lem :
    (threshold old : ℕ) (spurious : Bool) (shares : ℕ)
    → let r = thresh_add_round threshold old spurious shares in
      ((r.2 ≡ true) × (shares + 1 < threshold) × (r.0 ≡ shares + 1))
      ⊎ ((r.2 ≡ false) × (r.0 ≡ shares))
unfolding thresh_add_round
thresh_add_round_lem threshold old spurious shares = ground arith

unequal_sub_round_lem :
    (unequal0 unequal1 old : ℕ) (spurious : Bool) (shares : ℕ)
    → let r = unequal_sub_round unequal0 unequal1 old spurious shares in
      ((r.2 ≡ true) × (r.0 ≡ shares - 1)) ⊎ ((r.2 ≡ false) × (r.0 ≡ shares))
unfolding unequal_sub_round
unequal_sub_round_lem unequal0 unequal1 old spurious shares = ground arith

Step-IsConsistent : (s s' : System) → Step s s' → IsConsistent s → IsConsistent s'
Step-IsConsistent s s' (Step.acquire i at) inv =
    let moved = goes-counts s i s.shares Phase.idle Phase.acquiring at in omega arith
Step-IsConsistent s s' (Step.acquire_round i spurious at) inv =
    let r = await_swap_round 0 exclusive_magic spurious s.shares in
    elim (await_swap_round_lem 0 exclusive_magic spurious s.shares) [
      | inl won ↦
          let moved = goes-counts s i r.0 Phase.acquiring Phase.exclusive at in
          simp won.0 (omega arith)
      | inr lost ↦
          let moved = goes-counts s i r.0 Phase.acquiring Phase.acquiring at in
          simp lost.0 (omega arith)
    ]
Step-IsConsistent s s' (Step.acquire_timeout i at) inv =
    let moved = goes-counts s i s.shares Phase.acquiring Phase.idle at in omega arith
Step-IsConsistent s s' (Step.release i at) inv =
    let moved = goes-counts s i s.shares Phase.exclusive Phase.releasing at in omega arith
Step-IsConsistent s s' (Step.release_round i spurious at) inv =
    let r = await_swap_round exclusive_magic 0 spurious s.shares in
    elim (await_swap_round_lem exclusive_magic 0 spurious s.shares) [
      | inl won ↦
          let moved = goes-counts s i r.0 Phase.releasing Phase.idle at in simp won.0 (omega arith)
      | inr lost ↦
          let moved = goes-counts s i r.0 Phase.releasing Phase.releasing at in
          simp lost.0 (omega arith)
    ]
Step-IsConsistent s s' (Step.acquire_shared i at) inv =
    let moved = goes-counts s i s.shares Phase.idle (Phase.joining s.shares) at in omega arith
Step-IsConsistent s s' (Step.join_round i old spurious at) inv =
    let r = thresh_add_round exclusive_magic old spurious s.shares in
    elim (thresh_add_round_lem exclusive_magic old spurious s.shares) [
      | inl won ↦
          let moved = goes-counts s i r.0 (Phase.joining old) Phase.shared at in
          simp won.0 (omega arith)
      | inr lost ↦
          let moved = goes-counts s i r.0 (Phase.joining old) (Phase.joining r.1) at in
          simp lost.0 (omega arith)
    ]
Step-IsConsistent s s' (Step.join_timeout i old at) inv =
    let moved = goes-counts s i s.shares (Phase.joining old) Phase.idle at in omega arith
Step-IsConsistent s s' (Step.release_shared i at) inv =
    let moved = goes-counts s i s.shares Phase.shared (Phase.leaving s.shares) at in omega arith
Step-IsConsistent s s' (Step.leave_round i old spurious at) inv =
    let r = unequal_sub_round 0 exclusive_magic old spurious s.shares in
    elim (unequal_sub_round_lem 0 exclusive_magic old spurious s.shares) [
      | inl won ↦
          let moved = goes-counts s i r.0 (Phase.leaving old) Phase.idle at in
          simp won.0 (omega arith)
      | inr lost ↦
          let moved = goes-counts s i r.0 (Phase.leaving old) (Phase.leaving r.1) at in
          simp lost.0 (omega arith)
    ]

Reachable-IsConsistent : (n : ℕ) (s : System) → Reachable n s → IsConsistent s
Reachable-IsConsistent n s Reachable.start =
    let none_owns = count-replicate is_owner n Phase.idle in
    let none_shares = count-replicate is_sharer n Phase.idle in omega arith
Reachable-IsConsistent n s (Reachable.next {s = s0} reached step) =
    Step-IsConsistent s0 s step (Reachable-IsConsistent n s0 reached)

-- Whatever any number of threads do with a new mutex, in whatever order, with whatever time-outs
-- and exchanges that fail without reason: at most one thread has it exclusively, no thread has a
-- share while one does, there are always fewer shares than the exclusive mark, and the word is the
-- number of shares, or the mark where a thread has the mutex exclusively.
pub mutex_mutual_exclusion :
    (n : ℕ) (s : System)
    → Reachable n s
    → (owners s ≤ 1)
      × (sharers s < exclusive_magic)
      × ((owners s ≡ 0) ⊎ (sharers s ≡ 0))
      × (s.shares ≡ sharers s + owners s * exclusive_magic)
mutex_mutual_exclusion n s reached = let inv = Reachable-IsConsistent n s reached in ground arith

-- The assertions hold in every reachable state: where a thread that has the mutex starts its
-- release the word is at least the exclusive mark, and where a thread that has a share starts its
-- release the word is below the mark and not 0, so that the release can succeed.
pub mutex_release_asserts :
    (n : ℕ) (s : System) (i : ℕ)
    → Reachable n s
    → (get_elem? s.threads i ≡ some Phase.exclusive → exclusive_magic ≤ s.shares)
      × (get_elem? s.threads i ≡ some Phase.shared
          → (s.shares < exclusive_magic)
            × ((unequal_sub_round 0 exclusive_magic s.shares false s.shares).2 ≡ true))
unfolding unequal_sub_round
mutex_release_asserts n s i reached =
    let inv = Reachable-IsConsistent n s reached in
    (
      λ at. let one = count-get_elem? is_owner s.threads i at in omega arith,
      λ at. let one = count-get_elem? is_sharer s.threads i at in ground arith,
    )
