-- ===== src/Sync/Spinlock/Safety.antt =====
-- Mutual exclusion of the spinlock.
use badger_os.Base.{
  ℕ, zero, suc, ◌+◌, ◌*◌, ◌%◌, ◌^◌, ◌≤◌, ◌<◌, ◌≡◌, refl, ◌∙◌, ◌⊎◌, inl, inr, arith, bit_and, bit_or,
  Bool, true, false,
}
use badger_os.Base.{
  get_elem?, some, count, count-set, count-length, count-replicate, count-get_elem?, bit, length,
  length-set, length-replicate,
}
use badger_os.Bits.Mask.{bit_and-one}
use badger_os.Sync.Spinlock.{
  spinlock_take, spinlock_release, spinlock_take_shared, spinlock_release_shared, Phase, System,
  Step, Reachable, goes, is_exclusive, is_shared, is_negative,
}

abbrev pub owners : System → ℕ
owners s = count is_exclusive s.threads

abbrev pub sharers : System → ℕ
sharers s = count is_shared s.threads

-- The word says who holds the lock.
abbrev pub IsConsistent : (b n : ℕ) → System → Type 0
IsConsistent b n s =
    (s.lock ≡ b + sharers s * 2 + owners s * 2147483648)
    × ((owners s ≡ 0) ⊎ ((owners s ≡ 1) × (sharers s ≡ 0)))
    × (length s.threads ≡ n)

bit_or-excl_magic : (b : ℕ) → b < 2 → bit_or b 2147483648 ≡ b + 2147483648
bit_or-excl_magic zero h = refl
bit_or-excl_magic (suc zero) h = refl
bit_or-excl_magic (suc (suc b)) h = absurd (omega arith)

-- What `goes` makes of the counts.
goes-counts :
    (s : System) (i lock : ℕ) (p q : Phase)
    → get_elem? s.threads i ≡ some p
    → (owners (goes s i lock q) + bit (is_exclusive p) ≡ owners s + bit (is_exclusive q))
      × (sharers (goes s i lock q) + bit (is_shared p) ≡ sharers s + bit (is_shared q))
      × (length (goes s i lock q).threads ≡ length s.threads)
goes-counts s i lock p q at = (
  count-set is_exclusive s.threads i q at,
  count-set is_shared s.threads i q at,
  length-set s.threads i q,
)

-- The word that a take leaves: one more exclusive owner, or as before.
spinlock_take_lem :
    (spurious : Bool) (lock cur : ℕ)
    → let r = spinlock_take spurious lock cur in
      ((r.2 ≡ true) × (lock < 2) × (r.0 ≡ lock + 2147483648)) ⊎ ((r.2 ≡ false) × (r.0 ≡ lock))
unfolding spinlock_take
spinlock_take_lem spurious lock cur =
    let low : bit_and cur 1 < 2 = rw (bit_and-one cur) (omega arith) in
    let high = bit_or-excl_magic (bit_and cur 1) low in rw high (ground arith)

-- The word that a shared take leaves.
spinlock_take_shared_lem :
    (spurious : Bool) (lock cur : ℕ)
    → let r = spinlock_take_shared spurious lock cur in
      ((r.2 ≡ true) × (lock < 2147483648) × (r.0 ≡ lock + 2)) ⊎ ((r.2 ≡ false) × (r.0 ≡ lock))
unfolding spinlock_take_shared
spinlock_take_shared_lem spurious lock cur =
    let unwrapped : cur < 2147483648 → (cur + 2) % 4294967296 ≡ cur + 2 = λ h. omega arith in
    ground (arith, unwrapped)

Step-IsConsistent :
    (b n : ℕ) (s s' : System)
    → b < 2
    → n < 2 ^ 29
    → Step s s'
    → IsConsistent b n s
    → IsConsistent b n s'
unfolding spinlock_release spinlock_release_shared
Step-IsConsistent b n s s' hb hn (Step.take_load i at) inv =
    let moved = goes-counts s i s.lock Phase.idle (Phase.taking s.lock) at in omega arith
Step-IsConsistent b n s s' hb hn (Step.take_round i cur spurious at) inv =
    let r = spinlock_take spurious s.lock cur in
    elim (spinlock_take_lem spurious s.lock cur) [
      | inl (won, low, word) ↦
          let moved = goes-counts s i r.0 (Phase.taking cur) Phase.exclusive at in
          simp won (omega arith)
      | inr (lost, word) ↦
          let moved = goes-counts s i r.0 (Phase.taking cur) (Phase.taking r.1) at in
          simp lost (omega arith)
    ]
Step-IsConsistent b n s s' hb hn (Step.release i at) inv =
    let moved = goes-counts s i (spinlock_release s.lock).0 Phase.exclusive Phase.idle at in
    rw (bit_and-one s.lock) (omega arith)
Step-IsConsistent b n s s' hb hn (Step.share_load i at may) inv =
    let moved = goes-counts s i s.lock Phase.idle (Phase.sharing s.lock) at in omega arith
Step-IsConsistent b n s s' hb hn (Step.share_round i cur spurious at) inv =
    let r = spinlock_take_shared spurious s.lock cur in
    elim (spinlock_take_shared_lem spurious s.lock cur) [
      | inl (won, low, word) ↦
          let moved = goes-counts s i r.0 (Phase.sharing cur) Phase.shared at in
          simp won (omega arith)
      | inr (lost, word) ↦
          let moved = goes-counts s i r.0 (Phase.sharing cur) (Phase.sharing r.1) at in
          simp lost (omega arith)
    ]
Step-IsConsistent b n s s' hb hn (Step.release_shared i at) inv =
    let moved = goes-counts s i (spinlock_release_shared s.lock).0 Phase.shared Phase.idle at in
    let few = count-length is_shared s.threads in omega arith

Reachable-IsConsistent :
    (b n : ℕ) (s : System) → b < 2 → n < 2 ^ 29 → Reachable b n s → IsConsistent b n s
Reachable-IsConsistent b n s hb hn Reachable.start =
    let none_owns = count-replicate is_exclusive n Phase.idle in
    let none_shares = count-replicate is_shared n Phase.idle in
    let all = length-replicate n Phase.idle in omega arith
Reachable-IsConsistent b n s hb hn (Reachable.next {s = s0} reached step) =
    Step-IsConsistent b n s0 s hb hn step (Reachable-IsConsistent b n s0 hb hn reached)

-- With fewer than 2^29 threads on a lock that starts free, whatever they do in whatever order and
-- however often an exchange fails without reason: at most one thread has the lock exclusively,
-- while one has it nobody shares it, and the word is the start value, plus 2 for each share, plus
-- 2^31 for an exclusive owner.
pub spinlock_mutual_exclusion :
    (b n : ℕ) (s : System)
    → b < 2
    → n < 2 ^ 29
    → Reachable b n s
    → (owners s ≤ 1)
      × (owners s + sharers s ≤ 1 ⊎ (owners s ≡ 0))
      × (s.lock ≡ b + sharers s * 2 + owners s * 2147483648)
spinlock_mutual_exclusion b n s hb hn reached =
    let inv = Reachable-IsConsistent b n s hb hn reached in ground arith

-- The assertions of the two releases never fail: under the same conditions the word that an
-- exclusive owner's release finds is a negative `int`, and the one that a sharer's release finds is
-- at least 2 and not negative.
pub spinlock_release_asserts :
    (b n : ℕ) (s : System) (i : ℕ)
    → b < 2
    → n < 2 ^ 29
    → Reachable b n s
    → (get_elem? s.threads i ≡ some Phase.exclusive
        → is_negative (spinlock_release s.lock).1 ≡ true)
      × (get_elem? s.threads i ≡ some Phase.shared
          → (2 ≤ (spinlock_release_shared s.lock).1)
            × (is_negative (spinlock_release_shared s.lock).1 ≡ false))
unfolding spinlock_release spinlock_release_shared
spinlock_release_asserts b n s i hb hn reached =
    let inv = Reachable-IsConsistent b n s hb hn reached in
    let few = count-length is_shared s.threads in
    (
      λ at. let one = count-get_elem? is_exclusive s.threads i at in ground arith,
      λ at. let one = count-get_elem? is_shared s.threads i at in ground arith,
    )

-- A thread that tries to take a lock that nobody has, and whose exchange does not fail without
-- reason, has it after at most two rounds of its loop, whatever it read before.
pub spinlock_take-free :
    (b cur : ℕ)
    → b < 2
    → let first = spinlock_take false b cur in
      (first.2 ≡ true) ⊎ ((spinlock_take false first.0 first.1).2 ≡ true)
unfolding spinlock_take
spinlock_take-free b cur hb =
    let again : bit_and b 1 ≡ b = bit_and-one b ∙ omega arith in ground arith
