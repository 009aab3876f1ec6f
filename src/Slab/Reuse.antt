-- ===== src/Slab/Reuse.antt =====
-- `slab_deallocate` after the loop of `slab_allocate`.
use badger_os.Base.{
  ℕ, ◌+◌, ◌*◌, ◌/◌, ◌%◌, ◌^◌, ◌≤◌, ◌<◌, ◌≡◌, ◌≢◌, refl, sym, ap, ◌∙◌, inl, inr, arith,
}
use badger_os.Base.{true, false, ◌==◌}
use mathlib.Core.Path.{subst}
use badger_os.Bitops.{find_first_trailing_set_bit32}
use badger_os.Bitops.First.{find_first_trailing_set_bit32_lem}
use badger_os.Buddy.{assign}
use badger_os.Slab.{
  Slabs, SlabHeader, slab_bytes, slab_empty, bitmap_clear_bit, bitmap_set_bit, take_slot,
  slot_address, slot_of, slab_deallocate, slab_get_size,
}
use badger_os.Slab.Settle.{one_less, settle, IsSettled, assign-assign, assign_self, assign_at}
use badger_os.Slab.Lower.{settle-IsSettled}
use badger_os.Slab.Slots.{set-clear, slot-lt, slab_empty-lt, IsSlot, address-IsSlot, first_word_lem}

-- Giving back the slot `k` of the word `i` of a page whose header is `h`.
slab_deallocate-slot :
    (t : Slabs) (h : SlabHeader) (page i k address : ℕ)
    → t.header page ≡ h
    → IsSlot h.size page (i * 32 + k) address
    → k < 32
    → bitmap_set_bit (h.bitmap i) k ≢ h.bitmap i
    → 0 < h.slab_use
    → slab_deallocate address t
      ≡ settle page
          (record h {
            use_count = (h.use_count + 255) % 256;
            bitmap = assign h.bitmap i (bitmap_set_bit (h.bitmap i) k);
          })
          t
unfolding slab_deallocate
slab_deallocate-slot t h page i k address header at hk ne used =
    let word : (i * 32 + k) / 32 ≡ i = omega arith in
    let digit : (i * 32 + k) % 32 ≡ k = omega arith in
    let changed : (h.bitmap i == bitmap_set_bit (h.bitmap i) k) ≡ false = ground arith in
    let some_use : (h.slab_use == 0) ≡ false = ground arith in
    rw
      (
        slab_deallocate, at.some_address, at.page_of, header, at.slot_of_address, word, digit,
        changed, some_use,
      )
      refl

-- A slot that is given back after it was taken leaves everything but the count of its page.
slab_deallocate-take_slot :
    (s : Slabs) (page i k address : ℕ)
    → IsSlot (s.header page).size page (i * 32 + k) address
    → k < 32
    → bitmap_set_bit (bitmap_clear_bit ((s.header page).bitmap i) k) k ≡ (s.header page).bitmap i
    → bitmap_clear_bit ((s.header page).bitmap i) k ≢ (s.header page).bitmap i
    → 0 < (s.header page).slab_use
    → slab_deallocate address (take_slot page i k s) ≡ settle page (one_less (s.header page)) s
unfolding take_slot
slab_deallocate-take_slot s page i k address at hk back ne used =
    let h = s.header page in
    let c = bitmap_clear_bit (h.bitmap i) k in
    let taken : SlabHeader = record h { bitmap = assign h.bitmap i c } in
    let now : assign h.bitmap i c i ≡ c = assign_at h.bitmap i c in
    let put : bitmap_set_bit (taken.bitmap i) k ≡ h.bitmap i =
      ap (λ w. bitmap_set_bit w k) now ∙ back in
    let bits : assign taken.bitmap i (bitmap_set_bit (taken.bitmap i) k) ≡ h.bitmap =
      ap (assign taken.bitmap i) put
      ∙ assign-assign h.bitmap i c (h.bitmap i)
      ∙ assign_self h.bitmap i in
    let e =
      slab_deallocate-slot (take_slot page i k s) taken page i k address
        (assign_at s.header page taken) at hk (λ same. ne (sym now ∙ sym same ∙ put)) used in
    let restored : SlabHeader = one_less h in
    let header : assign (assign s.header page taken) page restored ≡ assign s.header page restored =
      assign-assign s.header page taken restored in
    e ∙ rw bits (rw header refl)

slab_get_size-slot :
    (s : Slabs) (page i k address : ℕ)
    → IsSlot (s.header page).size page (i * 32 + k) address
    → slab_get_size address (take_slot page i k s) ≡ slab_bytes (s.header page).size
unfolding slab_get_size take_slot
slab_get_size-slot s page i k address at =
    let own : (page == page) ≡ true = ground arith in
    rw (slab_get_size, at.some_address, at.page_of, own) refl

-- In a slab page of one of the four sizes and of one of the uses 1 to 4, with a count of slots in use
-- from 1 to 255, whose bitmap has a free slot and none behind the last: the loop of an allocation
-- finds a slot that lies in the page behind the header, and its size is read back as that of the
-- page. Giving the slot back leaves the bitmap as it was before the slot was taken, and the count
-- one less. The page stays where it is where this count is above the most that the next emptier
-- use holds: none, as many as a quarter or a half of 4096 bytes have, or all behind the header. Else
-- it goes to the front of the list of that use; but where that is the list of the empty pages and
-- there is a page in it, the page leaves the lists and goes back to the pools, with a panic where
-- they do not take it. Without a panic no other page, list or pool changes.
pub slab_deallocate-slot_of :
    (s : Slabs) (page j : ℕ)
    → (s.header page).size < 4
    → page % 4096 ≡ 0
    → ((i : ℕ) → (s.header page).bitmap i ≤ slab_empty (s.header page).size i)
    → j < 4
    → (s.header page).bitmap j ≢ 0
    → 0 < (s.header page).slab_use
    → (s.header page).slab_use ≤ 4
    → 0 < (s.header page).use_count
    → (s.header page).use_count < 256
    → let h = s.header page in
      let (address, taken) = slot_of h.size page s in
      (page + 64 ≤ address)
      × (address + slab_bytes h.size ≤ page + 4096)
      × (slab_get_size address taken ≡ slab_bytes h.size)
      × IsSettled s page (slab_deallocate address taken)
unfolding slot_of slot_address
slab_deallocate-slot_of s page j sized aligned bounded hj some_slot used at_most counted byte =
    let h = s.header page in
    elim (first_word_lem h.bitmap 4 0) [
      | inl (_, none_left) ↦ absurd (some_slot (none_left j (omega arith) (omega arith)))
      | inr (i, e, hi, ne) ↦
          let w = h.bitmap i in
          let small : w < 2 ^ 32 = omega (arith, slab_empty-lt h.size i, bounded i) in
          let (hk, (low, digit)) = find_first_trailing_set_bit32_lem w (ground arith) small in
          let k = find_first_trailing_set_bit32 w in
          let (back, changed, in_word) = set-clear w k small hk digit in
          let fits = slot-lt h.size i k sized hi (omega (arith, bounded i)) in
          let at : IsSlot h.size page (i * 32 + k) (slot_address h.size page i k) =
            address-IsSlot h.size page (i * 32 + k) aligned fits in
          rw (slot_of, e)
            (
              at.above,
              at.below,
              slab_get_size-slot s page i k (slot_address h.size page i k) at,
              subst (IsSettled s page)
                  (sym (
                    slab_deallocate-take_slot s page i k (slot_address h.size page i k) at hk back
                      changed used))
                  (settle-IsSettled page s sized used at_most counted byte),
            )
    ]
