-- ===== src/Slab/Lower.antt =====
-- Where the end of `slab_deallocate` puts the page.
use badger_os.Base.{ℕ, ◌+◌, ◌-◌, ◌%◌, ◌≤◌, ◌<◌, ◌≡◌, ◌≢◌, ◌⊎◌, inl, inr, refl, ◌∙◌, ap, sym, arith}
use badger_os.Base.{Bool-cases, none, some, [], leb, dec_lt}
use badger_os.Buddy.{assign}
use badger_os.Buddy.Pools.{buddy_deallocate}
use badger_os.Slab.{Slabs, slab_tresholds, lower_use, list_remove, list_push_back}
use badger_os.Slab.Settle.{
  one_less, settle, most_used, tresholds-most, IsLess, without, moved, IsSettled, List-cases,
  set_header-IsLess,
}
use badger_os.Slab.Place.{
  place_page-stays, place_page-given, lowered, counted, lowered-counted, counted-lists, next-lists,
  pushed-moved, lower_use-placed,
}

lower_use-stays :
    (page : ℕ) (s : Slabs)
    → let h = s.header page in
      0 < h.slab_use
      → 0 < h.use_count
      → h.use_count < 256
      → (1 < h.slab_use) ⊎ (s.lists h.size 0 ≡ [])
      → (s' : Slabs) × (lower_use page (counted page s) ≡ some s')
        × IsLess s s' page (h.slab_use - 1)
        × ((size level : ℕ) → s'.lists size level ≡ moved s page size level)
        × (s'.pools ≡ s.pools)
unfolding list_push_back list_remove
lower_use-stays page s used some_slot byte stays =
    let h = s.header page in
    let s1 = lowered page (counted page s) in
    let free : (0 < h.slab_use - 1) ⊎ (s1.lists h.size (h.slab_use - 1) ≡ []) =
      elim (dec_lt 1 h.slab_use) [
        | yes more ↦ inl (omega arith)
        | no last ↦
            let next : h.slab_use - 1 ≡ 0 = omega arith in
            elim stays [
              | inl more ↦ absurd (last more)
              | inr empty ↦ inr (next-lists page s used ∙ ap (s.lists h.size) next ∙ empty)
            ]
      ] in
    let s' = list_push_back h.size (h.slab_use - 1) page s1 in
    (
      s',
      lower_use-placed page s ∙ place_page-stays page h.size (h.slab_use - 1) s1 free,
      set_header-IsLess s s' page (h.slab_use - 1) ((h.use_count + 255) % 256) (omega arith)
          (lowered-counted page s),
      λ size level. pushed-moved page s size level used,
      refl,
    )

lower_use-leaves :
    (page : ℕ) (s : Slabs)
    → let h = s.header page in
      h.slab_use ≡ 1
      → 0 < h.use_count
      → h.use_count < 256
      → s.lists h.size 0 ≢ []
      → ((s' : Slabs) × (lower_use page (counted page s) ≡ some s')
          × IsLess s s' page 0
          × ((size level : ℕ) → s'.lists size level ≡ without s page size level)
          × (buddy_deallocate page s.pools ≡ some s'.pools))
        ⊎ ((buddy_deallocate page s.pools ≡ none) × (lower_use page (counted page s) ≡ none))
unfolding list_remove
lower_use-leaves page s one some_slot byte more =
    let h = s.header page in
    let s1 = lowered page (counted page s) in
    let next : h.slab_use - 1 ≡ 0 = omega arith in
    let full : s1.lists h.size (h.slab_use - 1) ≢ [] =
      λ e. more (ap (s.lists h.size) (sym next) ∙ sym (next-lists page s (omega arith)) ∙ e) in
    elim (place_page-given page h.size (h.slab_use - 1) s1 next full) [
      | inl (pools, done, placed) ↦
          let s' : Slabs = record s1 { pools = pools } in
          inl (
            s',
            lower_use-placed page s ∙ placed,
            set_header-IsLess s s' page 0 ((h.use_count + 255) % 256) (omega arith) (
                lowered-counted page s
                ∙ ap (λ (u : ℕ). assign s.header page (record (one_less h) { slab_use = u })) next),
            counted-lists page s,
            done,
          )
      | inr (panic, placed) ↦ inr (panic, lower_use-placed page s ∙ placed)
    ]

lower_use-IsSettled :
    (page : ℕ) (s : Slabs)
    → let h = s.header page in
      0 < h.slab_use
      → 0 < h.use_count
      → h.use_count < 256
      → h.use_count ≤ most_used h.size (h.slab_use - 1) + 1
      → IsSettled s page (lower_use page (counted page s))
unfolding IsSettled
lower_use-IsSettled page s used some_slot byte fits =
    let h = s.header page in
    let stays : (1 < h.slab_use) ⊎ (s.lists h.size 0 ≡ [])
        → IsSettled s page (lower_use page (counted page s)) =
      λ why.
        let (s', e, less, lists, pools) = lower_use-stays page s used some_slot byte why in
        inr (inl (fits, why, s', e, less, lists, pools)) in
    elim (dec_lt 1 h.slab_use) [
      | yes more ↦ stays (inl more)
      | no last ↦ elim (List-cases (s.lists h.size 0)) [
        | inl empty ↦ stays (inr empty)
        | inr (x, ys, e) ↦
            let more : s.lists h.size 0 ≢ [] = λ empty. cc in
            let one : h.slab_use ≡ 1 = omega arith in
            elim (lower_use-leaves page s one some_slot byte more) [
              | inl (s', e', less, lists, pools) ↦
                  inr (inr (inl (fits, one, more, s', e', less, lists, pools)))
              | inr (panic, e') ↦ inr (inr (inr (fits, one, more, panic, e')))
            ]
      ]
    ]

-- The outcome for the page, from its use and from how many slots are in use.
pub settle-IsSettled :
    (page : ℕ) (s : Slabs)
    → let h = s.header page in
      h.size < 4
      → 0 < h.slab_use
      → h.slab_use ≤ 4
      → 0 < h.use_count
      → h.use_count < 256
      → IsSettled s page (settle page (one_less h) s)
unfolding IsSettled
settle-IsSettled page s sized used at_most some_slot byte =
    let h = s.header page in
    let count = (h.use_count + 255) % 256 in
    let less : count + 1 ≡ h.use_count = omega arith in
    let most = tresholds-most h.size (h.slab_use - 1) sized (omega arith) in
    elim (Bool-cases (leb count (slab_tresholds h.size (h.slab_use - 1)))) [
      | inr many ↦ inl (
        ground arith,
        counted page s,
        rw many refl,
        set_header-IsLess s (counted page s) page h.slab_use count less refl,
        refl,
        refl,
      )
      | inl few ↦
          let fits : h.use_count ≤ most_used h.size (h.slab_use - 1) + 1 = ground arith in
          rw few (lower_use-IsSettled page s used some_slot byte fits)
    ]
