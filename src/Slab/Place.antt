-- ===== src/Slab/Place.antt =====
-- The page between two lists: `place_page`, and the lists from which the page is taken.
use badger_os.Base.{ℕ, ◌+◌, ◌-◌, ◌<◌, ◌≡◌, ◌≢◌, ◌⊎◌, inl, inr, refl, ◌∙◌, ap, sym, arith}
use badger_os.Base.{
  true, false, Bool-cases, Option-cases, none, some, List, [], ◌∷◌, ◌==◌, ltb, ◌&&◌,
}
use badger_os.Buddy.{Pool, assign}
use badger_os.Buddy.Pools.{buddy_deallocate}
use badger_os.Slab.{
  Slabs, SlabHeader, set_header, lower_use, place_page, list_remove, list_push_back,
}
use badger_os.Slab.Settle.{one_less, without, moved, List-cases, assign-assign, assign_at}

pub place_page-stays :
    (page size level : ℕ) (s : Slabs)
    → (0 < level) ⊎ (s.lists size level ≡ [])
    → place_page page size level s ≡ some (list_push_back size level page s)
unfolding place_page
place_page-stays page size level s (inl more) =
    let high : ltb 0 level ≡ true = ground arith in simp high refl
place_page-stays page size level s (inr empty) = elim (Bool-cases (ltb 0 level)) [
  | inl high ↦ simp high refl
  | inr low ↦ simp (low, empty) refl
]

pub place_page-given :
    (page size level : ℕ) (s : Slabs)
    → level ≡ 0
    → s.lists size level ≢ []
    → ((pools : List Pool) × (buddy_deallocate page s.pools ≡ some pools)
        × (place_page page size level s ≡ some (record s { pools = pools })))
      ⊎ ((buddy_deallocate page s.pools ≡ none) × (place_page page size level s ≡ none))
unfolding place_page
place_page-given page size level s last more =
    let low : ltb 0 level ≡ false = ground arith in
    elim (List-cases (s.lists size level)) [
      | inl empty ↦ absurd (more empty)
      | inr (x, ys, e) ↦ elim (Option-cases (buddy_deallocate page s.pools)) [
        | inl panic ↦ inr (panic, simp (low, e, panic) refl)
        | inr (pools, done) ↦ inl (pools, done, simp (low, e, done) refl)
      ]
    ]

-- The state in which `lower_use` places the page.
abbrev pub lowered : (page : ℕ) → Slabs → Slabs
lowered page s =
    let h = s.header page in
    list_remove h.size h.slab_use page (set_header page (record h { slab_use = h.slab_use - 1 }) s)

lowered-lists :
    (page : ℕ) (s : Slabs) (size level : ℕ)
    → (lowered page s).lists size level ≡ without s page size level
unfolding list_remove
lowered-lists page s size level = ground arith

-- The state with one slot in use less.
abbrev pub counted : (page : ℕ) → Slabs → Slabs
counted page s = set_header page (one_less (s.header page)) s

pub lowered-counted :
    (page : ℕ) (s : Slabs)
    → let h = s.header page in
      (lowered page (counted page s)).header
      ≡ assign s.header page (record (one_less h) { slab_use = h.slab_use - 1 })
unfolding list_remove
lowered-counted page s =
    let less = one_less (s.header page) in
    let at : assign s.header page less page ≡ less = assign_at s.header page less in
    ap
      (λ (h : SlabHeader).
        assign (assign s.header page less) page (record h { slab_use = h.slab_use - 1 }))
      at
    ∙ assign-assign s.header page less (record less { slab_use = less.slab_use - 1 })

without-counted :
    (page : ℕ) (s : Slabs) (size level : ℕ)
    → without (counted page s) page size level ≡ without s page size level
without-counted page s size level = let own : (page == page) ≡ true = ground arith in rw own refl

pub counted-lists :
    (page : ℕ) (s : Slabs) (size level : ℕ)
    → (lowered page (counted page s)).lists size level ≡ without s page size level
counted-lists page s size level =
    lowered-lists page (counted page s) size level ∙ without-counted page s size level

-- The list that the page goes to is not the one that it comes from.
pub next-lists :
    (page : ℕ) (s : Slabs)
    → let h = s.header page in
      0 < h.slab_use
      → (lowered page (counted page s)).lists h.size (h.slab_use - 1)
        ≡ s.lists h.size (h.slab_use - 1)
next-lists page s used =
    let h = s.header page in
    let own : (h.size == h.size) ≡ true = ground arith in
    let below : (h.slab_use - 1 == h.slab_use) ≡ false = ground arith in
    counted-lists page s h.size (h.slab_use - 1) ∙ rw (own, below) refl

pub pushed-moved :
    (page : ℕ) (s : Slabs) (size level : ℕ)
    → let h = s.header page in
      0 < h.slab_use
      → (list_push_back h.size (h.slab_use - 1) page (lowered page (counted page s))).lists size
          level
        ≡ moved s page size level
unfolding list_push_back
pushed-moved page s size level used =
    let h = s.header page in
    let kept = counted-lists page s size level in
    let next = next-lists page s used in
    elim (Bool-cases ((size == h.size) && (level + 1 == h.slab_use))) [
      | inl there ↦
          let is_size : size ≡ h.size = ground arith in
          let is_level : level ≡ h.slab_use - 1 = ground arith in
          let same : s.lists size level ≡ s.lists h.size (h.slab_use - 1) =
            ap (λ z. s.lists z level) is_size ∙ ap (s.lists h.size) is_level in
          let at_size : (size == h.size) ≡ true = ground arith in
          let at_level : (level == h.slab_use - 1) ≡ true = ground arith in
          rw (there, at_size, at_level) (ap (λ l. page ∷ l) (next ∙ sym same))
      | inr other ↦ elim (Bool-cases (size == h.size)) [
        | inl at_size ↦
            let away : (level == h.slab_use - 1) ≡ false = ground arith in
            rw (other, at_size, away) (rw at_size at kept)
        | inr away ↦ rw (other, away) (rw away at kept)
      ]
    ]

pub lower_use-placed :
    (page : ℕ) (s : Slabs)
    → let h = s.header page in
      lower_use page (counted page s)
      ≡ place_page page h.size (h.slab_use - 1) (lowered page (counted page s))
unfolding lower_use
lower_use-placed page s =
    let less = one_less (s.header page) in
    ap (λ k. place_page page k.size (k.slab_use - 1) (lowered page (counted page s)))
      (assign_at s.header page less)
