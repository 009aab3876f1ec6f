-- ===== src/Vmm/GiveBack.antt =====
-- The part of `memprotect_free_vaddr` that puts a range back among the free ones.
use badger_os.Base.{
  ℕ, suc, ◌+◌, ◌-◌, ◌≤◌, ◌<◌, ◌≡◌, ◌≢◌, refl, ◌∙◌, ap, sym, arith, true, false, not, ◌&&◌, ◌||◌,
  some,
}
use badger_os.Base.{
  List, ◌∷◌, ◌++◌, ◌==◌, Bool-cases, inl, inr, length, get_elem?, get_or, set, take, drop, ltb,
  ltb→lt, length-set,
}
use badger_os.Memory.{within}
use badger_os.Vmm.{VmmInfo, VmmArray, give_back}
use badger_os.Vmm.Ranges.{
  covers, Spaced, without, covers-insert, covers-without, Spaced-without, get-covers, or_comm,
}
use badger_os.Vmm.Edit.{
  get_or-some, get_or-behind, get-pages, get_elem?-lt, end_of, Behind, covers-set, Spaced-set,
  Spaced-insert, Spaced-next, set-without, get-without_before, get-without_behind,
}

-- The free ranges with one more.
abbrev pub Given : (free : List VmmInfo) → VmmInfo → (free' : List VmmInfo) → Type 0
Given free range free' =
    Spaced 0 free' × ((p : ℕ) → covers free' p ≡ covers free p || within range.vpn range.pages p)

module _ (range : VmmInfo) (free : List VmmInfo) (index : ℕ) (sp : Spaced 0 free)
    (some_pages : 0 < range.pages)
    (apart : (p : ℕ) → within range.vpn range.pages p ≡ true → covers free p ≡ false)
    (before : (j : ℕ) (w : VmmInfo) → get_elem? free j ≡ some w → j < index → w.vpn < range.vpn)
    (after : (j : ℕ) (w : VmmInfo)
      → get_elem? free j ≡ some w
      → index ≤ j
      → range.vpn < w.vpn) where
  left-apart : (j : ℕ) (w : VmmInfo) → get_elem? free j ≡ some w → j < index → end_of w ≤ range.vpn
  left-apart j w h lt = elim (Bool-cases (ltb range.vpn (end_of w))) [
    | inl over ↦
        let lower = before j w h lt in
        let covered = get-covers free j range.vpn {x = w} h (ground arith) in
        let free_page = apart range.vpn (ground arith) in cc
    | inr clear ↦ ground arith
  ]

  right-apart : (j : ℕ) (w : VmmInfo) → get_elem? free j ≡ some w → index ≤ j → end_of range ≤ w.vpn
  right-apart j w h le = elim (Bool-cases (ltb w.vpn (end_of range))) [
    | inl over ↦
        let higher = after j w h le in
        let pages = get-pages free 0 j {x = w} sp h in
        let covered = get-covers free j w.vpn {x = w} h (ground arith) in
        let free_page = apart w.vpn (ground arith) in cc
    | inr clear ↦ ground arith
  ]

  pub inserted-Given :
      index ≤ length free → Given free range (take index free ++ (range ∷ drop index free))
  inserted-Given le = (
    Spaced-insert free 0 index range le sp some_pages
        (λ e. omega arith, λ j w e h. left-apart j w h (omega arith))
        (λ z h. right-apart index z h (omega arith)),
    λ p.
        covers-insert free range index p ∙ or_comm (within range.vpn range.pages p) (covers free p),
  )

  right-Given :
      (right : VmmInfo)
      → get_elem? free index ≡ some right
      → end_of range ≡ right.vpn
      → Given free range (
          set free index
            (record { vpn = range.vpn; pages = right.pages + (right.vpn - range.vpn) }))
  right-Given right h meets =
      let y : VmmInfo = record { vpn = range.vpn; pages = right.pages + (right.vpn - range.vpn) } in
      let pages = get-pages free 0 index {x = right} sp h in
      (
        Spaced-set free 0 index y {x = right} sp h (omega arith)
            (λ e. omega arith, λ j w e g. left-apart j w g (omega arith))
            (λ z g. let next = Spaced-next free 0 index {x = right} {z = z} sp h g in omega arith),
        λ p.
            covers-set free index y p (within range.vpn range.pages p) {x = right} h (ground arith),
      )

  module _ (k : ℕ) (left : VmmInfo) (at : suc k ≡ index) (h : get_elem? free k ≡ some left)
      (meets : end_of left ≡ range.vpn) where
    left-Behind : (y : VmmInfo) → y.vpn ≡ left.vpn → Behind free 0 k y
    left-Behind y e = (
      λ z. omega arith,
      λ j w last g.
          let here : get_elem? free (suc j) ≡ some left = rw last h in
          let next = Spaced-next free 0 j {x = w} {z = left} sp g here in omega arith,
    )

    left-Given : Given free range (set free k (record left { pages = end_of range - left.vpn }))
    left-Given =
        let y : VmmInfo = record left { pages = end_of range - left.vpn } in
        (
          Spaced-set free 0 k y {x = left} sp h (omega arith) (left-Behind y refl)
              (λ z g. let next = right-apart (suc k) z g (omega arith) in omega arith),
          λ p. covers-set free k y p (within range.vpn range.pages p) {x = left} h (ground arith),
        )

    both-Given :
        (right : VmmInfo)
        → get_elem? free index ≡ some right
        → end_of range ≡ right.vpn
        → Given free range
            (without (set free k (record left { pages = end_of right - left.vpn })) index)
    both-Given right g meets' =
        let y : VmmInfo = record left { pages = end_of right - left.vpn } in
        let gone = without free (suc k) in
        let g' : get_elem? free (suc k) ≡ some right = rw at g in
        let in_list = get_elem?-lt free (suc k) {x = right} g' in
        let right_pages = get-pages free 0 (suc k) {x = right} sp g' in
        let still : get_elem? gone k ≡ some left =
          get-without_before free (suc k) k (omega arith) ∙ h in
        let sp' = Spaced-without free 0 (suc k) in_list sp in
        let same : without (set free k y) index ≡ set gone k y = rw (← at) (set-without free k y) in
        rw same (
          Spaced-set gone 0 k y {x = left} sp' still (omega arith)
              (
                λ z. omega arith,
                λ j w last e.
                    let kept = sym (get-without_before free (suc k) j (omega arith)) ∙ e in
                    (left-Behind y refl).1 j w last kept,
              )
              (λ z e.
                let kept =
                  sym (get-without_behind free (suc k) (suc k) (omega arith) in_list) ∙ e in
                let next = Spaced-next free 0 (suc k) {x = right} {z = z} sp g' kept in
                omega arith),
          λ p.
              let add =
                covers-set gone k y p
                  (within range.vpn range.pages p || within right.vpn right.pages p) {x = left}
                  still (ground arith) in
              let cut = covers-without free 0 (suc k) p {x = right} sp g' in
              let had = get-covers free (suc k) p {x = right} g' in add ∙ rw cut (ground arith),
        )

module _ (array : VmmArray) where
  open array use {
    array_lencap_remove, array_lencap_insert, array_lencap_remove_lem, array_lencap_insert_lem,
  }

  pub give_back-Given :
      (beyond range : VmmInfo) (free : List VmmInfo) (index : ℕ)
      → Spaced 0 free
      → 0 < range.pages
      → ((p : ℕ) → within range.vpn range.pages p ≡ true → covers free p ≡ false)
      → index ≤ length free
      → ((j : ℕ) (w : VmmInfo) → get_elem? free j ≡ some w → j < index → w.vpn < range.vpn)
      → ((j : ℕ) (w : VmmInfo) → get_elem? free j ≡ some w → index ≤ j → range.vpn < w.vpn)
      → end_of range ≢ beyond.vpn
      → ((ys : List VmmInfo) × (array_lencap_insert free range index ≡ some ys))
      → (free' : List VmmInfo) × (give_back array beyond range index free ≡ some free')
        × Given free range free'
  unfolding give_back
  give_back-Given beyond range free index sp pages apart le before after stale (ys, inserted) =
      let left = get_or free (index - 1) beyond in
      let right = get_or free index beyond in
      let right_at : range.vpn + range.pages ≡ right.vpn → get_elem? free index ≡ some right = λ e.
        elim (Bool-cases (ltb index (length free))) [
          | inl lt ↦ get_or-some free index beyond (ltb→lt index (length free) lt)
          | inr ge ↦
              let same = get_or-behind free index beyond (ground arith) in
              absurd (stale (e ∙ ap (λ x. x.vpn) same))
        ] in
      elim (Bool-cases (not (index == 0) && (left.vpn + left.pages == range.vpn))) [
        | inl ml ↦
            let at : suc (index - 1) ≡ index = ground arith in
            let h = get_or-some free (index - 1) beyond (omega arith) in
            let meets : end_of left ≡ range.vpn = ground arith in
            elim (Bool-cases (range.vpn + range.pages == right.vpn)) [
              | inl mr ↦
                  let meets' : end_of range ≡ right.vpn = ground arith in
                  let g = right_at meets' in
                  let wide : VmmInfo = record left { pages = right.vpn + right.pages - left.vpn } in
                  let in_list = get_elem?-lt free index {x = right} g in
                  let len = length-set free (index - 1) wide in
                  let next : index + 1 ≡ suc index = omega arith in
                  let removed : array_lencap_remove (set free (index - 1) wide) index
                      ≡ without (set free (index - 1) wide) index =
                    array_lencap_remove_lem (set free (index - 1) wide) index (omega arith)
                    ∙ rw next refl in
                  (
                    array_lencap_remove (set free (index - 1) wide) index,
                    rw (give_back, ml, mr) refl,
                    rw removed (
                        both-Given range free index sp pages apart before after (index - 1) left at
                          h meets right g meets'),
                  )
              | inr mr ↦ (
                _,
                rw (give_back, ml, mr) refl,
                left-Given range free index sp pages apart before after (index - 1) left at h meets,
              )
            ]
        | inr ml ↦ elim (Bool-cases (range.vpn + range.pages == right.vpn)) [
          | inl mr ↦
              let meets : end_of range ≡ right.vpn = ground arith in
              (
                _,
                rw (give_back, ml, mr) refl,
                right-Given range free index sp pages apart before after right (right_at meets)
                    meets,
              )
          | inr mr ↦ (
            ys,
            rw (give_back, ml, mr) inserted,
            rw (array_lencap_insert_lem free range index {ys = ys} le inserted)
                (inserted-Given range free index sp pages apart before after le),
          )
        ]
      ]
