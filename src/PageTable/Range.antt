-- ===== src/PageTable/Range.antt =====
-- `pt_map` against its specification: an address space as a function, with a range put into it.
use native.Mathlib.Nat.{
  one-le-pow, div-add-mod, mod-lt, div-eq_of_lt-le, mul_comm, mul-le-mul_left, add-mul, mul-suc,
}
use badger_os.Base.{
  ℕ, zero, suc, ◌+◌, ◌-◌, ◌*◌, ◌%◌, ◌/◌, ◌^◌, ◌≤◌, ◌<◌, ◌≡◌, refl, ◌∙◌, ap, sym, arith, ◌≢◌, ◌⊎◌,
  inl, inr,
}
use badger_os.Base.{
  Bool, true, false, ◌||◌, Option, none, some, length, ◌==◌, if◌then◌else◌, Bool-cases, ltb, ltb→lt,
}
use badger_os.Memory.{within}
use badger_os.Mmu.{Ptes}
use badger_os.Mmu.Flags.{mmu_pte_new_leaf-get_flags}
use badger_os.PageTable.{PhysMem, pt_calc_superpage, pt_map_1, pt_map}
use badger_os.PageTable.Owner.{Owner, WellFormed, Extends, prefix, view, frame}
use badger_os.PageTable.Attach.{Fresh}
use badger_os.PageTable.Levels.{Mapped}
use badger_os.PageTable.Map.{Splittable, pt_map_1-Mapped}
use badger_os.PageTable.Superpage.{pt_calc_superpage-largest}

-- The flags that an entry keeps.
abbrev pub kept : ℕ → ℕ
kept flags = flags % 8 + flags / 16 % 2 * 16 + flags / 32 % 2 * 32

-- An address space translates a page number to a page and flags.
abbrev pub AddressSpace : Type 0
AddressSpace = ℕ → Option (ℕ × ℕ)

abbrev pub map_range : AddressSpace → (vpn ppn pages flags : ℕ) → AddressSpace
map_range space vpn ppn pages flags v =
    if within vpn pages v then some (ppn + (v - vpn), kept flags) else space v

-- The page numbers of a page of `size` at an aligned `v`.
block-of :
    (size v v' : ℕ)
    → 0 < size
    → v % size ≡ 0
    → v' / size ≡ v / size
    → (v ≤ v') × (v' < v + size) × (v' % size ≡ v' - v)
block-of size v v' pos whole same =
    let a = div-add-mod v size in
    let b = div-add-mod v' size in
    let c = mod-lt v' pos in
    let d : size * (v' / size) ≡ size * (v / size) = ap (λ x. size * x) same in
    (omega arith, omega arith, omega arith)

block-in : (size v v' : ℕ) → 0 < size → v % size ≡ 0 → v ≤ v' → v' < v + size → v' / size ≡ v / size
block-in size v v' pos whole lo hi =
    let a = div-add-mod v size in
    let b = mul_comm size (v / size) in
    let c : (v / size + 1) * size ≡ v / size * size + size =
      add-mul (v / size) 1 size ∙ omega arith in
    div-eq_of_lt-le size (omega arith) (omega arith)

unmapped-Splittable :
    (m : Ptes) (l p v L : ℕ) → view m (suc l) p v ≡ none → Splittable m (suc l) p v L
unfolding view frame
unmapped-Splittable m l p v L h w walk found =
    let z = rw (view, walk) at h in let z' = rw (frame, found) at z in cc

pt_map-round :
    (svpbmt : Bool) (fuel p l vpn ppn more flags : ℕ) (top_edit : Bool) (s : PhysMem)
    {edited : Bool} {s1 : PhysMem}
    → let L = pt_calc_superpage l vpn ppn (suc more) in
      pt_map_1 svpbmt p l vpn ppn L flags s ≡ some (edited, s1)
      → pt_map svpbmt (suc fuel) p l vpn ppn (suc more) flags top_edit s
        ≡ pt_map svpbmt fuel p l
            (vpn + 2 ^ (9 * L))
            (ppn + 2 ^ (9 * L))
            (suc more - 2 ^ (9 * L))
            flags
            (top_edit || edited)
            s1
unfolding pt_map
pt_map-round svpbmt fuel p l vpn ppn more flags top_edit s h = rw (pt_map, h) refl

-- The tables after a mapping: well formed, with the address space as wanted.
pub record RangeMapped (owner : Owner) (s : PhysMem) (p l pre vpn ppn pages flags : ℕ)
    (s' : PhysMem) : Type 0 where
  pub owner' : Owner
  pub extends : Extends owner owner'
  pub wf : WellFormed owner' s'.ptes
  pub fresh : Fresh owner' s'.fresh
  pub enough : length s.fresh ≤ l * pages + length s'.fresh
  pub space :
      (v : ℕ)
      → prefix (suc l) v ≡ pre
      → view s'.ptes (suc l) p v ≡ map_range (view s.ptes (suc l) p) vpn ppn pages flags v

module _ (svpbmt : Bool) (flags l p pre : ℕ) (access : flags % 8 ≢ 0) where
  -- One page of `pt_map_1` and the rest of the range.
  round-space :
      (owner : Owner) (s s1 s' : PhysMem) (vpn ppn pages L : ℕ)
      → vpn % 2 ^ (9 * L) ≡ 0
      → prefix (suc l) vpn ≡ pre
      → 2 ^ (9 * L) ≤ pages
      → Mapped svpbmt owner s p (l - L) l vpn ppn L flags s1
      → ((v : ℕ)
          → prefix (suc l) v ≡ pre
          → view s'.ptes (suc l) p v
            ≡ map_range
                (view s1.ptes (suc l) p)
                (vpn + 2 ^ (9 * L))
                (ppn + 2 ^ (9 * L))
                (pages - 2 ^ (9 * L))
                flags
                v)
      → (v : ℕ) → prefix (suc l) v ≡ pre
      → view s'.ptes (suc l) p v ≡ map_range (view s.ptes (suc l) p) vpn ppn pages flags v
  round-space owner s s1 s' vpn ppn pages L whole top fits mapped later v in_table =
      let pos = one-le-pow (9 * L) 2 (omega arith) in
      elim (Bool-cases (prefix L v == prefix L vpn)) [
        | inl e ↦
            let same : prefix L v ≡ prefix L vpn = ground arith in
            let (lo, hi, off) = block-of (2 ^ (9 * L)) vpn v (omega arith) whole same in
            let here = mapped.hit v same in
            let flags_kept = mmu_pte_new_leaf-get_flags svpbmt ppn flags in
            let out : within (vpn + 2 ^ (9 * L)) (pages - 2 ^ (9 * L)) v ≡ false = ground arith in
            let inside : within vpn pages v ≡ true = ground arith in
            later v in_table ∙ simp (out, inside, here, off, flags_kept) refl
        | inr e ↦
            let ne : prefix L v ≢ prefix L vpn = λ z. ground arith in
            let here = mapped.miss v (in_table ∙ sym top) ne in
            let apart : (v < vpn) ⊎ (vpn + 2 ^ (9 * L) ≤ v) = elim (Bool-cases (ltb v vpn)) [
              | inl lt ↦ inl (ltb→lt v vpn lt)
              | inr ge ↦ elim (Bool-cases (ltb v (vpn + 2 ^ (9 * L)))) [
                | inl lt ↦
                    absurd
                      (ne (block-in (2 ^ (9 * L)) vpn v pos whole (ground arith) (ltb→lt v _ lt)))
                | inr ge' ↦ inr (ground arith)
              ]
            ] in
            elim apart [
              | inl lt ↦
                  let out : within (vpn + 2 ^ (9 * L)) (pages - 2 ^ (9 * L)) v ≡ false =
                    ground arith in
                  let out' : within vpn pages v ≡ false = ground arith in
                  later v in_table ∙ simp (out, out', here) refl
              | inr ge ↦
                  later v in_table
                  ∙ (let at : ppn + 2 ^ (9 * L) + (v - (vpn + 2 ^ (9 * L))) ≡ ppn + (v - vpn) =
                        omega arith in
                      let kept_in : within (vpn + 2 ^ (9 * L)) (pages - 2 ^ (9 * L)) v
                          ≡ within vpn pages v =
                        ground arith in
                      simp (kept_in, at, here) refl)
            ]
      ]

  nothing :
      (owner : Owner) (s : PhysMem) (vpn ppn : ℕ)
      → WellFormed owner s.ptes
      → Fresh owner s.fresh
      → RangeMapped owner s p l pre vpn ppn 0 flags s
  nothing owner s vpn ppn wf free = record {
    owner' = owner;
    extends = λ q k pr o. o;
    wf = wf;
    fresh = free;
    enough = omega arith;
    space = λ v in_table. let out : within vpn 0 v ≡ false = ground arith in simp (out) refl;
  }

  -- For well-formed tables with a root of level `l`, some right in the flags, a range of page numbers
  -- that the root covers and that is not mapped yet, physical pages below 2^44, fuel for each page and
  -- `l` fresh pages for each: `pt_map` returns, the tables stay well formed, and the address space that
  -- they stand for is the old one with the range put into it.
  pub pt_map-map_range :
      (fuel vpn ppn pages : ℕ) (owner : Owner) (s : PhysMem) (top_edit : Bool)
      → pages ≤ fuel
      → WellFormed owner s.ptes
      → Fresh owner s.fresh
      → l * pages ≤ length s.fresh
      → owner p ≡ some (l, pre)
      → pre * 2 ^ (9 * suc l) ≤ vpn
      → vpn + pages ≤ (pre + 1) * 2 ^ (9 * suc l)
      → ppn + pages ≤ 2 ^ 44
      → ((v : ℕ) → vpn ≤ v → v < vpn + pages → view s.ptes (suc l) p v ≡ none)
      → (edited : Bool) × (s' : PhysMem) × (pt_map svpbmt fuel p l vpn ppn pages flags top_edit s
          ≡ some (edited, s'))
        × RangeMapped owner s p l pre vpn ppn pages flags s'
  unfolding pt_map
  pt_map-map_range zero vpn ppn pages owner s top_edit fuel_ok wf free enough own lo hi ppn_ok
        unmapped =
      let none_left : pages ≡ 0 = omega arith in
      (top_edit, s, refl, rw none_left (nothing owner s vpn ppn wf free))
  pt_map-map_range (suc fuel) vpn ppn zero owner s top_edit fuel_ok wf free enough own lo hi ppn_ok
        unmapped =
      (top_edit, s, refl, nothing owner s vpn ppn wf free)
  pt_map-map_range (suc fuel) vpn ppn (suc more) owner s top_edit fuel_ok wf free enough own lo hi
        ppn_ok unmapped =
      let L = pt_calc_superpage l vpn ppn (suc more) in
      let (le, fits, largest) = pt_calc_superpage-largest l vpn ppn (suc more) (omega arith) in
      let (whole, aligned, short) = fits in
      let pos : 0 < 2 ^ (9 * L) = one-le-pow (9 * L) 2 (omega arith) in
      let top : prefix (suc l) vpn ≡ pre = div-eq_of_lt-le (2 ^ (9 * suc l)) lo (omega arith) in
      let all = mul-suc l more in
      let (edited, s1, run, mapped) =
        pt_map_1-Mapped svpbmt vpn ppn L flags (omega arith) aligned access l p owner s le wf free
          (omega arith) (own ∙ rw top refl)
          (unmapped-Splittable s.ptes l p vpn L (unmapped vpn (omega arith) (omega arith))) in
      let fewer = mul-le-mul_left {m = suc more - 2 ^ (9 * L)} {n = more} l (omega arith) in
      let still : (v : ℕ)
          → vpn + 2 ^ (9 * L) ≤ v
          → v < vpn + 2 ^ (9 * L) + (suc more - 2 ^ (9 * L))
          → view s1.ptes (suc l) p v ≡ none =
        λ v from to.
          let in_table : prefix (suc l) v ≡ prefix (suc l) vpn =
            div-eq_of_lt-le (2 ^ (9 * suc l)) (omega arith) (omega arith) ∙ sym top in
          mapped.miss v in_table
            (λ same. let (_, below, _) = block-of (2 ^ (9 * L)) vpn v pos whole same in omega arith)
          ∙ unmapped v (omega arith) (omega arith) in
      let (edited', s', rest, range) =
        pt_map-map_range fuel (vpn + 2 ^ (9 * L)) (ppn + 2 ^ (9 * L)) (suc more - 2 ^ (9 * L))
          mapped.owner' s1 (top_edit || edited) (omega arith) mapped.wf mapped.fresh
          (omega (arith, mapped.enough)) (mapped.extends p l pre own) (omega arith) (omega arith)
          (omega arith) still in
      (
        edited',
        s',
        pt_map-round svpbmt fuel p l vpn ppn more flags top_edit s run ∙ rest,
        record {
          owner' = range.owner';
          extends = λ q k pr o. range.extends q k pr (mapped.extends q k pr o);
          wf = range.wf;
          fresh = range.fresh;
          enough = omega (arith, mapped.enough, range.enough);
          space = round-space owner s s1 s' vpn ppn (suc more) L whole top short mapped range.space;
        },
      )
