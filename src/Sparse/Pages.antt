-- ===== src/Sparse/Pages.antt =====
-- The paged sparse array of lib/rtecs/include/rtecs/sparse/set/SparseSet.hpp: from an ID to a slot.
use rtype.Base.{
  ℕ, ◌+◌, ◌-◌, ◌/◌, ◌%◌, ◌≤◌, ◌<◌, ◌≡◌, refl, sym, ◌∙◌, inl, inr, List, [], ◌++◌, Option, none,
  some, ◌==◌, leb, length, set, get_or, replicate, All, All-append, get_or-set, get_or_beyond,
  get_or-append, get_or-replicate, All-get_or, All-set, All-replicate, length-append,
  length-replicate, length-set, leb→le, Bool-cases, if◌then◌else◌, arith,
}

-- `kPageSize`
abbrev pub page_size : ℕ
page_size = 2048

abbrev pub Pages : Type 0
Pages = List (List (Option ℕ))

unfoldable pub empty_page : List (Option ℕ)
empty_page = replicate page_size none

-- `_sparsePages[page][sparseIndex]`, nothing where the page is missing.
unfoldable pub slot : Pages → ℕ → Option ℕ
slot pages id =
    if leb (length pages) (id / page_size)
    then none
    else get_or (get_or pages (id / page_size) []) (id % page_size) none

-- The pages up to that of an ID.
unfoldable pub grow : Pages → ℕ → Pages
grow pages id =
    if leb (length pages) (id / page_size)
    then set (pages ++ replicate (id / page_size + 1 - length pages) empty_page) (id / page_size)
        empty_page
    else pages

unfoldable pub set_slot : Pages → ℕ → Option ℕ → Pages
set_slot pages id v =
    set pages (id / page_size) (set (get_or pages (id / page_size) []) (id % page_size) v)

abbrev pub IsPages : Pages → Type 0
IsPages pages = All (λ page. length page ≡ page_size) pages

-- The test for a missing page is not needed in the model.
pub slot-eq :
    (pages : Pages) (id : ℕ)
    → slot pages id ≡ get_or (get_or pages (id / page_size) []) (id % page_size) none
unfolding slot
slot-eq pages id = elim (Bool-cases (leb (length pages) (id / page_size))) [
  | inl beyond ↦ rw (beyond, slot, get_or_beyond pages (id / page_size) [] (leb→le _ _ beyond)) refl
  | inr there ↦ rw (there, slot) refl
]

get_or-empty_page : (i : ℕ) → get_or empty_page i none ≡ none
unfolding empty_page
get_or-empty_page i = get_or-replicate page_size i none none ∙ ground arith

length-empty_page : length empty_page ≡ page_size
unfolding empty_page
length-empty_page = length-replicate {A = Option ℕ} page_size none

pub slot-set_slot :
    (pages : Pages) (id j : ℕ) (v : Option ℕ)
    → IsPages pages
    → id / page_size < length pages
    → slot (set_slot pages id v) j ≡ (if id == j then v else slot pages j)
unfolding set_slot
slot-set_slot pages id j v full there =
    let p = id / page_size in
    let old = get_or pages p [] in
    rw
      (
        slot-eq (set pages p (set old (id % page_size) v)) j,
        slot-eq pages j,
        get_or-set pages p (j / page_size) (set old (id % page_size) v) [],
      )
      (elim (Bool-cases (p == j / page_size)) [
        | inl same ↦
            let e : p ≡ j / page_size = ground arith in
            let size : length old ≡ page_size =
              All-get_or (λ page. length page ≡ page_size) pages p [] full there in
            rw (← e) (ground (arith, get_or-set old (id % page_size) (j % page_size) v none, size))
        | inr other ↦ ground arith
      ])

slot-grown :
    (pages : Pages) (j p n : ℕ)
    → length pages ≤ p
    → n ≡ p + 1 - length pages
    → slot (set (pages ++ replicate n empty_page) p empty_page) j ≡ slot pages j
slot-grown pages j p n missing count =
    let q = j / page_size in
    rw
      (
        slot-eq (set (pages ++ replicate n empty_page) p empty_page) j,
        slot-eq pages j,
        get_or-set (pages ++ replicate n empty_page) p q empty_page [],
        get_or-append pages (replicate n empty_page) q [],
        get_or-replicate n (q - length pages) empty_page [],
      )
      (ground (arith, get_or-empty_page (j % page_size), get_or_beyond pages q []))

pub slot-grow : (pages : Pages) (id j : ℕ) → slot (grow pages id) j ≡ slot pages j
unfolding grow
slot-grow pages id j = elim (Bool-cases (leb (length pages) (id / page_size))) [
  | inl missing ↦
      rw (missing, grow) (slot-grown pages j (id / page_size) _ (leb→le _ _ missing) refl)
  | inr there ↦ rw (there, grow) refl
]

pub length-grow : (pages : Pages) (id : ℕ) → id / page_size < length (grow pages id)
unfolding grow
length-grow pages id = elim (Bool-cases (leb (length pages) (id / page_size))) [
  | inl missing ↦
      let n = id / page_size + 1 - length pages in
      rw (missing, grow)
        (ground (
          arith,
          length-set (pages ++ replicate n empty_page) (id / page_size) empty_page,
          length-append pages (replicate n empty_page),
          length-replicate n empty_page,
        ))
  | inr there ↦ rw (there, grow) (ground arith)
]

pub grow-IsPages : (pages : Pages) (id : ℕ) → IsPages pages → IsPages (grow pages id)
unfolding grow
grow-IsPages pages id full = elim (Bool-cases (leb (length pages) (id / page_size))) [
  | inl missing ↦
      rw (missing, grow)
        (All-set _ _ (id / page_size) empty_page
          (All-append _ pages _ full (All-replicate _ _ empty_page length-empty_page))
          length-empty_page)
  | inr there ↦ rw (there, grow) full
]

pub set_slot-IsPages :
    (pages : Pages) (id : ℕ) (v : Option ℕ)
    → IsPages pages
    → id / page_size < length pages
    → IsPages (set_slot pages id v)
unfolding set_slot
set_slot-IsPages pages id v full there = All-set _ pages (id / page_size) _ full (
    length-set (get_or pages (id / page_size) []) (id % page_size) v
    ∙ All-get_or (λ page. length page ≡ page_size) pages (id / page_size) [] full there)

-- A slot that is taken stands on a page that is there.
pub slot-there : (pages : Pages) (id k : ℕ) → slot pages id ≡ some k → id / page_size < length pages
unfolding slot
slot-there pages id k h = elim (Bool-cases (leb (length pages) (id / page_size))) [
  | inl beyond ↦
      (let vacant : slot pages id ≡ none = rw (beyond, slot) refl in
        let e : none ≡ some k = sym vacant ∙ h in cc)
  | inr there ↦ ground arith
]

pub length-set_slot :
    (pages : Pages) (id : ℕ) (v : Option ℕ) → length (set_slot pages id v) ≡ length pages
unfolding set_slot
length-set_slot pages id v =
    length-set pages (id / page_size) (set (get_or pages (id / page_size) []) (id % page_size) v)
