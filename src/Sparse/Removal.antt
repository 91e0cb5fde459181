-- ===== src/Sparse/Removal.antt =====
-- `remove` of SparseSet.hpp: the entity leaves, and the last one takes its place.
use rtype.Base.{
  ℕ, ◌-◌, ◌/◌, ◌<◌, ◌≡◌, ◌≢◌, refl, sym, ap, ◌∙◌, inl, inr, none, some, false, ◌&&◌, ◌==◌, ltb,
  length, get_elem?, get_or, Bool-cases, Option-cases, if◌then◌else◌, arith,
}
use rtype.Sparse.Pages.{
  page_size, slot, set_slot, slot-set_slot, set_slot-IsPages, slot-there, length-set_slot,
}
use rtype.Sparse.Dense.{remove_swap, get_elem?_or, get_elem?-remove_swap, length-remove_swap}
use rtype.Sparse.Links.{slot-lt, removed-IsLinked}
use rtype.Sparse.Set.{SparseSet, get, get-some, get-none, get-kept, remove, IsSparse}

module _ {T : Type 0} (s : SparseSet T) (v : IsSparse s) (id k : ℕ)
    (there : slot s.sparse_pages id ≡ some k) where
  abbrev moved : ℕ
  moved = get_or s.entities (length s.entities - 1) 0

  abbrev removed : SparseSet T
  removed =
      let dense = remove_swap k s.dense in
      let pages = set_slot s.sparse_pages id none in
      record s {
        dense = dense;
        entities = remove_swap k s.entities;
        sparse_pages = if ltb k (length dense) then set_slot pages moved (some k) else pages;
      }

  remove-removed : remove id s ≡ removed
  unfolding remove
  remove-removed = rw (there, remove) refl

  inside : k < length s.entities
  inside = slot-lt (slot s.sparse_pages) (slot s.sparse_pages) s.entities v.linked id k there

  shorter : length (remove_swap k s.dense) ≡ length s.entities - 1
  shorter =
      let i = inside in
      length-remove_swap s.dense k (omega (arith, i, v.same_length)) ∙ omega (arith, v.same_length)

  at_last : get_elem? s.entities (length s.entities - 1) ≡ some moved
  at_last = let i = inside in get_elem?_or s.entities (length s.entities - 1) 0 (omega (arith, i))

  moved_there : moved / page_size < length s.sparse_pages
  moved_there =
      slot-there s.sparse_pages moved (length s.entities - 1)
        (v.linked.slot_of moved (length s.entities - 1) at_last)

  slot-removed :
      (j : ℕ)
      → slot removed.sparse_pages j ≡ (
          if ltb k (length s.entities - 1) && moved == j
          then some k
          else if id == j
          then none
          else slot s.sparse_pages j)
  slot-removed j =
      let here = slot-there s.sparse_pages id k there in
      let pages = set_slot s.sparse_pages id none in
      let emptied = slot-set_slot s.sparse_pages id j none v.full here in
      let pointed =
        slot-set_slot pages moved j (some k) (set_slot-IsPages s.sparse_pages id none v.full here)
          (rw (length-set_slot s.sparse_pages id none) moved_there) in
      rw shorter (elim (Bool-cases (ltb k (length s.entities - 1))) [
        | inl between ↦ rw between (pointed ∙ ground (arith, emptied))
        | inr last ↦ rw last emptied
      ])

  removed-IsSparse : IsSparse removed
  removed-IsSparse =
      let here = slot-there s.sparse_pages id k there in
      let full = set_slot-IsPages s.sparse_pages id none v.full here in
      let i = inside in
      record {
        full = elim (Bool-cases (ltb k (length (remove_swap k s.dense)))) [
          | inl between ↦ rw between (
              set_slot-IsPages (set_slot s.sparse_pages id none) moved (some k) full
                (rw (length-set_slot s.sparse_pages id none) moved_there))
          | inr last ↦ rw last full
        ];
        same_length = shorter ∙ sym (length-remove_swap s.entities k i);
        linked =
            removed-IsLinked (slot s.sparse_pages) _ s.entities v.linked id k moved there at_last
              slot-removed;
      }

  -- The slot of the last entity is its own.
  last_slot : (j : ℕ) → moved ≡ j → slot s.sparse_pages j ≡ some (length s.entities - 1)
  last_slot j e = v.linked.slot_of j (length s.entities - 1) (at_last ∙ ap some e)

  stays_put :
      (j i : ℕ)
      → (ltb k (length s.entities - 1) && moved == j) ≡ false
      → (id == j) ≡ false
      → slot s.sparse_pages j ≡ some i
      → get_elem? (remove_swap k s.dense) i ≡ get_elem? s.dense i
  stays_put j i stays miss other =
      let within = inside in
      let entity = v.linked.entity_of j i other in
      let target = v.linked.entity_of id k there in
      let before =
        slot-lt (slot s.sparse_pages) (slot s.sparse_pages) s.entities v.linked j i other in
      let at_end : i ≡ length s.entities - 1 → moved ≡ j =
        λ e. ground (arith, entity, at_last, ap (get_elem? s.entities) e) in
      let apart : k ≢ i = λ e. ground (arith, entity, target, ap (get_elem? s.entities) e) in
      ground (
        arith,
        within,
        before,
        at_end,
        apart,
        v.same_length,
        get_elem?-remove_swap s.dense k i (omega (arith, within, v.same_length)),
      )

  get-removed : (j : ℕ) → get j removed ≡ (if id == j then none else get j s)
  get-removed j =
      let within = inside in
      let new = slot-removed j in
      elim (Bool-cases (ltb k (length s.entities - 1) && moved == j)) [
        | inl took ↦
            let e : moved ≡ j = ground arith in
            let own = last_slot j e in
            let apart : (id == j) ≡ false =
              ground (arith, own, there, ap (slot s.sparse_pages) {x = id} {y = j}) in
            rw apart (
              get-some removed j k (new ∙ rw took refl)
              ∙ ground (
                arith,
                within,
                v.same_length,
                get_elem?-remove_swap s.dense k k (omega (arith, within, v.same_length)),
              )
              ∙ sym (get-some s j (length s.entities - 1) own))
        | inr stays ↦ elim (Bool-cases (id == j)) [
          | inl hit ↦ rw hit (get-none removed j (new ∙ rw (stays, hit) refl))
          | inr miss ↦ rw miss (
              get-kept s removed j (new ∙ rw (stays, miss) refl)
                (λ i other. stays_put j i stays miss other))
        ]
      ]

module _ {T : Type 0} (s : SparseSet T) (v : IsSparse s) (id : ℕ) where
  pub remove-IsSparse : IsSparse (remove id s)
  unfolding remove
  remove-IsSparse = elim (Option-cases (slot s.sparse_pages id)) [
    | inl nothing ↦ rw (nothing, remove) v
    | inr (k, there) ↦ rw (there, remove) (removed-IsSparse s v id k there)
  ]

  remove-nothing : slot s.sparse_pages id ≡ none → remove id s ≡ s
  unfolding remove
  remove-nothing nothing = rw (nothing, remove) refl

  pub get-remove : (j : ℕ) → get j (remove id s) ≡ (if id == j then none else get j s)
  get-remove j = elim (Option-cases (slot s.sparse_pages id)) [
    | inl nothing ↦
        ap (get j) (remove-nothing nothing)
        ∙ ground (arith, get-none s id nothing, ap (λ (i : ℕ). get i s) {x = id} {y = j})
    | inr (k, there) ↦ ap (get j) (remove-removed s v id k there) ∙ get-removed s v id k there j
  ]
