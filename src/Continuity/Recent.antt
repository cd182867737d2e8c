-- ===== src/Continuity/Recent.antt =====
-- The ledger of recent referents: one entry for each, the most certain first, and none lost.
use gpao_t.Prelude.{
  String, true, false, ◌&&◌, ◌≡◌, refl, ◌∙◌, List, [], ◌∷◌, map, ◌==◌, eq_iff, eq_refl, any, leb,
  ltb, sort_desc, insert_desc, any-sort_desc, sort_desc-IsDescending, IsDescending, Bool-cases, inl,
  inr, arith, subst, All, All-weaken, any-insert_desc,
}
use gpao_t.Continuity.{
  Event, Referent, is_same, merged, note_referent, note_all, note_events, build_ledger,
  referent_key, extract_patterns, referent_of,
}

same_sym : (a b : Referent) → is_same a b ≡ is_same b a
same_sym a b = ground (
  arith,
  eq_iff a.entity b.entity,
  eq_iff b.entity a.entity,
  eq_iff a.kind b.kind,
  eq_iff b.kind a.kind,
)

-- Two entries with the same entity and type.
same_eq : (a b : Referent) → is_same a b ≡ true → (b.entity ≡ a.entity) × (b.kind ≡ a.kind)
same_eq a b h =
    (ground (arith, h, eq_iff b.entity a.entity), ground (arith, h, eq_iff b.kind a.kind))

-- No two entries have the same entity and type.
abbrev pub IsDistinct : List Referent → Type 0
IsDistinct [] = Unit
IsDistinct (a ∷ items) = (any (is_same a) items ≡ false) × IsDistinct items

-- An entry, or one of its entity and type that is at least as certain.
abbrev pub Covers : Referent → List Referent → Type 0
Covers entry items = any (λ r. is_same entry r && leb entry.confidence r.confidence) items ≡ true

fresh-note :
    (a entry : Referent) (items : List Referent)
    → is_same a entry ≡ false
    → any (is_same a) items ≡ false
    → any (is_same a) (note_referent entry items) ≡ false
unfolding note_referent
fresh-note a entry [] h k = rw h refl
fresh-note a entry (item ∷ items) h k = elim (Bool-cases (is_same entry item)) [
  | inl e ↦ rw e (rw h (ground (arith, k)))
  | inr e ↦ rw e (ground (arith, k, fresh-note a entry items h (ground (arith, k))))
]

-- The test of `is_same` depends on the entity and the type only.
abbrev FreshKey : List Referent → String → String → Type 0
FreshKey items entity kind = any (λ r. r.entity == entity && r.kind == kind) items ≡ false

fresh-merged :
    (item entry : Referent) (items : List Referent)
    → is_same entry item ≡ true
    → any (is_same item) items ≡ false
    → any (is_same (merged item entry)) items ≡ false
fresh-merged item entry items h k =
    let (entity, kind) = same_eq entry item h in
    subst (FreshKey items entry.entity) kind (subst (λ e. FreshKey items e item.kind) entity k)

note_referent-IsDistinct :
    (entry : Referent) (items : List Referent)
    → IsDistinct items
    → IsDistinct (note_referent entry items)
unfolding note_referent
note_referent-IsDistinct entry [] h = (refl, tt)
note_referent-IsDistinct entry (item ∷ items) (h, hs) = elim (Bool-cases (is_same entry item)) [
  | inl e ↦ rw e (fresh-merged item entry items e h, hs)
  | inr e ↦ rw e (
    fresh-note item entry items (same_sym item entry ∙ e) h,
    note_referent-IsDistinct entry items hs,
  )
]

covered :
    (entry item : Referent)
    → is_same entry item ≡ true
    → (is_same entry (merged item entry) && leb entry.confidence (merged item entry).confidence)
      ≡ true
covered entry item h = rw (eq_refl entry.entity, eq_refl entry.kind) (ground arith)

note_referent-Covers :
    (entry : Referent) (items : List Referent) → Covers entry (note_referent entry items)
unfolding note_referent
note_referent-Covers entry [] = rw (eq_refl entry.entity, eq_refl entry.kind) (ground arith)
note_referent-Covers entry (item ∷ items) = elim (Bool-cases (is_same entry item)) [
  | inl e ↦ rw e (rw (covered entry item e) refl)
  | inr e ↦ rw e (ground (arith, note_referent-Covers entry items))
]

-- An entry that an item covers is covered by what the item is merged into.
covers_merged :
    (a item entry : Referent)
    → is_same entry item ≡ true
    → (is_same a item && leb a.confidence item.confidence) ≡ true
    → (is_same a (merged item entry) && leb a.confidence (merged item entry).confidence) ≡ true
covers_merged a item entry h k =
    let (entity, kind) = same_eq entry item h in
    let same : is_same a (merged item entry) ≡ true =
      subst (λ t. (entry.entity == a.entity && t == a.kind) ≡ true) kind
        (subst (λ e. (e == a.entity && item.kind == a.kind) ≡ true) entity (ground (arith, k))) in
    rw same (ground (arith, k))

Covers-note_referent :
    (a entry : Referent) (items : List Referent)
    → Covers a items
    → Covers a (note_referent entry items)
unfolding note_referent
Covers-note_referent a entry [] h = cc
Covers-note_referent a entry (item ∷ items) h = elim (Bool-cases (is_same entry item)) [
  | inl e ↦ elim (Bool-cases (is_same a item && leb a.confidence item.confidence)) [
    | inl k ↦ rw e (rw (covers_merged a item entry e k) refl)
    | inr k ↦ let rest : Covers a items = rw k at h in rw e (ground (arith, rest))
  ]
  | inr e ↦ elim (Bool-cases (is_same a item && leb a.confidence item.confidence)) [
    | inl k ↦ rw e (rw k refl)
    | inr k ↦ rw e (rw k (Covers-note_referent a entry items (rw k at h)))
  ]
]

note_all-IsDistinct :
    (entries items : List Referent) → IsDistinct items → IsDistinct (note_all entries items)
note_all-IsDistinct [] items h = h
note_all-IsDistinct (entry ∷ entries) items h =
    note_all-IsDistinct entries (note_referent entry items) (note_referent-IsDistinct entry items h)

Covers-note_all :
    (a : Referent) (entries items : List Referent)
    → Covers a items
    → Covers a (note_all entries items)
Covers-note_all a [] items h = h
Covers-note_all a (entry ∷ entries) items h =
    Covers-note_all a entries (note_referent entry items) (Covers-note_referent a entry items h)

note_all-Covers :
    (entries items : List Referent) → All (λ a. Covers a (note_all entries items)) entries
note_all-Covers [] items = tt
note_all-Covers (entry ∷ entries) items = (
  Covers-note_all entry entries (note_referent entry items) (note_referent-Covers entry items),
  note_all-Covers entries (note_referent entry items),
)

note_events-IsDistinct :
    (now : String) (events : List Event) (items : List Referent)
    → IsDistinct items
    → IsDistinct (note_events now events items)
unfolding note_events
note_events-IsDistinct now [] items h = h
note_events-IsDistinct now (event ∷ events) items h =
    note_events-IsDistinct now events _
      (note_all-IsDistinct (map (referent_of now event) (extract_patterns event.text)) items h)

Covers-note_events :
    (a : Referent) (now : String) (events : List Event) (items : List Referent)
    → Covers a items
    → Covers a (note_events now events items)
unfolding note_events
Covers-note_events a now [] items h = h
Covers-note_events a now (event ∷ events) items h =
    Covers-note_events a now events _
      (Covers-note_all a (map (referent_of now event) (extract_patterns event.text)) items h)

-- The entries that an event gives.
abbrev pub entries_of : (now : String) → Event → List Referent
entries_of now event = map (referent_of now event) (extract_patterns event.text)

note_events-Covers :
    (now : String) (events : List Event) (items : List Referent)
    → All
        (λ event. All (λ a. Covers a (note_events now events items)) (entries_of now event))
        events
unfolding note_events
note_events-Covers now [] items = tt
note_events-Covers now (event ∷ events) items =
    let noted = note_all (entries_of now event) items in
    (
      All-weaken (λ a. Covers a noted) (λ a. Covers a (note_events now events noted))
          (entries_of now event) (λ a h. Covers-note_events a now events noted h)
          (note_all-Covers (entries_of now event) items),
      note_events-Covers now events noted,
    )

insert_desc-IsDistinct :
    (a : Referent) (items : List Referent)
    → any (is_same a) items ≡ false
    → IsDistinct items
    → IsDistinct (insert_desc referent_key a items)
unfolding insert_desc
insert_desc-IsDistinct a [] h hs = (refl, tt)
insert_desc-IsDistinct a (item ∷ items) h (k, ks) =
    elim (Bool-cases (ltb a.confidence item.confidence)) [
      | inl e ↦
          let apart : is_same item a ≡ false = same_sym item a ∙ ground (arith, h) in
          rw e (
            any-insert_desc referent_key (is_same item) a items ∙ rw apart k,
            insert_desc-IsDistinct a items (ground (arith, h)) ks,
          )
      | inr e ↦ rw e (h, (k, ks))
    ]

sort_desc-IsDistinct :
    (items : List Referent) → IsDistinct items → IsDistinct (sort_desc referent_key items)
unfolding sort_desc
sort_desc-IsDistinct [] h = tt
sort_desc-IsDistinct (a ∷ items) (h, hs) =
    insert_desc-IsDistinct a (sort_desc referent_key items)
      (any-sort_desc referent_key (is_same a) items ∙ h) (sort_desc-IsDistinct items hs)

-- The ledger has one entry for an entity and type, the most certain first, and every entry that an event
-- gave is in it, as certain as it was or more.
pub build_ledger-IsComplete :
    (now : String) (events : List Event)
    → IsDistinct (build_ledger now events)
      × IsDescending referent_key (build_ledger now events)
      × All (λ event. All (λ a. Covers a (build_ledger now events)) (entries_of now event)) events
unfolding build_ledger
build_ledger-IsComplete now events =
    let noted = note_events now events [] in
    (
      sort_desc-IsDistinct noted (note_events-IsDistinct now events [] tt),
      sort_desc-IsDescending referent_key noted,
      All-weaken (λ event. All (λ a. Covers a noted) (entries_of now event)) _ events
          (λ event h.
            All-weaken (λ a. Covers a noted) _ (entries_of now event)
              (λ a k. any-sort_desc referent_key _ noted ∙ k) h)
          (note_events-Covers now events []),
    )
