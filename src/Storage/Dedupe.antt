-- ===== src/Storage/Dedupe.antt =====
-- The deduplication against its description: of the newest records down, the first of each key.
use gpao_t.Prelude.{
  ℕ, suc, ◌-◌, String, Bool, ◌&&◌, ◌≡◌, refl, ap, List, [], ◌∷◌, some, if◌then◌else◌, take, has,
  truthy, leb, Bool-cases, inl, inr, arith,
}
use mathlib.Core.List.{reverse}
use gpao_t.Storage.{dedupe_loop, newest_of}

module _ {A : Type 0} (key : A → String) where
  abbrev pub is_repeated : List String → A → Bool
  is_repeated seen a = truthy (key a) && has seen (key a)

  abbrev pub note_key : List String → A → List String
  note_key seen a = if truthy (key a) then key a ∷ seen else seen

  -- The first record of each key, in order, and every record with an empty key.
  abbrev pub first_of_keys : (seen : List String) → List A → List A
  first_of_keys seen [] = []
  first_of_keys seen (a ∷ records) =
      let skipped = first_of_keys seen records in
      let rest = first_of_keys (note_key seen a) records in
      if is_repeated seen a then skipped else a ∷ rest

  -- How many more records are pushed: one at least.
  abbrev pub room : (limit pushed : ℕ) → ℕ
  room limit pushed = suc (limit - suc pushed)

  dedupe_loop-take :
      (limit pushed : ℕ) (seen : List String) (records : List A)
      → dedupe_loop key limit pushed seen records
        ≡ take (room limit pushed) (first_of_keys seen records)
  unfolding dedupe_loop
  dedupe_loop-take limit pushed seen [] = refl
  dedupe_loop-take limit pushed seen (a ∷ records) = elim (Bool-cases (is_repeated seen a)) [
    | inl e ↦ rw e (dedupe_loop-take limit pushed seen records)
    | inr e ↦ elim (Bool-cases (leb limit (suc pushed))) [
      | inl f ↦ let full : limit - suc pushed ≡ 0 = ground (arith, f) in rw (e, f, full) refl
      | inr f ↦
          let more : limit - suc pushed ≡ room limit (suc pushed) = ground (arith, f) in
          rw (e, f, more)
            (ap (λ rest. a ∷ rest) (dedupe_loop-take limit (suc pushed) (note_key seen a) records))
    ]
  ]

  -- The answer with a key holds, of the records from the newest on, the first of each key, as many as
  -- the limit says but one at least, and in the order of the file.
  pub newest_of-first_of_keys :
      (limit : ℕ) (records : List A)
      → newest_of (some key) limit records
        ≡ reverse (take (room limit 0) (first_of_keys [] (reverse records)))
  unfolding newest_of
  newest_of-first_of_keys limit records = ap reverse (dedupe_loop-take limit 0 [] (reverse records))
