-- ===== src/Mount/Listing/Live.antt =====
-- listEntries (src/KVFSDirectoryPartition.cc) adds the entries that are not unlinked, in order, and goes
-- on where it stopped.
use kvfs_ra_testing.Base.{
  ℕ, zero, suc, ◌+◌, ◌-◌, ◌≤◌, ◌<◌, ◌≡◌, ◌≢◌, refl, sym, subst, leb, ap, ◌∙◌, Bool, true, false,
  Option, none, some, List, [], ◌∷◌, ◌++◌, Bytes, drop, Bool-cases, inl, inr, arith, ◌==◌,
}
use kvfs_ra_testing.Partition.{LogFsDirectoryPartition}
use kvfs_ra_testing.Partition.Names.{NameMap, name_find}
use kvfs_ra_testing.Mount.Listing.{DirEntry, is_live, list_loop, list_fresh}

drop-drop : {X : Type 0} (m n : ℕ) (xs : List X) → drop m (drop n xs) ≡ drop (n + m) xs
drop-drop m zero xs = let e : m ≡ 0 + m = omega arith in ap (λ (k : ℕ). drop k xs) e
drop-drop zero (suc n) [] = let next : suc n + 0 ≡ suc (n + 0) = omega arith in rw next refl
drop-drop (suc m) (suc n) [] =
    let next : suc n + suc m ≡ suc (n + suc m) = omega arith in rw next refl
drop-drop m (suc n) (x ∷ xs) =
    let next : suc n + m ≡ suc (n + m) = omega arith in rw next (drop-drop m n xs)

nil_cons : (x : DirEntry) (xs : List DirEntry) → [] ≢ x ∷ xs
nil_cons x xs e = cc

module _ (A : Type 0) (add : A → DirEntry → Option (Bool × A)) where
  -- Whether the map has a name with this inode number, as it has for an entry that is not unlinked.
  unfoldable pub linked : NameMap → Bytes → ℕ → Bool
  linked by_name name ino = elim (name_find name by_name) [ none ↦ false | some i ↦ i == ino ]

  is_live-linked :
      (by_name : NameMap) (name : Bytes) (ino : ℕ)
      → is_live A add by_name name ino ≡ linked by_name name ino
  unfolding is_live linked
  is_live-linked by_name name ino = refl

  -- The entries that are not unlinked, each with the offset of the one after it.
  unfoldable pub live_entries : NameMap → NameMap → ℕ → List DirEntry
  live_entries by_name [] offset = []
  live_entries by_name ((name, ino) ∷ rest) offset =
      let later = live_entries by_name rest (offset + 1) in
      elim (linked by_name name ino) [
        | false ↦ later
        | true ↦ record { name = name; ino = ino; next_offset = offset + 1 } ∷ later
      ]

  -- Giving entries to an adder until it stops.
  unfoldable pub feed : List DirEntry → A → Option A
  feed [] a = some a
  feed (entry ∷ entries) a = elim (add a entry) [
    | none ↦ none
    | some (false, a') ↦ some a'
    | some (true, a') ↦ feed entries a'
  ]

  feed-next :
      (by_name rest : NameMap) (offset : ℕ) (o : Option (Bool × A))
      → ((a : A)
          → list_loop A add by_name rest offset a ≡ feed (live_entries by_name rest offset) a)
      → (elim o [
        | none ↦ none
        | some (false, a') ↦ some a'
        | some (true, a') ↦ list_loop A add by_name rest offset a'
      ])
        ≡ (elim o [
          | none ↦ none
          | some (false, a') ↦ some a'
          | some (true, a') ↦ feed (live_entries by_name rest offset) a'
        ])
  feed-next by_name rest offset none h = refl
  feed-next by_name rest offset (some (false, a')) h = refl
  feed-next by_name rest offset (some (true, a')) h = h a'

  list_loop-feed :
      (by_name entries : NameMap) (offset : ℕ) (a : A)
      → list_loop A add by_name entries offset a ≡ feed (live_entries by_name entries offset) a
  unfolding list_loop feed live_entries
  list_loop-feed by_name [] offset a = refl
  list_loop-feed by_name ((name, ino) ∷ rest) offset a =
      elim (Bool-cases (linked by_name name ino)) [
        | inl live ↦
            rw (list_loop, is_live-linked by_name name ino, live_entries, live, feed)
              (feed-next by_name rest (offset + 1)
                (add a (record { name = name; ino = ino; next_offset = offset + 1 }))
                (λ a'. list_loop-feed by_name rest (offset + 1) a'))
        | inr gone ↦
            rw (list_loop, is_live-linked by_name name ino, live_entries, gone)
              (list_loop-feed by_name rest (offset + 1) a)
      ]

  -- What follows an entry is what there is from its next offset on.
  record Rest (by_name entries : NameMap) (offset : ℕ) (e : DirEntry) (after : List DirEntry)
      : Type 0 where
    pub later : offset < e.next_offset
    pub rest : live_entries by_name (drop (e.next_offset - offset) entries) e.next_offset ≡ after

  Rest-next :
      (by_name rest : NameMap) (x : Bytes × ℕ) (offset : ℕ) (e : DirEntry) (after : List DirEntry)
      → Rest by_name rest (offset + 1) e after
      → Rest by_name (x ∷ rest) offset e after
  Rest-next by_name rest x offset e after r =
      let less : e.next_offset - offset ≡ suc (e.next_offset - (offset + 1)) =
        (let l = r.later in omega arith) in
      record { later = let l = r.later in omega arith; rest = rw less (r.rest) }

  -- The first entry of a listing is `e`, or `e` comes later.
  first_live :
      (by_name rest : NameMap) (name : Bytes) (ino offset : ℕ) (before : List DirEntry)
      (e : DirEntry) (after : List DirEntry)
      → record { name = name; ino = ino; next_offset = offset + 1 }
          ∷ live_entries by_name rest (offset + 1)
        ≡ before ++ e ∷ after
      → ((bs : List DirEntry)
          → live_entries by_name rest (offset + 1) ≡ bs ++ e ∷ after
          → Rest by_name rest (offset + 1) e after)
      → Rest by_name ((name, ino) ∷ rest) offset e after
  first_live by_name rest name ino offset [] e after same later =
      let first : DirEntry = record { name = name; ino = ino; next_offset = offset + 1 } in
      let head : first ≡ e = cc in
      let tail : live_entries by_name rest (offset + 1) ≡ after = cc in
      let one : (offset + 1) - offset ≡ 1 = omega arith in
      subst (λ (x : DirEntry). Rest by_name ((name, ino) ∷ rest) offset x after) head
        (record { later = omega arith; rest = rw one tail })
  first_live by_name rest name ino offset (b ∷ bs) e after same later =
      let tail : live_entries by_name rest (offset + 1) ≡ bs ++ e ∷ after = cc in
      Rest-next by_name rest (name, ino) offset e after (later bs tail)

  live_entries-Rest :
      (by_name entries : NameMap) (offset : ℕ) (before : List DirEntry) (e : DirEntry)
      (after : List DirEntry)
      → live_entries by_name entries offset ≡ before ++ e ∷ after
      → Rest by_name entries offset e after
  unfolding live_entries
  live_entries-Rest by_name [] offset [] e after same = absurd (nil_cons _ _ same)
  live_entries-Rest by_name [] offset (b ∷ bs) e after same = absurd (nil_cons _ _ same)
  live_entries-Rest by_name ((name, ino) ∷ rest) offset before e after same =
      elim (Bool-cases (linked by_name name ino)) [
        | inr gone ↦
            let skipped : live_entries by_name ((name, ino) ∷ rest) offset
                ≡ live_entries by_name rest (offset + 1) =
              rw (live_entries, gone) refl in
            Rest-next by_name rest (name, ino) offset e after
              (live_entries-Rest by_name rest (offset + 1) before e after (sym skipped ∙ same))
        | inl live ↦
            let shown : live_entries by_name ((name, ino) ∷ rest) offset
                ≡ record { name = name; ino = ino; next_offset = offset + 1 }
                  ∷ live_entries by_name rest (offset + 1) =
              rw (live_entries, live) refl in
            first_live by_name rest name ino offset before e after (sym shown ∙ same)
              (λ bs tail. live_entries-Rest by_name rest (offset + 1) bs e after tail)
      ]

  -- For a partition in memory, an offset in it, and an entry that a listing from there would add: the
  -- listing adds the entries that are not unlinked, in order, until the adder stops it, and a listing
  -- from the next offset of the entry adds what comes after the entry.
  pub list_fresh-resumes :
      (p : LogFsDirectoryPartition) (cur_offset part_base_offset : ℕ) (before : List DirEntry)
      (e : DirEntry) (after : List DirEntry) (a : A)
      → part_base_offset ≤ cur_offset
      → live_entries p.entries_by_name (drop (cur_offset - part_base_offset) p.entries) cur_offset
        ≡ before ++ e ∷ after
      → (list_fresh A add p cur_offset part_base_offset a ≡ feed (before ++ e ∷ after) a)
        × (list_fresh A add p e.next_offset part_base_offset a ≡ feed after a)
  unfolding list_fresh
  list_fresh-resumes p cur base before e after a above same =
      let r = live_entries-Rest p.entries_by_name _ cur before e after same in
      let started : leb base cur ≡ true = ground (arith, above) in
      let resumed : leb base e.next_offset ≡ true = ground (arith, above, r.later) in
      let offset : (cur - base) + (e.next_offset - cur) ≡ e.next_offset - base =
        (let l = r.later in omega (arith, above)) in
      (
        rw (list_fresh, started)
            (list_loop-feed p.entries_by_name _ cur a
              ∙ ap (λ (es : List DirEntry). feed es a) same),
        rw (list_fresh, resumed)
            (list_loop-feed p.entries_by_name _ e.next_offset a
              ∙ ap (λ (es : List DirEntry). feed es a)
                  (ap (λ (xs : NameMap). live_entries p.entries_by_name xs e.next_offset)
                      (sym (
                        drop-drop (e.next_offset - cur) (cur - base) p.entries
                        ∙ ap (λ (n : ℕ). drop n p.entries) offset))
                    ∙ r.rest)),
      )
