-- ===== src/Accounting/Simulation.antt =====
-- go/accounting_blocks.go: each call on the accounting blocks against the call on the lists.
use cpa_usage_plugin.Common.{
  ℕ, zero, suc, ◌+◌, ◌-◌, ◌<◌, ◌≡◌, refl, sym, ◌∙◌, ltb, ◌==◌, if◌then◌else◌, Option, some, List,
  [], ◌∷◌, ◌++◌, length, get_elem?, take, drop, set, map, arith, list_ext, get_elem?-append,
  get_elem?-past, get_elem?-lt, get_elem?-take, get_elem?-set, length-append, length-take,
  length-set, length-drop, Bool-cases, inl, inr,
}
use mathlib.Core.List.{append_assoc, append-nil, map-append}
use cpa_usage_plugin.Accounting.{Slice, AccountingBlocks}
use cpa_usage_plugin.Accounting.Blocks.{at, records_of, freeze}
use cpa_usage_plugin.Accounting.Sound.{Sound, Keeps}
use cpa_usage_plugin.Accounting.Update.{Changed, mutable_at-Changed}
use cpa_usage_plugin.Accounting.PutLast.{append-Changed}
use cpa_usage_plugin.Accounting.Shrink.{truncate-Changed, remove-Changed}
use cpa_usage_plugin.Accounting.Freeze.{freeze-Sound, records-at}
use cpa_usage_plugin.Accounting.Refinement.{
  Call, append_record, write_record, truncate_to, remove_record, take_snapshot, Histories, on_lists,
  InBounds, run_lists, AllInBounds, Frozen, on_blocks, run_blocks, read_all, no_blocks,
  no_histories,
}

unfoldable pub flat : List (List Slice) → List Slice
flat [] = []
flat (s ∷ rest) = let later = flat rest in s ++ later

pub flat-last :
    (snapshots : List (List Slice)) (s : List Slice)
    → flat (snapshots ++ (s ∷ [])) ≡ flat snapshots ++ s
unfolding flat
flat-last [] s = append-nil s
flat-last (t ∷ rest) s = rw (flat-last rest s) (sym (append_assoc t (flat rest) s))

append_at :
    (xs ys : List Slice) (i : ℕ) (f : Slice)
    → get_elem? ys i ≡ some f
    → get_elem? (xs ++ ys) (length xs + i) ≡ some f
append_at xs ys i f h = get_elem?-append xs ys (length xs + i) ∙ ground (arith, h)

append_in :
    (xs ys : List Slice) (i : ℕ) (f : Slice)
    → get_elem? xs i ≡ some f
    → get_elem? (xs ++ ys) i ≡ some f
append_in xs ys i f h = get_elem?-append xs ys i ∙ ground (arith, h, get_elem?-lt xs i f h)

get_elem?-without :
    {A : Type 0} (xs : List A) (i j : ℕ)
    → i < length xs
    → get_elem? (take i xs ++ drop (suc i) xs) j
      ≡ (if ltb j i then get_elem? xs j else get_elem? xs (suc j))
get_elem?-without [] i j h = absurd (omega arith)
get_elem?-without (x ∷ xs) zero j h = ground arith
get_elem?-without (x ∷ xs) (suc i) zero h = ground arith
get_elem?-without (x ∷ xs) (suc i) (suc j) h =
    ground (arith, get_elem?-without xs i j (omega (arith, h)))

module _ {R : Type 0} where
  -- What the blocks and the snapshots hold is what the lists say.
  pub record Implements (s : Frozen R) (h : Histories R) : Type 0 where
    pub sound : Sound s.blocks (flat s.snapshots)
    pub size : s.blocks.count ≡ length h.retained
    pub reads : (i : ℕ) → at s.blocks i ≡ get_elem? h.retained i
    pub old : map (records_of s.blocks.arrays) s.snapshots ≡ h.snapshots

  records_of-Keeps :
      (frozen : List Slice) (arrays arrays' : List (List R))
      → Keeps frozen arrays arrays'
      → records_of arrays' frozen ≡ records_of arrays frozen
  unfolding records_of
  records_of-Keeps [] arrays arrays' keeps = refl
  records_of-Keeps (s ∷ rest) arrays arrays' keeps =
      rw (keeps 0 s refl, records_of-Keeps rest arrays arrays' (λ i f h. keeps (suc i) f h)) refl

  snapshots-Keep :
      (snapshots : List (List Slice)) (arrays arrays' : List (List R))
      → Keeps (flat snapshots) arrays arrays'
      → map (records_of arrays') snapshots ≡ map (records_of arrays) snapshots
  unfolding flat
  snapshots-Keep [] arrays arrays' keeps = refl
  snapshots-Keep (s ∷ rest) arrays arrays' keeps =
      let first =
        records_of-Keeps s arrays arrays' (λ i f h. keeps i f (append_in s (flat rest) i f h)) in
      let later =
        snapshots-Keep rest arrays arrays'
          (λ i f h. keeps (length s + i) f (append_at s (flat rest) i f h)) in
      rw (first, later) refl

  -- A call that changes one record at most.
  Changed-Implements :
      (s : Frozen R) (h : Histories R) (l : AccountingBlocks R) (new : ℕ → Option R) (count : ℕ)
      (xs : List R)
      → Implements s h
      → Changed (flat s.snapshots) s.blocks l new count
      → count ≡ length xs
      → ((i : ℕ) → new i ≡ get_elem? xs i)
      → Implements (record s { blocks = l }) (record h { retained = xs })
  Changed-Implements s h l new count xs ok c size same = record {
    sound = c.sound;
    size = c.size ∙ size;
    reads = λ i. c.reads i ∙ same i;
    old = snapshots-Keep s.snapshots s.blocks.arrays l.arrays c.keeps ∙ ok.old;
  }

  retained-records :
      (s : Frozen R) (h : Histories R)
      → Implements s h
      → records_of s.blocks.arrays s.blocks.blocks ≡ h.retained
  retained-records s h ok =
      list_ext _ _ (λ i. records-at s.blocks (flat s.snapshots) ok.sound i ∙ ok.reads i)

  freeze-memory : (l : AccountingBlocks R) → (freeze l).0.arrays ≡ l.arrays
  unfolding freeze
  freeze-memory l = ground arith

  pub freeze-at : (l : AccountingBlocks R) (i : ℕ) → at (freeze l).0 i ≡ at l i
  unfolding at freeze
  freeze-at l i = elim (Bool-cases (l.count == 0)) [
    | inl e ↦ rw (freeze, e) refl
    | inr e ↦ rw (freeze, e) refl
  ]

  freeze-size : (l : AccountingBlocks R) → (freeze l).0.count ≡ l.count
  unfolding freeze
  freeze-size l = ground arith

  -- A snapshot reads the records of its instant.
  freeze-records :
      (s : Frozen R) (h : Histories R)
      → Implements s h
      → records_of s.blocks.arrays (freeze s.blocks).1 ≡ h.retained
  unfolding freeze records_of
  freeze-records s h ok = elim (Bool-cases (s.blocks.count == 0)) [
    | inl e ↦
        rw (freeze, e)
          (list_ext _ _ (λ i. sym (get_elem?-past h.retained i (ground (arith, ok.size, e)))))
    | inr e ↦ rw (freeze, e) (retained-records s h ok)
  ]

  take_snapshot-Implements :
      (zero_record : R) (s : Frozen R) (h : Histories R)
      → Implements s h
      → Implements (on_blocks zero_record s take_snapshot) (on_lists h take_snapshot)
  unfolding on_blocks on_lists
  take_snapshot-Implements zero_record s h ok = record {
    sound =
        rw (flat-last s.snapshots (freeze s.blocks).1)
          (freeze-Sound s.blocks (flat s.snapshots) ok.sound);
    size = freeze-size s.blocks ∙ ok.size;
    reads = λ i. freeze-at s.blocks i ∙ ok.reads i;
    old =
        rw
          (
            freeze-memory s.blocks,
            map-append (records_of s.blocks.arrays) s.snapshots ((freeze s.blocks).1 ∷ []),
            ok.old,
            freeze-records s h ok,
          )
          refl;
  }

  on_blocks-Implements :
      (zero_record : R) (s : Frozen R) (h : Histories R) (c : Call R)
      → Implements s h
      → InBounds (length h.retained) c
      → Implements (on_blocks zero_record s c) (on_lists h c)
  unfolding on_blocks on_lists InBounds
  on_blocks-Implements zero_record s h (append_record r) ok inside =
      Changed-Implements s h _ _ _ (h.retained ++ (r ∷ [])) ok
        (append-Changed (flat s.snapshots) zero_record s.blocks r ok.sound)
        (omega (arith, ok.size, length-append h.retained (r ∷ [])))
        (λ i. sym (
          get_elem?-append h.retained (r ∷ []) i ∙ elim (Bool-cases (ltb i (length h.retained))) [
            | inl lt ↦ ground (arith, lt, ok.reads i, ok.size)
            | inr ge ↦
                ground
                  (arith, ge, ok.reads i, ok.size, get_elem?-past h.retained i (ground (arith, ge)))
          ]))
  on_blocks-Implements zero_record s h (write_record i r) ok inside =
      Changed-Implements s h _ _ _ (set h.retained i r) ok
        (mutable_at-Changed zero_record (flat s.snapshots) s.blocks i r ok.sound
          (omega (arith, ok.size, inside)))
        (omega (arith, ok.size, length-set h.retained i r))
        (λ j. sym (get_elem?-set h.retained i r j ∙ ground (arith, ok.reads j, inside)))
  on_blocks-Implements zero_record s h (truncate_to n) ok inside =
      Changed-Implements s h _ _ _ (take n h.retained) ok
        (truncate-Changed zero_record (flat s.snapshots) s.blocks n ok.sound
          (omega (arith, ok.size, inside)))
        (omega (arith, length-take n h.retained, inside))
        (λ j. sym (get_elem?-take n h.retained j ∙ ground (arith, ok.reads j)))
  on_blocks-Implements zero_record s h (remove_record i) ok inside =
      Changed-Implements s h _ _ _ (take i h.retained ++ drop (suc i) h.retained) ok
        (remove-Changed zero_record (flat s.snapshots) s.blocks i ok.sound
          (omega (arith, ok.size, inside)))
        (omega (
          arith,
          ok.size,
          inside,
          length-append (take i h.retained) (drop (suc i) h.retained),
          length-take i h.retained,
          length-drop (suc i) h.retained,
        ))
        (λ j. elim (Bool-cases (ltb j (s.blocks.count - 1))) [
          | inl lt ↦
              ground
                (arith, lt, ok.reads j, ok.reads (suc j), get_elem?-without h.retained i j inside)
          | inr ge ↦
              let past = get_elem?-past h.retained (suc j) (ground (arith, ge, ok.size)) in
              ground (arith, ge, ok.size, inside, past, get_elem?-without h.retained i j inside)
        ])
  on_blocks-Implements zero_record s h take_snapshot ok inside =
      take_snapshot-Implements zero_record s h ok

  run_blocks-Implements :
      (zero_record : R) (s : Frozen R) (h : Histories R) (calls : List (Call R))
      → Implements s h
      → AllInBounds h calls
      → Implements (run_blocks zero_record s calls) (run_lists h calls)
  unfolding run_blocks run_lists AllInBounds
  run_blocks-Implements zero_record s h [] ok inside = ok
  run_blocks-Implements zero_record s h (c ∷ calls) ok inside =
      run_blocks-Implements zero_record (on_blocks zero_record s c) (on_lists h c) calls
        (on_blocks-Implements zero_record s h c ok inside.0) inside.1

  pub no_blocks-Implements : Implements no_blocks no_histories
  unfolding at flat
  no_blocks-Implements = record {
    sound = record {
      fits = λ k s h. absurd (cc);
      apart = λ k j s t h g e. absurd (cc);
      full = λ k s h lt. absurd (cc);
      counted = λ k s h e. absurd (cc);
      none_counted = λ h. refl;
      marks = omega arith;
      there = λ i f h. absurd (cc);
      kept = λ i f k s h g e. absurd (cc);
    };
    size = refl;
    reads = λ i. refl;
    old = refl;
  }

  -- Start from no blocks and make any calls, each within the bounds that the program checks: at the
  -- end the blocks hold the list of records that the same calls make of a plain list, the count is
  -- its length, and every snapshot still reads what the list held when it was taken, though the
  -- blocks and the snapshots share arrays.
  pub run_blocks-refines :
      (zero_record : R) (calls : List (Call R))
      → AllInBounds no_histories calls
      → (read_all (run_blocks zero_record no_blocks calls) ≡ run_lists no_histories calls)
        × ((run_blocks zero_record no_blocks calls).blocks.count
            ≡ length (run_lists no_histories calls).retained)
  unfolding read_all
  run_blocks-refines zero_record calls inside =
      let end =
        run_blocks-Implements zero_record no_blocks no_histories calls no_blocks-Implements
          inside in
      (rw (retained-records _ _ end, end.old) refl, end.size)
