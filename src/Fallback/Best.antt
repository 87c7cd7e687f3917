-- ===== src/Fallback/Best.antt =====
-- go/response_intercept.go: the loops that select the best candidate of a list.
use cpa_usage_plugin.Common.{
  ℕ, ◌≤◌, ◌<◌, ◌≡◌, refl, ◌∙◌, Bool, true, false, ◌==◌, Option, none, some, List, [], ◌∷◌, arith,
  Bool-cases, Option-cases, inl, inr, ◌⊎◌,
}
use cpa_usage_plugin.Fallback.{Edge}
use cpa_usage_plugin.Fallback.Select.{contains, better_candidate, select_best}

-- `s` is stronger than `e`, or as strong and not farther.
abbrev pub AsGood : Edge → Edge → Type 0
AsGood s e = (e.strength < s.strength) ⊎ ((e.strength ≡ s.strength) × (s.distance ≤ e.distance))

AsGood-trans : (a b c : Edge) → AsGood a b → AsGood b c → AsGood a c
AsGood-trans a b c (inl p) (inl q) = inl (omega (arith, p, q))
AsGood-trans a b c (inl p) (inr (q, d)) = inl (omega (arith, p, q))
AsGood-trans a b c (inr (p, d)) (inl q) = inl (omega (arith, p, q))
AsGood-trans a b c (inr (p, d)) (inr (q, e)) = inr (q ∙ p, omega (arith, d, e))

better-AsGood : (e s : Edge) (less : Bool) → better_candidate e s less ≡ true → AsGood e s
unfolding better_candidate
better-AsGood e s less h = elim (Bool-cases (e.strength == s.strength)) [
  | inr ne ↦ inl (ground (arith, h, ne))
  | inl same ↦ elim (Bool-cases (e.distance == s.distance)) [
    | inr far ↦ inr (ground (arith, same), ground (arith, h, same, far))
    | inl near ↦ inr (ground (arith, same), ground (arith, near))
  ]
]

worse-AsGood : (e s : Edge) (less : Bool) → better_candidate e s less ≡ false → AsGood s e
unfolding better_candidate
worse-AsGood e s less h = elim (Bool-cases (e.strength == s.strength)) [
  | inr ne ↦ inl (ground (arith, h, ne))
  | inl same ↦ elim (Bool-cases (e.distance == s.distance)) [
    | inr far ↦ inr (ground (arith, same), ground (arith, h, same, far))
    | inl near ↦ inr (ground (arith, same), ground (arith, near))
  ]
]

module _ (edge : ℕ → Option Edge) (less : ℕ → ℕ → Bool) where
  -- The selected pointer and edge are those of the start, or the pointer is in the list and the edge
  -- is its own.
  abbrev pub Comes : List ℕ → Option (ℕ × Edge) → ℕ × Edge → Type 0
  Comes l start s = (start ≡ some s) ⊎ ((contains l s.0 ≡ true) × (edge s.0 ≡ some s.1))

  Comes-later :
      (x : ℕ) (rest : List ℕ) (start : Option (ℕ × Edge)) (s : ℕ × Edge)
      → Comes rest start s
      → Comes (x ∷ rest) start s
  unfolding contains
  Comes-later x rest start s (inl same) = inl same
  Comes-later x rest start s (inr (inside, own)) = inr (ground (arith, inside), own)

  Comes-here :
      (x : ℕ) (e : Edge) (rest : List ℕ) (start : Option (ℕ × Edge)) (s : ℕ × Edge)
      → edge x ≡ some e
      → Comes rest (some (x, e)) s
      → Comes (x ∷ rest) start s
  unfolding contains
  Comes-here x e rest start s here (inr (inside, own)) = inr (ground (arith, inside), own)
  Comes-here x e rest start s here (inl same) =
      let one : (x, e) ≡ s = cc in inr (rw (← one) (ground arith), rw (← one) here)

  -- The selection never gets worse than where it starts.
  select_best-start :
      (l : List ℕ) (t : ℕ × Edge)
      → (s : ℕ × Edge) × (select_best edge less l (some t) ≡ some s)
        × Comes l (some t) s
        × AsGood s.1 t.1
  unfolding select_best
  select_best-start [] t = (t, refl, inl refl, inr (refl, omega arith))
  select_best-start (id ∷ rest) t = elim (Option-cases (edge id)) [
    | inl gone ↦
        let (s, found, comes, good) = select_best-start rest t in
        rw gone (s, found, Comes-later id rest (some t) s comes, good)
    | inr (e, here) ↦ elim (Bool-cases (better_candidate e t.1 (less id t.0))) [
      | inl better ↦
          let (s, found, comes, good) = select_best-start rest (id, e) in
          rw (here, better)
            (
              s,
              found,
              Comes-here id e rest (some t) s here comes,
              AsGood-trans s.1 e t.1 good (better-AsGood e t.1 (less id t.0) better),
            )
      | inr worse ↦
          let (s, found, comes, good) = select_best-start rest t in
          rw (here, worse) (s, found, Comes-later id rest (some t) s comes, good)
    ]
  ]

  -- Where a candidate of the list has an edge, the selection returns a pointer with an edge. Unless
  -- they are those that it started from, the pointer is of the list and the edge is its own. The edge
  -- is stronger than the candidate's, or as strong and not farther in time, whatever the order of the
  -- list and the stable order of the records.
  pub select_best-AsGood :
      (l : List ℕ) (start : Option (ℕ × Edge)) (id : ℕ) (e : Edge)
      → contains l id ≡ true
      → edge id ≡ some e
      → (s : ℕ × Edge) × (select_best edge less l start ≡ some s) × Comes l start s × AsGood s.1 e
  unfolding select_best contains
  select_best-AsGood [] start id e inside here = absurd (cc)
  select_best-AsGood (x ∷ xs) start id e inside here = elim (Bool-cases (x == id)) [
    | inr ne ↦ elim (Option-cases (edge x)) [
      | inl gone ↦
          let (s, found, comes, good) =
            select_best-AsGood xs start id e (ground (arith, inside, ne)) here in
          rw gone (s, found, Comes-later x xs start s comes, good)
      | inr (d, there) ↦ elim (Option-cases start) [
        | inl first ↦
            let (s, found, comes, good) =
              select_best-AsGood xs (some (x, d)) id e (ground (arith, inside, ne)) here in
            rw (there, first) (s, found, Comes-here x d xs none s there comes, good)
        | inr (t, chosen) ↦ elim (Bool-cases (better_candidate d t.1 (less x t.0))) [
          | inl better ↦
              let (s, found, comes, good) =
                select_best-AsGood xs (some (x, d)) id e (ground (arith, inside, ne)) here in
              rw (there, chosen, better) (s, found, Comes-here x d xs (some t) s there comes, good)
          | inr worse ↦
              let (s, found, comes, good) =
                select_best-AsGood xs (some t) id e (ground (arith, inside, ne)) here in
              rw (there, chosen, worse) (s, found, Comes-later x xs (some t) s comes, good)
        ]
      ]
    ]
    | inl eq ↦
        let same : x ≡ id = ground (arith, eq) in
        let this : edge x ≡ some e = rw same here in
        elim (Option-cases start) [
          | inl first ↦
              let (s, found, comes, good) = select_best-start xs (x, e) in
              rw (this, first) (s, found, Comes-here x e xs none s this comes, good)
          | inr (t, chosen) ↦ elim (Bool-cases (better_candidate e t.1 (less x t.0))) [
            | inl better ↦
                let (s, found, comes, good) = select_best-start xs (x, e) in
                rw (this, chosen, better) (s, found, Comes-here x e xs (some t) s this comes, good)
            | inr worse ↦
                let (s, found, comes, good) = select_best-start xs t in
                rw (this, chosen, worse)
                  (
                    s,
                    found,
                    Comes-later x xs (some t) s comes,
                    AsGood-trans s.1 t.1 e good (worse-AsGood e t.1 (less x t.0) worse),
                  )
          ]
        ]
  ]
