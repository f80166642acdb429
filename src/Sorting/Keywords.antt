-- ===== src/Sorting/Keywords.antt =====
-- Which movies a request of hw4/server.c selects: strcmp, strstr and the loop over the movies.
use mathlib.Core.Path.{subst}
use mathlib.Core.List.{Memᴰ}
use mathlib.Core.List.Memᴰ
use sp_homework.Common.{
  ℕ, ◌≡◌, ◌↔◌, ◌⊎◌, sym, refl, ap, ◌∙◌, true, List, [], ◌∷◌, ◌++◌, arith, Bool-cases, inl, inr,
}
use sp_homework.Sorting.{Scored, strcmp}
use sp_homework.Sorting.Requests.{has_prefix, contains, is_same, selects, dot, filtered}

has_prefix-append : (ks back : List ℕ) → has_prefix ks (ks ++ back) ≡ true
unfolding has_prefix
has_prefix-append [] back = refl
has_prefix-append (k ∷ ks) back = ground (arith, has_prefix-append ks back)

has_prefix_lem : (ks cs : List ℕ) → has_prefix ks cs ≡ true → (back : List ℕ) × (cs ≡ ks ++ back)
unfolding has_prefix
has_prefix_lem [] cs h = (cs, refl)
has_prefix_lem (k ∷ ks) [] h = cc
has_prefix_lem (k ∷ ks) (c ∷ cs) h =
    let heads : c ≡ k = ground arith in
    let (back, tails) = has_prefix_lem ks cs (ground arith) in (back, λ i. heads i ∷ tails i)

contains-starts : (ks cs : List ℕ) → has_prefix ks cs ≡ true → contains ks cs ≡ true
unfolding contains
contains-starts ks [] h = h
contains-starts ks (c ∷ cs) h = rw h refl

contains-append : (front ks back : List ℕ) → contains ks (front ++ (ks ++ back)) ≡ true
unfolding contains
contains-append [] ks back = contains-starts ks (ks ++ back) (has_prefix-append ks back)
contains-append (c ∷ cs) ks back = ground (arith, contains-append cs ks back)

found_at :
    (ks cs : List ℕ)
    → contains ks cs ≡ true
    → (front : List ℕ) × (back : List ℕ) × (cs ≡ front ++ (ks ++ back))
unfolding contains
found_at ks [] h = let (back, e) = has_prefix_lem ks [] h in ([], back, e)
found_at ks (c ∷ cs) h = elim (Bool-cases (has_prefix ks (c ∷ cs))) [
  | inl here ↦ let (back, e) = has_prefix_lem ks (c ∷ cs) here in ([], back, e)
  | inr later ↦
      let (front, back, e) = found_at ks cs (rw later at h) in (c ∷ front, back, ap (◌∷◌ c) e)
]

-- The keywords are found exactly if they stand somewhere in the title.
contains_lem :
    (ks cs : List ℕ)
    → contains ks cs ≡ true ↔ ((front : List ℕ) × (back : List ℕ) × (cs ≡ front ++ (ks ++ back)))
contains_lem ks cs =
    (found_at ks cs, λ (front, back, e). ap (contains ks) e ∙ contains-append front ks back)

strcmp_same : (s t : List ℕ) → is_same (strcmp s t) ≡ true → s ≡ t
unfolding strcmp
strcmp_same [] [] h = refl
strcmp_same [] (d ∷ ds) h = cc
strcmp_same (c ∷ cs) [] h = cc
strcmp_same (c ∷ cs) (d ∷ ds) h =
    let heads : c ≡ d = ground arith in
    let tails = strcmp_same cs ds (ground (arith, h)) in λ i. heads i ∷ tails i

-- The keywords are the star alone, or stand somewhere in the title.
abbrev pub IsChosen : List ℕ → List ℕ → Type 0
IsChosen keywords title =
    (keywords ≡ b'*' ∷ [])
    ⊎ ((front : List ℕ) × (back : List ℕ) × (title ≡ front ++ (keywords ++ back)))

selects-IsChosen : (ks cs : List ℕ) → selects ks cs ≡ true ↔ IsChosen ks cs
unfolding selects strcmp
selects-IsChosen ks cs = (
  λ h. elim (Bool-cases (is_same (strcmp ks (b'*' ∷ [])))) [
    | inl star ↦ inl (strcmp_same ks (b'*' ∷ []) star)
    | inr other ↦ inr ((contains_lem ks cs).0 (ground (arith, h, other)))
  ],
  λ chosen. elim chosen [
    | inl star ↦ rw star refl
    | inr found ↦ ground (arith, (contains_lem ks cs).1 found)
  ],
)

module _ {D : Type 0} (add mul : D → D → D) (zero_double : D) (rank : D → ℕ) (keywords : List ℕ)
    (profile : List D) where
  abbrev pub scored : List ℕ × List D → Scored
  scored m = record { title = m.0; score = rank (dot add mul zero_double rank m.1 profile) }

  into_filtered :
      (movies : List (List ℕ × List D)) (m : List ℕ × List D)
      → Memᴰ m movies
      → IsChosen keywords m.0
      → Memᴰ (scored m) (filtered add mul zero_double rank keywords profile movies)
  unfolding filtered
  into_filtered [] m within chosen = absurd (Memᴰ.not-nil within)
  into_filtered ((title, genres) ∷ movies) m within chosen = elim (Memᴰ.cases_cons within) [
    | inl here ↦
        let its = subst (λ (n : List ℕ × List D). IsChosen keywords n.0) here chosen in
        rw ((selects-IsChosen keywords title).1 its) (Memᴰ.head (ap scored here))
    | inr later ↦
        let rest = into_filtered movies m later chosen in
        elim (Bool-cases (selects keywords title)) [
          | inl picked ↦ rw picked (Memᴰ.tail rest)
          | inr other ↦ rw other rest
        ]
  ]

  from_filtered :
      (movies : List (List ℕ × List D)) (x : Scored)
      → Memᴰ x (filtered add mul zero_double rank keywords profile movies)
      → (m : List ℕ × List D) × Memᴰ m movies × IsChosen keywords m.0 × (x ≡ scored m)
  unfolding filtered
  from_filtered [] x h = absurd (Memᴰ.not-nil h)
  from_filtered ((title, genres) ∷ movies) x h =
      let later : Memᴰ x (filtered add mul zero_double rank keywords profile movies)
          → (m : List ℕ × List D) × Memᴰ m ((title, genres) ∷ movies)
            × IsChosen keywords m.0
            × (x ≡ scored m) =
        λ rest.
          let (m, within, chosen, e) = from_filtered movies x rest in
          (m, Memᴰ.tail within, chosen, e) in
      elim (Bool-cases (selects keywords title)) [
        | inr other ↦ later (rw other at h)
        | inl picked ↦ elim (Memᴰ.cases_cons (rw picked at h)) [
          | inl e ↦ ((title, genres), Memᴰ.head refl, (selects-IsChosen keywords title).0 picked, e)
          | inr rest ↦ later rest
        ]
      ]

  -- The movies that pserver sorts for a request are exactly those of the file whose titles hold the
  -- keywords, or all if these are the star, each under its title with the rank of its score.
  pub filtered-IsChosen :
      (movies : List (List ℕ × List D)) (x : Scored)
      → Memᴰ x (filtered add mul zero_double rank keywords profile movies)
        ↔ (m : List ℕ × List D) × Memᴰ m movies × IsChosen keywords m.0 × (x ≡ scored m)
  filtered-IsChosen movies x = (
    from_filtered movies x,
    λ (m, within, chosen, e).
        subst (λ y. Memᴰ y (filtered add mul zero_double rank keywords profile movies)) (sym e)
          (into_filtered movies m within chosen),
  )
