-- ===== src/Sorting/Order.antt =====
-- The order of hw4/server.c and hw4/lib.c: by score from above, then by title. It is total, and the
-- secret behind a title does not change it.
use sp_homework.Common.{ℕ, ◌≡◌, refl, Bool, true, false, ◌&&◌, List, [], ◌∷◌, ◌++◌, arith, ltb}
use sp_homework.Sorting.{Scored, strcmp, is_below, is_above, precedes, secret, add_secret}

pub strcmp_flip : (s t : List ℕ) → is_above (strcmp s t) ≡ is_below (strcmp t s)
unfolding strcmp
strcmp_flip [] [] = refl
strcmp_flip [] (d ∷ ds) = refl
strcmp_flip (c ∷ cs) [] = refl
strcmp_flip (c ∷ cs) (d ∷ ds) = ground (arith, strcmp_flip cs ds)

strcmp_asym : (s t : List ℕ) → is_below (strcmp s t) ≡ true → is_below (strcmp t s) ≡ false
unfolding strcmp
strcmp_asym [] [] h = refl
strcmp_asym [] (d ∷ ds) h = refl
strcmp_asym (c ∷ cs) [] h = cc
strcmp_asym (c ∷ cs) (d ∷ ds) h = ground (arith, strcmp_asym cs ds)

strcmp_trans :
    (s t u : List ℕ)
    → is_below (strcmp t s) ≡ false
    → is_below (strcmp u t) ≡ false
    → is_below (strcmp u s) ≡ false
unfolding strcmp
strcmp_trans [] t [] h k = refl
strcmp_trans [] t (e ∷ es) h k = refl
strcmp_trans (c ∷ cs) [] u h k = cc
strcmp_trans (c ∷ cs) (d ∷ ds) [] h k = cc
strcmp_trans (c ∷ cs) (d ∷ ds) (e ∷ es) h k = ground (arith, strcmp_trans cs ds es)

-- Of two movies at most one precedes the other.
pub precedes_asym : (x y : Scored) → precedes x y ≡ true → precedes y x ≡ false
precedes_asym x y h = ground (arith, strcmp_asym x.title y.title)

-- Not to be preceded is transitive.
pub precedes_trans :
    (x y z : Scored) → precedes y x ≡ false → precedes z y ≡ false → precedes z x ≡ false
precedes_trans x y z h k = ground (arith, strcmp_trans x.title y.title z.title)

-- A byte of a title is above the tab that begins the secret.
abbrev pub is_plain : List ℕ → Bool
is_plain [] = true
is_plain (c ∷ cs) = ltb 9 c && is_plain cs

strcmp-secret :
    (s t : List ℕ)
    → is_plain s ≡ true
    → is_plain t ≡ true
    → strcmp (s ++ secret) (t ++ secret) ≡ strcmp s t
unfolding strcmp
strcmp-secret [] [] h k = refl
strcmp-secret [] (d ∷ ds) h k = ground arith
strcmp-secret (c ∷ cs) [] h k = ground arith
strcmp-secret (c ∷ cs) (d ∷ ds) h k = ground (arith, strcmp-secret cs ds)

pub precedes-add_secret :
    (x y : Scored)
    → is_plain x.title ≡ true
    → is_plain y.title ≡ true
    → precedes (add_secret x) (add_secret y) ≡ precedes x y
unfolding add_secret
precedes-add_secret x y h k = rw (strcmp-secret x.title y.title h k) refl
