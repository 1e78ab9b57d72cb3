-- ===== src/Hash/Split.antt =====
-- strings.Split at a byte, and strings.SplitN with two parts, as hash/hash_comparator.go uses them.
use kratos.Base.{
  ◌∙◌, All, ap, ℕ, List, [], ◌∷◌, ◌++◌, Bool, true, false, not, ◌&&◌, Option, none, some, ◌==◌,
  nat_eq,
}
use kratos.Base.{if◌then◌else◌, ◌≡◌, refl, arith}

abbrev onto_first : ℕ → List (List ℕ) → List (List ℕ)
onto_first c [] = (c ∷ []) ∷ []
onto_first c (p ∷ ps) = (c ∷ p) ∷ ps

unfoldable pub split : ℕ → List ℕ → List (List ℕ)
split d [] = [] ∷ []
split d (c ∷ s) = let rest = split d s in if c == d then [] ∷ rest else onto_first c rest

abbrev onto_before : ℕ → Option (List ℕ × List ℕ) → Option (List ℕ × List ℕ)
onto_before c none = none
onto_before c (some (before, after')) = some (c ∷ before, after')

-- What is before and after the first of the byte, if there is one.
abbrev pub cut : ℕ → List ℕ → Option (List ℕ × List ℕ)
cut d [] = none
cut d (c ∷ s) = let rest = cut d s in if c == d then some ([], s) else onto_before c rest

-- A text without the byte.
abbrev pub is_free : ℕ → List ℕ → Bool
is_free d [] = true
is_free d (c ∷ s) = not (c == d) && is_free d s

head_free :
    (d c : ℕ) (s : List ℕ) → is_free d (c ∷ s) ≡ true → ((c == d) ≡ false) × (is_free d s ≡ true)
head_free d c s h = ground (arith, h)

-- A text that is free of the byte is the first part of what is split behind it, and is all of it
-- where nothing follows.
split_first : (d : ℕ) (a b : List ℕ) → is_free d a ≡ true → split d (a ++ d ∷ b) ≡ a ∷ split d b
unfolding split
split_first d [] b h = rw ((nat_eq.beq_iff d d).1 refl) refl
split_first d (c ∷ a) b h =
    let (differs, rest) = head_free d c a h in rw (split_first d a b rest, differs) refl

split_last : (d : ℕ) (a : List ℕ) → is_free d a ≡ true → split d a ≡ a ∷ []
unfolding split
split_last d [] h = refl
split_last d (c ∷ a) h =
    let (differs, rest) = head_free d c a h in rw (split_last d a rest, differs) refl

-- Texts joined by the byte, one before the first of them.
abbrev pub joined : ℕ → List (List ℕ) → List ℕ
joined d [] = []
joined d (a ∷ []) = a
joined d (a ∷ b ∷ rest) = a ++ d ∷ joined d (b ∷ rest)

-- strings.Split undoes the joining of texts that are free of the byte.
pub split-joined :
    (d : ℕ) (a : List ℕ) (rest : List (List ℕ))
    → All (λ s. is_free d s ≡ true) (a ∷ rest)
    → split d (joined d (a ∷ rest)) ≡ a ∷ rest
split-joined d a [] (h, hs) = split_last d a h
split-joined d a (b ∷ rest) (h, hs) =
    split_first d a (joined d (b ∷ rest)) h ∙ ap (λ x. a ∷ x) (split-joined d b rest hs)
