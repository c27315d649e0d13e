-- ===== src/Server/Rows.antt =====
-- How the selections of a table answer after an insertion, an update or a deletion.
use oshioki.Base.{
  ◌+◌, ◌≤◌, ◌≡◌, refl, inl, inr, Bool, true, false, none, some, List, [], ◌∷◌, ◌++◌, arith, All,
  if◌then◌else◌, find, any, retain, Option-cases, Bool-cases,
}
use mathlib.Core.Path.{subst}
use oshioki.Server.Decide.{find_last}
use oshioki.Server.Tables.{update_where, count_where, is_none}

module _ {ℓ} {A : Type ℓ} where
  module _ (p : A → Bool) where
    pub count-append :
        (xs ys : List A) → count_where p (xs ++ ys) ≡ count_where p xs + count_where p ys
    count-append [] ys = omega arith
    count-append (x ∷ xs) ys = ground (arith, count-append xs ys)

    pub count-retain :
        (keep : A → Bool) (xs : List A) → count_where p (retain keep xs) ≤ count_where p xs
    count-retain keep [] = omega arith
    count-retain keep (x ∷ xs) = ground (arith, count-retain keep xs)

    pub find-none : (xs : List A) → find p xs ≡ none → count_where p xs ≡ 0
    find-none [] h = refl
    find-none (x ∷ xs) h = ground (arith, find-none xs)

    pub find-some : (xs : List A) (a : A) → find p xs ≡ some a → p a ≡ true
    find-some [] a h = cc
    find-some (x ∷ xs) a h = ground (arith, find-some xs a)

    pub count-found : (xs : List A) → 1 ≤ count_where p xs → is_none (find p xs) ≡ false
    count-found [] h = absurd (omega arith)
    count-found (x ∷ xs) h = ground (arith, count-found xs)

    pub find-count : (xs : List A) (a : A) → find p xs ≡ some a → 1 ≤ count_where p xs
    find-count [] a h = absurd (cc)
    find-count (x ∷ xs) a h = ground (arith, find-count xs a)

    pub find-append-none : (xs ys : List A) → find p xs ≡ none → find p (xs ++ ys) ≡ find p ys
    find-append-none [] ys h = refl
    find-append-none (x ∷ xs) ys h = ground (arith, find-append-none xs ys)

    pub find-append-some :
        (xs ys : List A) (a : A) → find p xs ≡ some a → find p (xs ++ ys) ≡ some a
    find-append-some [] ys a h = cc
    find-append-some (x ∷ xs) ys a h = ground (arith, find-append-some xs ys a)

    -- Where at most one row passes, a deletion leaves the selection alone or empties it.
    pub find-retain :
        (keep : A → Bool) (xs : List A) (a : A)
        → count_where p xs ≤ 1
        → find p (retain keep xs) ≡ some a
        → find p xs ≡ some a
    find-retain keep [] a one h = cc
    find-retain keep (x ∷ xs) a one h =
        ground (
          arith,
          one,
          h,
          count-retain keep xs,
          find-retain keep xs a,
          find-count (retain keep xs) a,
        )

    -- An update that leaves the test alone.
    module _ (q : A → Bool) (f : A → A) (same : (a : A) → p (f a) ≡ p a) where
      pub count-update : (xs : List A) → count_where p (update_where q f xs) ≡ count_where p xs
      count-update [] = refl
      count-update (x ∷ xs) = ground (arith, count-update xs, same x)

      pub find-update-none : (xs : List A) → find p xs ≡ none → find p (update_where q f xs) ≡ none
      find-update-none [] h = refl
      find-update-none (x ∷ xs) h = ground (arith, find-update-none xs, same x)

      pub find-update :
          (xs : List A) (a : A)
          → find p xs ≡ some a
          → find p (update_where q f xs) ≡ some (if q a then f a else a)
      find-update [] a h = cc
      find-update (x ∷ xs) a h = ground (arith, h, find-update xs a, same x)

  module _ {κ} (P : A → Type κ) (p : A → Bool) where
    pub All-find : (xs : List A) (a : A) → All P xs → find p xs ≡ some a → P a
    All-find [] a all h = absurd (cc)
    All-find (x ∷ xs) a (px, all) h = elim (Bool-cases (p x)) [
      | inl t ↦ subst P (ground (arith, t, h)) px
      | inr u ↦ All-find xs a all (ground (arith, u, h))
    ]

    pub All-update :
        (f : A → A) (xs : List A)
        → ((a : A) → P a → P (f a))
        → All P xs
        → All P (update_where p f xs)
    All-update f [] keeps all = tt
    All-update f (x ∷ xs) keeps (px, all) = elim (Bool-cases (p x)) [
      | inl t ↦ rw (t) (keeps x px, All-update f xs keeps all)
      | inr u ↦ rw (u) (px, All-update f xs keeps all)
    ]

    pub All-find_last :
        (xs : List A) (a : A) → All P xs → find_last p xs ≡ some a → P a × (p a ≡ true)
    All-find_last [] a all h = absurd (cc)
    All-find_last (x ∷ xs) a (px, all) h = elim (Option-cases (find_last p xs)) [
      | inr (b, later) ↦ All-find_last xs a all (ground (arith, later, h))
      | inl n ↦ (subst P (ground (arith, n, h)) px, ground (arith, n, h))
    ]

  module _ {κ} (P : A → Type κ) (p : A → Bool) where
    pub any-All : (xs : List A) → any p xs ≡ false → All (λ a. p a ≡ true → P a) xs
    any-All [] h = tt
    any-All (x ∷ xs) h = ((λ t. absurd (ground (arith, h, t))), any-All xs (ground (arith, h)))

  pub find-counted :
      (q p : A → Bool) (xs : List A) (a : A)
      → find q xs ≡ some a
      → p a ≡ true
      → 1 ≤ count_where p xs
  find-counted q p [] a h own = absurd (cc)
  find-counted q p (x ∷ xs) a h own = ground (arith, h, own, find-counted q p xs a)
