-- ===== src/Wallet/Order/Laws.antt =====
-- The default order and the sorted orders show the wallets that were loaded, each as often.
use mathlib.Core.List.{Permᴰ}
use mathlib.Core.List.Permᴰ
use satosa_saml2spid.Base.{
  ℕ, zero, suc, ◌+◌, ◌-◌, ◌%◌, ◌<◌, ◌⊎◌, length-set, String, ◌≡◌, refl, ◌∙◌, Bool, true, false, not,
  Option, some, inl, inr, ℤ, List, [], ◌∷◌, ◌==◌, if◌then◌else◌, length, get_elem?, set, All,
  filter, arith, Bool-cases, eq_iff,
}
use satosa_saml2spid.Eid.Bundle.{text_of}
use satosa_saml2spid.Wallet.Order.{
  Wallet, swap, shuffle_loop, shuffle_wallets, is_pos, insert, sort, by_name, sort_wallets,
}

-- What is drawn is at most the position that it is drawn for.
drawn_inside : (d i n : ℕ) → suc i < n → d % (suc i + 1) < n
drawn_inside d i n h = omega arith

module _ {ℓ} {A : Type ℓ} where
  -- The head of a list exchanged with an element of the tail.
  exchange :
      (xs : List A) (j : ℕ) (a b : A) → get_elem? xs j ≡ some b → Permᴰ (b ∷ set xs j a) (a ∷ xs)
  exchange [] j a b e = cc
  exchange (c ∷ xs) zero a b e = Permᴰ.swap (ground arith) refl
  exchange (c ∷ xs) (suc j) a b e =
      Permᴰ.trans (Permᴰ.swap refl refl)
        (Permᴰ.trans (Permᴰ.cons refl (exchange xs j a b e)) (Permᴰ.swap refl refl))

  set-Perm :
      (xs : List A) (i j : ℕ) (a b : A)
      → get_elem? xs i ≡ some a
      → get_elem? xs j ≡ some b
      → Permᴰ (set (set xs i b) j a) xs
  set-Perm [] i j a b ei ej = cc
  set-Perm (c ∷ xs) zero zero a b ei ej = Permᴰ.cons (ground arith) (Permᴰ.refl xs)
  set-Perm (c ∷ xs) zero (suc j) a b ei ej =
      Permᴰ.trans (exchange xs j a b ej) (Permᴰ.cons (ground arith) (Permᴰ.refl xs))
  set-Perm (c ∷ xs) (suc i) zero a b ei ej =
      Permᴰ.trans (exchange xs i b a ei) (Permᴰ.cons (ground arith) (Permᴰ.refl xs))
  set-Perm (c ∷ xs) (suc i) (suc j) a b ei ej = Permᴰ.cons refl (set-Perm xs i j a b ei ej)

  -- A position inside a list has an element.
  inside : (xs : List A) (i : ℕ) → i < length xs → (a : A) × (get_elem? xs i ≡ some a)
  inside [] i h = elim (absurd h) [ ]
    where
      absurd : i < 0 → ⊥
      absurd h = omega arith
  inside (x ∷ xs) zero h = (x, refl)
  inside (x ∷ xs) (suc i) h = inside xs i (omega arith)

  -- A list that is the other in another order, and as long.
  abbrev Shuffled : Option (List A) → List A → Type ℓ
  Shuffled o xs = (ys : List A) × (o ≡ some ys) × Permᴰ ys xs × (length ys ≡ length xs)

  swap-some :
      (xs : List A) (i j : ℕ) (a b : A)
      → get_elem? xs i ≡ some a
      → get_elem? xs j ≡ some b
      → swap xs i j ≡ some (set (set xs i b) j a)
  unfolding swap
  swap-some xs i j a b ei ej = rw (swap, ei, ej) refl

  swap-Shuffled :
      (xs : List A) (i j : ℕ) → i < length xs → j < length xs → Shuffled (swap xs i j) xs
  swap-Shuffled xs i j hi hj =
      let (a, ei) = inside xs i hi in
      let (b, ej) = inside xs j hj in
      (
        set (set xs i b) j a,
        swap-some xs i j a b ei ej,
        set-Perm xs i j a b ei ej,
        length-set (set xs i b) j a ∙ length-set xs i b,
      )

  loop-step :
      (draw : ℕ → ℕ) (i : ℕ) (xs ys : List A)
      → swap xs (suc i) (draw (suc i) % (suc i + 1)) ≡ some ys
      → shuffle_loop draw (suc i) xs ≡ shuffle_loop draw i ys
  unfolding shuffle_loop
  loop-step draw i xs ys e = rw (shuffle_loop, e) refl

  shuffle_loop-Shuffled :
      (draw : ℕ → ℕ) (i : ℕ) (xs : List A)
      → (i ≡ 0) ⊎ (i < length xs)
      → Shuffled (shuffle_loop draw i xs) xs
  shuffle_loop-Shuffled draw zero xs h = (xs, unfold shuffle_loop in refl, Permᴰ.refl xs, refl)
  shuffle_loop-Shuffled draw (suc i) xs (inl e) = elim (absurd e) [ ]
    where
      absurd : suc i ≡ 0 → ⊥
      absurd e = omega arith
  shuffle_loop-Shuffled draw (suc i) xs (inr h) =
      let j = draw (suc i) % (suc i + 1) in
      let (ys, e, p, n) =
        swap-Shuffled xs (suc i) j h (drawn_inside (draw (suc i)) i (length xs) h) in
      let (zs, f, q, m) =
        shuffle_loop-Shuffled draw i ys (inr (shorter (length xs) (length ys) n h)) in
      (zs, loop-step draw i xs ys e ∙ f, Permᴰ.trans q p, m ∙ n)
    where
      shorter : (a b : ℕ) → b ≡ a → suc i < a → i < b
      shorter a b e h = omega arith

  -- Whatever is drawn, the shuffle reads and writes inside the array only, and the shuffled list holds the
  -- same elements, each as often.
  pub shuffle_wallets-Perm :
      (draw : ℕ → ℕ) (xs : List A)
      → (ys : List A) × (shuffle_wallets draw xs ≡ some ys) × Permᴰ ys xs
  unfolding shuffle_wallets
  shuffle_wallets-Perm draw xs =
      let (ys, e, p, n) = shuffle_loop-Shuffled draw (length xs - 1) xs (last xs) in (ys, e, p)
    where
      last : (xs : List A) → (length xs - 1 ≡ 0) ⊎ (length xs - 1 < length xs)
      last [] = inl refl
      last (x ∷ xs) = inr (omega arith)

module _ {ℓ} {A : Type ℓ} (compare : A → A → ℤ) where
  abbrev pub leq : A → A → Bool
  leq a b = not (is_pos (compare a b))

  -- Each element is at most every later one.
  abbrev pub Sorted : List A → Type ℓ
  Sorted [] = Unit
  Sorted (x ∷ xs) = All (λ y. leq x y ≡ true) xs × Sorted xs

  insert-Perm : (x : A) (ys : List A) → Permᴰ (insert compare x ys) (x ∷ ys)
  unfolding insert
  insert-Perm x [] = Permᴰ.refl (x ∷ [])
  insert-Perm x (y ∷ ys) = elim (Bool-cases (is_pos (compare x y))) [
    | inl p ↦ rw p (Permᴰ.trans (Permᴰ.cons refl (insert-Perm x ys)) (Permᴰ.swap refl refl))
    | inr n ↦ rw n (Permᴰ.refl (x ∷ y ∷ ys))
  ]

  sort-Perm : (xs : List A) → Permᴰ (sort compare xs) xs
  unfolding sort
  sort-Perm [] = Permᴰ.refl []
  sort-Perm (x ∷ xs) =
      Permᴰ.trans (insert-Perm x (sort compare xs)) (Permᴰ.cons refl (sort-Perm xs))

  module _ (total : (a b : A) → leq a b ≡ false → leq b a ≡ true)
      (transitive : (a b c : A) → leq a b ≡ true → leq b c ≡ true → leq a c ≡ true) where
    below :
        (x y : A) (ys : List A)
        → leq x y ≡ true
        → All (λ z. leq y z ≡ true) ys
        → All (λ z. leq x z ≡ true) ys
    below x y [] h k = tt
    below x y (z ∷ ys) h (p, k) = (transitive x y z h p, below x y ys h k)

    insert-All :
        (y x : A) (ys : List A)
        → leq y x ≡ true
        → All (λ z. leq y z ≡ true) ys
        → All (λ z. leq y z ≡ true) (insert compare x ys)
    unfolding insert
    insert-All y x [] h k = (h, tt)
    insert-All y x (z ∷ ys) h (p, k) = elim (Bool-cases (is_pos (compare x z))) [
      | inl c ↦ rw c (p, insert-All y x ys h k)
      | inr c ↦ rw c (h, (p, k))
    ]

    insert-Sorted : (x : A) (ys : List A) → Sorted ys → Sorted (insert compare x ys)
    unfolding insert
    insert-Sorted x [] s = (tt, tt)
    insert-Sorted x (y ∷ ys) (h, s) = elim (Bool-cases (is_pos (compare x y))) [
      | inl c ↦ rw c (insert-All y x ys (total x y (ground arith)) h, insert-Sorted x ys s)
      | inr c ↦ rw c ((ground arith, below x y ys (ground arith) h), (h, s))
    ]

    pub sort-Sorted : (xs : List A) → Sorted (sort compare xs)
    unfolding sort
    sort-Sorted [] = tt
    sort-Sorted (x ∷ xs) = insert-Sorted x (sort compare xs) (sort-Sorted xs)

  -- Elements that `p` picks and that compare as equal keep their order.
  module _ (p : A → Bool) (tied : (a b : A) → p a ≡ true → p b ≡ true → leq a b ≡ true) where
    filter-insert : (x : A) (ys : List A) → filter p (insert compare x ys) ≡ filter p (x ∷ ys)
    unfolding insert
    filter-insert x [] = refl
    filter-insert x (y ∷ ys) = elim (Bool-cases (is_pos (compare x y))) [
      | inl c ↦ rw c (ground (arith, filter-insert x ys, tied x y))
      | inr c ↦ rw c refl
    ]

    pub filter-sort : (xs : List A) → filter p (sort compare xs) ≡ filter p xs
    unfolding sort
    filter-sort [] = refl
    filter-sort (x ∷ xs) = filter-insert x (sort compare xs) ∙ (ground (arith, filter-sort xs))

module _ (locale_compare : String → String → ℤ) where
  -- Whatever the sort value, the wallets shown are the given ones, each as often.
  pub sort_wallets-Perm :
      (wallets : List Wallet) (sort_value : String)
      → Permᴰ (sort_wallets locale_compare wallets sort_value) wallets
  unfolding sort_wallets
  sort_wallets-Perm wallets sort_value = by_value (sort_value == "az") (sort_value == "za")
    where
      by_value :
          (az za : Bool)
          → Permᴰ
              (if az
                then sort (by_name locale_compare) wallets
                else if za
                then sort (λ a b. by_name locale_compare b a) wallets
                else wallets)
              wallets
      by_value true za = sort-Perm (by_name locale_compare) wallets
      by_value false true = sort-Perm (λ a b. by_name locale_compare b a) wallets
      by_value false false = Permᴰ.refl wallets

  abbrev pub named : String → Wallet → Bool
  named n w = text_of w.name == n

  module _ (total : (a b : String) → leq locale_compare a b ≡ false → leq locale_compare b a ≡ true)
      (transitive : (a b c : String)
        → leq locale_compare a b ≡ true
        → leq locale_compare b c ≡ true
        → leq locale_compare a c ≡ true) where
    reflexive : (a : String) → leq locale_compare a a ≡ true
    reflexive a = elim (Bool-cases (leq locale_compare a a)) [ inl y ↦ y | inr n ↦ total a a n ]

    tied_names :
        (n : String) (v w : Wallet)
        → named n v ≡ true
        → named n w ≡ true
        → leq (by_name locale_compare) v w ≡ true
    tied_names n v w hv hw =
        rw ((eq_iff (text_of v.name) n).0 hv, (eq_iff (text_of w.name) n).0 hw) (reflexive n)

    -- Where `localeCompare` orders texts totally, `az` lists the wallets by ascending name and `za` by
    -- descending name, and both keep wallets of one name in the order in which they were given.
    pub sort_wallets-Sorted :
        (wallets : List Wallet) (n : String)
        → let az = sort_wallets locale_compare wallets "az" in
          let za = sort_wallets locale_compare wallets "za" in
          Sorted (by_name locale_compare) az
          × Sorted (λ a b. by_name locale_compare b a) za
          × (filter (named n) az ≡ filter (named n) wallets)
          × (filter (named n) za ≡ filter (named n) wallets)
    unfolding sort_wallets
    sort_wallets-Sorted wallets n = (
      sort-Sorted (by_name locale_compare) (λ a b. total (text_of a.name) (text_of b.name))
          (λ a b c. transitive (text_of a.name) (text_of b.name) (text_of c.name)) wallets,
      sort-Sorted (λ a b. by_name locale_compare b a)
          (λ a b. total (text_of b.name) (text_of a.name))
          (λ a b c h k. transitive (text_of c.name) (text_of b.name) (text_of a.name) k h) wallets,
      filter-sort (by_name locale_compare) (named n) (tied_names n) wallets,
      filter-sort (λ a b. by_name locale_compare b a) (named n)
          (λ v w hv hw. tied_names n w v hw hv) wallets,
    )
