-- ===== src/Sql/Newest.antt =====
-- A WHERE ... ORDER BY ... DESC LIMIT query returns the newest matching rows, newest first.
use mathlib.Core.List.{Perm}
use mathlib.Core.List.Perm
use drive_power.Prelude.{
  ℕ, suc, zero, ◌≤◌, List, [], ◌∷◌, ◌++◌, Bool, true, ◌≡◌, ◌⊎◌, inl, inr, refl, arith, ltb,
  Bool-cases, select, take, drop, All, All-take, All-drop, length, length-take-le, take-append-drop,
}
use drive_power.Sql.{insert_desc, order_by_desc, query_desc}

module _ {ℓ} {A : Type ℓ} (p : A → Bool) where
  pub All-select : (rows : List A) → All (λ r. p r ≡ true) (select p rows)
  unfolding select
  All-select [] = tt
  All-select (x ∷ xs) = ground (arith, All-select xs)

module _ {ℓ} {A : Type ℓ} (key : A → ℕ) where
  abbrev pub IsDesc : List A → Type 0
  IsDesc [] = Unit
  IsDesc (x ∷ xs) = All (λ y. key y ≤ key x) xs × IsDesc xs

  pub insert_desc-perm : (x : A) (ys : List A) → Perm (insert_desc key x ys) (x ∷ ys)
  unfolding insert_desc
  insert_desc-perm x [] = Perm.refl (x ∷ [])
  insert_desc-perm x (y ∷ ys) = elim (Bool-cases (ltb (key y) (key x))) [
    | inl e ↦ rw e (Perm.refl _)
    | inr e ↦ rw e (Perm.trans (Perm.cons y (insert_desc-perm x ys)) (Perm.swap x y ys))
  ]

  pub order_by_desc-perm : (xs : List A) → Perm (order_by_desc key xs) xs
  unfolding order_by_desc
  order_by_desc-perm [] = Perm.refl []
  order_by_desc-perm (x ∷ xs) =
      Perm.trans (insert_desc-perm x _) (Perm.cons x (order_by_desc-perm xs))

  All-insert_desc {κ} :
      (P : A → Type κ) (x : A) (ys : List A) → P x → All P ys → All P (insert_desc key x ys)
  unfolding insert_desc
  All-insert_desc P x [] px h = (px, tt)
  All-insert_desc P x (y ∷ ys) px (py, h) = elim (Bool-cases (ltb (key y) (key x))) [
    | inl e ↦ rw e (px, (py, h))
    | inr e ↦ rw e (py, All-insert_desc P x ys px h)
  ]

  pub All-order_by_desc {κ} :
      (P : A → Type κ) (xs : List A) → All P xs → All P (order_by_desc key xs)
  unfolding order_by_desc
  All-order_by_desc P [] h = tt
  All-order_by_desc P (x ∷ xs) (px, h) = All-insert_desc P x _ px (All-order_by_desc P xs h)

  All-le_trans : {a b : ℕ} (ys : List A) → a ≤ b → All (λ y. key y ≤ a) ys → All (λ y. key y ≤ b) ys
  All-le_trans [] h k = tt
  All-le_trans (y ∷ ys) h (q, k) = (omega arith, All-le_trans ys h k)

  insert_desc-IsDesc : (x : A) (ys : List A) → IsDesc ys → IsDesc (insert_desc key x ys)
  unfolding insert_desc
  insert_desc-IsDesc x [] h = (tt, tt)
  insert_desc-IsDesc x (y ∷ ys) (below, h) = elim (Bool-cases (ltb (key y) (key x))) [
    | inl e ↦
        let lt : key y ≤ key x = ground arith in rw e ((lt, All-le_trans ys lt below), (below, h))
    | inr e ↦
        rw e (
          All-insert_desc (λ z. key z ≤ key y) x ys (ground arith) below,
          insert_desc-IsDesc x ys h,
        )
  ]

  pub order_by_desc-IsDesc : (xs : List A) → IsDesc (order_by_desc key xs)
  unfolding order_by_desc
  order_by_desc-IsDesc [] = tt
  order_by_desc-IsDesc (x ∷ xs) = insert_desc-IsDesc x _ (order_by_desc-IsDesc xs)

  take-IsDesc : (n : ℕ) (xs : List A) → IsDesc xs → IsDesc (take n xs)
  take-IsDesc zero xs h = tt
  take-IsDesc (suc n) [] h = tt
  take-IsDesc (suc n) (x ∷ xs) (below, h) = (All-take _ n xs below, take-IsDesc n xs h)

  -- What LIMIT cuts off is no newer than what it keeps.
  drop-le-take :
      (n : ℕ) (xs : List A)
      → IsDesc xs
      → All (λ x. All (λ y. key y ≤ key x) (drop n xs)) (take n xs)
  drop-le-take zero xs h = tt
  drop-le-take (suc n) [] h = tt
  drop-le-take (suc n) (x ∷ xs) (below, h) = (All-drop _ n xs below, drop-le-take n xs h)

  full_or_all : (n : ℕ) (xs : List A) → (length (take n xs) ≡ n) ⊎ (drop n xs ≡ [])
  full_or_all zero xs = inl refl
  full_or_all (suc n) [] = inr refl
  full_or_all (suc n) (x ∷ xs) = ground (arith, full_or_all n xs)

  -- `found` is the n newest of the rows that pass `p`, newest first: with the rows `rest` that were
  -- cut off it makes up the matching rows, and none of these is newer than one that was kept.
  pub record IsNewest (p : A → Bool) (n : ℕ) (rows found : List A) : Type ℓ where
    pub rest : List A
    pub complete : Perm (found ++ rest) (select p rows)
    pub matching : All (λ r. p r ≡ true) found
    pub sorted : IsDesc found
    pub newest : All (λ x. All (λ y. key y ≤ key x) rest) found
    pub bounded : length found ≤ n
    pub cut : (length found ≡ n) ⊎ (rest ≡ [])

  pub query_desc-IsNewest :
      (p : A → Bool) (n : ℕ) (rows : List A) → IsNewest p n rows (query_desc key p n rows)
  unfolding query_desc
  query_desc-IsNewest p n rows =
      let sorted = order_by_desc key (select p rows) in
      let desc = order_by_desc-IsDesc (select p rows) in
      record {
        rest = drop n sorted;
        complete = rw take-append-drop (order_by_desc-perm (select p rows));
        matching = All-take _ n sorted (All-order_by_desc _ _ (All-select p rows));
        sorted = take-IsDesc n sorted desc;
        newest = drop-le-take n sorted desc;
        bounded = length-take-le n sorted;
        cut = full_or_all n sorted;
      }
