-- ===== src/Partition/Search.antt =====
-- `sort.Search` and the in-cluster shard. The search is binary, and its test looks at a name, while
-- the shards are ordered by load.
use argocd_autoscaler.Base.{
  ℕ, zero, suc, ◌+◌, ◌-◌, ◌/◌, ◌≤◌, ◌<◌, ◌≡◌, refl, ap, ◌≢◌, ◌⊎◌, inl, inr, Bool, true, false, some,
  List, [], ◌∷◌, ◌++◌, Bool-cases, ltb, length, length-append, get_elem?, erase_at, All, arith,
}
use argocd_autoscaler.Arithmetic.{Arithmetic}
use argocd_autoscaler.Api.{LoadIndex}
use argocd_autoscaler.Partition.{
  search_between, search, in_cluster_condition, condition_at, in_cluster_index, in_cluster_first,
}

-- The answer lies within the bounds, and past a failing test and at a passing one.
record IsAnswer (i j : ℕ) (f : ℕ → Bool) (k : ℕ) : Type 0 where
  above : i ≤ k
  below : k ≤ j
  failing : (k ≡ i) ⊎ (f (k - 1) ≡ false)
  passing : (k ≡ j) ⊎ (f k ≡ true)

search_between-IsAnswer :
    (fuel i j : ℕ) (f : ℕ → Bool)
    → i ≤ j
    → j ≤ i + fuel
    → IsAnswer i j f (search_between fuel i j f)
unfolding search_between
search_between-IsAnswer zero i j f h k = record {
  above = omega arith;
  below = h;
  failing = inl refl;
  passing = inl (omega arith);
}
search_between-IsAnswer (suc fuel) i j f h k = elim (Bool-cases (ltb i j)) [
  | inr done ↦
      rw done (record {
        above = omega arith;
        below = h;
        failing = inl refl;
        passing = inl (ground arith);
      })
  | inl more ↦ elim (Bool-cases (f ((i + j) / 2))) [
    | inl hit ↦
        let a = search_between-IsAnswer fuel i ((i + j) / 2) f (ground arith) (ground arith) in
        rw (more, hit) (ground (arith, a))
    | inr miss ↦
        let a = search_between-IsAnswer fuel ((i + j) / 2 + 1) j f (ground arith) (ground arith) in
        rw (more, miss) (ground (arith, a))
  ]
]

search-IsAnswer : (n : ℕ) (f : ℕ → Bool) → IsAnswer 0 n f (search n f)
unfolding search
search-IsAnswer n f = search_between-IsAnswer n 0 n f (omega arith) (omega arith)

-- The search looks first at the middle, and never to the left of a place where the test fails.
search-past_middle : (n : ℕ) (f : ℕ → Bool) → 0 < n → f (n / 2) ≡ false → n / 2 < search n f
unfolding search search_between
search-past_middle (suc m) f h e =
    let a = search_between-IsAnswer m ((0 + suc m) / 2 + 1) (suc m) f (omega arith) (omega arith) in
    let z : (0 + suc m) / 2 ≡ suc m / 2 = omega arith in ground (arith, a.above, z, e)
search-past_middle zero f h e = absurd (omega arith)

-- A search whose test fails before the last place and passes there finds the last place.
pinned :
    (m n k : ℕ) (f : ℕ → Bool)
    → n ≡ m + 1
    → f m ≡ true
    → IsAnswer 0 n f k
    → (k < m → f k ≡ false)
    → k ≡ m
pinned m n k f e last a before = ground arith

module _ (n : Arithmetic) where
  in_cluster_first_miss :
      (ls : List (LoadIndex n.Quantity))
      → condition_at n ls (in_cluster_index n ls) ≡ false
      → in_cluster_first n ls ≡ ls
  unfolding in_cluster_first
  in_cluster_first_miss ls h = ground arith

  -- Where all other places of the sorted shards hold none, an in-cluster shard in their first half,
  -- before the middle place, is passed over: `Sort` leaves the shards as they are.
  pub in_cluster_missed :
      (ls : List (LoadIndex n.Quantity)) (k : ℕ)
      → k < length ls / 2
      → ((i : ℕ) → i ≢ k → condition_at n ls i ≡ false)
      → in_cluster_first n ls ≡ ls
  in_cluster_missed ls k h others = in_cluster_first_miss ls (
      others (in_cluster_index n ls) (λ e. absurd (
        omega (
          arith,
          search-past_middle (length ls) (condition_at n ls) (omega arith)
              (others (length ls / 2) (λ e'. omega arith)),
          e,
        ))))

  get_elem?-append_last :
      {A : Type 0} (xs : List A) (x : A) → get_elem? (xs ++ x ∷ []) (length xs) ≡ some x
  get_elem?-append_last [] x = refl
  get_elem?-append_last (y ∷ xs) x = get_elem?-append_last xs x

  erase_at-append_last :
      {A : Type 0} (xs : List A) (x : A) → erase_at (xs ++ x ∷ []) (length xs) ≡ xs
  erase_at-append_last [] x = refl
  erase_at-append_last (y ∷ xs) x = rw (erase_at-append_last xs x)

  condition_at-others :
      (ls : List (LoadIndex n.Quantity)) (l : LoadIndex n.Quantity) (i : ℕ)
      → All (λ m. in_cluster_condition n m ≡ false) ls
      → i < length ls
      → condition_at n (ls ++ l ∷ []) i ≡ false
  condition_at-others [] l i h lt = absurd (omega arith)
  condition_at-others (m ∷ ls) l zero h lt = h.0
  condition_at-others (m ∷ ls) l (suc i) h lt = condition_at-others ls l i h.1 (omega arith)

  in_cluster_index-last :
      (ls : List (LoadIndex n.Quantity)) (l : LoadIndex n.Quantity)
      → All (λ m. in_cluster_condition n m ≡ false) ls
      → in_cluster_condition n l ≡ true
      → in_cluster_index n (ls ++ l ∷ []) ≡ length ls
  in_cluster_index-last ls l h hit =
      at_last (search-IsAnswer (length (ls ++ l ∷ [])) (condition_at n (ls ++ l ∷ [])))
        (condition_at-others ls l (in_cluster_index n (ls ++ l ∷ [])) h)
    where
      last : condition_at n (ls ++ l ∷ []) (length ls) ≡ true
      last = rw (get_elem?-append_last ls l, condition_at) hit

      at_last :
          IsAnswer 0
            (length (ls ++ l ∷ []))
            (condition_at n (ls ++ l ∷ []))
            (in_cluster_index n (ls ++ l ∷ []))
          → (in_cluster_index n (ls ++ l ∷ []) < length ls
              → condition_at n (ls ++ l ∷ []) (in_cluster_index n (ls ++ l ∷ [])) ≡ false)
          → in_cluster_index n (ls ++ l ∷ []) ≡ length ls
      at_last a before =
          pinned (length ls) (length (ls ++ l ∷ [])) (in_cluster_index n (ls ++ l ∷ []))
            (condition_at n (ls ++ l ∷ [])) (omega (arith, length-append ls (l ∷ []))) last a before

  -- Where no other shard is in-cluster, an in-cluster shard in the last place of the sorted shards is
  -- put before the others, which keep their order.
  pub in_cluster_last_first :
      (ls : List (LoadIndex n.Quantity)) (l : LoadIndex n.Quantity)
      → All (λ m. in_cluster_condition n m ≡ false) ls
      → in_cluster_condition n l ≡ true
      → in_cluster_first n (ls ++ l ∷ []) ≡ l ∷ ls
  unfolding in_cluster_first
  in_cluster_last_first ls l h hit =
      rw (in_cluster_index-last ls l h hit, in_cluster_first)
        (rw (get_elem?-append_last ls l)
          (rw hit (ap (◌∷◌ l) (rw (in_cluster_index-last ls l h hit) (erase_at-append_last ls l)))))
