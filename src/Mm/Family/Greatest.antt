-- ===== src/Mm/Family/Greatest.antt =====
-- What the searches over all processes find.
use mathlib.Core.Path.{fun_ext}
use mathlib.Core.List.{append-nil, append_assoc}
use soi_24z.Base.{
  ℕ, ◌≤◌, ◌≡◌, refl, sym, ap, ◌∙◌, Bool, true, false, ◌&&◌, ◌==◌, none, some, List, [], ◌∷◌, ◌++◌,
  arith, Run, ok, has, has-append, length, indices_from, has-indices_from, Bool-cases, eq_of_==,
  inl, inr, ◌⊎◌, subst,
}
use soi_24z.Mm.Family.{
  Procs, Best, beats, consider, search_all, in_bounds, max_descendants_in_bounds,
  count_all_descendants,
}
use soi_24z.Mm.Family.Descendants.{count_all_descendants-Descendant}

-- What has been found among the processes `seen`: the greatest of the admitted values, with the
-- pid of a process that has it, or nothing, as there is none.
pub data Greatest (m : Procs) (joins : ℕ → Bool) (value : ℕ → Run ℕ) (admits : ℕ → Bool)
    (seen : List ℕ) : Best → Type 0 where
  nothing :
      ((j d : ℕ) → has j seen ≡ true → joins j ≡ true → value j ≡ ok d → admits d ≡ false)
      → Greatest m joins value admits seen none
  greatest :
      (i d : ℕ)
      → has i seen ≡ true
      → joins i ≡ true
      → value i ≡ ok d
      → admits d ≡ true
      → ((j e : ℕ) → has j seen ≡ true → joins j ≡ true → value j ≡ ok e → admits e ≡ true → e ≤ d)
      → Greatest m joins value admits seen (some (d, (m i).mp_pid))

module _ (m : Procs) (joins : ℕ → Bool) (value : ℕ → Run ℕ) (admits : ℕ → Bool) where
  seen_or :
      (seen : List ℕ) (i j : ℕ) → has j (seen ++ i ∷ []) ≡ true → (has j seen ≡ true) ⊎ (j ≡ i)
  seen_or seen i j h = elim (Bool-cases (j == i)) [
    | inl same ↦ inr (eq_of_== j i same)
    | inr other ↦ inl (ground (arith, h, other, has-append j seen (i ∷ [])))
  ]

  same_value : (i j d e : ℕ) → j ≡ i → value i ≡ ok d → value j ≡ ok e → e ≡ d
  same_value i j d e same v w = cc

  Greatest-keep :
      (seen : List ℕ) (i : ℕ) (best : Best)
      → Greatest m joins value admits seen best
      → ((e : ℕ) → joins i ≡ true → value i ≡ ok e → admits e ≡ true → beats e best ≡ false)
      → Greatest m joins value admits (seen ++ i ∷ []) best
  Greatest-keep seen i none (nothing all) less = nothing (λ j e h o v. elim (seen_or seen i j h) [
    | inl old ↦ all j e old o v
    | inr same ↦ elim (Bool-cases (admits e)) [
      | inl fit ↦
          absurd (ground (arith, less e (ap joins (sym same) ∙ o) (ap value (sym same) ∙ v) fit))
      | inr unfit ↦ unfit
    ]
  ])
  Greatest-keep seen i (some _) (greatest w d h o v fit all) less =
      greatest w d (ground (arith, h, has-append w seen (i ∷ []))) o v fit (λ j e h' o' v' fit'.
        elim (seen_or seen i j h') [
          | inl old ↦ all j e old o' v' fit'
          | inr same ↦
              let unfit = less e (ap joins (sym same) ∙ o') (ap value (sym same) ∙ v') fit' in
              ground (arith, unfit)
        ])

  Greatest-take :
      (seen : List ℕ) (i d : ℕ) (best : Best)
      → Greatest m joins value admits seen best
      → joins i ≡ true
      → value i ≡ ok d
      → admits d ≡ true
      → beats d best ≡ true
      → Greatest m joins value admits (seen ++ i ∷ []) (some (d, (m i).mp_pid))
  Greatest-take seen i d best g o v fit more =
      greatest i d (ground (arith, has-append i seen (i ∷ []))) o v fit (λ j e h o' v' fit'.
        elim (seen_or seen i j h) [
          | inl old ↦ below best g more j e old o' v' fit'
          | inr same ↦ omega (arith, same_value i j d e same v v')
        ])
    where
      below :
          (best : Best)
          → Greatest m joins value admits seen best
          → beats d best ≡ true
          → (j e : ℕ) → has j seen ≡ true
          → joins j ≡ true
          → value j ≡ ok e
          → admits e ≡ true
          → e ≤ d
      below none (nothing all) more j e h o v fit = absurd (ground (arith, all j e h o v, fit))
      below (some _) (greatest w d' h' o' v' y' all) more j e h o v fit =
          ground (arith, all j e h o v fit, more)

  Greatest-consider :
      (seen : List ℕ) (i : ℕ) (best : Best)
      → ((joins i ≡ true) → (d : ℕ) × (value i ≡ ok d))
      → Greatest m joins value admits seen best
      → (best' : Best) × (consider m joins value admits i best ≡ ok best')
        × Greatest m joins value admits (seen ++ i ∷ []) best'
  Greatest-consider seen i best total g = elim (Bool-cases (joins i)) [
    | inr out ↦ (
      best,
      rw out refl,
      Greatest-keep seen i best g (λ e o v y. absurd (ground (arith, o, out))),
    )
    | inl in_it ↦
        let (d, run) = total in_it in
        elim (Bool-cases (beats d best && admits d)) [
          | inl better ↦ (
            some (d, (m i).mp_pid),
            rw (in_it, run, better) refl,
            Greatest-take seen i d best g in_it run (ground (arith, better))
                (ground (arith, better)),
          )
          | inr worse ↦ (
            best,
            rw (in_it, run, worse) refl,
            Greatest-keep seen i best g (λ e o v y.
                let same : e ≡ d = same_value i i d e refl run v in
                subst (λ x. beats x best ≡ false) (sym same)
                  (ground (arith, worse, ap admits same, y))),
          )
        ]
  ]

  pub search_all-Greatest :
      (is seen : List ℕ) (best : Best)
      → ((i : ℕ) → has i is ≡ true → (d : ℕ) × (value i ≡ ok d))
      → Greatest m joins value admits seen best
      → (best' : Best) × (search_all m joins value admits is best ≡ ok best')
        × Greatest m joins value admits (seen ++ is) best'
  unfolding search_all
  search_all-Greatest [] seen best total g =
      (best, refl, subst (λ l. Greatest m joins value admits l best) (sym (append-nil seen)) g)
  search_all-Greatest (i ∷ is) seen best total g =
      let (b, run, g') = Greatest-consider seen i best (λ _. total i (ground arith)) g in
      let (b', run', g'') =
        search_all-Greatest is (seen ++ i ∷ []) b (λ j h. total j (ground (arith, h))) g' in
      (
        b',
        rw run run',
        subst (λ l. Greatest m joins value admits l b') (append_assoc seen (i ∷ []) is) g'',
      )

-- `maxDescendantsInBounds` ends, and finds the greatest number of descendants that its test admits
-- among the processes in use, with the pid of a process that has as many.
pub max_descendants_in_bounds-Greatest :
    (nr : ℕ) (m : Procs) (a b : ℕ)
    → (best : Best) × (max_descendants_in_bounds nr m a b ≡ ok best)
      × Greatest m
          (λ i. (m i).in_use)
          (count_all_descendants nr m)
          (in_bounds a b)
          (indices_from 0 nr)
          best
unfolding max_descendants_in_bounds
max_descendants_in_bounds-Greatest nr m a b =
    search_all-Greatest m (λ i. (m i).in_use) (count_all_descendants nr m) (in_bounds a b)
      (indices_from 0 nr) [] none
      (λ i h.
        let (ds, run, _, _) =
          count_all_descendants-Descendant nr m i (ground (arith, h, has-indices_from i 0 nr)) in
        (length ds, run))
      (nothing (λ j d h. absurd (ground arith)))

-- For an upper bound of at least 1 the bounds of `maxDescendantsInBounds` have no effect.
pub max_descendants_in_bounds-unbounded :
    (nr : ℕ) (m : Procs) (a b a' b' : ℕ)
    → 1 ≤ b
    → 1 ≤ b'
    → max_descendants_in_bounds nr m a b ≡ max_descendants_in_bounds nr m a' b'
unfolding max_descendants_in_bounds
max_descendants_in_bounds-unbounded nr m a b a' b' one one' =
    let same : in_bounds a b ≡ in_bounds a' b' = fun_ext (λ d. ground arith) in
    ap
      (λ (t : ℕ → Bool).
        search_all m (λ i. (m i).in_use) (count_all_descendants nr m) t (indices_from 0 nr) none)
      same
