-- ===== src/Kernel/Queue/Links.antt =====
-- The ready queues as lists of processes: what `ready` makes of them.
use soi_24z.Base.{
  ℕ, ◌≡◌, refl, sym, ◌∙◌, inl, inr, false, none, some, Ptr, ok, List, [], ◌∷◌, ◌++◌, arith, has,
  Chain, last_entry, last_ptr-append, Relinked, subst, View, TailAt, push_front, push_back,
}
use soi_24z.Kernel.Proc.{
  Queue, task_q, server_q, user_q, Kernel, rdy_head, rdy_tail, set_head, set_tail, set_nextready,
  nextready,
}
use soi_24z.Kernel.Queue.{queue_of, ready, ready_in, enqueue, enqueue_user, run_fresh}

-- The queue `q` holds the processes `xs`, in order, each once.
abbrev pub IsQueue : Queue → Kernel → List ℕ → Type 0
IsQueue q k xs = View (nextready k) (rdy_head q k) (rdy_tail q k) xs

-- A write to `p_nextready`.
pub set_nextready-Relinked :
    (k : Kernel) (a : ℕ) (p : Ptr) → Relinked (nextready k) (nextready (set_nextready a p k)) a p
set_nextready-Relinked k a p = record { here = ground arith; there = λ b h. ground arith }

enqueue_user-cons :
    (rp x : ℕ) (k : Kernel)
    → k.head_user ≡ some x
    → enqueue_user rp k ≡ record (set_nextready rp k.head_user k) { head_user = some rp }
unfolding enqueue_user
enqueue_user-cons rp x k e = rw (e, enqueue_user) (rw e)

-- `ready` puts a user process in front of the user queue.
pub enqueue_user-IsQueue :
    (k : Kernel) (rp : ℕ) (xs : List ℕ)
    → IsQueue user_q k xs
    → has rp xs ≡ false
    → IsQueue user_q (enqueue_user rp k) (rp ∷ xs)
unfolding enqueue_user
enqueue_user-IsQueue k rp [] v out =
    rw (v.chain, enqueue_user)
      (record { chain = (refl, ground (arith, v.chain)); last = refl; distinct = (refl, tt) })
enqueue_user-IsQueue k rp (x ∷ xs) v out =
    let k1 : Kernel = record (set_nextready rp k.head_user k) { head_user = some rp } in
    let moved : IsQueue user_q k1 (rp ∷ x ∷ xs) =
      push_front (nextready k) (nextready k1) k.head_user k.tail_user (x ∷ xs) rp v v.last
        (set_nextready-Relinked k rp k.head_user) out in
    subst (λ (c : Kernel). IsQueue user_q c (rp ∷ x ∷ xs))
      (sym (enqueue_user-cons rp x k v.chain.0)) moved

enqueue-some :
    (q : Queue) (rp x l : ℕ) (k : Kernel)
    → rdy_head q k ≡ some x
    → rdy_tail q k ≡ some l
    → enqueue q rp k
      ≡ ok (set_nextready rp none (set_tail q (some rp) (set_nextready l (some rp) k)))
unfolding enqueue
enqueue-some q rp x l k e t = rw (e, t)

enqueue-none :
    (q : Queue) (rp : ℕ) (k : Kernel)
    → rdy_head q k ≡ none
    → enqueue q rp k
      ≡ ok (set_nextready rp none (set_tail q (some rp) (run_fresh q rp (set_head q (some rp) k))))
unfolding enqueue
enqueue-none q rp k e = rw e

pub some_head :
    (next : ℕ → Ptr) (p : Ptr) (front : List ℕ) (l : ℕ)
    → Chain next p (front ++ l ∷ []) none
    → (x : ℕ) × (p ≡ some x)
some_head next p [] l c = (l, c.0)
some_head next p (x ∷ front) l c = (x, c.0)

some_tail : (t : Ptr) (front : List ℕ) (l : ℕ) → TailAt t (front ++ l ∷ []) → t ≡ some l
some_tail t [] l h = h
some_tail t (x ∷ front) l h = h ∙ last_ptr-append (some x) front l

module _ (k : Kernel) (rp : ℕ) where
  pushed :
      (l : ℕ) (head tail : Ptr) (front : List ℕ)
      → View (nextready k) head tail (front ++ l ∷ [])
      → has rp (front ++ l ∷ []) ≡ false
      → View
          (nextready (set_nextready rp none (set_nextready l (some rp) k)))
          head
          (some rp)
          ((front ++ l ∷ []) ++ rp ∷ [])
  pushed l head tail front v out =
      let k1 = set_nextready l (some rp) k in
      push_back (nextready k) (nextready k1) (nextready (set_nextready rp none k1)) head tail front
        l rp v (set_nextready-Relinked k l (some rp)) (set_nextready-Relinked k1 rp none) out

  enqueue-back :
      (q : Queue) (front : List ℕ) (l : ℕ)
      → IsQueue q k (front ++ l ∷ [])
      → has rp (front ++ l ∷ []) ≡ false
      → (k' : Kernel) × (enqueue q rp k ≡ ok k') × IsQueue q k' ((front ++ l ∷ []) ++ rp ∷ [])
  enqueue-back q front l v out =
      let (x, e) = some_head (nextready k) (rdy_head q k) front l v.chain in
      let t = some_tail (rdy_tail q k) front l v.last in
      (
        set_nextready rp none (set_tail q (some rp) (set_nextready l (some rp) k)),
        enqueue-some q rp x l k e t,
        placed q v,
      )
    where
      placed :
          (q : Queue)
          → IsQueue q k (front ++ l ∷ [])
          → IsQueue q
              (set_nextready rp none (set_tail q (some rp) (set_nextready l (some rp) k)))
              ((front ++ l ∷ []) ++ rp ∷ [])
      placed task_q v = pushed l k.head_task k.tail_task front v out
      placed server_q v = pushed l k.head_server k.tail_server front v out
      placed user_q v = pushed l k.head_user k.tail_user front v out

  enqueue-empty :
      (q : Queue)
      → rdy_head q k ≡ none
      → (k' : Kernel) × (enqueue q rp k ≡ ok k') × IsQueue q k' (rp ∷ [])
  enqueue-empty q e = (
    set_nextready rp none (set_tail q (some rp) (run_fresh q rp (set_head q (some rp) k))),
    enqueue-none q rp k e,
    placed q,
  )
    where
      placed :
          (q : Queue)
          → IsQueue q
              (set_nextready rp none
                (set_tail q (some rp) (run_fresh q rp (set_head q (some rp) k))))
              (rp ∷ [])
      placed task_q = record { chain = (refl, ground arith); last = refl; distinct = (refl, tt) }
      placed server_q = record { chain = (refl, ground arith); last = refl; distinct = (refl, tt) }
      placed user_q = record { chain = (refl, ground arith); last = refl; distinct = (refl, tt) }

  -- `ready` puts a task or a server behind the others of its queue.
  pub enqueue-IsQueue :
      (q : Queue) (xs : List ℕ)
      → IsQueue q k xs
      → has rp xs ≡ false
      → (k' : Kernel) × (enqueue q rp k ≡ ok k') × IsQueue q k' (xs ++ rp ∷ [])
  enqueue-IsQueue q xs v out = elim (last_entry none xs) [
    | inl e ↦
        let start : rdy_head q k ≡ none =
          subst (λ l. Chain (nextready k) (rdy_head q k) l none) e v.chain in
        let (k', run, w) = enqueue-empty q start in
        (k', run, subst (λ (l : List ℕ). IsQueue q k' (l ++ rp ∷ [])) (sym e) w)
    | inr (front, l, e, _) ↦
        let (k', run, w) = enqueue-back q front l (subst (IsQueue q k) e v) (rw e at out) in
        (k', run, subst (λ (l : List ℕ). IsQueue q k' (l ++ rp ∷ [])) (sym e) w)
  ]

-- Where `ready` puts a process among those of its queue: users in front, others behind.
abbrev pub arrive : Queue → ℕ → List ℕ → List ℕ
arrive task_q rp xs = xs ++ rp ∷ []
arrive server_q rp xs = xs ++ rp ∷ []
arrive user_q rp xs = rp ∷ xs

ready_in-IsQueue :
    (q : Queue) (rp : ℕ) (k : Kernel) (xs : List ℕ)
    → IsQueue q k xs
    → has rp xs ≡ false
    → (k' : Kernel) × (ready_in q rp k ≡ ok k') × IsQueue q k' (arrive q rp xs)
unfolding ready_in
ready_in-IsQueue task_q rp k xs v out = enqueue-IsQueue k rp task_q xs v out
ready_in-IsQueue server_q rp k xs v out = enqueue-IsQueue k rp server_q xs v out
ready_in-IsQueue user_q rp k xs v out =
    (enqueue_user rp k, refl, enqueue_user-IsQueue k rp xs v out)

-- `ready` puts a process that is not in it into the queue of its priority: a task or a server
-- behind the others, a user process in front.
pub ready-IsQueue :
    (rp : ℕ) (k : Kernel) (xs : List ℕ)
    → IsQueue (queue_of (k.proc rp).p_priority) k xs
    → has rp xs ≡ false
    → (k' : Kernel) × (ready rp k ≡ ok k')
      × IsQueue
          (queue_of (k.proc rp).p_priority)
          k'
          (arrive (queue_of (k.proc rp).p_priority) rp xs)
unfolding ready
ready-IsQueue rp k xs v out = ready_in-IsQueue (queue_of (k.proc rp).p_priority) rp k xs v out
