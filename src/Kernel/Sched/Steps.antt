-- ===== src/Kernel/Sched/Steps.antt =====
-- The pointer work of `sched`: turning the queue, finding a process of a group, and moving it to
-- the front.
use soi_24z.Base.{
  ℕ, ◌≡◌, refl, sym, ap, ◌∙◌, false, none, some, Ptr, Run, ok, List, [], ◌∷◌, ◌++◌, arith, has,
  View, TailAt, push_back, drop_head, subst, inl, inr, last_entry, has-append, last_ptr-append,
}
use soi_24z.Kernel.Proc.{Kernel, user_q, set_nextready, nextready}
use soi_24z.Kernel.Queue.Moved.{others}
use soi_24z.Kernel.Queue.Links.{IsQueue, set_nextready-Relinked}
use soi_24z.Kernel.Sched.{rotate}

-- What the steps leave alone.
pub record Kept (k k' : Kernel) : Type 0 where
  pub groups : (a : ℕ) → (k'.proc a).group ≡ (k.proc a).group
  pub tasks : k'.head_task ≡ k.head_task
  pub servers : k'.head_server ≡ k.head_server
  pub ends : (k'.tail_task ≡ k.tail_task) × (k'.tail_server ≡ k.tail_server)
  pub rest : others k' ≡ others k

pub Kept-trans : (k k' k'' : Kernel) → Kept k k' → Kept k' k'' → Kept k k''
Kept-trans k k' k'' a b = record {
  groups = λ x. b.groups x ∙ a.groups x;
  tasks = b.tasks ∙ a.tasks;
  servers = b.servers ∙ a.servers;
  ends = (b.ends.0 ∙ a.ends.0, b.ends.1 ∙ a.ends.1);
  rest = b.rest ∙ a.rest;
}

pub Kept-refl : (k : Kernel) → Kept k k
Kept-refl k = record {
  groups = λ x. refl;
  tasks = refl;
  servers = refl;
  ends = (refl, refl);
  rest = refl;
}

abbrev pub Steps : Kernel → Run Kernel → List ℕ → Type 0
Steps k r xs = (k' : Kernel) × (r ≡ ok k') × IsQueue user_q k' xs × Kept k k'

pub group_kept :
    (k : Kernel) (i a : ℕ) (p : Ptr) → ((set_nextready i p k).proc a).group ≡ (k.proc a).group
group_kept k i a p = ground arith

-- The head of a queue goes to its end.
rotate-run :
    (k : Kernel) (h t : ℕ)
    → k.tail_user ≡ some t
    → rotate h k ≡ (
        let k1 = set_nextready t (some h) k in
        ok (set_nextready h none (record k1 { tail_user = some h; head_user = nextready k1 h })))
unfolding rotate
rotate-run k h t e = rw e

rotate-one : (k : Kernel) (h : ℕ) → IsQueue user_q k (h ∷ []) → Steps k (rotate h k) (h ∷ [])
rotate-one k h v =
    let k1 = set_nextready h (some h) k in
    let k3 = set_nextready h none (record k1 { tail_user = some h; head_user = nextready k1 h }) in
    let first : nextready k1 h ≡ some h = ground arith in
    let end : nextready k3 h ≡ none = ground arith in
    (
      k3,
      rotate-run k h h v.last,
      record { chain = (first, end); last = refl; distinct = (refl, tt) },
      record {
        groups = λ a. group_kept k1 h a none ∙ group_kept k h a (some h);
        tasks = refl;
        servers = refl;
        ends = (refl, refl);
        rest = refl;
      },
    )

rotate-more :
    (k : Kernel) (h x : ℕ) (front : List ℕ) (l : ℕ) (xs : List ℕ)
    → x ∷ xs ≡ front ++ l ∷ []
    → IsQueue user_q k (h ∷ x ∷ xs)
    → Steps k (rotate h k) ((x ∷ xs) ++ h ∷ [])
rotate-more k h x front l xs e v =
    let rest : View (nextready k) (nextready k h) k.tail_user (front ++ l ∷ []) =
      subst (View (nextready k) (nextready k h) k.tail_user) e
        (drop_head (nextready k) k.head_user k.tail_user h x xs v) in
    let out : has h (front ++ l ∷ []) ≡ false =
      subst (λ (c : List ℕ). has h c ≡ false) e v.distinct.0 in
    let at : k.tail_user ≡ some l = rest_tail front rest.last in
    let k1 = set_nextready l (some h) k in
    let same : nextready k1 h ≡ nextready k h = ground (arith, has-append h front (l ∷ []), out) in
    let k2 : Kernel = record k1 { tail_user = some h; head_user = nextready k1 h } in
    let k3 = set_nextready h none k2 in
    (
      k3,
      rotate-run k h l at,
      subst (IsQueue user_q k3) (ap (λ (c : List ℕ). c ++ h ∷ []) (sym e)) (
          subst (λ c. View (nextready k3) c (some h) ((front ++ l ∷ []) ++ h ∷ [])) (sym same)
            (push_back (nextready k) (nextready k1) (nextready k3) (nextready k h) k.tail_user front
              l h rest (set_nextready-Relinked k l (some h)) (set_nextready-Relinked k2 h none)
              out)),
      record {
        groups = λ a. group_kept k2 h a none ∙ group_kept k l a (some h);
        tasks = refl;
        servers = refl;
        ends = (refl, refl);
        rest = refl;
      },
    )
  where
    rest_tail : (front : List ℕ) → TailAt k.tail_user (front ++ l ∷ []) → k.tail_user ≡ some l
    rest_tail [] h = h
    rest_tail (y ∷ ys) h = h ∙ last_ptr-append (some y) ys l

pub rotate-Steps :
    (k : Kernel) (h : ℕ) (xs : List ℕ)
    → IsQueue user_q k (h ∷ xs)
    → Steps k (rotate h k) (xs ++ h ∷ [])
rotate-Steps k h [] v = rotate-one k h v
rotate-Steps k h (x ∷ xs) v = elim (last_entry none (x ∷ xs)) [
  | inl e ↦ absurd (cc)
  | inr (front, l, e, _) ↦ rotate-more k h x front l xs e v
]
