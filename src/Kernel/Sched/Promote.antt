-- ===== src/Kernel/Sched/Promote.antt =====
-- One round of `sched`: the first process of a group goes to the front of the queue.
use mathlib.Core.List.{append_assoc}
use soi_24z.Base.{
  ℕ, zero, suc, ◌<◌, ◌≡◌, refl, sym, ap, ◌∙◌, Bool, true, false, if◌then◌else◌, none, some, Ptr,
  ptr_eq, ok, List, [], ◌∷◌, ◌++◌, arith, length, length-append, All, has, Distinct-append, Chain,
  View, View-skip, last_of, snoc_of, push_front, inl, inr, TailAt-cons, subst, has-append,
  Chain-split, Bool-cases,
}
use soi_24z.Kernel.Proc.{Kernel, deref-some, user_q, set_nextready, nextready}
use soi_24z.Kernel.Queue.Links.{IsQueue, set_nextready-Relinked}
use soi_24z.Kernel.Sched.{find_prev, to_front, promote}
use soi_24z.Kernel.Sched.Order.{in_group, pull, lead, pulled, found, absent}
use soi_24z.Kernel.Sched.Steps.{Kept-refl, Steps, group_kept}

abbrev pub of_group : Kernel → ℕ → ℕ → Bool
of_group k g = in_group (λ a. (k.proc a).group) g

module _ (k : Kernel) (g : ℕ) where
  find_prev-found :
      (fuel prev : ℕ) (pre : List ℕ) (n : ℕ) (suf : List ℕ)
      → Chain (nextready k) (nextready k prev) (pre ++ n ∷ suf) none
      → All (λ a. of_group k g a ≡ false) pre
      → of_group k g n ≡ true
      → length pre < fuel
      → find_prev fuel g prev k ≡ ok (last_of prev pre)
  unfolding find_prev
  find_prev-found zero prev pre n suf c all h fuel = absurd (omega arith)
  find_prev-found (suc f) prev [] n suf c all h fuel = rw (c.0, find_prev) (rw h)
  find_prev-found (suc f) prev (x ∷ pre) n suf c all h fuel =
      rw (c.0, find_prev) (rw (all.0) (find_prev-found f x pre n suf c.1 all.1 h (omega arith)))

  find_prev-absent :
      (fuel prev : ℕ) (rest : List ℕ)
      → Chain (nextready k) (nextready k prev) rest none
      → All (λ a. of_group k g a ≡ false) rest
      → length rest < fuel
      → (find_prev fuel g prev k ≡ ok (last_of prev rest))
        × (nextready k (last_of prev rest) ≡ none)
  unfolding find_prev
  find_prev-absent zero prev rest c all fuel = absurd (omega arith)
  find_prev-absent (suc f) prev [] c all fuel = (rw (c, find_prev), c)
  find_prev-absent (suc f) prev (x ∷ rest) c all fuel =
      let (run, end) = find_prev-absent f x rest c.1 all.1 (omega arith) in
      (rw (c.0, find_prev) (rw (all.0) run), end)

-- The writes of `to_front`: the entry is unlinked, the tail mended, the entry put in front.
to_front-run :
    (k : Kernel) (l n : ℕ) (tail : Ptr)
    → nextready k l ≡ some n
    → (if ptr_eq k.tail_user (some n) then some l else k.tail_user) ≡ tail
    → to_front l k ≡ (
        let k1 = set_nextready l (nextready k n) k in
        ok (record (set_nextready n k.head_user k1) { tail_user = tail; head_user = some n }))
unfolding to_front
to_front-run k l n tail e t = rw (e, to_front) (rw t)

module _ (k : Kernel) (front : List ℕ) (l n : ℕ) where
  to_front-Steps :
      (suf : List ℕ)
      → IsQueue user_q k (front ++ l ∷ n ∷ suf)
      → Steps k (to_front l k) (n ∷ front ++ l ∷ suf)
  to_front-Steps suf v =
      let (m, u, (e, (link, w))) =
        Chain-split (nextready k) k.head_user front (l ∷ n ∷ suf) none v.chain in
      let (df, (outl, (outn, ds)), off) = Distinct-append front (l ∷ n ∷ suf) v.distinct in
      let k1 = set_nextready l (nextready k n) k in
      let re = set_nextready-Relinked k l (nextready k n) in
      let out : has n (front ++ l ∷ suf) ≡ false =
        ground (arith, off n, outl, outn, has-append n front (l ∷ suf)) in
      let tail = if ptr_eq k.tail_user (some n) then some l else k.tail_user in
      let short : View (nextready k1) k.head_user tail (front ++ l ∷ suf) =
        View-skip (nextready k) (nextready k1) k.head_user k.tail_user front l n suf v re in
      let k2 : Kernel = record (set_nextready n k.head_user k1) {
        tail_user = tail;
        head_user = some n;
      } in
      (
        k2,
        to_front-run k l n tail link refl,
        push_front (nextready k1) (nextready k2) k.head_user tail (front ++ l ∷ suf) n short
            (TailAt-cons tail n front l suf short.last) (set_nextready-Relinked k1 n k.head_user)
            out,
        record {
          groups = λ a. group_kept k1 n a k.head_user ∙ group_kept k l a (nextready k n);
          tasks = refl;
          servers = refl;
          ends = (refl, refl);
          rest = refl;
        },
      )

module _ (nr g : ℕ) (k : Kernel) (h : ℕ) (head : k.head_user ≡ some h) where
  promote-hit : of_group k g h ≡ true → promote nr g k ≡ ok k
  unfolding promote
  promote-hit hit = deref-some k.head_user h _ head ∙ rw hit

  promote-miss :
      (l : ℕ)
      → of_group k g h ≡ false
      → find_prev (suc nr) g h k ≡ ok l
      → promote nr g k ≡ to_front l k
  unfolding promote
  promote-miss l miss run = deref-some k.head_user h _ head ∙ rw (miss, run)

  to_front-end : (l : ℕ) → nextready k l ≡ none → to_front l k ≡ ok k
  unfolding to_front
  to_front-end l e = rw (e, to_front)

-- A round brings the first process of the group to the front, if there is one.
pub promote-Steps :
    (nr g : ℕ) (k : Kernel) (h : ℕ) (xs : List ℕ)
    → IsQueue user_q k (h ∷ xs)
    → length xs < suc nr
    → Steps k (promote nr g k) (lead (pull (of_group k g) (h ∷ xs)) (h ∷ xs))
unfolding pull
promote-Steps nr g k h xs v few = elim (Bool-cases (of_group k g h)) [
  | inl hit ↦ rw hit (k, promote-hit nr g k h v.chain.0 hit, v, Kept-refl k)
  | inr miss ↦ elim (pulled (of_group k g) xs) [
    | found pre n suf split all yes_n e ↦
        let (front, ef) = snoc_of h pre in
        let whole : h ∷ xs ≡ front ++ last_of h pre ∷ n ∷ suf =
          ap (λ (c : List ℕ). h ∷ c) split
          ∙ ap (λ (c : List ℕ). c ++ n ∷ suf) ef
          ∙ append_assoc front (last_of h pre ∷ []) (n ∷ suf) in
        let moved : front ++ last_of h pre ∷ suf ≡ h ∷ pre ++ suf =
          sym (ap (λ (c : List ℕ). c ++ suf) ef ∙ append_assoc front (last_of h pre ∷ []) suf) in
        let run =
          find_prev-found k g (suc nr) h pre n suf
            (subst (λ c. Chain (nextready k) (nextready k h) c none) split v.chain.1) all yes_n
            (omega (arith, length-append {0} pre (n ∷ suf), ap (length {0}) split)) in
        let (k', run', v', kept) =
          to_front-Steps k front (last_of h pre) n suf (subst (IsQueue user_q k) whole v) in
        rw (miss, e)
          (
            k',
            promote-miss nr g k h v.chain.0 (last_of h pre) miss run ∙ run',
            subst (λ (c : List ℕ). IsQueue user_q k' (n ∷ c)) moved v',
            kept,
          )
    | absent all e ↦
        let (run, end) = find_prev-absent k g (suc nr) h xs v.chain.1 all few in
        rw (miss, e)
          (
            k,
            promote-miss nr g k h v.chain.0 (last_of h xs) miss run
                ∙ to_front-end nr g k h v.chain.0 (last_of h xs) end,
            v,
            Kept-refl k,
          )
  ]
]
