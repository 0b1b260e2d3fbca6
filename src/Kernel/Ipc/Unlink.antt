-- ===== src/Kernel/Ipc/Unlink.antt =====
-- A sender leaves the queue of the senders to `dest`.
use soi_24z.Base.{
  ℕ, ◌≡◌, refl, sym, ap, ◌∙◌, false, ◌==◌, List, [], ◌∷◌, ◌++◌, none, Ptr, has, Chain, Chain-frame,
  Chain-outside, last_ptr, last_of, snoc_of, Distinct, View, View-skip, update_here, update_there,
  subst,
}
use mathlib.Core.List.{append_assoc}
use soi_24z.Kernel.Proc.{Proc, Kernel}
use soi_24z.Kernel.Ipc.{set_sendlink, set_callerq}
use soi_24z.Kernel.Ipc.Senders.{
  Senders, sendlink, callerq, set_sendlink-Relinked, set_sendlink-callerq, set_callerq-sendlink,
}

module _ (dest a : ℕ) (k : Kernel) where
  -- The first one.
  pub drop_first-Senders :
      (suf : List ℕ)
      → Senders k dest (a ∷ suf)
      → Senders (set_callerq dest (sendlink k a) k) dest suf
  drop_first-Senders suf s =
      let v : Proc = record (k.proc dest) { p_callerq = sendlink k a } in
      let k1 = set_callerq dest (sendlink k a) k in
      record {
        chain =
            subst (λ p. Chain (sendlink k1) p suf none)
              (sym (ap (λ (p : Proc). p.p_callerq) (update_here k.proc dest v)))
              (Chain-frame (sendlink k) (sendlink k1) (sendlink k a) suf none
                (λ j h. set_callerq-sendlink k dest (sendlink k a) j) s.chain.1);
        distinct = s.distinct.1;
      }

  -- One behind another.
  pub skip_next-Senders :
      (x : ℕ) (pre suf : List ℕ)
      → Senders k dest (x ∷ pre ++ a ∷ suf)
      → Senders (set_sendlink (last_of x pre) (sendlink k a) k) dest (x ∷ pre ++ suf)
  skip_next-Senders x pre suf s =
      let l = last_of x pre in
      let k1 = set_sendlink l (sendlink k a) k in
      let (front, ef) = snoc_of x pre in
      let whole : x ∷ pre ++ a ∷ suf ≡ front ++ l ∷ a ∷ suf =
        ap (λ (c : List ℕ). c ++ a ∷ suf) ef ∙ append_assoc front (l ∷ []) (a ∷ suf) in
      let short : front ++ l ∷ suf ≡ x ∷ pre ++ suf =
        sym (ap (λ (c : List ℕ). c ++ suf) ef ∙ append_assoc front (l ∷ []) suf) in
      let last = last_ptr none (x ∷ pre ++ a ∷ suf) in
      let v : View (sendlink k) (callerq k dest) last (x ∷ pre ++ a ∷ suf) = record {
        chain = s.chain;
        last = refl;
        distinct = s.distinct;
      } in
      let w =
        View-skip (sendlink k) (sendlink k1) (callerq k dest) last front l a suf
          (subst (View (sendlink k) (callerq k dest) last) whole v)
          (set_sendlink-Relinked k l (sendlink k a)) in
      record {
        chain =
            subst (λ p. Chain (sendlink k1) p (x ∷ pre ++ suf) none)
              (sym (set_sendlink-callerq k l (sendlink k a) dest))
              (subst (λ ys. Chain (sendlink k1) (callerq k dest) ys none) short w.chain);
        distinct = subst Distinct short w.distinct;
      }

-- A write to a link leaves the queues without its entry.
pub set_sendlink-Senders :
    (k : Kernel) (l : ℕ) (p : Ptr) (d : ℕ) (ys : List ℕ)
    → has l ys ≡ false
    → Senders k d ys
    → Senders (set_sendlink l p k) d ys
set_sendlink-Senders k l p d ys out s =
    let k1 = set_sendlink l p k in
    record {
      chain =
          subst (λ q. Chain (sendlink k1) q ys none) (sym (set_sendlink-callerq k l p d))
            (Chain-outside (sendlink k) (sendlink k1) l p (set_sendlink-Relinked k l p)
              (callerq k d) ys none out s.chain);
      distinct = s.distinct;
    }

-- A write to the start of a queue leaves the other queues.
pub set_callerq-Senders :
    (k : Kernel) (e : ℕ) (p : Ptr) (d : ℕ) (ys : List ℕ)
    → (d == e) ≡ false
    → Senders k d ys
    → Senders (set_callerq e p k) d ys
set_callerq-Senders k e p d ys off s =
    let v : Proc = record (k.proc e) { p_callerq = p } in
    let k1 = set_callerq e p k in
    record {
      chain =
          subst (λ q. Chain (sendlink k1) q ys none)
            (sym (ap (λ (c : Proc). c.p_callerq) (update_there k.proc e v d off)))
            (Chain-frame (sendlink k) (sendlink k1) (callerq k d) ys none
              (λ j h. set_callerq-sendlink k e p j) s.chain);
      distinct = s.distinct;
    }
