-- ===== src/Sync/Values.antt =====
-- The values of the buffer, of synchronization/monitors/buffer.cpp and, in the same words, of
-- synchronization/semaphores/buffer.cpp.
use soi_24z.Base.{ℕ, Bool, true, false, ◌&&◌, List, [], ◌∷◌, ◌++◌, ltb, length}

-- What a thread calls.
pub data Op : Type 0 where
  put_a : (value : ℕ) → Op
  put_b : (value : ℕ) → Op
  get : Op

-- canA, canB and canCons decide whether the three kinds of calls may go on.
pub data Condition : Type 0 where
  a : Condition
  b : Condition
  c : Condition

abbrev pub can_a : List ℕ → Bool
can_a values = ltb (length values) 5

abbrev pub can_b : List ℕ → Bool
can_b values = ltb 3 (length values) && ltb (length values) 9

abbrev pub can_cons : List ℕ → Bool
can_cons [] = false
can_cons (v ∷ values) = true

abbrev pub can : Condition → List ℕ → Bool
can a values = can_a values
can b values = can_b values
can c values = can_cons values

abbrev pub needs : Op → Condition
needs (put_a value) = a
needs (put_b value) = b
needs get = c

-- push_back, and erase of the front.
abbrev pub change : Op → List ℕ → List ℕ
change (put_a value) values = values ++ value ∷ []
change (put_b value) values = values ++ value ∷ []
change get [] = []
change get (v ∷ values) = values
