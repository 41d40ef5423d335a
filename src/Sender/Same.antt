-- ===== src/Sender/Same.antt =====
-- The code over the ring buffer beside the code over the queue: when two results are the same.
use display_bridge.Prelude.{
  ◌≡◌, refl, sym, subst, ap, Bool, true, false, Option, some, List, if◌then◌else◌,
}
use display_bridge.Ring.{Frame, RingBuffer}
use display_bridge.Ring.Inv.{IsValid}
use display_bridge.Ring.Refine.{contents}
use display_bridge.Capture.Arrivals.{Holds}

-- The same value, and a ring that stands for the queue.
pub record Same {A : Type 0} (x : A × Option RingBuffer) (y : A × Option (List Frame))
    : Type 0 where
  pub value : x.0 ≡ y.0
  pub queue : List Frame
  pub there : y.1 ≡ some queue
  pub holds : Holds queue x.1

module _ {A B : Type 0} where
  pub Same-bind :
      (x : A × Option RingBuffer) (y : A × Option (List Frame))
      (f : A × Option RingBuffer → B × Option RingBuffer)
      (g : A × Option (List Frame) → B × Option (List Frame))
      → Same x y
      → ((a : A) (o : Option RingBuffer) (q : List Frame)
          → Holds q o
          → Same (f (a, o)) (g (a, some q)))
      → Same (f x) (g y)
  Same-bind x y f g s next =
      subst (λ a. Same (f (a, x.1)) (g y)) (sym s.value)
        (subst (λ r. Same (f (y.0, x.1)) (g (y.0, r))) (sym s.there) (next y.0 x.1 s.queue s.holds))

  pub Same-map :
      (h : A → B) (x : A × Option RingBuffer) (y : A × Option (List Frame))
      → Same x y
      → Same (h x.0, x.1) (h y.0, y.1)
  Same-map h x y s = record {
    value = ap h s.value;
    queue = s.queue;
    there = s.there;
    holds = s.holds;
  }

module _ {A : Type 0} where
  pub if-Same :
      (b : Bool) (x x' : A × Option RingBuffer) (y y' : A × Option (List Frame))
      → Same x y
      → Same x' y'
      → Same (if b then x else x') (if b then y else y')
  if-Same true x x' y y' h k = h
  if-Same false x x' y y' h k = k

  pub left-Same :
      (a : A) (o : Option RingBuffer) (q : List Frame) → Holds q o → Same (a, o) (a, some q)
  left-Same a o q h = record { value = refl; queue = q; there = refl; holds = h }

  -- It is enough to look at a ring and its contents.
  pub Holds-Same :
      (f : Option RingBuffer → A × Option RingBuffer)
      (g : Option (List Frame) → A × Option (List Frame)) (o : Option RingBuffer) (q : List Frame)
      → ((rb : RingBuffer) → IsValid rb → Same (f (some rb)) (g (some (contents rb))))
      → Holds q o
      → Same (f o) (g (some q))
  Holds-Same f g o q same h =
      subst (λ x. Same (f x) (g (some q))) (sym h.there)
        (subst (λ r. Same (f (some h.ring)) (g (some r))) h.same (same h.ring h.valid))
