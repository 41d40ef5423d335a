-- ===== src/Ring/Queue.antt =====
-- What the ring buffer of main.c promises: a queue that drops its oldest frame when it is full.
use display_bridge.Prelude.{
  ℕ, Option, none, some, List, [], ◌∷◌, ◌++◌, leb, if◌then◌else◌, length, drop,
}
use display_bridge.Ring.{Frame}

abbrev pub capacity : ℕ
capacity = 7

unfoldable pub push : List Frame → Frame → List Frame
push q f = (if leb capacity (length q) then drop 1 q else q) ++ (f ∷ [])

unfoldable pub pop : List Frame → Option (Frame × List Frame)
pop [] = none
pop (f ∷ q) = some (f, q)
