-- ===== src/Wire/Read/Reach/Safe.antt =====
-- No sequence of calls on readers of a message leaves its segments.
use capnp_import.Common.{ℕ, ◌≤◌, ◌≡◌, List, Option, subst, arith}
use capnp_import.Serialize.{Segment}
use capnp_import.Wire.{Outcome, value}
use capnp_import.Wire.Holds.{Holds, result, Holds-weaken}
use capnp_import.Wire.Read.Reach.{
  View, Call, perform, Allowed, Reached, start, returned, passed, caught,
}
use capnp_import.Wire.Read.Reach.Laws.{AllViews, IsSafe, perform-IsSafe}

returned-IsSafe :
    {o : Outcome (Option View)} (depth limit : ℕ) {v : Option View} {left : ℕ}
    → o ≡ value v left
    → Holds (IsSafe depth limit) o
    → IsSafe depth limit v left
returned-IsSafe depth limit e h = result_of (subst (Holds (IsSafe depth limit)) e h)
  where
    result_of :
        {v : Option View} {left : ℕ}
        → Holds (IsSafe depth limit) (value v left)
        → IsSafe depth limit v left
    result_of (result safe) = safe

-- After any calls, with exceptions caught or not, every reader that a program has is inside of its
-- segment, within the nesting limit, and no more of the traversal limit is left than at the start.
pub Reached-AllViews :
    (message : List Segment) (depth limit : ℕ) (readers : List View) (left : ℕ)
    → Reached message depth limit readers left
    → AllViews depth readers × (left ≤ limit)
Reached-AllViews message depth limit _ _ start = (tt, omega arith)
Reached-AllViews message depth limit _ _ (returned {readers} {l1} c reached allowed e) =
    let (valid, le) = Reached-AllViews message depth limit readers l1 reached in
    let (here, less) =
      returned-IsSafe depth l1 e (perform-IsSafe message depth l1 readers valid c allowed) in
    ((here, valid), omega arith)
Reached-AllViews message depth limit _ _ (passed {readers} {l1} c reached allowed e) =
    let (valid, le) = Reached-AllViews message depth limit readers l1 reached in
    let (none_there, less) =
      returned-IsSafe depth l1 e (perform-IsSafe message depth l1 readers valid c allowed) in
    (valid, omega arith)
Reached-AllViews message depth limit _ _ (caught {readers} {l1} c reached allowed e less) =
    let (valid, le) = Reached-AllViews message depth limit readers l1 reached in
    (valid, omega arith)

-- Whatever a message holds, and whatever calls a program has made on it so far, with exceptions
-- caught or not: the next call on readers that it has, for elements that its lists have, makes
-- accesses inside of the segments only, and either throws or returns, with a reader inside of its
-- segment and within the nesting limit, if it returns a reader, and no more of the traversal limit
-- than at the start.
pub Reached-IsSafe :
    (message : List Segment) (depth limit : ℕ) (readers : List View) (left : ℕ) (c : Call)
    → Reached message depth limit readers left
    → Allowed readers c
    → Holds (IsSafe depth limit) (perform message depth c left)
Reached-IsSafe message depth limit readers left c reached allowed =
    let (valid, le) = Reached-AllViews message depth limit readers left reached in
    Holds-weaken (IsSafe depth left) (IsSafe depth limit)
      (perform-IsSafe message depth left readers valid c allowed)
      (λ o l (safe, less). (safe, omega arith))
