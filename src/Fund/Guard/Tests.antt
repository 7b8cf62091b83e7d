-- ===== src/Fund/Guard/Tests.antt =====
-- Two requests, of which the second comes in while the first runs.
use coalition.Base.{◌≤◌, ◌≡◌, ◌↔◌, true}
use coalition.Fund.Guard.{guard, busy_409, post, arrives, Reachable, starts, steps}
use coalition.Fund.Guard.Single.{under_way, post-under_way}

second_request : Reachable (guard true 1)
unfolding post
second_request = steps (steps starts (arrives _)) (arrives _)

post-under_way_example :
    (under_way (guard true 1) ≤ 1)
    × (((post (guard true 1)).1 ≡ busy_409) ↔ (under_way (guard true 1) ≡ 1))
post-under_way_example = post-under_way (guard true 1) second_request
