-- ===== src/Peer/Queue.antt =====
-- lib/rtnt/include/rtnt/common/thread_safe_queue.hpp: a queue, its front first. Each method holds the
-- lock from start to end.
use rtype.Base.{List, [], ◌∷◌, ◌++◌, Option, none, some, ◌≡◌, sym, append-nil, append_assoc, ◌∙◌}

module _ {ℓ} {T : Type ℓ} where
  unfoldable pub push : T → List T → List T
  push value queue = queue ++ value ∷ []

  -- The first element, and the queue behind it.
  unfoldable pub pop : List T → Option (T × List T)
  pop [] = none
  pop (value ∷ queue) = some (value, queue)

  unfoldable pub push_all : List T → List T → List T
  unfolding push
  push_all [] queue = queue
  push_all (value ∷ values) queue = push_all values (push value queue)

  pub push_all-eq-append : (values queue : List T) → push_all values queue ≡ queue ++ values
  unfolding push_all push
  push_all-eq-append [] queue = sym (append-nil queue)
  push_all-eq-append (value ∷ values) queue =
      push_all-eq-append values (push value queue) ∙ append_assoc queue (value ∷ []) values
