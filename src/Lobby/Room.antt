-- ===== src/Lobby/Room.antt =====
-- What Server/src/lobby/lobby.cpp shows to the manager: a flag and the queue of the actions that the
-- thread of the lobby will run. A session is its address, and `A` is the type of the other actions.
use rtype.Base.{ℕ, List, [], ◌∷◌, ◌++◌, Bool, true, false, if◌then◌else◌}

pub data Action (A : Type 0) : Type 0 where
  joining : ℕ → Action A
  leaving : ℕ → Action A
  task : A → Action A

pub record Lobby (A : Type 0) : Type 0 where
  pub room_id : ℕ
  pub action_queue : List (Action A)
  pub is_running : Bool

module _ {A : Type 0} where
  abbrev pub new_lobby : ℕ → Lobby A
  new_lobby id = record { room_id = id; action_queue = []; is_running = false }

  unfoldable pub push_task : Action A → Lobby A → Lobby A
  push_task action lobby = record lobby { action_queue = lobby.action_queue ++ action ∷ [] }

  abbrev pub join : ℕ → Lobby A → Lobby A
  join session lobby = push_task (joining session) lobby

  abbrev pub leave : ℕ → Lobby A → Lobby A
  leave session lobby = push_task (leaving session) lobby

  unfoldable pub start : Lobby A → Lobby A
  start lobby = record lobby { is_running = true }

  unfoldable pub stop : Lobby A → Lobby A
  stop lobby = if lobby.is_running then record lobby { is_running = false } else lobby
