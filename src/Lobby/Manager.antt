-- ===== src/Lobby/Manager.antt =====
-- Server/src/lobby/lobby_manager.cpp. No two lobbies have the same ID, since the counter only grows, so
-- a pointer to a lobby is the ID of the lobby. What goes out is the list of the sessions that are
-- refused, the oldest first.
use rtype.Base.{
  ℕ, zero, suc, ◌+◌, ◌*◌, ◌/◌, ◌%◌, List, [], ◌∷◌, ◌++◌, map, Option, none, some, Bool, true, false,
  ltb, leb, ◌==◌, lookup, insert, erase, contains_key, length, u32_mod, if◌then◌else◌,
}
use rtype.Lobby.Room.{task, Lobby, new_lobby, push_task, join, leave, start, stop}

pub record Manager (A : Type 0) : Type 0 where
  pub outgoing : List ℕ
  pub lobbies : List (ℕ × Lobby A)
  pub player_lookup : List (ℕ × ℕ)
  pub nb_lobbies : ℕ

-- The loop of `getLobbiesId` after `i` IDs that were skipped and `found` that were taken.
unfoldable pub page_from : ℕ → ℕ → ℕ → List ℕ → List ℕ
page_from offset i found [] = []
page_from offset i found (id ∷ ids) =
    let skipped = page_from offset (i + 1) found ids in
    let taken = page_from offset i (found + 1) ids in
    if ltb i offset then skipped else id ∷ (if found + 1 == 20 then [] else taken)

module _ {A : Type 0} where
  abbrev new_manager : Manager A
  new_manager = record { outgoing = []; lobbies = []; player_lookup = []; nb_lobbies = 0 }

  -- A key that is there keeps its lobby.
  unfoldable pub emplace : ℕ → Lobby A → List (ℕ × Lobby A) → List (ℕ × Lobby A)
  emplace id lobby lobbies = if contains_key id lobbies then lobbies else insert id lobby lobbies

  -- `_lobbies.at(id)`, changed in place.
  unfoldable pub change_at : ℕ → (Lobby A → Lobby A) → Manager A → Manager A
  change_at id f m = elim (lookup id m.lobbies) [
    | none ↦ m
    | some lobby ↦ record m { lobbies = insert id (f lobby) m.lobbies }
  ]

  -- The ID that is returned, which a full manager does not use. The counter has 16 bits.
  unfoldable pub create_lobby : Manager A → ℕ × Manager A
  create_lobby m =
      if ltb 255 m.nb_lobbies
      then (m.nb_lobbies, m)
      else let m' = record m {
        lobbies = emplace m.nb_lobbies (new_lobby m.nb_lobbies) m.lobbies;
      } in
        let m'' = change_at m.nb_lobbies start m' in
        (m.nb_lobbies, record m'' { nb_lobbies = (m.nb_lobbies + 1) % 65536 })

  unfoldable pub get_lobbies_id : ℕ → Manager A → List ℕ
  get_lobbies_id page m = page_from (page * 20 % u32_mod) 0 0 (map (λ l. l.0) m.lobbies)

  unfoldable pub get_lobbies_max_page : Manager A → ℕ
  get_lobbies_max_page m = (length m.lobbies / 20 + 1) % u32_mod

  -- The loop of `update` from the index on, with whether `at` did not throw.
  unfoldable pub update_from : ℕ → Manager A → Manager A × Bool
  update_from zero m = (m, true)
  update_from (suc i) m = elim (lookup (suc i) m.lobbies) [
    | none ↦ (m, false)
    | some lobby ↦
        update_from i
          (if lobby.is_running then m else record m { lobbies = erase (suc i) m.lobbies })
  ]

  -- Without a lobby the index wraps around, and `at` throws.
  unfoldable pub update : Manager A → Manager A × Bool
  update m = elim (length m.lobbies) [ zero ↦ (m, false) | suc n ↦ update_from n m ]

  unfoldable stop_all : Manager A → Manager A
  stop_all m = record m { lobbies = map (λ l. (l.0, stop l.1)) m.lobbies }

  -- None where a lobby is reached through a pointer that dangles.
  unfoldable push_action_to_lobby : ℕ → A → Manager A → Option (Manager A)
  push_action_to_lobby session action m = elim (lookup session m.player_lookup) [
    | none ↦ some m
    | some id ↦
        if contains_key id m.lobbies then some (change_at id (push_task (task action)) m) else none
  ]

  unfoldable pub enter : ℕ → ℕ → Manager A → Manager A
  enter session id m =
      if contains_key id m.lobbies
      then record (change_at id (join session) m) {
        player_lookup = insert session id m.player_lookup;
      }
      else m

  unfoldable pub join_room : ℕ → ℕ → Manager A → Manager A
  join_room session room_id m =
      let (created, m') = create_lobby m in
      if contains_key session m.player_lookup
      then m
      else if ltb 255 room_id
      then if leb 255 created
        then record m' { outgoing = m'.outgoing ++ session ∷ [] }
        else enter session created m'
      else enter session room_id m

  unfoldable leave_room : ℕ → Manager A → Option (Manager A)
  leave_room session m = elim (lookup session m.player_lookup) [
    | none ↦ some m
    | some id ↦
        if contains_key id m.lobbies
        then some (record (change_at id (leave session) m) {
          player_lookup = erase session m.player_lookup;
        })
        else none
  ]
