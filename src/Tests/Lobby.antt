-- ===== src/Tests/Lobby.antt =====
-- Server/src/lobby/lobby_manager.cpp on a few lobbies.
use rtype.Base.{
  ℕ, ◌+◌, ◌<◌, ◌≡◌, refl, List, [], ◌∷◌, ◌++◌, map, Option, none, some, Bool, true, false, ltb,
  ◌==◌, lookup, contains_key, length, if◌then◌else◌, arith,
}
use rtype.Lobby.Room.{Lobby, new_lobby, start}
use rtype.Lobby.Manager.{Manager, update, join_room, get_lobbies_max_page}
use rtype.Lobby.Cleaning.{survivor, update-survivors, update-gap}
use rtype.Lobby.Paging.{pages, pages-all}
use rtype.Lobby.Joining.{join_room-own}

abbrev lobby : ℕ → Bool → Lobby ℕ
lobby id is_running = record { room_id = id; action_queue = []; is_running = is_running }

-- Three lobbies, of which the lobby 1 has stopped.
abbrev three : Manager ℕ
three = record {
  outgoing = [];
  lobbies = (0, lobby 0 true) ∷ (1, lobby 1 false) ∷ (2, lobby 2 true) ∷ [];
  player_lookup = (70, 2) ∷ [];
  nb_lobbies = 3;
}

-- The same without the lobby 1.
abbrev gap : Manager ℕ
gap = record three { lobbies = (0, lobby 0 true) ∷ (2, lobby 2 true) ∷ [] }

update-three : (update three).0 ≡ gap
unfolding update lookup rtype.Lobby.Manager.update_from rtype.Base.erase
update-three = refl

three-known : (j : ℕ) → j < 3 → contains_key j three.lobbies ≡ true
unfolding lookup
three-known j h = ground (arith, h)

update-survivors_example :
    ((update three).1 ≡ true)
    × ((j : ℕ)
        → lookup j (update three).0.lobbies
          ≡ (if ltb 0 j then survivor (lookup j three.lobbies) else lookup j three.lobbies))
update-survivors_example = update-survivors three (omega arith) three-known

gap-first : contains_key 0 gap.lobbies ≡ true
unfolding lookup
gap-first = refl

gap-last : contains_key 2 gap.lobbies ≡ true
unfolding lookup
gap-last = refl

-- The next `update` after the lobby 1 was dropped.
update-gap_example : (update gap).1 ≡ false
update-gap_example = update-gap gap 2 gap-first gap-last (omega arith)

pages-all_example : pages 0 (get_lobbies_max_page three) three ≡ 0 ∷ 1 ∷ 2 ∷ []
pages-all_example = pages-all three (omega arith)

-- The manager whose next lobby is the last one.
abbrev full : Manager ℕ
full = record three { nb_lobbies = 255 }

full-free : contains_key 255 full.lobbies ≡ false
unfolding lookup
full-free = refl

full-new : contains_key 71 full.player_lookup ≡ false
unfolding lookup
full-new = refl

join_room-own_example :
    (lookup 255 (join_room 71 256 full).lobbies ≡ some (start (new_lobby 255)))
    × (lookup 71 (join_room 71 256 full).player_lookup ≡ none)
    × ((join_room 71 256 full).outgoing ≡ 71 ∷ [])
join_room-own_example = join_room-own full 71 256 (omega arith) full-free full-new (omega arith)
