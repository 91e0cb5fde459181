-- ===== src/Lobby/Joining.antt =====
-- `Manager::joinRoom` for a session that asks for a lobby of its own.
use mathlib.Core.Path.{subst}
use rtype.Base.{
  ℕ, ◌+◌, ◌%◌, ◌<◌, ◌≤◌, ◌≡◌, refl, sym, ap, ◌∙◌, inl, inr, [], ◌∷◌, ◌++◌, none, some, false, ltb,
  leb, ◌==◌, lookup, insert, contains_key, lookup-insert, Bool-cases, if-rule, if-eq-then,
  if-eq-else, if◌then◌else◌, arith,
}
use rtype.Lobby.Room.{Lobby, new_lobby, join, start}
use rtype.Lobby.Manager.{Manager, emplace, change_at, create_lobby, enter, join_room}

module _ {A : Type 0} where
  change_at-eq :
      (id : ℕ) (f : Lobby A → Lobby A) (m : Manager A) (lobby : Lobby A)
      → lookup id m.lobbies ≡ some lobby
      → change_at id f m ≡ record m { lobbies = insert id (f lobby) m.lobbies }
  unfolding change_at
  change_at-eq id f m lobby there = rw (there, change_at) refl

  module _ (m : Manager A) (room : m.nb_lobbies ≤ 255)
      (fresh : contains_key m.nb_lobbies m.lobbies ≡ false) where
    abbrev fresh_lobby : Lobby A
    fresh_lobby = new_lobby m.nb_lobbies

    abbrev after_creation : Manager A
    after_creation = record m {
      lobbies = insert m.nb_lobbies (start fresh_lobby) (insert m.nb_lobbies fresh_lobby m.lobbies);
      nb_lobbies = (m.nb_lobbies + 1) % 65536;
    }

    emplaced :
        emplace m.nb_lobbies fresh_lobby m.lobbies ≡ insert m.nb_lobbies fresh_lobby m.lobbies
    unfolding emplace
    emplaced = if-eq-else _ _ fresh

    create_lobby-eq : create_lobby m ≡ (m.nb_lobbies, after_creation)
    unfolding create_lobby
    create_lobby-eq =
        if-eq-else (m.nb_lobbies, m) _ {b = ltb 255 m.nb_lobbies} (ground (arith, room))
        ∙ ap
            (λ l. (
              m.nb_lobbies,
              record (change_at m.nb_lobbies start (record m { lobbies = l })) {
                nb_lobbies = (m.nb_lobbies + 1) % 65536;
              },
            ))
            emplaced
        ∙ ap
            (λ (t : Manager A).
              (m.nb_lobbies, record t { nb_lobbies = (m.nb_lobbies + 1) % 65536 }))
            (change_at-eq m.nb_lobbies start
              (record m { lobbies = insert m.nb_lobbies fresh_lobby m.lobbies }) fresh_lobby
              (ground (arith, lookup-insert m.nb_lobbies m.nb_lobbies fresh_lobby m.lobbies)))

    lookup-created :
        (j : ℕ)
        → lookup j after_creation.lobbies
          ≡ (if m.nb_lobbies == j then some (start fresh_lobby) else lookup j m.lobbies)
    lookup-created j = ground (
      arith,
      lookup-insert m.nb_lobbies j (start fresh_lobby) (insert m.nb_lobbies fresh_lobby m.lobbies),
      lookup-insert m.nb_lobbies j fresh_lobby m.lobbies,
    )

    abbrev after_joining : ℕ → Manager A
    after_joining session = record after_creation {
      lobbies = insert m.nb_lobbies (join session (start fresh_lobby)) after_creation.lobbies;
      player_lookup = insert session m.nb_lobbies m.player_lookup;
    }

    enter-created :
        (session : ℕ) → enter session m.nb_lobbies after_creation ≡ after_joining session
    unfolding enter
    enter-created session =
        if-eq-then _ after_creation {b = contains_key m.nb_lobbies after_creation.lobbies}
          (ground (arith, lookup-created m.nb_lobbies))
        ∙ ap
            (λ (t : Manager A). record t {
              player_lookup = insert session m.nb_lobbies m.player_lookup;
            })
            (change_at-eq m.nb_lobbies (join session) after_creation (start fresh_lobby)
              (ground (arith, lookup-created m.nb_lobbies)))

    abbrev refused : ℕ → Manager A
    refused session = record after_creation { outgoing = m.outgoing ++ session ∷ [] }

    join_room-eq :
        (session room_id : ℕ)
        → contains_key session m.player_lookup ≡ false
        → 255 < room_id
        → join_room session room_id m
          ≡ (if m.nb_lobbies == 255 then refused session else after_joining session)
    unfolding join_room
    join_room-eq session room_id new_player own =
        ap
          (λ (r : ℕ × Manager A).
            if contains_key session m.player_lookup
            then m
            else if ltb 255 room_id
            then if leb 255 r.0
              then record r.1 { outgoing = r.1.outgoing ++ session ∷ [] }
              else enter session r.0 r.1
            else enter session room_id m)
          create_lobby-eq
        ∙ if-eq-else _ _ new_player
        ∙ if-eq-then _ (enter session room_id m) {b = ltb 255 room_id} (ground (arith, own))
        ∙ elim (Bool-cases (m.nb_lobbies == 255)) [
          | inl last ↦
              if-eq-then (refused session) (enter session m.nb_lobbies after_creation)
                {b = leb 255 m.nb_lobbies} (ground (arith, last))
              ∙ sym (if-eq-then (refused session) _ last)
          | inr other ↦
              if-eq-else (refused session) _ {b = leb 255 m.nb_lobbies}
                (ground (arith, other, room))
              ∙ enter-created session
              ∙ sym (if-eq-else (refused session) (after_joining session) other)
        ]

  abbrev JoinedOwn : Manager A → ℕ → Manager A → Type 0
  JoinedOwn m session t =
      let id = m.nb_lobbies in
      (lookup id t.lobbies
        ≡ some (if id == 255 then start (new_lobby id) else join session (start (new_lobby id))))
      × (lookup session t.player_lookup ≡ (if id == 255 then none else some id))
      × (t.outgoing ≡ (if id == 255 then m.outgoing ++ session ∷ [] else m.outgoing))

  -- A session that is in no lobby and asks for one of its own, of a manager that has made fewer than 256
  -- lobbies and whose next ID is free: the lobby with the next ID is made and started. It is handed the
  -- join of the session, and the session is looked up there, unless the ID is 255: then the session is
  -- refused, and looked up nowhere, though its lobby runs.
  pub join_room-own :
      (m : Manager A) (session room_id : ℕ)
      → m.nb_lobbies ≤ 255
      → contains_key m.nb_lobbies m.lobbies ≡ false
      → contains_key session m.player_lookup ≡ false
      → 255 < room_id
      → let t = join_room session room_id m in
        let id = m.nb_lobbies in
        (lookup id t.lobbies
          ≡ some (if id == 255 then start (new_lobby id) else join session (start (new_lobby id))))
        × (lookup session t.player_lookup ≡ (if id == 255 then none else some id))
        × (t.outgoing ≡ (if id == 255 then m.outgoing ++ session ∷ [] else m.outgoing))
  join_room-own m session room_id room fresh new_player own =
      let id = m.nb_lobbies in
      subst (JoinedOwn m session) (sym (join_room-eq m room fresh session room_id new_player own)) (
        if-rule (JoinedOwn m session) (id == 255)
          (λ last. (
            ground (arith, last, lookup-created m room fresh id),
            ground (arith, last, new_player),
            ground (arith, last),
          ))
          (λ other. (
            ground (
              arith,
              other,
              lookup-insert id id (join session (start (new_lobby id)))
                  (after_creation m room fresh).lobbies,
            ),
            ground (arith, other, lookup-insert session session id m.player_lookup),
            ground (arith, other),
          )))
