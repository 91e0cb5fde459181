-- ===== src/Peer/Store.antt =====
-- The sessions that lib/rtnt shares by `std::shared_ptr<Session>`: the store holds each under its
-- address, and a pointer is an address. An object is kept when no pointer to it is left.
use rtype.Base.{
  ℕ, ◌+◌, ◌≤◌, ◌≡◌, List, [], Option, none, some, lookup, insert, lookup-insert, ◌==◌,
  if◌then◌else◌, Option-cases, inl, inr, arith,
}
use rtype.Session.State.{Session, new_session, next_u32}

pub record Store : Type 0 where
  pub objects : List (ℕ × Session)
  pub next_address : ℕ
  -- `globalSessionIdCounter`
  pub next_id : ℕ

abbrev pub empty_store : Store
empty_store = record { objects = []; next_address = 0; next_id = 0 }

abbrev pub deref : ℕ → Store → Option Session
deref a st = lookup a st.objects

-- A method called through a pointer.
unfoldable pub on_session : ℕ → (Session → Session) → Store → Store
on_session a f st = elim (deref a st) [
  | none ↦ st
  | some x ↦ record st { objects = insert a (f x) st.objects }
]

-- `std::make_shared<Session>(endpoint, …)`: the address of the new object.
unfoldable pub make_session : ℕ → ℕ → Store → ℕ × Store
make_session now endpoint st = (
  st.next_address,
  record st {
    objects = insert st.next_address (new_session st.next_id endpoint now) st.objects;
    next_address = st.next_address + 1;
    next_id = next_u32 st.next_id;
  },
)

-- No object stands at an address that is still to be given out.
abbrev pub HasRoom : Store → Type 0
HasRoom st = (a : ℕ) → st.next_address ≤ a → deref a st ≡ none

pub deref-on_session :
    (a b : ℕ) (f : Session → Session) (st : Store)
    → deref b (on_session a f st)
      ≡ (if a == b then elim (deref b st) [ none ↦ none | some x ↦ some (f x) ] else deref b st)
unfolding on_session
deref-on_session a b f st = elim (Option-cases (lookup a st.objects)) [
  | inl e ↦ ground arith
  | inr (x, e) ↦ ground (arith, lookup-insert a b (f x) st.objects)
]

pub on_session-HasRoom :
    (a : ℕ) (f : Session → Session) (st : Store) → HasRoom st → HasRoom (on_session a f st)
unfolding on_session
on_session-HasRoom a f st room b h = ground (arith, room b, deref-on_session a b f st)

pub make_session-HasRoom :
    (now endpoint : ℕ) (st : Store) → HasRoom st → HasRoom (make_session now endpoint st).1
unfolding make_session
make_session-HasRoom now endpoint st room b h = ground (
  arith,
  room b,
  lookup-insert st.next_address b (new_session st.next_id endpoint now) st.objects,
)

pub deref-make_session :
    (now endpoint b : ℕ) (st : Store)
    → deref b (make_session now endpoint st).1
      ≡ (if st.next_address == b then some (new_session st.next_id endpoint now) else deref b st)
unfolding make_session
deref-make_session now endpoint b st =
    lookup-insert st.next_address b (new_session st.next_id endpoint now) st.objects
