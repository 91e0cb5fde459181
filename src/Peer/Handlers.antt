-- ===== src/Peer/Handlers.antt =====
-- `Dispatcher::bind` of lib/rtnt/include/rtnt/core/dispatcher.hpp on a server: the callbacks of the
-- application as handlers.
use rtype.Base.{ℕ, List, [], ◌∷◌, none, some}
use rtype.Wire.Endian.{Host}
use rtype.Peer.Store.{deref}
use rtype.Peer.Dispatcher.{Attempt, finished, raised, Dispatcher, register_handler}
use rtype.Peer.Internal.{Binding}
use rtype.Peer.Server.{Server, Call, answer}

module _ {A : Type 0} (host : Host) (now : ℕ) where
  -- The callback of a binding, on the state of the server.
  unfoldable pub bound_callback : (b : Binding A Call) → ℕ → b.T → Server A → Attempt (Server A)
  bound_callback b a data' s = elim (deref a s.store) [
    | none ↦ finished s
    | some x ↦ elim (b.callback a x data' s.app) [
      | finished r ↦ finished (answer host now r s)
      | raised r ↦ raised (answer host now r s)
    ]
  ]

  unfoldable pub bind : Binding A Call → Dispatcher (Server A) → Dispatcher (Server A)
  bind b d = register_handler b.id b.read (bound_callback b) d

  unfoldable pub bind_all : List (Binding A Call) → Dispatcher (Server A) → Dispatcher (Server A)
  bind_all [] d = d
  bind_all (b ∷ bs) d = bind_all bs (bind b d)
