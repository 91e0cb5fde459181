-- ===== src/Lobby.antt =====
-- Server/src/lobby: the lobbies of the game server and their manager.
pub mod Room
pub mod Manager
pub mod Cleaning
pub mod Paging
pub mod Joining
