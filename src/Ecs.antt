-- ===== src/Ecs.antt =====
-- lib/rtecs/include/rtecs/ECS.hpp and src/ECS.cpp: entities, their components and their masks.
pub mod Registry
pub mod MaskIndex
pub mod Valid
pub mod Insert
pub mod Masks
pub mod Create
pub mod Fresh
pub mod Register
pub mod Change
pub mod Destroy
pub mod Run
pub mod Agreement
pub mod Given
pub mod Registered
